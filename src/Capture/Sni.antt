-- ===== src/Capture/Sni.antt =====
-- crates/capture/src/scanner.rs: the server name in the hello of a TLS connection. An index or a slice
-- out of range is a panic. No sum overflows: each is of lengths below 2 ^ 24 and an offset in memory.
pub mod Loops
pub mod Bounds
use arc_twitch_widget.Prelude.{
  ℕ, zero, suc, ◌+◌, ◌*◌, Bool, true, false, not, ◌&&◌, ◌||◌, Option, none, some, and_then,
  get_elem?, if◌then◌else◌, leb, ltb, ◌==◌, length, min,
}
use arc_twitch_widget.Prelude.Run.{Run, ret, out_of_fuel, ◌>>=◌, index, slice, get_range}
use arc_twitch_widget.Prelude.Word.{be16}
use arc_twitch_widget.Text.{Text}
use arc_twitch_widget.Text.Utf8.{Bytes, from_utf8}
use arc_twitch_widget.Capture.Host.{normalize_host}

unfoldable pub read_u16 : Bytes → ℕ → Option ℕ
read_u16 bytes offset =
    and_then (get_elem? bytes offset)
      λ a. and_then (get_elem? bytes (offset + 1)) λ b. some (be16 a b)

-- How a round of a loop ends: the function returns, the loop ends, or it goes on.
pub data Next : Type 0 where
  return : Option Text → Next
  leave : Next
  go : ℕ → Next

-- A name of the list, from its type and its length.
unfoldable pub name_at : Bytes → ℕ → ℕ → Option ℕ → Option ℕ → Run Next
name_at hello cursor list_end (some name_type) (some name_len) =
    let name_end = cursor + name_len in
    if ltb list_end name_end
    then ret (return none)
    else if name_type == 0
    then (do
      bytes ← slice hello cursor name_end
      ret (return (and_then (from_utf8 bytes) normalize_host)))
    else ret (go name_end)
name_at hello cursor list_end _ _ = ret (return none)

unfoldable pub name_round : Bytes → ℕ → ℕ → Run Next
name_round hello list_end cursor =
    if leb (cursor + 3) list_end
    then name_at hello (cursor + 3) list_end (get_elem? hello cursor) (read_u16 hello (cursor + 1))
    else ret leave

-- The loops: a return leaves both.
abbrev pub next_round : (ℕ → Run Next) → Next → Run Next
next_round loop (return r) = ret (return r)
next_round loop leave = ret leave
next_round loop (go cursor) = loop cursor

unfoldable pub scan_names : ℕ → Bytes → ℕ → ℕ → Run Next
scan_names zero hello list_end cursor = out_of_fuel
scan_names (suc fuel) hello list_end cursor =
    name_round hello list_end cursor >>= next_round (scan_names fuel hello list_end)

-- Behind the list of names.
abbrev pub after_names : ℕ → Next → Run Next
after_names extension_end (return r) = ret (return r)
after_names extension_end leave = ret (go extension_end)
after_names extension_end (go cursor) = ret (go extension_end)

unfoldable pub name_list : Bytes → ℕ → ℕ → Option ℕ → Run Next
name_list hello cursor extension_end none = ret (return none)
name_list hello cursor extension_end (some list_len) =
    scan_names (length hello + 1) hello (min (cursor + 2 + list_len) extension_end) (cursor + 2)
    >>= after_names extension_end

-- An extension, from its type and its length.
unfoldable pub extension_at : Bytes → ℕ → ℕ → Option ℕ → Option ℕ → Run Next
extension_at hello cursor extensions_end (some extension_type) (some extension_len) =
    let extension_end = cursor + extension_len in
    if ltb extensions_end extension_end
    then ret (return none)
    else if extension_type == 0
    then name_list hello cursor extension_end (read_u16 hello cursor)
    else ret (go extension_end)
extension_at hello cursor extensions_end _ _ = ret (return none)

unfoldable pub extension_round : Bytes → ℕ → ℕ → Run Next
extension_round hello extensions_end cursor =
    if leb (cursor + 4) extensions_end
    then extension_at hello (cursor + 4) extensions_end (read_u16 hello cursor)
        (read_u16 hello (cursor + 2))
    else ret leave

unfoldable pub scan_extensions : ℕ → Bytes → ℕ → ℕ → Run Next
scan_extensions zero hello extensions_end cursor = out_of_fuel
scan_extensions (suc fuel) hello extensions_end cursor =
    extension_round hello extensions_end cursor
    >>= next_round (scan_extensions fuel hello extensions_end)

-- Where the extensions start and end.
unfoldable pub extensions_of : Bytes → Option (ℕ × ℕ)
extensions_of hello = and_then (get_elem? hello 34) λ session_len.
    and_then (read_u16 hello (35 + session_len)) λ cipher_len.
      and_then (get_elem? hello (35 + session_len + 2 + cipher_len)) λ compression_len.
        let cursor = 35 + session_len + 2 + cipher_len + 1 + compression_len in
        and_then (read_u16 hello cursor)
          λ extensions_len. some (cursor + 2, min (cursor + 2 + extensions_len) (length hello))

abbrev pub result_of : Next → Option Text
result_of (return r) = r
result_of leave = none
result_of (go cursor) = none

unfoldable pub scan_hello : Bytes → Option (ℕ × ℕ) → Run (Option Text)
scan_hello hello none = ret none
scan_hello hello (some (cursor, extensions_end)) =
    scan_extensions (length hello + 1) hello extensions_end cursor >>= λ r. ret (result_of r)

unfoldable pub scan_handshake : Option Bytes → Run (Option Text)
scan_handshake none = ret none
scan_handshake (some hello) = scan_hello hello (extensions_of hello)

unfoldable pub scan_record : Option Bytes → Run (Option Text)
scan_record none = ret none
scan_record (some bytes) = if ltb (length bytes) 4 then ret none else do
  kind ← index bytes 0
  if not (kind == 1) then ret none else do
    a ← index bytes 1
    b ← index bytes 2
    c ← index bytes 3
    scan_handshake (get_range bytes 4 (4 + (be16 a b * 256 + c)))

unfoldable pub tls_client_hello_sni : Bytes → Run (Option Text)
tls_client_hello_sni payload = if ltb (length payload) 9 then ret none else do
  kind ← index payload 0
  version ← index payload 1
  if not (kind == 22) || not (version == 3) then ret none else do
    a ← index payload 3
    b ← index payload 4
    scan_record (get_range payload 5 (5 + be16 a b))
