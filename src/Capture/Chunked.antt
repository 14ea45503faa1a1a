-- ===== src/Capture/Chunked.antt =====
-- crates/capture/src/scanner.rs: a body in chunks. A round of the loop is one chunk; an index or a
-- slice out of range is a panic.
pub mod Bounds
pub mod Rounds
pub mod RoundTrip
use arc_twitch_widget.Prelude.{
  ℕ, zero, suc, ◌+◌, ◌*◌, Bool, true, false, ◌||◌, List, [], ◌∷◌, ◌++◌, Option, none, some,
  and_then, if◌then◌else◌, leb, ltb, ◌==◌, length,
}
use arc_twitch_widget.Prelude.Run.{Run, ret, out_of_fuel, ◌>>=◌, slice, slice_from, get_range}
use arc_twitch_widget.Prelude.Word.{u64_max, saturating_add}
use arc_twitch_widget.Text.{Text, eq_text, starts_with, trim, before}
use arc_twitch_widget.Text.Decimal.{parse_unsigned}
use arc_twitch_widget.Text.Utf8.{Bytes, from_utf8}

abbrev pub max_decoded_body : ℕ
max_decoded_body = 32 * 1024 * 1024

abbrev pub crlf : Bytes
crlf = 13 ∷ 10 ∷ []

abbrev pub crlf_crlf : Bytes
crlf_crlf = 13 ∷ 10 ∷ 13 ∷ 10 ∷ []

-- `haystack.windows(needle.len()).position(|window| window == needle)`, for a needle with bytes.
unfoldable pub find : Bytes → Bytes → Option ℕ
find [] needle = none
find (c ∷ haystack) needle =
    let later = find haystack needle in
    if starts_with (c ∷ haystack) needle then some 0 else and_then later λ i. some (suc i)

-- The size that the line of a chunk states.
unfoldable pub chunk_size : Bytes → Option ℕ
chunk_size line =
    and_then (from_utf8 line) λ t. parse_unsigned 16 u64_max (trim (before (λ c. c == b';') t))

-- `input.get(cursor..cursor + 2) == Some(b"\r\n")`
unfoldable pub crlf_at : Bytes → ℕ → Bool
crlf_at input cursor = elim (get_range input cursor (cursor + 2)) [
  | none ↦ false
  | some bytes ↦ eq_text bytes crlf
]

-- How a round ends: with the result, or at the next chunk with the body so far.
pub data Round : Type 0 where
  done : Option (Bytes × ℕ) → Round
  again : ℕ → Bytes → Round

-- Behind a chunk of size 0.
unfoldable pub last_chunk : Bytes → ℕ → Bytes → Run Round
last_chunk input cursor output =
    if crlf_at input cursor then ret (done (some (output, cursor + 2))) else do
      rest ← slice_from input cursor
      ret (done (and_then (find rest crlf_crlf) λ at. some (output, at + cursor + 4)))

-- A chunk whose data starts at the cursor.
unfoldable pub chunk_data : Bytes → ℕ → ℕ → Bytes → Run Round
chunk_data input cursor size output =
    if ltb max_decoded_body (saturating_add (length output) size)
      || ltb (length input) (saturating_add (saturating_add cursor size) 2)
    then ret (done none)
    else do
      data_bytes ← slice input cursor (cursor + size)
      ret (
          if crlf_at input (cursor + size)
          then again (cursor + size + 2) (output ++ data_bytes)
          else done none)

unfoldable pub sized_chunk : Bytes → ℕ → Option ℕ → Bytes → Run Round
sized_chunk input cursor none output = ret (done none)
sized_chunk input cursor (some size) output =
    if size == 0 then last_chunk input cursor output else chunk_data input cursor size output

-- A chunk whose line has its end.
unfoldable pub chunk_line : Bytes → ℕ → Option ℕ → Bytes → Run Round
chunk_line input cursor none output = ret (done none)
chunk_line input cursor (some at) output = do
  line ← slice input cursor (at + cursor)
  sized_chunk input (at + cursor + 2) (chunk_size line) output

-- The body of the loop.
unfoldable pub round : Bytes → ℕ → Bytes → Run Round
round input cursor output = do
  rest ← slice_from input cursor
  chunk_line input cursor (find rest crlf) output

-- What follows a round.
abbrev pub next_round : (ℕ → Bytes → Run (Option (Bytes × ℕ))) → Round → Run (Option (Bytes × ℕ))
next_round next (done result) = ret result
next_round next (again cursor output) = next cursor output

unfoldable pub decode_from : ℕ → Bytes → ℕ → Bytes → Run (Option (Bytes × ℕ))
decode_from zero input cursor output = out_of_fuel
decode_from (suc fuel) input cursor output =
    round input cursor output >>= next_round (decode_from fuel input)

-- A round moves the cursor, so there are no more rounds than bytes.
unfoldable pub decode_chunked : Bytes → Run (Option (Bytes × ℕ))
decode_chunked input = decode_from (length input + 1) input 0 []
