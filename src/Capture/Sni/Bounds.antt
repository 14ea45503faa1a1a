-- ===== src/Capture/Sni/Bounds.antt =====
-- The search for a server name returns on any bytes.
use arc_twitch_widget.Prelude.{
  ℕ, ◌+◌, ◌≤◌, not, ◌||◌, Option, none, some, and_then, get_elem?, ltb, ◌==◌, length, arith,
}
use arc_twitch_widget.Prelude.Run.{
  Returns, Returns-ret, Returns-if, Returns-bind, Returns-index, Returns-mono,
}
use arc_twitch_widget.Text.Utf8.{Bytes}
use arc_twitch_widget.Capture.Sni.{
  read_u16, Next, return, leave, go, extensions_of, result_of, scan_hello, scan_handshake,
  scan_record, tls_client_hello_sni,
}
use arc_twitch_widget.Capture.Sni.Loops.{IsPlain, Ended, scan_extensions-Returns}

and_then-holds :
    {A B : Type 0} (P : Option B → Type 0) (o : Option A) (f : A → Option B)
    → P none
    → ((a : A) → P (f a))
    → P (and_then o f)
and_then-holds P none f h k = h
and_then-holds P (some a) f h k = k a

abbrev InHello : Bytes → Option (ℕ × ℕ) → Type 0
InHello hello none = Unit
InHello hello (some (cursor, end)) = end ≤ length hello

extensions_of-InHello : (hello : Bytes) → InHello hello (extensions_of hello)
unfolding extensions_of
extensions_of-InHello hello =
    and_then-holds (InHello hello) (get_elem? hello 34) _ tt λ session_len.
      and_then-holds (InHello hello) (read_u16 hello (35 + session_len)) _ tt λ cipher_len.
        and_then-holds (InHello hello) (get_elem? hello (35 + session_len + 2 + cipher_len)) _ tt
          λ n.
            and_then-holds (InHello hello)
              (read_u16 hello (35 + session_len + 2 + cipher_len + 1 + n)) _ tt
              λ extensions_len. omega arith

result_of-IsPlain : (r : Next) → Ended r → IsPlain (result_of r)
result_of-IsPlain (return r) h = h
result_of-IsPlain leave h = tt
result_of-IsPlain (go cursor) h = tt

scan_hello-Returns :
    (hello : Bytes) (o : Option (ℕ × ℕ)) → InHello hello o → Returns IsPlain (scan_hello hello o)
unfolding scan_hello
scan_hello-Returns hello none h = Returns-ret none tt
scan_hello-Returns hello (some (cursor, end)) h = Returns-bind _ _ (
    Returns-mono
      (scan_extensions-Returns hello (length hello + 1) end cursor h (omega arith) (omega arith))
      λ r k. Returns-ret (result_of r) (result_of-IsPlain r k))

scan_handshake-Returns : (o : Option Bytes) → Returns IsPlain (scan_handshake o)
unfolding scan_handshake
scan_handshake-Returns none = Returns-ret none tt
scan_handshake-Returns (some hello) =
    scan_hello-Returns hello (extensions_of hello) (extensions_of-InHello hello)

scan_record-Returns : (o : Option Bytes) → Returns IsPlain (scan_record o)
unfolding scan_record
scan_record-Returns none = Returns-ret none tt
scan_record-Returns (some bytes) =
    Returns-if (ltb (length bytes) 4) _ _ (λ short. Returns-ret none tt)
      λ long.
        let size : 4 ≤ length bytes = ground arith in
        Returns-index bytes 0 _ (omega arith) λ kind.
          Returns-if (not (kind == 1)) _ _ (λ other. Returns-ret none tt)
            λ hello. Returns-index bytes 1 _ (omega arith) λ a.
              Returns-index bytes 2 _ (omega arith)
                λ b. Returns-index bytes 3 _ (omega arith) λ c. scan_handshake-Returns _

-- On any bytes the search for a server name returns, with no index out of range and in no more rounds
-- than there are bytes, and a name that it finds is a plain host: not empty, and of letters, digits,
-- dots and hyphens.
pub tls_client_hello_sni-Returns :
    (payload : Bytes) → Returns IsPlain (tls_client_hello_sni payload)
unfolding tls_client_hello_sni
tls_client_hello_sni-Returns payload =
    Returns-if (ltb (length payload) 9) _ _ (λ short. Returns-ret none tt)
      λ long.
        let size : 9 ≤ length payload = ground arith in
        Returns-index payload 0 _ (omega arith) λ kind.
          Returns-index payload 1 _ (omega arith) λ version.
            Returns-if (not (kind == 22) || not (version == 3)) _ _ (λ other. Returns-ret none tt)
              λ handshake.
                Returns-index payload 3 _ (omega arith)
                  λ a. Returns-index payload 4 _ (omega arith) λ b. scan_record-Returns _
