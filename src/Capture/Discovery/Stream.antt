-- ===== src/Capture/Discovery/Stream.antt =====
-- crates/capture/src/scanner.rs: the bytes of a connection are cut into HTTP messages. An index or a
-- slice out of range is a panic; a round of the loop is one message.
use arc_twitch_widget.Prelude.{
  ℕ, zero, suc, ◌+◌, Bool, false, ◌&&◌, List, [], ◌∷◌, ◌++◌, Option, none, some, and_then,
  unwrap_or, if◌then◌else◌, ltb, ◌==◌, length, min,
}
use arc_twitch_widget.Prelude.Run.{Run, ret, out_of_fuel, ◌>>=◌, slice, slice_from}
use arc_twitch_widget.Prelude.Word.{saturating_add, saturating_sub}
use arc_twitch_widget.Text.{
  Text, codes, eq_text, trim, to_ascii_lowercase, split_once, contains, onto_first,
}
use arc_twitch_widget.Text.Decimal.{parse_u64}
use arc_twitch_widget.Text.Utf8.{Bytes, from_utf8}
use arc_twitch_widget.HashMap
use arc_twitch_widget.HashMap.{HashMap}
use arc_twitch_widget.Capture.Chunked.{crlf_crlf, find, decode_chunked}
use arc_twitch_widget.Capture.Discovery.{DiscoveryParser, Key, same_key, max_message_bytes}
use arc_twitch_widget.Capture.Discovery.Message.{Codecs, StreamContext, ParsedMessage}
use arc_twitch_widget.Capture.Discovery.Exchange.{on_message}

-- `split("\r\n")`
unfoldable pub split_crlf : Text → List Text
split_crlf [] = [] ∷ []
split_crlf (c ∷ []) = (c ∷ []) ∷ []
split_crlf (c ∷ d ∷ s) =
    let after = split_crlf s in
    let later = split_crlf (d ∷ s) in if c == 13 && d == 10 then [] ∷ after else onto_first c later

abbrev pub Headers : Type 0
Headers = HashMap Text Text

unfoldable pub add_header : Text → Headers → Headers
add_header line headers = elim (split_once b':' line) [
  | none ↦ headers
  | some (name, value) ↦
      HashMap.insert eq_text headers (to_ascii_lowercase (trim name)) (trim value)
]

unfoldable pub add_headers : List Text → Headers → Headers
add_headers [] headers = headers
add_headers (line ∷ lines) headers = add_headers lines (add_header line headers)

abbrev pub first_line : List Text → Text × List Text
first_line [] = ([], [])
first_line (first ∷ lines) = (first, lines)

-- What the headers say of the rest of a message: it is not all there, or it is too large to keep,
-- or it is a body, with the length of the message.
pub data Framed : Type 0 where
  incomplete : Framed
  too_large : ℕ → Framed
  message : Bytes → ℕ → Framed

unfoldable pub is_chunked : Headers → Bool
is_chunked headers = elim (HashMap.get eq_text headers (codes "transfer-encoding")) [
  | none ↦ false
  | some value ↦ contains (to_ascii_lowercase value) (codes "chunked")
]

unfoldable pub content_length : Headers → ℕ
content_length headers =
    unwrap_or (and_then (HashMap.get eq_text headers (codes "content-length")) parse_u64) 0

unfoldable pub chunked_message : ℕ → Option (Bytes × ℕ) → Framed
chunked_message total_headers none = incomplete
chunked_message total_headers (some (body, consumed)) = message body (total_headers + consumed)

unfoldable pub frame_length : Bytes → ℕ → ℕ → Run Framed
frame_length buffer total_headers content_len =
    let message_end = saturating_add total_headers content_len in
    if ltb max_message_bytes message_end
    then ret (too_large content_len)
    else if ltb (length buffer) message_end
    then ret incomplete
    else do
      body ← slice buffer total_headers (total_headers + content_len)
      ret (message body (total_headers + content_len))

unfoldable pub frame : Bytes → ℕ → Headers → Run Framed
frame buffer total_headers headers =
    if is_chunked headers
    then (do
      rest ← slice_from buffer total_headers
      result ← decode_chunked rest
      ret (chunked_message total_headers result))
    else frame_length buffer total_headers (content_length headers)

-- The loop: the buffer, the parser, and the messages so far.
abbrev pub Scan : Type 0
Scan = Bytes × DiscoveryParser × List ParsedMessage

-- How a round ends: the loop ends, or goes on.
pub data Step : Type 0 where
  stop : Step
  next : Scan → Step

module _ {F : Type 0} (c : Codecs F) (context : StreamContext) where
  abbrev pub key : Key
  key = (context.connection_id, context.direction)

  -- `buffer.drain(..n)` is `buffer[n..]`, and panics past the end.
  unfoldable pub framed_step :
      Bytes → ℕ → Text → Headers → DiscoveryParser → List ParsedMessage → Framed → Run Step
  framed_step buffer total_headers first headers s messages incomplete = ret stop
  framed_step buffer total_headers first headers s messages (too_large content_len) = do
    let already_here = saturating_sub (length buffer) total_headers
    rest ← slice_from buffer (total_headers + min already_here content_len)
    let skipped =
        HashMap.insert same_key s.skipped_bodies key (saturating_sub content_len already_here)
    ret (next (rest, record s { skipped_bodies = skipped }, messages))
  framed_step buffer total_headers first headers s messages (message body message_len) = do
    rest ← slice_from buffer message_len
    let (s', told) = on_message c context first headers body s
    ret (next (rest, s', messages ++ told))

  unfoldable pub text_step :
      Bytes → ℕ → Option Text → DiscoveryParser → List ParsedMessage → Run Step
  text_step buffer total_headers none s messages = do
    rest ← slice_from buffer total_headers
    ret (next (rest, s, messages))
  text_step buffer total_headers (some header_text) s messages = do
    let (first, lines) = first_line (split_crlf header_text)
    let headers = add_headers lines []
    framed ← frame buffer total_headers headers
    framed_step buffer total_headers first headers s messages framed

  unfoldable pub header_step : Bytes → Option ℕ → DiscoveryParser → List ParsedMessage → Run Step
  header_step buffer none s messages = ret stop
  header_step buffer (some header_end) s messages = do
    header_bytes ← slice buffer 0 header_end
    text_step buffer (header_end + 4) (from_utf8 header_bytes) s messages

  -- The body of `while let Some(header_end) = find(buffer, b"\r\n\r\n")`.
  unfoldable pub scan_round : Scan → Run Step
  scan_round (buffer, s, messages) = header_step buffer (find buffer crlf_crlf) s messages

  abbrev pub next_step : (Scan → Run Scan) → Scan → Step → Run Scan
  next_step loop scan stop = ret scan
  next_step loop scan (next scan') = loop scan'

  unfoldable pub scan_messages : ℕ → Scan → Run Scan
  scan_messages zero scan = out_of_fuel
  scan_messages (suc fuel) scan = scan_round scan >>= next_step (scan_messages fuel) scan
