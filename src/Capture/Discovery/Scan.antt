-- ===== src/Capture/Discovery/Scan.antt =====
-- Whatever bytes arrive, the parser of a stream returns, and what it keeps is bounded.
use arc_twitch_widget.Prelude.{
  ℕ, zero, suc, ◌+◌, ◌-◌, ◌≤◌, ◌<◌, List, [], Option, none, some, drop, ltb, length, length-drop,
  min, arith, Option-cases, inl, inr,
}
use arc_twitch_widget.Prelude.Run.{
  Run, Returns, Returns-ret, Returns-if, Returns-bind, Returns-slice, Returns-slice_from,
  Returns-mono,
}
use arc_twitch_widget.Prelude.Word.{i64_max, saturating_add}
use arc_twitch_widget.Text.{Text}
use arc_twitch_widget.Text.Utf8.{Bytes, from_utf8}
use arc_twitch_widget.HashMap.{HashMap}
use arc_twitch_widget.Capture.Chunked.{crlf_crlf, find, decode_chunked}
use arc_twitch_widget.Capture.Chunked.Bounds.{find-le, Decoded, decode_chunked-Returns}
use arc_twitch_widget.Capture.Discovery.{DiscoveryParser, Key, max_message_bytes}
use arc_twitch_widget.Capture.Discovery.Message.{Codecs, StreamContext, ParsedMessage}
use arc_twitch_widget.Capture.Discovery.Exchange.{on_message}
use arc_twitch_widget.Capture.Discovery.Stream.{
  Headers, Framed, incomplete, too_large, message, is_chunked, content_length, chunked_message,
  frame_length, frame, Scan, Step, stop, next, framed_step, text_step, header_step, scan_round,
  next_step, scan_messages, split_crlf, first_line, add_headers,
}

-- A message that is cut off lies in the buffer, behind its headers.
abbrev Fits : ℕ → ℕ → Framed → Type 0
Fits size total_headers incomplete = Unit
Fits size total_headers (too_large content_len) = Unit
Fits size total_headers (message body message_len) =
    (total_headers ≤ message_len) × (message_len ≤ size)

module _ (buffer : Bytes) (total_headers : ℕ) (inside : total_headers ≤ length buffer)
    (small : length buffer ≤ i64_max) where
  frame_length-Returns :
      (content_len : ℕ)
      → Returns (Fits (length buffer) total_headers) (frame_length buffer total_headers content_len)
  unfolding frame_length saturating_add
  frame_length-Returns content_len =
      Returns-if (ltb max_message_bytes (saturating_add total_headers content_len)) _ _
        (λ large. Returns-ret (too_large content_len) tt)
        λ kept.
          Returns-if (ltb (length buffer) (saturating_add total_headers content_len)) _ _
            (λ cut. Returns-ret incomplete tt)
            λ there.
              let room : total_headers + content_len ≤ length buffer = ground arith in
              Returns-slice buffer total_headers (total_headers + content_len) _ (omega arith) room
                (Returns-ret (message _ (total_headers + content_len)) (omega arith, room))

  chunked_message-Fits :
      (r : Option (Bytes × ℕ))
      → Decoded (drop total_headers buffer) r
      → Fits (length buffer) total_headers (chunked_message total_headers r)
  unfolding chunked_message
  chunked_message-Fits none h = tt
  chunked_message-Fits (some (body, consumed)) (used, bound, shorter) =
      (omega arith, omega (arith, length-drop total_headers buffer))

  frame-Returns :
      (headers : Headers)
      → Returns (Fits (length buffer) total_headers) (frame buffer total_headers headers)
  unfolding frame
  frame-Returns headers =
      Returns-if (is_chunked headers) _ _
        (λ chunks. Returns-slice_from buffer total_headers _ inside (
          Returns-bind (decode_chunked (drop total_headers buffer)) _ (
            Returns-mono
              (decode_chunked-Returns (drop total_headers buffer)
                (omega (arith, length-drop total_headers buffer)))
              λ r h. Returns-ret (chunked_message total_headers r) (chunked_message-Fits r h))))
        λ whole. frame_length-Returns (content_length headers)

-- A predicate of the parser that its messages keep.
pub record IsInvariant {F : Type 0} (c : Codecs F) (context : StreamContext)
    (P : DiscoveryParser → Type 0) : Type 0 where
  pub skipping :
      (s : DiscoveryParser) (m : HashMap Key ℕ) → P s → P (record s { skipped_bodies = m })
  pub telling :
      (first : Text) (headers : Headers) (body : Bytes) (s : DiscoveryParser)
      → P s
      → P (on_message c context first headers body s).0

module _ {F : Type 0} (c : Codecs F) (context : StreamContext) (P : DiscoveryParser → Type 0)
    (inv : IsInvariant c context P) where
  abbrev Progress : Bytes → Step → Type 0
  Progress buffer stop = Unit
  Progress buffer (next (rest, s, messages)) = (length rest < length buffer) × P s

  module _ (buffer : Bytes) (s : DiscoveryParser) (messages : List ParsedMessage) (holds : P s)
      (small : length buffer ≤ i64_max) where
    framed_step-Returns :
        (total_headers : ℕ) (first : Text) (headers : Headers) (framed : Framed)
        → 4 ≤ total_headers
        → total_headers ≤ length buffer
        → Fits (length buffer) total_headers framed
        → Returns
            (Progress buffer)
            (framed_step c context buffer total_headers first headers s messages framed)
    unfolding framed_step
    framed_step-Returns total first headers incomplete some_bytes inside h = Returns-ret stop tt
    framed_step-Returns total first headers (too_large content_len) some_bytes inside h =
        let n = total + min (length buffer - total) content_len in
        Returns-slice_from buffer n _ (omega arith) (
          Returns-ret (next (drop n buffer, _, messages))
            (omega (arith, length-drop n buffer), inv.skipping s _ holds))
    framed_step-Returns total first headers (message body message_len) some_bytes inside
          (more, room) =
        Returns-slice_from buffer message_len _ room (
          Returns-ret (next (drop message_len buffer, _, _))
            (omega (arith, length-drop message_len buffer), inv.telling first headers body s holds))

    text_step-Returns :
        (total_headers : ℕ) (header_text : Option Text)
        → 4 ≤ total_headers
        → total_headers ≤ length buffer
        → Returns
            (Progress buffer)
            (text_step c context buffer total_headers header_text s messages)
    unfolding text_step
    text_step-Returns total none some_bytes inside = Returns-slice_from buffer total _ inside (
        Returns-ret (next (drop total buffer, s, messages))
          (omega (arith, length-drop total buffer), holds))
    text_step-Returns total (some header_text) some_bytes inside =
        let (first, lines) = first_line (split_crlf header_text) in
        let headers = add_headers lines [] in
        Returns-bind (frame buffer total headers) _ (
          Returns-mono (frame-Returns buffer total inside small headers)
            λ framed h. framed_step-Returns total first headers framed some_bytes inside h)

    scan_round-Returns : Returns (Progress buffer) (scan_round c context (buffer, s, messages))
    unfolding scan_round header_step
    scan_round-Returns = elim (Option-cases (find buffer crlf_crlf)) [
      | inl nowhere ↦ rw nowhere (Returns-ret stop tt)
      | inr (header_end, found) ↦
          let room = find-le buffer crlf_crlf found in
          rw found (
            Returns-slice buffer 0 header_end _ (omega arith) (omega arith)
              (text_step-Returns (header_end + 4) (from_utf8 _) (omega arith) room))
    ]

  -- The end of the loop: no more bytes than at its start.
  abbrev pub Ended : ℕ → Scan → Type 0
  Ended size (rest, s, messages) = (length rest ≤ size) × P s

  next_step-Returns :
      (loop : Scan → Run Scan) (buffer : Bytes) (s : DiscoveryParser)
      (messages : List ParsedMessage) (step : Step)
      → P s
      → Progress buffer step
      → ((rest : Bytes) (s' : DiscoveryParser) (messages' : List ParsedMessage)
          → length rest < length buffer
          → P s'
          → Returns (Ended (length buffer)) (loop (rest, s', messages')))
      → Returns (Ended (length buffer)) (next_step c context loop (buffer, s, messages) step)
  next_step-Returns loop buffer s messages stop holds h k =
      Returns-ret (buffer, s, messages) (omega arith, holds)
  next_step-Returns loop buffer s messages (next (rest, s', messages')) holds (less, holds') k =
      k rest s' messages' less holds'

  pub scan_messages-Returns :
      (fuel : ℕ) (buffer : Bytes) (s : DiscoveryParser) (messages : List ParsedMessage)
      → length buffer < fuel
      → length buffer ≤ i64_max
      → P s
      → Returns (Ended (length buffer)) (scan_messages c context fuel (buffer, s, messages))
  unfolding scan_messages
  scan_messages-Returns zero buffer s messages enough small holds = absurd (omega arith)
  scan_messages-Returns (suc fuel) buffer s messages enough small holds =
      Returns-bind (scan_round c context (buffer, s, messages)) _ (
        Returns-mono (scan_round-Returns buffer s messages holds small) λ step h.
          next_step-Returns (scan_messages c context fuel) buffer s messages step holds h
            λ rest s' messages' less holds'.
              Returns-mono
                (scan_messages-Returns fuel rest s' messages' (omega arith) (omega arith) holds')
                λ (end, s'', told) (fewer, holds''). (omega arith, holds''))
