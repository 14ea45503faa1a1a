-- ===== src/Capture/Discovery/Parse.antt =====
-- crates/capture/src/scanner.rs: `parse_stream`, from the bytes of a packet to the messages, with the
-- bounds on what is kept.
use arc_twitch_widget.Prelude.{
  ℕ, zero, suc, ◌+◌, ◌-◌, not, ◌&&◌, List, [], ◌∷◌, ◌++◌, Option, none, some, unwrap_or, is_some,
  drop, if◌then◌else◌, leb, ltb, ◌==◌, length, min,
}
use arc_twitch_widget.Prelude.Run.{Run, ret, ◌>>=◌}
use arc_twitch_widget.Text.Utf8.{Bytes}
use arc_twitch_widget.HashMap
use arc_twitch_widget.HashMap.{HashMap}
use arc_twitch_widget.Capture.Chunked.{crlf_crlf, find}
use arc_twitch_widget.Capture.Discovery.{
  DiscoveryParser, Key, same_key, touch_and_prune, max_scan_buffer, max_message_bytes,
  max_total_scan_bytes,
}
use arc_twitch_widget.Capture.Discovery.Message.{Codecs, StreamContext, ParsedMessage}
use arc_twitch_widget.Capture.Discovery.Stream.{Scan, scan_messages, key}

-- The remains of a body that was too large are walked past.
unfoldable pub skip_body : Key → Option ℕ → Bytes → HashMap Key ℕ → Bytes × HashMap Key ℕ
skip_body k none buffer skipped = (buffer, skipped)
skip_body k (some remaining) buffer skipped =
    let step = min remaining (length buffer) in
    (
      drop step buffer,
      if remaining - step == 0
          then HashMap.remove same_key skipped k
          else HashMap.insert same_key skipped k (remaining - step),
    )

-- Only data without headers is cut.
unfoldable pub cap_buffer : Bytes → Bytes
cap_buffer buffer =
    if ltb max_message_bytes (length buffer)
    then []
    else if ltb max_scan_buffer (length buffer) && not (is_some (find buffer crlf_crlf))
    then drop (length buffer - max_scan_buffer) buffer
    else buffer

unfoldable pub total_bytes : HashMap Key Bytes → ℕ
total_bytes [] = 0
total_bytes ((k, buffer) ∷ all) = length buffer + total_bytes all

-- `max_by_key(|(_, buffer)| buffer.len())` of the other buffers: the last of the greatest.
unfoldable pub fattest : Key → HashMap Key Bytes → Option (Key × Bytes)
fattest k [] = none
fattest k ((other, buffer) ∷ all) =
    let rest = fattest k all in
    if same_key other k then rest else elim rest [
      | none ↦ some (other, buffer)
      | some (j, more) ↦
          if leb (length buffer) (length more) then some (j, more) else some (other, buffer)
    ]

-- The loop that drops the greediest buffers. A round removes one.
unfoldable pub drop_fattest : ℕ → Key → ℕ → HashMap Key Bytes → HashMap Key Bytes
drop_fattest zero k total all = all
drop_fattest (suc fuel) k total all =
    let next : HashMap Key Bytes = elim (fattest k all) [
      | none ↦ all
      | some (other, buffer) ↦
          drop_fattest fuel k (total - length buffer) (HashMap.remove same_key all other)
    ] in
    if ltb max_total_scan_bytes total then next else all

unfoldable pub bound_total : Key → Bytes → HashMap Key Bytes → HashMap Key Bytes
bound_total k buffer all =
    if ltb max_scan_buffer (length buffer)
    then drop_fattest (length all) k (total_bytes all) all
    else all

-- Behind the loop.
unfoldable pub end_scan : Key → Scan → DiscoveryParser × List ParsedMessage
end_scan k (buffer, s, messages) =
    let kept = cap_buffer buffer in
    (record s { buffers = bound_total k kept (HashMap.insert same_key s.buffers k kept) }, messages)

module _ {F : Type 0} (c : Codecs F) where
  -- `DiscoveryParser::parse_stream`
  unfoldable pub parse_stream :
      ℕ → Bytes → StreamContext → DiscoveryParser → Run (DiscoveryParser × List ParsedMessage)
  parse_stream now bytes context s = do
    let k = key c context
    let s1 = touch_and_prune now context.connection_id s
    let stored = unwrap_or (HashMap.get same_key s1.buffers k) [] ++ bytes
    let (buffer, skipped) =
        skip_body k (HashMap.get same_key s1.skipped_bodies k) stored s1.skipped_bodies
    scan ←
        scan_messages c context (length buffer + 1)
          (buffer, record s1 { skipped_bodies = skipped }, [])
    ret (end_scan k scan)
