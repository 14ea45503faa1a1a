-- ===== src/Capture/Discovery/Safety.antt =====
-- `parse_stream` on any bytes: it returns, and what the parser keeps stays within its bounds.
use arc_twitch_widget.Prelude.{
  ℕ, zero, suc, ◌+◌, ◌-◌, ◌%◌, ◌^◌, ◌≤◌, ◌≡◌, Bool, true, false, not, ◌&&◌, List, [], ◌∷◌, ◌++◌,
  Option, none, some, unwrap_or, is_some, if◌then◌else◌, leb, ltb, ◌==◌, length, length-append,
  length-drop, length-retain, All, arith, Bool-cases, Option-cases, inl, inr, ◌⊎◌, min,
}
use arc_twitch_widget.Prelude.Run.{Returns, Returns-ret, Returns-bind, Returns-mono}
use arc_twitch_widget.Prelude.Word.{i64_max}
use arc_twitch_widget.Text.{Text}
use arc_twitch_widget.Text.Utf8.{Bytes}
use arc_twitch_widget.HashMap
use arc_twitch_widget.HashMap.{HashMap}
use arc_twitch_widget.HashMap.Laws.{All-insert, All-get, All-retain}
use arc_twitch_widget.Capture.Chunked.{crlf_crlf, find}
use arc_twitch_widget.Capture.Discovery.{
  DiscoveryParser, Key, same_key, keys, contains_id, silent, crowded, without, without_keys, forget,
  touch_and_prune, max_message_bytes, max_scan_buffer, max_total_scan_bytes,
  max_discovery_connections,
}
use arc_twitch_widget.Capture.Discovery.Message.{Codecs, StreamContext, ParsedMessage}
use arc_twitch_widget.Capture.Discovery.Stream.{scan_messages, key}
use arc_twitch_widget.Capture.Discovery.Parse.{
  skip_body, cap_buffer, total_bytes, fattest, drop_fattest, bound_total, end_scan, parse_stream,
}
use arc_twitch_widget.Capture.Discovery.Counts.{IsMap-retain}
use arc_twitch_widget.Capture.Discovery.Bounded.{
  IsBounded, last_seen-forget, last_seen-touch_and_prune,
}
use arc_twitch_widget.Capture.Discovery.Tracked.{
  IsTracking, IsAllowed, FewWait, on_message-IsTracking,
}
use arc_twitch_widget.Capture.Discovery.Scan.{IsInvariant, scan_messages-Returns}

abbrev SmallBuffer : Bytes → Type 0
SmallBuffer buffer = length buffer ≤ max_message_bytes

-- What is kept without some connections is bounded as before.
forget-IsTracking :
    (victims : List ℕ) (s : DiscoveryParser) → IsTracking s → IsTracking (forget victims s)
unfolding forget without without_keys
forget-IsTracking [] s h = h
forget-IsTracking (v ∷ vs) s h = record {
  once = IsMap-retain _ s.hosts h.once;
  few =
      omega
        (arith, length-retain (λ (e : ℕ × Text). not (contains_id (v ∷ vs) e.0)) s.hosts, h.few);
  allowed = All-retain ◌==◌ IsAllowed _ s.hosts h.allowed;
  waiting = All-retain ◌==◌ FewWait _ s.pending_requests h.waiting;
  seen = h.seen;
  buffered = All-retain same_key SmallBuffer _ s.buffers h.buffered;
}

-- The rest of the state does not depend on what was seen.
with_seen-IsTracking :
    (s : DiscoveryParser) (seen : HashMap ℕ ℕ) (n : ℕ)
    → IsBounded seen
    → IsTracking s
    → IsTracking (record s { last_seen = seen; parse_count = n })
with_seen-IsTracking s seen n bounded h = record {
  once = h.once;
  few = h.few;
  allowed = h.allowed;
  waiting = h.waiting;
  seen = bounded;
  buffered = h.buffered;
}

touch_and_prune-IsTracking :
    (now id : ℕ) (s : DiscoveryParser) → IsTracking s → IsTracking (touch_and_prune now id s)
unfolding touch_and_prune
touch_and_prune-IsTracking now id s h =
    of (not (s.parse_count % 128 == 0) && leb (length seen) max_discovery_connections)
      (last_seen-touch_and_prune now id s h.seen.0 h.few)
  where
    seen : HashMap ℕ ℕ
    seen = HashMap.insert ◌==◌ s.last_seen id now

    idle : List ℕ
    idle = silent (keys s.hosts) now seen

    extra : List ℕ
    extra = crowded (keys s.hosts) (without idle seen)

    counted : DiscoveryParser
    counted = record s { last_seen = seen; parse_count = (s.parse_count + 1) % 2 ^ 64 }

    pruned : DiscoveryParser
    pruned = record counted { last_seen = without extra (without idle seen) }

    of :
        (b : Bool)
        → IsBounded (if b then counted else forget (idle ++ extra) pruned).last_seen
        → IsTracking (if b then counted else forget (idle ++ extra) pruned)
    of true bounded = with_seen-IsTracking s seen _ bounded h
    of false bounded = forget-IsTracking (idle ++ extra) pruned (
        with_seen-IsTracking s (without extra (without idle seen)) _
          (rw (last_seen-forget (idle ++ extra) pruned) at bounded) h)

cap_buffer-SmallBuffer : (buffer : Bytes) → SmallBuffer (cap_buffer buffer)
unfolding cap_buffer
cap_buffer-SmallBuffer buffer =
    let shorter = length-drop (length buffer - max_scan_buffer) buffer in
    let found = is_some (find buffer crlf_crlf) in ground arith

drop_fattest-SmallBuffer :
    (fuel : ℕ) (k : Key) (total : ℕ) (buffers : HashMap Key Bytes)
    → All (λ e. SmallBuffer e.1) buffers
    → All (λ e. SmallBuffer e.1) (drop_fattest fuel k total buffers)
unfolding drop_fattest
drop_fattest-SmallBuffer zero k total buffers h = h
drop_fattest-SmallBuffer (suc fuel) k total buffers h =
    of (λ j n. drop_fattest-SmallBuffer fuel k n (HashMap.remove same_key buffers j))
      (Bool-cases (ltb max_total_scan_bytes total)) (Option-cases (fattest k buffers))
  where
    of :
        ((j : Key) (n : ℕ)
          → All (λ e. SmallBuffer e.1) (HashMap.remove same_key buffers j)
          → All (λ e. SmallBuffer e.1) (drop_fattest fuel k n (HashMap.remove same_key buffers j)))
        → ((ltb max_total_scan_bytes total ≡ true) ⊎ (ltb max_total_scan_bytes total ≡ false))
        → ((fattest k buffers ≡ none) ⊎ ((e : Key × Bytes) × (fattest k buffers ≡ some e)))
        → All (λ e. SmallBuffer e.1) (drop_fattest (suc fuel) k total buffers)
    of rest (inr little) d = rw (little, drop_fattest) h
    of rest (inl much) (inl alone) = rw (much, alone, drop_fattest) h
    of rest (inl much) (inr ((j, buffer), found)) =
        rw (much, found, drop_fattest)
          (rest j (total - length buffer)
            (unfold HashMap.remove in All-retain same_key SmallBuffer _ buffers h))

bound_total-SmallBuffer :
    (k : Key) (buffer : Bytes) (buffers : HashMap Key Bytes)
    → All (λ e. SmallBuffer e.1) buffers
    → All (λ e. SmallBuffer e.1) (bound_total k buffer buffers)
unfolding bound_total
bound_total-SmallBuffer k buffer buffers h =
    elim (Bool-cases (ltb max_scan_buffer (length buffer))) [
      | inl large ↦
          rw (large, All)
            (drop_fattest-SmallBuffer (length buffers) k (total_bytes buffers) buffers h)
      | inr small ↦ rw (small, All) h
    ]

end_scan-IsTracking :
    (k : Key) (buffer : Bytes) (s : DiscoveryParser) (messages : List ParsedMessage)
    → IsTracking s
    → IsTracking (end_scan k (buffer, s, messages)).0
unfolding end_scan
end_scan-IsTracking k buffer s messages h = record {
  once = h.once;
  few = h.few;
  allowed = h.allowed;
  waiting = h.waiting;
  seen = h.seen;
  buffered = bound_total-SmallBuffer k (cap_buffer buffer) _ (
      All-insert same_key SmallBuffer s.buffers k (cap_buffer buffer) h.buffered
        (cap_buffer-SmallBuffer buffer));
}

skip_body-le :
    (k : Key) (remaining : Option ℕ) (buffer : Bytes) (skipped : HashMap Key ℕ)
    → length (skip_body k remaining buffer skipped).0 ≤ length buffer
unfolding skip_body
skip_body-le k none buffer skipped = omega arith
skip_body-le k (some remaining) buffer skipped =
    omega (arith, length-drop (min remaining (length buffer)) buffer)

stored-SmallBuffer :
    (s : DiscoveryParser) (k : Key)
    → IsTracking s
    → SmallBuffer (unwrap_or (HashMap.get same_key s.buffers k) [])
stored-SmallBuffer s k h = elim (Option-cases (HashMap.get same_key s.buffers k)) [
  | inl new ↦ rw new (omega arith)
  | inr (buffer, found) ↦
      rw found (All-get same_key SmallBuffer s.buffers k buffer h.buffered found)
]

module _ {F : Type 0} (c : Codecs F) (context : StreamContext) where
  invariant : IsInvariant c context IsTracking
  invariant = record {
    skipping = λ s m h. record {
      once = h.once;
      few = h.few;
      allowed = h.allowed;
      waiting = h.waiting;
      seen = h.seen;
      buffered = h.buffered;
    };
    telling = on_message-IsTracking c context;
  }

  -- What a packet leaves behind, with the messages that are told.
  abbrev pub Tracks : DiscoveryParser × List ParsedMessage → Type 0
  Tracks r = IsTracking r.0

  -- On any bytes of a packet that fit in memory behind 8 MiB, and in any state that is within the
  -- bounds, the parser returns, with no index out of range and in no more rounds than there are
  -- bytes, and the state is within the bounds again: the tracked hosts are allowed ones of at most
  -- 64 connections, at most 256 connections are remembered, each once, no connection has more than
  -- 16 waiting requests, and no buffer more than 8 MiB.
  pub parse_stream-Returns :
      (now : ℕ) (bytes : Bytes) (s : DiscoveryParser)
      → IsTracking s
      → length bytes + max_message_bytes ≤ i64_max
      → Returns Tracks (parse_stream c now bytes context s)
  unfolding parse_stream
  parse_stream-Returns now bytes s h small =
      let k = key c context in
      let s1 = touch_and_prune now context.connection_id s in
      let h1 = touch_and_prune-IsTracking now context.connection_id s h in
      let old = unwrap_or (HashMap.get same_key s1.buffers k) [] in
      let remaining = HashMap.get same_key s1.skipped_bodies k in
      let skip = skip_body k remaining (old ++ bytes) s1.skipped_bodies in
      let shorter = skip_body-le k remaining (old ++ bytes) s1.skipped_bodies in
      let stored = stored-SmallBuffer s1 k h1 in
      let whole = length-append old bytes in
      Returns-bind
        (scan_messages c context (length skip.0 + 1)
          (skip.0, record s1 { skipped_bodies = skip.1 }, []))
        _
        (Returns-mono
          (scan_messages-Returns c context IsTracking invariant (length skip.0 + 1) skip.0 _ []
            (omega arith) (omega arith) (invariant.skipping s1 skip.1 h1))
          λ (buffer, s2, messages) (fewer, h2).
            Returns-ret (end_scan k (buffer, s2, messages))
              (end_scan-IsTracking k buffer s2 messages h2))
