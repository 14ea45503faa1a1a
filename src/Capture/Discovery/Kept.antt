-- ===== src/Capture/Discovery/Kept.antt =====
-- A call of `touch_and_prune` keeps what belongs to the connections that talk to the game's API.
use arc_twitch_widget.Prelude.{
  ℕ, ◌+◌, ◌-◌, ◌%◌, ◌^◌, ◌≡◌, refl, ap, ◌∙◌, Bool, true, false, not, ◌&&◌, List, [], ◌∷◌, ◌++◌,
  retain, take, if◌then◌else◌, leb, ltb, ◌==◌, length, arith,
}
use arc_twitch_widget.HashMap
use arc_twitch_widget.HashMap.{HashMap}
use arc_twitch_widget.HashMap.Laws.{get-retain}
use arc_twitch_widget.Capture.Discovery.{
  DiscoveryParser, Key, Direction, same_key, contains_id, keys, sort_by_age, silent, crowded,
  without, without_keys, forget, touch_and_prune, max_discovery_connections,
}
use arc_twitch_widget.Capture.Discovery.Counts.{
  contains-sort_by_age, contains-take, contains-append, contains-retain,
}

spared-silent :
    (protected : List ℕ) (now : ℕ) (seen : HashMap ℕ ℕ) (i : ℕ)
    → contains_id protected i ≡ true
    → contains_id (silent protected now seen) i ≡ false
unfolding silent
spared-silent protected now seen i h =
    contains-retain _ seen i λ e same. let there = ap (contains_id protected) same in ground arith

spared-crowded :
    (protected : List ℕ) (seen : HashMap ℕ ℕ) (i : ℕ)
    → contains_id protected i ≡ true
    → contains_id (crowded protected seen) i ≡ false
unfolding crowded
spared-crowded protected seen i h = of (ltb max_discovery_connections (length seen))
  where
    strangers : List (ℕ × ℕ)
    strangers = retain (λ e. not (contains_id protected e.0)) seen

    of :
        (b : Bool)
        → contains_id
            (if b
              then take (length seen - max_discovery_connections) (keys (sort_by_age strangers))
              else [])
            i
          ≡ false
    of false = refl
    of true =
        contains-take (length seen - max_discovery_connections) (keys (sort_by_age strangers)) i (
          contains-sort_by_age i strangers
          ∙ contains-retain _ seen i
              λ e same. let there = ap (contains_id protected) same in ground arith)

-- What the parser holds of a connection is as before.
pub record IsKept (i : ℕ) (s s' : DiscoveryParser) : Type 0 where
  pub host : HashMap.get ◌==◌ s'.hosts i ≡ HashMap.get ◌==◌ s.hosts i
  pub requests : HashMap.get ◌==◌ s'.pending_requests i ≡ HashMap.get ◌==◌ s.pending_requests i
  pub buffer :
      (d : Direction)
      → HashMap.get same_key s'.buffers (i, d) ≡ HashMap.get same_key s.buffers (i, d)
  pub skipped :
      (d : Direction)
      → HashMap.get same_key s'.skipped_bodies (i, d) ≡ HashMap.get same_key s.skipped_bodies (i, d)

get-without :
    {V : Type 0} (victims : List ℕ) (m : HashMap ℕ V) (i : ℕ)
    → contains_id victims i ≡ false
    → HashMap.get ◌==◌ (without victims m) i ≡ HashMap.get ◌==◌ m i
unfolding without
get-without victims m i h =
    get-retain ◌==◌ (λ j. not (contains_id victims j)) m i
      λ j same. let e : j ≡ i = ground arith in rw (e, h) refl

get-without_keys :
    {V : Type 0} (victims : List ℕ) (m : HashMap Key V) (i : ℕ) (d : Direction)
    → contains_id victims i ≡ false
    → HashMap.get same_key (without_keys victims m) (i, d) ≡ HashMap.get same_key m (i, d)
unfolding without_keys
get-without_keys victims m i d h =
    get-retain same_key (λ k. not (contains_id victims k.0)) m (i, d)
      λ (j, c) same. let e : j ≡ i = ground arith in rw (e, h) refl

forget-IsKept :
    (victims : List ℕ) (s : DiscoveryParser) (i : ℕ)
    → contains_id victims i ≡ false
    → IsKept i s (forget victims s)
unfolding forget
forget-IsKept [] s i h = record {
  host = refl;
  requests = refl;
  buffer = λ d. refl;
  skipped = λ d. refl;
}
forget-IsKept (v ∷ vs) s i h = record {
  host = get-without (v ∷ vs) s.hosts i h;
  requests = get-without (v ∷ vs) s.pending_requests i h;
  buffer = λ d. get-without_keys (v ∷ vs) s.buffers i d h;
  skipped = λ d. get-without_keys (v ∷ vs) s.skipped_bodies i d h;
}

-- In one call of `touch_and_prune` a connection whose host is tracked keeps its host, its requests,
-- its buffers and its skipped bodies, however long it has been quiet and however many other
-- connections are remembered.
pub touch_and_prune-IsKept :
    (now connection_id : ℕ) (s : DiscoveryParser) (i : ℕ)
    → contains_id (keys s.hosts) i ≡ true
    → IsKept i s (touch_and_prune now connection_id s)
unfolding touch_and_prune
touch_and_prune-IsKept now connection_id s i h =
    of (not (s.parse_count % 128 == 0) && leb (length seen) max_discovery_connections)
  where
    seen : HashMap ℕ ℕ
    seen = HashMap.insert ◌==◌ s.last_seen connection_id now

    idle : List ℕ
    idle = silent (keys s.hosts) now seen

    extra : List ℕ
    extra = crowded (keys s.hosts) (without idle seen)

    counted : DiscoveryParser
    counted = record s { last_seen = seen; parse_count = (s.parse_count + 1) % 2 ^ 64 }

    pruned : DiscoveryParser
    pruned = record counted { last_seen = without extra (without idle seen) }

    spared : contains_id (idle ++ extra) i ≡ false
    spared =
        contains-append idle extra i
        ∙ rw (spared-silent (keys s.hosts) now seen i h)
            (spared-crowded (keys s.hosts) (without idle seen) i h)

    of : (b : Bool) → IsKept i s (if b then counted else forget (idle ++ extra) pruned)
    of true = record { host = refl; requests = refl; buffer = λ d. refl; skipped = λ d. refl }
    of false =
        let kept = forget-IsKept (idle ++ extra) pruned i spared in
        record {
          host = kept.host;
          requests = kept.requests;
          buffer = kept.buffer;
          skipped = kept.skipped;
        }
