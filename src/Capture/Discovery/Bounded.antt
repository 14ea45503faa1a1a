-- ===== src/Capture/Discovery/Bounded.antt =====
-- How many connections the discovery parser remembers.
use arc_twitch_widget.Prelude.{
  ℕ, ◌+◌, ◌-◌, ◌%◌, ◌^◌, ◌≤◌, ◌≡◌, refl, true, false, not, ◌&&◌, List, [], ◌∷◌, ◌++◌, retain, take,
  if◌then◌else◌, leb, ltb, ◌==◌, length, arith, Bool-cases, ◌⊎◌, inl, inr, length-take, length-map,
  length-retain, min,
}
use arc_twitch_widget.Text.{Text}
use arc_twitch_widget.HashMap
use arc_twitch_widget.HashMap.{HashMap}
use arc_twitch_widget.Capture.Discovery.{
  DiscoveryParser, contains_id, keys, sort_by_age, silent, crowded, without, forget,
  touch_and_prune, max_discovery_connections,
}
use arc_twitch_widget.Capture.Discovery.Counts.{
  count, count-not, count-retain, count-sort_by_age, count-take, count-keys, contains_self,
  length-sort_by_age, IsMap, IsMap-retain, IsMap-insert,
}

-- As many entries go as are too many, if there are as many strangers.
length-without-crowded :
    (protected : List ℕ) (es : HashMap ℕ ℕ)
    → length (without (crowded protected es) es)
        + min
            (length es - max_discovery_connections)
            (count (λ e. not (contains_id protected e.0)) es)
      ≤ length es
unfolding without crowded
length-without-crowded protected es = of (Bool-cases (ltb max_discovery_connections (length es)))
  where
    n : ℕ
    n = length es - max_discovery_connections

    strangers : List (ℕ × ℕ)
    strangers = retain (λ e. not (contains_id protected e.0)) es

    ids : List ℕ
    ids = take n (keys (sort_by_age strangers))

    gone : min n (length strangers) ≤ count (λ e. contains_id ids e.0) es
    gone =
        let some_of = count-take ids n (sort_by_age strangers) (contains_self ids) in
        let sorted = count-sort_by_age (λ e. contains_id ids e.0) strangers in
        let part =
          count-retain (λ e. not (contains_id protected e.0)) (λ e. contains_id ids e.0) es in
        omega (arith, length-take n (sort_by_age strangers), length-sort_by_age strangers)

    of :
        ((ltb max_discovery_connections (length es) ≡ true)
          ⊎ (ltb max_discovery_connections (length es) ≡ false))
        → length (
              retain
                (λ e.
                  not (
                    contains_id
                      (if ltb max_discovery_connections (length es) then ids else [])
                      e.0))
                es)
            + min n (length strangers)
          ≤ length es
    of (inl many) =
        let all_of = count-not (λ e. contains_id ids e.0) es in
        let fewer : length (retain (λ e. not (contains_id ids e.0)) es) + min n (length strangers)
            ≤ length es =
          omega (arith, all_of, gone) in
        rw many fewer
    of (inr few) =
        let fit : n ≡ 0 = ground arith in
        rw few (omega (arith, length-retain (λ (e : ℕ × ℕ). true) es))

-- At most 256 entries stay, where no more than 64 of them are protected.
length-pruned :
    (protected : List ℕ) (es : HashMap ℕ ℕ)
    → IsMap es
    → length protected ≤ 256
    → length (without (crowded protected es) es) ≤ 256
length-pruned protected es h few =
    let gone = length-without-crowded protected es in
    let kept = count-keys protected es h in
    let all_of = count-not (λ e. contains_id protected e.0) es in omega arith

pub last_seen-forget :
    (victims : List ℕ) (s : DiscoveryParser) → (forget victims s).last_seen ≡ s.last_seen
unfolding forget
last_seen-forget [] s = refl
last_seen-forget (v ∷ vs) s = refl

abbrev pub IsBounded : HashMap ℕ ℕ → Type 0
IsBounded es = IsMap es × (length es ≤ 256)

-- However many connections there are, at most 256 are remembered, each once, as long as the game
-- has no more than 64 connections to its API.
pub last_seen-touch_and_prune :
    (now connection_id : ℕ) (s : DiscoveryParser)
    → IsMap s.last_seen
    → length s.hosts ≤ 64
    → IsBounded (touch_and_prune now connection_id s).last_seen
unfolding touch_and_prune
last_seen-touch_and_prune now connection_id s h few =
    of (Bool-cases (not (s.parse_count % 128 == 0) && leb (length seen) max_discovery_connections))
  where
    seen : HashMap ℕ ℕ
    seen = HashMap.insert ◌==◌ s.last_seen connection_id now

    once : IsMap seen
    once = IsMap-insert s.last_seen connection_id now h

    idle : List ℕ
    idle = silent (keys s.hosts) now seen

    extra : List ℕ
    extra = crowded (keys s.hosts) (without idle seen)

    counted : DiscoveryParser
    counted = record s { last_seen = seen; parse_count = (s.parse_count + 1) % 2 ^ 64 }

    pruned : DiscoveryParser
    pruned = record counted { last_seen = without extra (without idle seen) }

    recent : IsMap (without idle seen)
    recent = unfold without in IsMap-retain _ seen once

    few_keys : length (keys s.hosts) ≤ 256
    few_keys = omega (arith, length-map (λ (e : ℕ × Text). e.0) s.hosts)

    bounded : IsBounded (forget (idle ++ extra) pruned).last_seen
    bounded = rw (last_seen-forget (idle ++ extra) pruned) (
      unfold without in IsMap-retain _ (without idle seen) recent,
      length-pruned (keys s.hosts) (without idle seen) recent few_keys,
    )

    of :
        ((not (s.parse_count % 128 == 0) && leb (length seen) max_discovery_connections ≡ true)
          ⊎ (not (s.parse_count % 128 == 0) && leb (length seen) max_discovery_connections ≡ false))
        → IsBounded
            (if not (s.parse_count % 128 == 0) && leb (length seen) max_discovery_connections
              then counted
              else forget (idle ++ extra) pruned).last_seen
    of (inl rarely) = rw rarely (once, ground arith)
    of (inr often) = rw often bounded
