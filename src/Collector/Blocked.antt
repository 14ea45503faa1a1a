-- ===== src/Collector/Blocked.antt =====
-- When the worker of crates/collector/src/lib.rs does not come to its end.
use arc_twitch_widget.Prelude.{ℕ, true, List, [], ◌∷◌, ◌≡◌, ◌≢◌, refl, All, length, inl, inr, arith}
use arc_twitch_widget.Json.{Float}
use arc_twitch_widget.Collector.{
  ProbePayload, Phase, running, sending, ended, Collector, capacity, has_room, turn_from, turn,
  CollectorStep, arrive, capture_ends, worker_turn, consumer_takes, consumer_leaves, stop_called,
  step, run,
}
use arc_twitch_widget.Collector.Passes.{send_probe-cases}

module _ (fl : Float) where
  open fl use {F}

  -- The worker waits for room in a full channel.
  pub record IsBlocked (p : ProbePayload F) (s : Collector F) : Type 0 where
    pub phase : s.phase ≡ sending p
    pub consumer : s.consumer ≡ true
    pub full : length s.queue ≡ capacity

  -- A step that the consumer has no part in.
  abbrev pub IsOther : CollectorStep fl → Type 0
  IsOther x = (x ≢ consumer_takes) × (x ≢ consumer_leaves)

  has_no_room : (s : Collector F) → length s.queue ≡ capacity → has_room s ≡ true → ⊥
  unfolding has_room
  has_no_room s h r = ground arith

  turn_from-IsBlocked :
      (now : ℕ) (p : ProbePayload F) (s : Collector F)
      → IsBlocked p s
      → (q : Phase F) → q ≡ sending p
      → IsBlocked p (turn_from fl q now s)
  unfolding turn_from
  turn_from-IsBlocked now p s h (sending p') e = elim (send_probe-cases p' s h.consumer) [
    | inl (r, _) ↦ absurd (has_no_room s h.full r)
    | inr (r, q) ↦ rw q (record { phase = e; consumer = h.consumer; full = h.full })
  ]
  turn_from-IsBlocked now p s h running e = cc
  turn_from-IsBlocked now p s h ended e = cc

  step-IsBlocked :
      (x : CollectorStep fl) (p : ProbePayload F) (s : Collector F)
      → IsOther x
      → IsBlocked p s
      → IsBlocked p (step fl x s)
  unfolding step turn
  step-IsBlocked (arrive e) p s o h = record {
    phase = h.phase;
    consumer = h.consumer;
    full = h.full;
  }
  step-IsBlocked capture_ends p s o h = record {
    phase = h.phase;
    consumer = h.consumer;
    full = h.full;
  }
  step-IsBlocked (worker_turn now) p s o h = turn_from-IsBlocked now p s h s.phase h.phase
  step-IsBlocked consumer_takes p s o h = absurd (o.0 refl)
  step-IsBlocked consumer_leaves p s o h = absurd (o.1 refl)
  step-IsBlocked stop_called p s o h = record {
    phase = h.phase;
    consumer = h.consumer;
    full = h.full;
  }

  -- A worker that waits for room in a full channel with a consumer goes on waiting, whatever happens, a
  -- call of `stop` and any number of its turns included, until the consumer takes an event or leaves.
  pub run-IsBlocked :
      (xs : List (CollectorStep fl)) (p : ProbePayload F) (s : Collector F)
      → All IsOther xs
      → IsBlocked p s
      → IsBlocked p (run fl xs s)
  unfolding run
  run-IsBlocked [] p s o h = h
  run-IsBlocked (x ∷ xs) p s o h = run-IsBlocked xs p (step fl x s) o.1 (step-IsBlocked x p s o.0 h)
