-- ===== src/Collector/Work.antt =====
-- The work that is left for the worker of crates/collector/src/lib.rs and for its consumer.
use arc_twitch_widget.Prelude.{
  ℕ, ◌+◌, ◌-◌, ◌*◌, ◌≤◌, ◌<◌, Bool, true, false, List, [], ◌∷◌, ◌≡◌, ◌≢◌, refl, if◌then◌else◌,
  length, length-append, All, inl, inr, arith,
}
use arc_twitch_widget.Capture.Report.{CaptureEvent}
use arc_twitch_widget.Collector.{
  ProbePayload, CollectorEvent, Phase, running, sending, ended, Collector, capacity, probe, push,
  has_room, send_probe, take_from, take, try_send,
}
use arc_twitch_widget.Collector.Passes.{waiting, send_probe-cases, try_send-cases, try_send-phase}

pub length_zero {ℓ} : {A : Type ℓ} (xs : List A) → length xs ≡ 0 → xs ≡ []
length_zero [] h = refl
length_zero (x ∷ xs) h = absurd (omega (arith, h))

module _ {F : Type 0} where
  abbrev pub pending : Phase F → ℕ
  pending (sending p) = 3
  pending _ = 0

  abbrev pub load : Collector F → ℕ
  load s = 2 * length s.queue + pending s.phase

  pub pending_zero : (p : Phase F) → pending p ≡ 0 → waiting p ≡ []
  pending_zero (sending p) h = absurd (omega (arith, h))
  pending_zero running h = refl
  pending_zero ended h = refl

  -- A bound on the turns that are left until nothing is on its way.
  abbrev pub work : Collector F → ℕ
  work s = 6 * length s.inbox + 2 * length s.queue + pending s.phase

  -- The consumer is there, nobody has asked the worker to stop, and neither has the capture.
  pub record IsLive (s : Collector F) : Type 0 where
    pub consumer : s.consumer ≡ true
    pub stop : s.stop ≡ false
    pub capture_alive : s.capture_alive ≡ true
    pub phase : s.phase ≢ ended
    pub inbox : All (λ e. e ≢ CaptureEvent.stopped) s.inbox

  pub load-try_send : (e : CollectorEvent F) (s : Collector F) → load (try_send e s) ≤ load s + 2
  load-try_send e s = elim (try_send-cases e s) [
    | inl p ↦ rw p (unfold push in omega (arith, length-append s.queue (e ∷ [])))
    | inr p ↦ rw p (omega arith)
  ]

  pub try_send-open :
      (e : CollectorEvent F) (s : Collector F)
      → s.phase ≡ running
      → ((try_send e s).phase ≢ ended) × (load (try_send e s) ≤ load s + 3)
  try_send-open e s h = (rw (try_send-phase e s, h) (λ q. cc), omega (arith, load-try_send e s))

  pub load-send_probe :
      (p : ProbePayload F) (s : Collector F)
      → s.consumer ≡ true
      → load (send_probe p s) ≤ 2 * length s.queue + 3
  load-send_probe p s c = elim (send_probe-cases p s c) [
    | inl (r, e) ↦ rw e (unfold push in omega (arith, length-append s.queue (probe p ∷ [])))
    | inr (r, e) ↦ rw e (omega arith)
  ]

  pub send_probe-open :
      (p : ProbePayload F) (s : Collector F) → s.consumer ≡ true → (send_probe p s).phase ≢ ended
  send_probe-open p s c = elim (send_probe-cases p s c) [
    | inl (r, e) ↦ rw e (unfold push in λ q. cc)
    | inr (r, e) ↦ rw e (λ q. cc)
  ]

  pub has_no_room : (s : Collector F) → has_room s ≡ false → length s.queue < capacity → ⊥
  unfolding has_room
  has_no_room s h l = ground arith

  -- What a take leaves.
  pub record Taken (s t : Collector F) : Type 0 where
    pub live : IsLive t
    pub inbox : t.inbox ≡ s.inbox
    pub phase : t.phase ≡ s.phase
    pub queue : length t.queue ≡ length s.queue - 1

  take_from-Taken :
      (s : Collector F)
      → IsLive s
      → (q : List (CollectorEvent F)) → q ≡ s.queue
      → Taken s (take_from q s)
  unfolding take_from
  take_from-Taken s h [] e = record { live = h; inbox = refl; phase = refl; queue = rw⁻¹ e refl }
  take_from-Taken s h (x ∷ xs) e = record {
    live = record {
      consumer = h.consumer;
      stop = h.stop;
      capture_alive = h.capture_alive;
      phase = h.phase;
      inbox = h.inbox;
    };
    inbox = refl;
    phase = refl;
    queue = rw⁻¹ e (omega arith);
  }

  pub take-Taken : (s : Collector F) → IsLive s → Taken s (take s)
  unfolding take
  take-Taken s h = of s.consumer h.consumer
    where
      of : (b : Bool) → b ≡ true → Taken s (if b then take_from s.queue s else s)
      of true _ = take_from-Taken s h s.queue refl
      of false e = cc
