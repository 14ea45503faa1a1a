-- ===== src/Collector/Passes.antt =====
-- The statistics on their way through the worker of crates/collector/src/lib.rs, one send at a time.
use arc_twitch_widget.Prelude.{
  Bool, true, false, not, ◌&&◌, List, [], ◌∷◌, ◌++◌, ◌≡◌, ◌⊎◌, refl, sym, if◌then◌else◌, Bool-cases,
  append_assoc, append-nil, inl, inr,
}
use arc_twitch_widget.Collector.{
  ProbePayload, CollectorEvent, Phase, running, sending, Collector, probe, push, has_room, try_send,
  finish_capture, send_probe, stopped,
}

module _ {F : Type 0} where
  -- A payload without the time at which the worker read it.
  abbrev pub untimed : ProbePayload F → ProbePayload F
  untimed p = record p { observed_at = 0 }

  abbrev pub heard_of : CollectorEvent F → List (ProbePayload F)
  heard_of (probe p) = untimed p ∷ []
  heard_of _ = []

  -- The statistics among events of the channel.
  abbrev pub heard : List (CollectorEvent F) → List (ProbePayload F)
  heard [] = []
  heard (e ∷ es) = heard_of e ++ heard es

  abbrev pub waiting : Phase F → List (ProbePayload F)
  waiting (sending p) = untimed p ∷ []
  waiting _ = []

  pub heard-append : (xs ys : List (CollectorEvent F)) → heard (xs ++ ys) ≡ heard xs ++ heard ys
  heard-append [] ys = refl
  heard-append (x ∷ xs) ys =
      rw (heard-append xs ys) (sym (append_assoc (heard_of x) (heard xs) (heard ys)))

  -- The statistics that are on their way to the consumer.
  abbrev pub held : Collector F → List (ProbePayload F)
  held s = heard s.queue ++ waiting s.phase

  -- An operation of the worker leaves alone what belongs to its two ends.
  pub record Kept (s t : Collector F) : Type 0 where
    pub received : t.received ≡ s.received
    pub consumer : t.consumer ≡ s.consumer
    pub inbox : t.inbox ≡ s.inbox

  pub try_send-cases :
      (e : CollectorEvent F) (s : Collector F) → (try_send e s ≡ push e s) ⊎ (try_send e s ≡ s)
  unfolding try_send
  try_send-cases e s = of (s.consumer && has_room s)
    where
      of : (b : Bool) → ((if b then push e s else s) ≡ push e s) ⊎ ((if b then push e s else s) ≡ s)
      of true = inl refl
      of false = inr refl

  pub try_send-Kept : (e : CollectorEvent F) (s : Collector F) → Kept s (try_send e s)
  try_send-Kept e s = elim (try_send-cases e s) [
    | inl p ↦ rw p (unfold push in record { received = refl; consumer = refl; inbox = refl })
    | inr p ↦ rw p (record { received = refl; consumer = refl; inbox = refl })
  ]

  pub try_send-phase : (e : CollectorEvent F) (s : Collector F) → (try_send e s).phase ≡ s.phase
  try_send-phase e s = elim (try_send-cases e s) [
    | inl p ↦ rw p (unfold push in refl)
    | inr p ↦ rw p refl
  ]

  -- An event that carries no statistics changes nothing of them, kept or dropped.
  try_send-heard :
      (e : CollectorEvent F) (s : Collector F)
      → heard_of e ≡ []
      → heard (try_send e s).queue ≡ heard s.queue
  try_send-heard e s h = elim (try_send-cases e s) [
    | inl p ↦
        rw p (unfold push in rw (heard-append s.queue (e ∷ []), h) (append-nil (heard s.queue)))
    | inr p ↦ rw p refl
  ]

  -- What the worker does in one go: its ends are kept, and with a consumer `new` is on its way behind
  -- what was.
  pub record Passes (s t : Collector F) (new : List (ProbePayload F)) : Type 0 where
    pub kept : Kept s t
    pub moved : s.consumer ≡ true → held t ≡ held s ++ new

  pub Passes-then :
      {s t u : Collector F} {a b : List (ProbePayload F)}
      → Passes s t a
      → Passes t u b
      → Passes s u (a ++ b)
  Passes-then {s} {t} {u} {a} {b} f g = record {
    kept = record { received = cc; consumer = cc; inbox = cc };
    moved = λ c. rw (g.moved (rw f.kept.consumer c), f.moved c) (append_assoc (held s) a b);
  }

  pub try_send-Passes :
      (e : CollectorEvent F) (s : Collector F) → heard_of e ≡ [] → Passes s (try_send e s) []
  try_send-Passes e s h = record {
    kept = try_send-Kept e s;
    moved = λ _. rw (try_send-heard e s h, try_send-phase e s) (sym (append-nil (held s)));
  }

  pub finish_capture-Kept : (s : Collector F) → Kept s (finish_capture s)
  unfolding finish_capture
  finish_capture-Kept s =
      let k = try_send-Kept stopped s in
      record { received = k.received; consumer = k.consumer; inbox = k.inbox }

  pub finish_capture-Passes : (s : Collector F) → s.phase ≡ running → Passes s (finish_capture s) []
  finish_capture-Passes s h = record {
    kept = finish_capture-Kept s;
    moved =
        λ _. unfold finish_capture in rw (try_send-heard stopped s refl, h) (sym (append-nil _));
  }

  abbrev pub sent : ProbePayload F → Collector F → Collector F
  sent p s = push (probe p) (record s { phase = running })

  pub send_probe-cases :
      (p : ProbePayload F) (s : Collector F)
      → s.consumer ≡ true
      → ((has_room s ≡ true) × (send_probe p s ≡ sent p s))
        ⊎ ((has_room s ≡ false) × (send_probe p s ≡ record s { phase = sending p }))
  unfolding send_probe
  send_probe-cases p s = of s.consumer (has_room s)
    where
      of :
          (c b : Bool)
          → c ≡ true
          → ((b ≡ true)
              × ((if not c
                    then finish_capture s
                    else if b
                    then push (probe p) (record s { phase = running })
                    else record s { phase = sending p })
                  ≡ push (probe p) (record s { phase = running })))
            ⊎ ((b ≡ false)
                × ((if not c
                      then finish_capture s
                      else if b
                      then push (probe p) (record s { phase = running })
                      else record s { phase = sending p })
                    ≡ record s { phase = sending p }))
      of true true _ = inl (refl, refl)
      of true false _ = inr (refl, refl)
      of false b h = cc

  pub send_probe-left :
      (p : ProbePayload F) (s : Collector F)
      → s.consumer ≡ false
      → send_probe p s ≡ finish_capture s
  unfolding send_probe
  send_probe-left p s = of s.consumer
    where
      of :
          (c : Bool)
          → c ≡ false
          → (if not c
              then finish_capture s
              else if has_room s
              then push (probe p) (record s { phase = running })
              else record s { phase = sending p })
            ≡ finish_capture s
      of false _ = refl
      of true h = cc

  pub send_probe-Kept : (p : ProbePayload F) (s : Collector F) → Kept s (send_probe p s)
  send_probe-Kept p s = elim (Bool-cases s.consumer) [
    | inl c ↦ elim (send_probe-cases p s c) [
      | inl (r, e) ↦ rw e (unfold push in record { received = refl; consumer = refl; inbox = refl })
      | inr (r, e) ↦ rw e (record { received = refl; consumer = refl; inbox = refl })
    ]
    | inr c ↦ rw (send_probe-left p s c) (finish_capture-Kept s)
  ]

  held-send_probe :
      (p : ProbePayload F) (s : Collector F)
      → s.consumer ≡ true
      → held (send_probe p s) ≡ heard s.queue ++ (untimed p ∷ [])
  held-send_probe p s c = elim (send_probe-cases p s c) [
    | inl (r, e) ↦ rw e (unfold push in rw (heard-append s.queue (probe p ∷ [])) (append-nil _))
    | inr (r, e) ↦ rw e refl
  ]

  pub send_probe-Passes :
      (p : ProbePayload F) (s : Collector F)
      → s.phase ≡ running
      → Passes s (send_probe p s) (untimed p ∷ [])
  send_probe-Passes p s h = record {
    kept = send_probe-Kept p s;
    moved = λ c. rw (held-send_probe p s c, h, append-nil (heard s.queue)) refl;
  }

  pub send_probe-Passes_again :
      (p : ProbePayload F) (s : Collector F) → s.phase ≡ sending p → Passes s (send_probe p s) []
  send_probe-Passes_again p s h = record {
    kept = send_probe-Kept p s;
    moved = λ c. rw (held-send_probe p s c, h) (sym (append-nil _));
  }
