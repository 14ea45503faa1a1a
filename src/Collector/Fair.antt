-- ===== src/Collector/Fair.antt =====
-- What the worker of crates/collector/src/lib.rs leaves alone, and the bound of its channel.
use arc_twitch_widget.Prelude.{
  ℕ, ◌≤◌, ◌<◌, Bool, true, false, ◌&&◌, List, [], ◌∷◌, ◌≡◌, refl, sym, ◌∙◌, if◌then◌else◌,
  Bool-cases, length, length-append, inl, inr, arith,
}
use arc_twitch_widget.Prelude.Result.{Result, ok, err}
use arc_twitch_widget.Text.{Text}
use arc_twitch_widget.Json.{Float}
use arc_twitch_widget.Core.Stats.{StatsError}
use arc_twitch_widget.Capture.Report.{CaptureEvent}
use arc_twitch_widget.Collector.{
  ProbePayload, CollectorEvent, Phase, running, sending, ended, Collector, capacity, probe, push,
  has_room, send_ready, finish_capture, send_probe, start_local, send_payload, announce, on_event,
  receive_capture, turn_from, turn, take_from, take, CollectorStep, arrive, capture_ends,
  worker_turn, consumer_takes, consumer_leaves, stop_called, step, run, ready, stopped, try_send,
}
use arc_twitch_widget.Collector.Passes.{send_probe-cases, send_probe-left}

module _ {F : Type 0} where
  abbrev pub Fits : Collector F → Type 0
  Fits s = length s.queue ≤ capacity

  has_room_iff :
      (s : Collector F) (b : Bool)
      → has_room s ≡ b
      → Fits s
      → if b then (length s.queue < capacity) else (length s.queue ≡ capacity)
  unfolding has_room
  has_room_iff s true h f = ground arith
  has_room_iff s false h f = ground arith

  -- What the worker leaves alone, and the bound of the channel.
  pub record Fair (s t : Collector F) : Type 0 where
    pub stop : t.stop ≡ s.stop
    pub capture_alive : t.capture_alive ≡ s.capture_alive
    pub consumer : t.consumer ≡ s.consumer
    pub inbox : t.inbox ≡ s.inbox
    pub fits : Fits s → Fits t

  Fair-then : {s t u : Collector F} → Fair s t → Fair t u → Fair s u
  Fair-then f g = record {
    stop = cc;
    capture_alive = cc;
    consumer = cc;
    inbox = cc;
    fits = λ h. g.fits (f.fits h);
  }

  Fair-self : (s : Collector F) → Fair s s
  Fair-self s = record {
    stop = refl;
    capture_alive = refl;
    consumer = refl;
    inbox = refl;
    fits = λ h. h;
  }

  push-Fair : (e : CollectorEvent F) (s : Collector F) → has_room s ≡ true → Fair s (push e s)
  unfolding push
  push-Fair e s r = record {
    stop = refl;
    capture_alive = refl;
    consumer = refl;
    inbox = refl;
    fits = λ h. omega (arith, has_room_iff s true r h, length-append s.queue (e ∷ []));
  }

  try_send-Fair : (e : CollectorEvent F) (s : Collector F) → Fair s (try_send e s)
  unfolding try_send
  try_send-Fair e s = of s.consumer (has_room s) refl
    where
      of : (c b : Bool) → b ≡ has_room s → Fair s (if c && b then push e s else s)
      of true true r = push-Fair e s (sym r)
      of true false r = Fair-self s
      of false b r = Fair-self s

  finish_capture-Fair : (s : Collector F) → Fair s (finish_capture s)
  unfolding finish_capture
  finish_capture-Fair s =
      let k = try_send-Fair stopped s in
      record {
        stop = k.stop;
        capture_alive = k.capture_alive;
        consumer = k.consumer;
        inbox = k.inbox;
        fits = k.fits;
      }

  has_room-phase : (s : Collector F) (p : Phase F) → has_room (record s { phase = p }) ≡ has_room s
  unfolding has_room
  has_room-phase s p = refl

  pub send_probe-Fair : (p : ProbePayload F) (s : Collector F) → Fair s (send_probe p s)
  send_probe-Fair p s = elim (Bool-cases s.consumer) [
    | inl c ↦ elim (send_probe-cases p s c) [
      | inl (r, e) ↦ rw e (
          let k =
            push-Fair (probe p) (record s { phase = running }) (has_room-phase s running ∙ r) in
          record {
            stop = k.stop;
            capture_alive = k.capture_alive;
            consumer = k.consumer;
            inbox = k.inbox;
            fits = k.fits;
          })
      | inr (r, e) ↦ rw e (record {
        stop = refl;
        capture_alive = refl;
        consumer = refl;
        inbox = refl;
        fits = λ h. h;
      })
    ]
    | inr c ↦ rw (send_probe-left p s c) (finish_capture-Fair s)
  ]

module _ (fl : Float) where
  open fl use {F}

  flagged-Fair : (s : Collector F) → Fair s (record s { stats_stream_ready = true })
  flagged-Fair s = record {
    stop = refl;
    capture_alive = refl;
    consumer = refl;
    inbox = refl;
    fits = λ h. h;
  }

  pub announce-Fair : (s : Collector F) → Fair s (announce fl s)
  unfolding announce send_ready
  announce-Fair s = of s.stats_stream_ready
    where
      of :
          (b : Bool)
          → Fair s (if b then s else try_send (ready true) (record s { stats_stream_ready = true }))
      of true = Fair-self s
      of false = Fair-then (flagged-Fair s) (try_send-Fair (ready true) _)

  send_payload-Fair :
      (r : Result StatsError (ProbePayload F)) (s : Collector F) → Fair s (send_payload fl r s)
  unfolding send_payload
  send_payload-Fair (ok p) s = send_probe-Fair p s
  send_payload-Fair (err e) s = try_send-Fair _ s

  pub on_event-Fair :
      (now : ℕ) (e : CaptureEvent F) (s : Collector F) → Fair s (on_event fl now e s)
  unfolding on_event send_ready
  on_event-Fair now (CaptureEvent.status message) s = try_send-Fair _ s
  on_event-Fair now (CaptureEvent.stats st) s = try_send-Fair _ s
  on_event-Fair now (CaptureEvent.observation value) s = try_send-Fair _ s
  on_event-Fair now (CaptureEvent.stats_stream_ready host) s =
      Fair-then (flagged-Fair s) (Fair-then (try_send-Fair _ _) (try_send-Fair (ready true) _))
  on_event-Fair now (CaptureEvent.player_stats_response host code content_type body) s =
      Fair-then (announce-Fair s) (send_payload-Fair _ _)
  on_event-Fair now (CaptureEvent.error message) s = try_send-Fair _ s
  on_event-Fair now CaptureEvent.stopped s = finish_capture-Fair s

  receive_capture-Fits :
      (now : ℕ) (es : List (CaptureEvent F)) (s : Collector F)
      → Fits s
      → Fits (receive_capture fl now es s)
  unfolding receive_capture
  receive_capture-Fits now (e ∷ es) s h = (on_event-Fair now e (record s { inbox = es })).fits h
  receive_capture-Fits now [] s h = of s.capture_alive
    where
      of : (b : Bool) → Fits (if b then s else finish_capture s)
      of true = h
      of false = (finish_capture-Fair s).fits h

  turn_from-Fits : (p : Phase F) (now : ℕ) (s : Collector F) → Fits s → Fits (turn_from fl p now s)
  unfolding turn_from
  turn_from-Fits running now s h = of s.stop
    where
      of : (b : Bool) → Fits (if b then finish_capture s else receive_capture fl now s.inbox s)
      of true = (finish_capture-Fair s).fits h
      of false = receive_capture-Fits now s.inbox s h
  turn_from-Fits (sending p) now s h = (send_probe-Fair p s).fits h
  turn_from-Fits ended now s h = h

  take_from-Fits :
      (q : List (CollectorEvent F)) (s : Collector F)
      → length q ≤ capacity
      → q ≡ s.queue
      → Fits (take_from q s)
  unfolding take_from
  take_from-Fits [] s h e = rw⁻¹ e h
  take_from-Fits (x ∷ xs) s h e = omega (arith, h)

  pub step-Fits : (x : CollectorStep fl) (s : Collector F) → Fits s → Fits (step fl x s)
  unfolding step turn take
  step-Fits (arrive e) s h = h
  step-Fits capture_ends s h = h
  step-Fits (worker_turn now) s h = turn_from-Fits s.phase now s h
  step-Fits consumer_takes s h = of s.consumer
    where
      of : (b : Bool) → Fits (if b then take_from s.queue s else s)
      of true = take_from-Fits s.queue s h refl
      of false = h
  step-Fits consumer_leaves s h = omega arith
  step-Fits stop_called s h = h

  run-Fits_from : (xs : List (CollectorStep fl)) (s : Collector F) → Fits s → Fits (run fl xs s)
  unfolding run
  run-Fits_from [] s h = h
  run-Fits_from (x ∷ xs) s h = run-Fits_from xs (step fl x s) (step-Fits x s h)

  -- Whatever happens and in whatever order, the channel holds no more than 1024 events.
  pub run-Fits :
      (version : Text) (privileged : Bool) (xs : List (CollectorStep fl))
      → Fits (run fl xs (start_local version privileged))
  unfolding start_local
  run-Fits version privileged xs = run-Fits_from xs _ (omega arith)
