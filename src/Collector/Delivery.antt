-- ===== src/Collector/Delivery.antt =====
-- What the consumer of crates/collector/src/lib.rs gets of the statistics that a capture sends.
use arc_twitch_widget.Prelude.{
  ℕ, Bool, true, false, List, [], ◌∷◌, ◌++◌, ◌≡◌, ◌≢◌, refl, sym, ◌∙◌, if◌then◌else◌, append_assoc,
  append-nil,
}
use arc_twitch_widget.Text.{Text}
use arc_twitch_widget.Json.{Float}
use arc_twitch_widget.Capture.Report.{CaptureEvent}
use arc_twitch_widget.Collector.{
  ProbePayload, CollectorEvent, Phase, running, sending, ended, Collector, finish_capture,
  start_local, receive_capture, turn_from, turn, take_from, take, CollectorStep, arrive,
  capture_ends, worker_turn, consumer_takes, consumer_leaves, stop_called, step, run,
}
use arc_twitch_widget.Collector.Passes.{
  heard_of, heard, waiting, heard-append, held, Passes, finish_capture-Passes,
  send_probe-Passes_again,
}
use arc_twitch_widget.Collector.Accepted.{
  accepted, arrival_of, arrivals, accepted-append, on_event-Passes,
}

module _ (fl : Float) where
  open fl use {F}

  -- Of the statistics that arrived, those that the consumer received come first and in order. With a
  -- consumer, those in the channel and with the worker come next, and while the worker is not at its
  -- end the others are those it has not read.
  pub record Tells (arrived : List (CaptureEvent F)) (s : Collector F) : Type 0 where
    pub rest : List (ProbePayload F)
    pub all : accepted fl arrived ≡ heard s.received ++ rest
    pub told :
        s.consumer ≡ true
        → (later : List (ProbePayload F)) × (rest ≡ held s ++ later)
          × (s.phase ≢ ended → later ≡ accepted fl s.inbox)

  Passes-Tells :
      {arrived : List (CaptureEvent F)} {s t : Collector F} {es : List (CaptureEvent F)}
      {new : List (ProbePayload F)}
      → Tells arrived s
      → s.phase ≢ ended
      → accepted fl s.inbox ≡ new ++ accepted fl es
      → Passes (record s { inbox = es }) t new
      → Tells arrived t
  Passes-Tells {arrived} {s} {t} {es} {new} h open_ i p = record {
    rest = h.rest;
    all = rw p.kept.received h.all;
    told = λ c.
        let c' : s.consumer ≡ true = sym p.kept.consumer ∙ c in
        let (later, e, k) = h.told c' in
        (
          accepted fl es,
          rw (e, k open_, i, p.moved c') (sym (append_assoc (held s) new (accepted fl es))),
          λ _. rw p.kept.inbox refl,
        );
  }

  receive_capture-Tells :
      (arrived : List (CaptureEvent F)) (now : ℕ) (s : Collector F)
      → s.phase ≡ running
      → Tells arrived s
      → (es : List (CaptureEvent F)) → es ≡ s.inbox
      → Tells arrived (receive_capture fl now es s)
  unfolding receive_capture
  receive_capture-Tells arrived now s r h (e ∷ es) i =
      Passes-Tells h (λ q. cc) (rw⁻¹ i refl) (on_event-Passes fl now e _ r)
  receive_capture-Tells arrived now s r h [] i = of s.capture_alive
    where
      of : (b : Bool) → Tells arrived (if b then s else finish_capture s)
      of true = h
      of false = Passes-Tells h (λ q. cc) refl (finish_capture-Passes s r)

  turn_from-Tells :
      (arrived : List (CaptureEvent F)) (now : ℕ) (s : Collector F) (p : Phase F)
      → p ≡ s.phase
      → Tells arrived s
      → Tells arrived (turn_from fl p now s)
  unfolding turn_from
  turn_from-Tells arrived now s running e h = of s.stop
    where
      of :
          (b : Bool)
          → Tells arrived (if b then finish_capture s else receive_capture fl now s.inbox s)
      of true = Passes-Tells h (λ q. cc) refl (finish_capture-Passes s (sym e))
      of false = receive_capture-Tells arrived now s (sym e) h s.inbox refl
  turn_from-Tells arrived now s (sending p) e h =
      Passes-Tells h (λ q. cc) refl (send_probe-Passes_again p s (sym e))
  turn_from-Tells arrived now s ended e h = h

  take_from-Tells :
      (arrived : List (CaptureEvent F)) (s : Collector F)
      → s.consumer ≡ true
      → Tells arrived s
      → (q : List (CollectorEvent F)) → q ≡ s.queue
      → Tells arrived (take_from q s)
  unfolding take_from
  take_from-Tells arrived s c h [] e = h
  take_from-Tells arrived s c h (x ∷ xs) e =
      let (later, r, k) = h.told c in
      let r' : h.rest ≡ heard_of x ++ ((heard xs ++ waiting s.phase) ++ later) =
        r
        ∙ rw⁻¹ e (
            rw (append_assoc (heard_of x) (heard xs) (waiting s.phase))
              (append_assoc (heard_of x) _ later)) in
      record {
        rest = (heard xs ++ waiting s.phase) ++ later;
        all =
            rw (h.all, r', heard-append s.received (x ∷ []), append-nil (heard_of x))
              (sym (append_assoc (heard s.received) (heard_of x) _));
        told = λ _. (later, refl, k);
      }

  take-Tells :
      (arrived : List (CaptureEvent F)) (s : Collector F) → Tells arrived s → Tells arrived (take s)
  unfolding take
  take-Tells arrived s h = of s.consumer refl
    where
      of : (b : Bool) → b ≡ s.consumer → Tells arrived (if b then take_from s.queue s else s)
      of true c = take_from-Tells arrived s (sym c) h s.queue refl
      of false c = h

  step-Tells :
      (arrived : List (CaptureEvent F)) (x : CollectorStep fl) (s : Collector F)
      → Tells arrived s
      → Tells (arrived ++ arrival_of fl x) (step fl x s)
  unfolding step turn
  step-Tells arrived (arrive e) s h = record {
    rest = h.rest ++ accepted fl (e ∷ []);
    all =
        rw (accepted-append fl arrived (e ∷ []), h.all) (append_assoc (heard s.received) h.rest _);
    told = λ c.
        let (later, r, k) = h.told c in
        (
          later ++ accepted fl (e ∷ []),
          rw r (append_assoc (held s) later _),
          λ q. rw (accepted-append fl s.inbox (e ∷ []), k q) refl,
        );
  }
  step-Tells arrived capture_ends s h =
      rw (append-nil arrived) (record { rest = h.rest; all = h.all; told = h.told })
  step-Tells arrived (worker_turn now) s h =
      rw (append-nil arrived) (turn_from-Tells arrived now s s.phase refl h)
  step-Tells arrived consumer_takes s h = rw (append-nil arrived) (take-Tells arrived s h)
  step-Tells arrived consumer_leaves s h =
      rw (append-nil arrived) (record { rest = h.rest; all = h.all; told = λ c. cc })
  step-Tells arrived stop_called s h =
      rw (append-nil arrived) (record { rest = h.rest; all = h.all; told = h.told })

  run-Tells_from :
      (arrived : List (CaptureEvent F)) (xs : List (CollectorStep fl)) (s : Collector F)
      → Tells arrived s
      → Tells (arrived ++ arrivals fl xs) (run fl xs s)
  unfolding run
  run-Tells_from arrived [] s h = rw (append-nil arrived) h
  run-Tells_from arrived (x ∷ xs) s h =
      let rest =
        run-Tells_from (arrived ++ arrival_of fl x) xs (step fl x s) (step-Tells arrived x s h) in
      rw⁻¹ (append_assoc arrived (arrival_of fl x) (arrivals fl xs)) rest

  -- Whatever the capture, the worker and the consumer do, and in whatever order: the statistics that
  -- the consumer has received are the first of those that the capture sent and that can be read, in
  -- their order and each once. As long as the consumer is there, the next ones are those in the channel
  -- and with the worker, and as long as the worker is not at its end, the others are those that it has
  -- not read yet. No other event, however many there are, makes one of them be dropped.
  pub run-Tells :
      (version : Text) (privileged : Bool) (xs : List (CollectorStep fl))
      → Tells (arrivals fl xs) (run fl xs (start_local version privileged))
  run-Tells version privileged xs =
      run-Tells_from [] xs (start_local version privileged)
        (unfold start_local in record { rest = []; all = refl; told = λ _. ([], refl, λ _. refl) })
