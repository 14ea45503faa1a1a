-- ===== src/Collector/Drained.antt =====
-- Where the capture is alive and nobody asks for a stop, a consumer that keeps taking events from the
-- worker of crates/collector/src/lib.rs gets all the statistics that the capture has sent.
use arc_twitch_widget.Prelude.{
  ℕ, ◌+◌, ◌-◌, ◌≤◌, Bool, true, false, List, [], ◌∷◌, ◌++◌, ◌≡◌, ◌≢◌, ◌⊎◌, refl, sym, ap, ◌∙◌,
  if◌then◌else◌, length, length-append, append-nil, All, inl, inr, arith,
}
use arc_twitch_widget.Prelude.Result.{Result, ok, err}
use arc_twitch_widget.Text.{Text}
use arc_twitch_widget.Json.{Float}
use arc_twitch_widget.Core.Stats.{StatsError}
use arc_twitch_widget.Capture.Report.{CaptureEvent}
use arc_twitch_widget.Collector.{
  ProbePayload, CollectorEvent, Phase, running, sending, ended, Collector, probe, push, send_ready,
  finish_capture, start_local, native_stats_payload, send_payload, announce, on_event,
  receive_capture, turn_from, turn, take, CollectorStep, worker_turn, consumer_takes, step, run,
  ready, try_send,
}
use arc_twitch_widget.Collector.Passes.{heard, held, send_probe-cases, try_send-phase}
use arc_twitch_widget.Collector.Fair.{Fits, announce-Fair, on_event-Fair, run-Fits, step-Fits}
use arc_twitch_widget.Collector.Delivery.{run-Tells}
use arc_twitch_widget.Collector.Accepted.{accepted, arrivals, announce-phase}
use arc_twitch_widget.Collector.Work.{
  length_zero, pending, load, pending_zero, work, IsLive, load-try_send, try_send-open,
  load-send_probe, send_probe-open, has_no_room, Taken, take-Taken,
}

module _ (fl : Float) where
  open fl use {F}

  send_payload-open :
      (r : Result StatsError (ProbePayload F)) (s : Collector F)
      → s.consumer ≡ true
      → s.phase ≡ running
      → ((send_payload fl r s).phase ≢ ended) × (load (send_payload fl r s) ≤ load s + 3)
  unfolding send_payload
  send_payload-open (ok p) s c h = (send_probe-open p s c, omega (arith, load-send_probe p s c))
  send_payload-open (err e) s c h = try_send-open _ s h

  quiet :
      (e : CollectorEvent F) (s : Collector F)
      → s.phase ≡ running
      → ((try_send e s).phase ≢ ended) × (load (try_send e s) ≤ load s + 5)
  quiet e s h = let (o, l) = try_send-open e s h in (o, omega (arith, l))

  load-announce : (s : Collector F) → load (announce fl s) ≤ load s + 2
  unfolding announce send_ready
  load-announce s = of s.stats_stream_ready
    where
      of :
          (b : Bool)
          → load (if b then s else try_send (ready true) (record s { stats_stream_ready = true }))
            ≤ load s + 2
      of true = omega arith
      of false = load-try_send (ready true) (record s { stats_stream_ready = true })

  -- An event of the capture other than its end adds two events at most, or one and a wait.
  on_event-open :
      (now : ℕ) (e : CaptureEvent F) (s : Collector F)
      → e ≢ CaptureEvent.stopped
      → s.consumer ≡ true
      → s.phase ≡ running
      → ((on_event fl now e s).phase ≢ ended) × (load (on_event fl now e s) ≤ load s + 5)
  unfolding on_event send_ready
  on_event-open now (CaptureEvent.status message) s n c h = quiet _ s h
  on_event-open now (CaptureEvent.stats st) s n c h = quiet _ s h
  on_event-open now (CaptureEvent.observation value) s n c h = quiet _ s h
  on_event-open now (CaptureEvent.error message) s n c h = quiet _ s h
  on_event-open now (CaptureEvent.stats_stream_ready host) s n c h =
      let flagged : Collector F = record s { stats_stream_ready = true } in
      (
        rw (try_send-phase (ready true) _, try_send-phase _ flagged, h) (λ q. cc),
        omega (arith, load-try_send (ready true) _, load-try_send _ flagged),
      )
  on_event-open now (CaptureEvent.player_stats_response host code content_type body) s n c h =
      let k = announce-Fair fl s in
      let (o, l) =
        send_payload-open (native_stats_payload fl now host code content_type body) (announce fl s)
          (k.consumer ∙ c) (announce-phase fl s ∙ h) in
      (o, omega (arith, l, load-announce s))
  on_event-open now CaptureEvent.stopped s n c h = absurd (n refl)

  -- What a round of the consumer and the worker does.
  record Progress (s t : Collector F) : Type 0 where
    pub live : IsLive t
    pub work : work t ≤ work s - 1

  receive_capture-Progress :
      (now : ℕ) (s : Collector F)
      → IsLive s
      → s.phase ≡ running
      → (es : List (CaptureEvent F)) → es ≡ s.inbox
      → IsLive (receive_capture fl now es s)
        × (((es ≡ []) × (receive_capture fl now es s ≡ s))
            ⊎ (work (receive_capture fl now es s) + 1 ≤ work s))
  unfolding receive_capture
  receive_capture-Progress now s h r [] e = of s.capture_alive h.capture_alive
    where
      of :
          (b : Bool)
          → b ≡ true
          → IsLive (if b then s else finish_capture s)
            × (((◌≡◌ {A = List (CaptureEvent F)} [] []) × ((if b then s else finish_capture s) ≡ s))
                ⊎ (work (if b then s else finish_capture s) + 1 ≤ work s))
      of true _ = (h, inl (refl, refl))
      of false e = cc
  receive_capture-Progress now s h r (e ∷ es) i =
      let s' : Collector F = record s { inbox = es } in
      let k = on_event-Fair fl now e s' in
      let n : All (λ x. x ≢ CaptureEvent.stopped) (e ∷ es) = rw (← i) at h.inbox in
      let (o, l) = on_event-open now e s' n.0 h.consumer r in
      (
        record {
          consumer = k.consumer ∙ h.consumer;
          stop = k.stop ∙ h.stop;
          capture_alive = k.capture_alive ∙ h.capture_alive;
          phase = o;
          inbox = rw k.inbox n.1;
        },
        inr (rw k.inbox (rw⁻¹ i (omega (arith, l)))),
      )

  turn_from-Progress :
      (p : Phase F) (now : ℕ) (s t : Collector F)
      → p ≡ t.phase
      → Taken s t
      → Fits s
      → Progress s (turn_from fl p now t)
  unfolding turn_from push
  turn_from-Progress running now s t e k f = of t.stop k.live.stop
    where
      received : Progress s (receive_capture fl now t.inbox t)
      received =
          let (l, w) = receive_capture-Progress now t k.live (sym e) t.inbox refl in
          let same_inbox : length t.inbox ≡ length s.inbox = ap length k.inbox in
          let none_pending : pending t.phase ≡ 0 = rw⁻¹ e refl in
          let same_pending : pending t.phase ≡ pending s.phase = ap pending k.phase in
          record {
            live = l;
            work = elim w [
              | inl (i, q) ↦
                  let none_left : length t.inbox ≡ 0 = ap length i in rw q (omega (arith, k.queue))
              | inr d ↦ omega (arith, k.queue)
            ];
          }

      of :
          (b : Bool)
          → b ≡ false
          → Progress s (if b then finish_capture t else receive_capture fl now t.inbox t)
      of true e = cc
      of false _ = received
  turn_from-Progress (sending p) now s t e k f =
      let same_inbox : length t.inbox ≡ length s.inbox = ap length k.inbox in
      let none_pending : pending t.phase ≡ 3 = rw⁻¹ e refl in
      let same_pending : pending t.phase ≡ pending s.phase = ap pending k.phase in
      elim (send_probe-cases p t k.live.consumer) [
        | inl (r, q) ↦ rw q (record {
          live = record {
            consumer = k.live.consumer;
            stop = k.live.stop;
            capture_alive = k.live.capture_alive;
            phase = λ x. cc;
            inbox = k.live.inbox;
          };
          work = omega (arith, k.queue, length-append t.queue (probe p ∷ []));
        })
        | inr (r, q) ↦ absurd (has_no_room t r (omega (arith, k.queue)))
      ]
  turn_from-Progress ended now s t e k f = absurd (k.live.phase (sym e))

  abbrev pub rounds : List ℕ → List (CollectorStep fl)
  rounds [] = []
  rounds (t ∷ ts) = consumer_takes ∷ worker_turn t ∷ rounds ts

  step-Progress :
      (now : ℕ) (s : Collector F)
      → IsLive s
      → Fits s
      → Progress s (step fl (worker_turn now) (step fl consumer_takes s))
  unfolding step turn
  step-Progress now s h f = turn_from-Progress (take s).phase now s (take s) refl (take-Taken s h) f

  work-run :
      (ts : List ℕ) (s : Collector F)
      → IsLive s
      → Fits s
      → work s ≤ length ts
      → IsLive (run fl (rounds ts) s) × (work (run fl (rounds ts) s) ≡ 0)
  unfolding run
  work-run [] s h f l = (h, omega arith)
  work-run (t ∷ ts) s h f l =
      let p = step-Progress t s h f in
      let f' =
        step-Fits fl (worker_turn t) (step fl consumer_takes s) (step-Fits fl consumer_takes s f) in
      work-run ts (step fl (worker_turn t) (step fl consumer_takes s)) p.live f'
        (omega (arith, p.work))

  run-append :
      (xs ys : List (CollectorStep fl)) (s : Collector F)
      → run fl (xs ++ ys) s ≡ run fl ys (run fl xs s)
  unfolding run
  run-append [] ys s = refl
  run-append (x ∷ xs) ys s = run-append xs ys (step fl x s)

  arrivals-rounds :
      (xs : List (CollectorStep fl)) (ts : List ℕ) → arrivals fl (xs ++ rounds ts) ≡ arrivals fl xs
  arrivals-rounds [] [] = refl
  arrivals-rounds [] (t ∷ ts) = arrivals-rounds [] ts
  arrivals-rounds (x ∷ xs) ts = rw (arrivals-rounds xs ts)

  nothing_left : (s : Collector F) → work s ≡ 0 → (held s ≡ []) × (s.inbox ≡ [])
  nothing_left s h = (
    rw (length_zero s.queue (omega (arith, h)), pending_zero s.phase (omega (arith, h))) refl,
    length_zero s.inbox (omega (arith, h)),
  )

  -- Every response that can be read reaches the consumer. After any steps that leave the capture alive
  -- with no event `stopped` unread, the worker and the consumer there, and nobody asking for a stop, six
  -- rounds for each event that the worker has not read, two for each in the channel and three for one
  -- with the worker, in each of which the consumer takes an event and the worker has its turn, are
  -- enough for the consumer to have received all the statistics that the capture has sent, in order,
  -- whatever the times of the turns.
  pub received-run :
      (version : Text) (privileged : Bool) (xs : List (CollectorStep fl)) (ts : List ℕ)
      → IsLive (run fl xs (start_local version privileged))
      → work (run fl xs (start_local version privileged)) ≤ length ts
      → heard (run fl (xs ++ rounds ts) (start_local version privileged)).received
        ≡ accepted fl (arrivals fl xs)
  received-run version privileged xs ts h l =
      let s = run fl xs (start_local version privileged) in
      let t = run fl (xs ++ rounds ts) (start_local version privileged) in
      let (live, done) = work-run ts s h (run-Fits fl version privileged xs) l in
      let live' : IsLive t = rw (run-append xs (rounds ts) _) live in
      let done' : work t ≡ 0 = rw (run-append xs (rounds ts) _) done in
      let told = run-Tells fl version privileged (xs ++ rounds ts) in
      let (later, r, k) = told.told live'.consumer in
      let (on_way, unread) = nothing_left t done' in
      let none_rest : told.rest ≡ [] = r ∙ rw (on_way, k live'.phase, unread) refl in
      sym (rw (← arrivals-rounds xs ts) (told.all ∙ rw none_rest (append-nil (heard t.received))))
