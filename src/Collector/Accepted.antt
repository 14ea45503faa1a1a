-- ===== src/Collector/Accepted.antt =====
-- The statistics that the worker of crates/collector/src/lib.rs reads from the events of a capture.
use arc_twitch_widget.Prelude.{
  ℕ, Bool, true, false, List, [], ◌∷◌, ◌++◌, ◌≡◌, refl, sym, ◌∙◌, Option, if◌then◌else◌,
  append_assoc, append-nil,
}
use arc_twitch_widget.Prelude.Result.{Result, ok, err, ◌>>=◌}
use arc_twitch_widget.Text.{Text}
use arc_twitch_widget.Json.{Value, Float}
use arc_twitch_widget.Core.Overlay.{OverlayStats}
use arc_twitch_widget.Core.Stats.{StatsError, normalize_player_stats}
use arc_twitch_widget.Capture.Report.{CaptureEvent}
use arc_twitch_widget.Collector.{
  probe_payload, ProbePayload, running, Collector, send_ready, native_stats_payload, send_payload,
  announce, on_event, CollectorStep, arrive, ready, try_send,
}
use arc_twitch_widget.Collector.Passes.{
  untimed, held, Passes, Passes-then, try_send-Passes, finish_capture-Passes, send_probe-Passes,
  try_send-phase,
}

module _ (fl : Float) where
  open fl use {F}

  abbrev payload_of : Result StatsError (ProbePayload F) → List (ProbePayload F)
  payload_of (ok p) = untimed p ∷ []
  payload_of (err e) = []

  -- The statistics of an event: those of a response that `normalize_player_stats` accepts.
  unfoldable pub accepted_of : CaptureEvent F → List (ProbePayload F)
  accepted_of (CaptureEvent.player_stats_response host code content_type body) =
      payload_of (native_stats_payload fl 0 host code content_type body)
  accepted_of _ = []

  abbrev pub accepted : List (CaptureEvent F) → List (ProbePayload F)
  accepted [] = []
  accepted (e ∷ es) = accepted_of e ++ accepted es

  abbrev pub arrival_of : CollectorStep fl → List (CaptureEvent F)
  arrival_of (arrive e) = e ∷ []
  arrival_of _ = []

  abbrev pub arrivals : List (CollectorStep fl) → List (CaptureEvent F)
  arrivals [] = []
  arrivals (x ∷ xs) = arrival_of x ++ arrivals xs

  pub accepted-append :
      (xs ys : List (CaptureEvent F)) → accepted (xs ++ ys) ≡ accepted xs ++ accepted ys
  accepted-append [] ys = refl
  accepted-append (x ∷ xs) ys =
      rw (accepted-append xs ys) (sym (append_assoc (accepted_of x) (accepted xs) (accepted ys)))

  payload_of-native_stats_payload :
      (now : ℕ) (host : Text) (code : ℕ) (content_type : Option Text) (body : Value F)
      → payload_of (native_stats_payload fl now host code content_type body)
        ≡ payload_of (native_stats_payload fl 0 host code content_type body)
  unfolding native_stats_payload
  payload_of-native_stats_payload now host code content_type body =
      of (normalize_player_stats fl body)
    where
      of :
          (r : Result StatsError (OverlayStats × ℕ))
          → payload_of (r >>= λ n. ok (probe_payload fl now host code content_type body n))
            ≡ payload_of (r >>= λ n. ok (probe_payload fl 0 host code content_type body n))
      of (ok (o, n)) = unfold probe_payload in refl
      of (err e) = refl

  pub announce-phase : (s : Collector F) → (announce fl s).phase ≡ s.phase
  unfolding announce send_ready
  announce-phase s = of s.stats_stream_ready
    where
      of :
          (b : Bool)
          → (if b then s else try_send (ready true) (record s { stats_stream_ready = true })).phase
            ≡ s.phase
      of true = refl
      of false = try_send-phase (ready true) (record s { stats_stream_ready = true })

  flagged_ready : (s : Collector F) → Passes s (record s { stats_stream_ready = true }) []
  flagged_ready s = record {
    kept = record { received = refl; consumer = refl; inbox = refl };
    moved = λ _. sym (append-nil (held s));
  }

  announce-Passes : (s : Collector F) → Passes s (announce fl s) []
  unfolding announce send_ready
  announce-Passes s = of s.stats_stream_ready
    where
      of :
          (b : Bool)
          → Passes s
              (if b then s else try_send (ready true) (record s { stats_stream_ready = true }))
              []
      of true = record {
        kept = record { received = refl; consumer = refl; inbox = refl };
        moved = λ _. sym (append-nil (held s));
      }
      of false = Passes-then (flagged_ready s) (try_send-Passes (ready true) _ refl)

  send_payload-Passes :
      (r : Result StatsError (ProbePayload F)) (s : Collector F)
      → s.phase ≡ running
      → Passes s (send_payload fl r s) (payload_of r)
  unfolding send_payload
  send_payload-Passes (ok p) s h = send_probe-Passes p s h
  send_payload-Passes (err e) s h = try_send-Passes _ s refl

  pub on_event-Passes :
      (now : ℕ) (e : CaptureEvent F) (s : Collector F)
      → s.phase ≡ running
      → Passes s (on_event fl now e s) (accepted_of e)
  unfolding on_event accepted_of
  on_event-Passes now (CaptureEvent.status message) s h = try_send-Passes _ s refl
  on_event-Passes now (CaptureEvent.stats st) s h = try_send-Passes _ s refl
  on_event-Passes now (CaptureEvent.observation value) s h = try_send-Passes _ s refl
  on_event-Passes now (CaptureEvent.stats_stream_ready host) s h =
      unfold send_ready in
      Passes-then (flagged_ready s)
        (Passes-then (try_send-Passes _ _ refl) (try_send-Passes (ready true) _ refl))
  on_event-Passes now (CaptureEvent.player_stats_response host code content_type body) s h =
      rw⁻¹ (payload_of-native_stats_payload now host code content_type body)
        (Passes-then (announce-Passes s) (send_payload-Passes _ _ (announce-phase s ∙ h)))
  on_event-Passes now (CaptureEvent.error message) s h = try_send-Passes _ s refl
  on_event-Passes now CaptureEvent.stopped s h = finish_capture-Passes s h
