-- ===== src/Live/App/Refined.antt =====
-- The events of crates/arc-live/src/ui.rs against a small machine that knows the stream alone.
pub mod Frames
pub mod Streamed
use arc_twitch_widget.Prelude.{
  ℕ, Bool, true, false, inl, inr, Bool-cases, List, [], ◌∷◌, ◌++◌, Option, none, some, ◌≡◌, refl,
  ap, ◌∙◌, leb, ◌||◌, if_cases, if◌then◌else◌, unwrap_or, map, map-append,
}
use arc_twitch_widget.Prelude.Result.{Result, ok, err}
use arc_twitch_widget.Text.{Text}
use arc_twitch_widget.Core.Config.{AppConfig, disclaimer_revision}
use arc_twitch_widget.Core.Overlay.{OverlayStats, apply_session_baseline}
use arc_twitch_widget.Core.State.{
  GameKeylogStatus, unknown, missing, matches, different, record_activity, waiting_for_game,
}
use arc_twitch_widget.Storage.{Storage, StorageError}
use arc_twitch_widget.Collector.{CollectorEvent, ProbePayload}
use arc_twitch_widget.Collector.Passes.{heard_of, heard, heard-append}
use arc_twitch_widget.Live.App.{
  Host, Moment, App, record_in_state, notify, record_user_event, persist_stream_session,
}
use arc_twitch_widget.Live.App.Events.{
  GameStatus, observation_saved, sync_lost, ready_received, on_collector_event, with_capture_stats,
  drain_collector, missing_warned, path_warned, keylog_changed, running_changed, on_process_status,
  drain_processes, drain_events, statuses_change, some_event, eq_keylog, eq_bool, set_phase,
}
use arc_twitch_widget.Live.App.Aside.{Same, record_user_event-Same, persist_stream_session-Same}
use arc_twitch_widget.Live.App.Counted.{counters, apply_probe-counts, apply_probe-kept}
use arc_twitch_widget.Live.App.Probe.{apply_probe}

-- The day of the stream, whether the notice of the risk is accepted, the baseline of the stream, and
-- the numbers that the widget shows.
pub record Count : Type 0 where
  pub day : Text
  pub accepted : Bool
  pub baseline : Option OverlayStats
  pub shown : OverlayStats

abbrev accepts : AppConfig → Bool
accepts c = leb disclaimer_revision c.disclaimer_accepted_revision

abbrev pub count_of : App → Count
count_of s = record {
  day = s.stream_day;
  accepted = accepts s.config;
  baseline = s.session_baseline;
  shown = counters s.state.overlay;
}

-- One response: the first is the baseline, and each shows what it adds to that.
abbrev pub add : OverlayStats → Count → Count
add o c =
    let b = unwrap_or c.baseline o in
    record c { baseline = some b; shown = counters (apply_session_baseline o b) }

abbrev pub add_all : List OverlayStats → Count → Count
add_all [] c = c
add_all (o ∷ os) c = add_all os (add o c)

pub add_all-append :
    (xs ys : List OverlayStats) (c : Count) → add_all (xs ++ ys) c ≡ add_all ys (add_all xs c)
add_all-append [] ys c = refl
add_all-append (x ∷ xs) ys c = add_all-append xs ys (add x c)

abbrev first_of : OverlayStats → List OverlayStats → OverlayStats
first_of o [] = o
first_of o (x ∷ xs) = x

-- Only the last response shows, and only the first can become the baseline.
pub add_all-last :
    (os : List OverlayStats) (o : OverlayStats) (c : Count)
    → let b = unwrap_or c.baseline (first_of o os) in
      add_all (os ++ (o ∷ [])) c
      ≡ record c { baseline = some b; shown = counters (apply_session_baseline o b) }
add_all-last [] o c = refl
add_all-last (x ∷ xs) o c = add_all-last xs o (add x c)

-- The application shows the count.
abbrev pub Counts : Count → App → Type 0
Counts c s = count_of s ≡ c

pub Same-count_of : {s t : App} → Same s t → count_of t ≡ count_of s
Same-count_of k = cc (k.day, ap accepts k.config, k.baseline, ap counters k.overlay)

pub Same-Counts : {s t : App} (c : Count) → Same s t → Counts c s → Counts c t
Same-Counts c k h = Same-count_of k ∙ h

-- The count after a response.
apply_probe-count_of :
    {F : Type 0} (host : Host F) (m : Moment) (p : ProbePayload F) (s : App)
    → count_of (apply_probe host m p s) ≡ add p.overlay (count_of s)
apply_probe-count_of host m p s =
    let (shown, baseline) = apply_probe-counts host m p s in
    let (day, config) = apply_probe-kept host m p s in cc (day, ap accepts config, baseline, shown)

pub record_in_state-Counts :
    (c : Count) (m : Moment) (l t : Text) (s : App)
    → Counts c s
    → Counts c (record_in_state m l t s)
unfolding record_in_state record_activity
record_in_state-Counts c m l t s h = h

module _ {F : Type 0} where
  -- The statistics of the responses among the events.
  abbrev pub overlays : List (ProbePayload F) → List OverlayStats
  overlays ps = map (λ p. p.overlay) ps

module _ {F : Type 0} (host : Host F) where
  pub record_user_event-Counts :
      (c : Count) (m : Moment) (l t : Text) (s : App)
      → Counts c s
      → Counts c (record_user_event host m l t s)
  record_user_event-Counts c m l t s h = Same-Counts c (record_user_event-Same host m l t s) h

  observation_saved-Counts :
      (c : Count) (m : Moment) (r : Storage × Result StorageError ℕ) (s : App)
      → Counts c s
      → Counts c (observation_saved host m r s)
  unfolding observation_saved
  observation_saved-Counts c m (storage, ok _) s h = h
  observation_saved-Counts c m (storage, err x) s h = record_in_state-Counts c m _ _ _ h

  sync_lost-Counts : (c : Count) (m : Moment) (s : App) → Counts c s → Counts c (sync_lost host m s)
  unfolding sync_lost
  sync_lost-Counts c m s h = elim (Bool-cases s.last_sync_succeeded) [
    | inl e ↦ simp e (record_user_event-Counts c m _ _ s h)
    | inr e ↦ simp e h
  ]

  ready_received-Counts :
      (c : Count) (m : Moment) (b : Bool) (s : App)
      → Counts c s
      → Counts c (ready_received host m b s)
  unfolding ready_received
  ready_received-Counts c m true s h = record_in_state-Counts c m _ _ _ h
  ready_received-Counts c m false s h = h

  on_collector_event-Counts :
      (c : Count) (m : Moment) (e : CollectorEvent F) (s : App)
      → Counts c s
      → Counts (add_all (overlays (heard_of e)) c) (on_collector_event host m e s)
  unfolding on_collector_event with_capture_stats
  on_collector_event-Counts c m (CollectorEvent.connected version privileged) s h =
      record_in_state-Counts c m _ _ _ h
  on_collector_event-Counts c m (CollectorEvent.status message) s h =
      record_in_state-Counts c m _ _ _ h
  on_collector_event-Counts c m (CollectorEvent.stats st) s h = h
  on_collector_event-Counts c m (CollectorEvent.ready b) s h = ready_received-Counts c m b s h
  on_collector_event-Counts c m (CollectorEvent.observation v) s h =
      observation_saved-Counts c m _ s h
  on_collector_event-Counts c m (CollectorEvent.probe p) s h =
      apply_probe-count_of host m p s ∙ ap (add p.overlay) h
  on_collector_event-Counts c m (CollectorEvent.error message) s h =
      sync_lost-Counts c m _ (record_in_state-Counts c m _ _ _ h)
  on_collector_event-Counts c m CollectorEvent.stopped s h =
      record_user_event-Counts c m _ _ _ (record_in_state-Counts c m _ _ _ h)

  pub drain_collector-Counts :
      (c : Count) (m : Moment) (es : List (CollectorEvent F)) (s : App)
      → Counts c s
      → Counts (add_all (overlays (heard es)) c) (drain_collector host m es s)
  unfolding drain_collector
  drain_collector-Counts c m [] s h = h
  drain_collector-Counts c m (e ∷ es) s h =
      rw
        (
          map-append (λ (p : ProbePayload F). p.overlay) (heard_of e) (heard es),
          add_all-append (overlays (heard_of e)) (overlays (heard es)) c,
        )
        (drain_collector-Counts (add_all (overlays (heard_of e)) c) m es _
          (on_collector_event-Counts c m e s h))
