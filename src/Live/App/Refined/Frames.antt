-- ===== src/Live/App/Refined/Frames.antt =====
-- `ArcLiveApp::logic` of crates/arc-live/src/ui.rs, frame after frame, against the count of the
-- stream.
use arc_twitch_widget.Prelude.{
  ◌≡◌, refl, ◌∙◌, leb, if◌then◌else◌, All, Bool, true, false, inl, inr, Bool-cases, List, [], ◌∷◌,
  ◌++◌, Option, none, some, ◌||◌, if_cases, map-append,
}
use arc_twitch_widget.Text.{Text, eq_text}
use arc_twitch_widget.Core.Overlay.{OverlayStats}
use arc_twitch_widget.Core.WidgetConfig.{apply}
use arc_twitch_widget.Core.Config.{disclaimer_revision}
use arc_twitch_widget.Live.Updates.Manager
use arc_twitch_widget.Live.Updates.Manager.{UpdateEvent}
use arc_twitch_widget.Live.App.Stream.{zero_session, zero_today, rollover_day_if_needed}
use arc_twitch_widget.Live.App.Start.{logic}
use arc_twitch_widget.Live.App.Counted.{counters, fresh_day, rollover_day-Same}
use arc_twitch_widget.Core.State.{
  GameKeylogStatus, unknown, missing, matches, different, waiting_for_game,
}
use arc_twitch_widget.Collector.{CollectorEvent, ProbePayload}
use arc_twitch_widget.Collector.Passes.{heard, heard-append}
use arc_twitch_widget.Live.App.{Host, Moment, App, notify}
use arc_twitch_widget.Live.App.Events.{
  GameStatus, drain_collector, missing_warned, path_warned, keylog_changed, running_changed,
  on_process_status, drain_processes, drain_events, statuses_change, some_event, eq_keylog, eq_bool,
  set_phase,
}
use arc_twitch_widget.Live.App.Aside.{
  Same, Same-then, record_in_state-Same, record_user_event-Same, persist_stream_session-Same,
}
use arc_twitch_widget.Live.App.Refined.{
  Count, add_all, add_all-append, Counts, overlays, Same-Counts, Same-count_of, add, count_of,
  record_in_state-Counts, record_user_event-Counts, drain_collector-Counts,
}

-- What one frame drains: the events of the threads of the updates, those of the collector, and the
-- statuses of the game's process.
pub record Frame (F : Type 0) : Type 0 where
  pub moment : Moment
  pub news : List UpdateEvent
  pub events : List (CollectorEvent F)
  pub statuses : List GameStatus

-- Another day: no baseline, and nothing counted.
abbrev pub new_day : Text → Count → Count
new_day today c =
    if c.accepted
    then if eq_text today c.day
      then c
      else record c { day = today; baseline = none; shown = zero_today (zero_session c.shown) }
    else c

add_all-day : (os : List OverlayStats) (c : Count) → (add_all os c).day ≡ c.day
add_all-day [] c = refl
add_all-day (o ∷ os) c = add_all-day os (add o c)

new_day-same : (today : Text) (c : Count) → eq_text today c.day ≡ true → new_day today c ≡ c
new_day-same today c h = rw h (of c.accepted)
  where
    of : (b : Bool) → (if b then c else c) ≡ c
    of true = refl
    of false = refl

module _ {F : Type 0} where
  abbrev pub events_of : List (Frame F) → List (CollectorEvent F)
  events_of [] = []
  events_of (f ∷ fs) = f.events ++ events_of fs

  -- The count after the frames: in each, first the day, then the responses.
  abbrev pub count_all : List (Frame F) → Count → Count
  count_all [] c = c
  count_all (f ∷ fs) c =
      count_all fs (add_all (overlays (heard f.events)) (new_day f.moment.today c))

  -- Frames of one day are as one.
  pub count_all-same :
      (fs : List (Frame F)) (c : Count)
      → All (λ f. eq_text f.moment.today c.day ≡ true) fs
      → count_all fs c ≡ add_all (overlays (heard (events_of fs))) c
  count_all-same [] c h = refl
  count_all-same (f ∷ fs) c (h, hs) =
      let os = overlays (heard f.events) in
      rw
        (
          new_day-same f.moment.today c h,
          heard-append f.events (events_of fs),
          map-append (λ (p : ProbePayload F). p.overlay) (heard f.events) (heard (events_of fs)),
          add_all-append os (overlays (heard (events_of fs))) c,
        )
        (count_all-same fs (add_all os c) (rw (add_all-day os c) hs))

module _ {F : Type 0} (host : Host F) where
  missing_warned-Counts :
      (c : Count) (m : Moment) (k : GameKeylogStatus) (s : App)
      → Counts c s
      → Counts c (missing_warned host m k s)
  unfolding missing_warned
  missing_warned-Counts c m unknown s h = h
  missing_warned-Counts c m missing s h = record_in_state-Counts c m _ _ _ h
  missing_warned-Counts c m matches s h = h
  missing_warned-Counts c m different s h = h

  path_warned-Counts :
      (c : Count) (m : Moment) (o : Option Text) (s : App)
      → Counts c s
      → Counts c (path_warned host m o s)
  unfolding path_warned
  path_warned-Counts c m none s h = h
  path_warned-Counts c m (some path) s h = record_in_state-Counts c m _ _ _ h

  keylog_changed-Counts :
      (c : Count) (m : Moment) (g : GameStatus) (s : App)
      → Counts c s
      → Counts c (keylog_changed host m g s)
  unfolding keylog_changed
  keylog_changed-Counts c m g s h = elim (Bool-cases (eq_keylog s.state.game_keylog g.keylog)) [
    | inl e ↦ rw e h
    | inr e ↦ rw e (path_warned-Counts c m _ _ (missing_warned-Counts c m _ _ h))
  ]

  running_stopped-Same : (m : Moment) (s : App) → Same s (running_changed host m false s)
  unfolding running_changed
  running_stopped-Same m s =
      let stopped = record s { state = record s.state { game_running = false } } in
      let waiting =
        if s.state.launcher_prepared then set_phase waiting_for_game stopped else stopped in
      let k : Same s waiting =
        if_cases (Same s) s.state.launcher_prepared {x = set_phase waiting_for_game stopped}
          {y = stopped} (λ e. record { overlay = refl; baseline = refl; day = refl; config = refl })
          (λ e. record { overlay = refl; baseline = refl; day = refl; config = refl }) in
      Same-then k (
        Same-then (record_in_state-Same m _ _ _) (
          Same-then (record_user_event-Same host m _ _ _) (persist_stream_session-Same host m _ _)))

  running_changed-Counts :
      (c : Count) (m : Moment) (b : Bool) (s : App)
      → Counts c s
      → Counts c (running_changed host m b s)
  unfolding running_changed
  running_changed-Counts c m true s h =
      record_user_event-Counts host c m _ _ _ (record_in_state-Counts c m _ _ _ h)
  running_changed-Counts c m false s h = Same-Counts c (running_stopped-Same m s) h

  on_process_status-Counts :
      (c : Count) (m : Moment) (g : GameStatus) (s : App)
      → Counts c s
      → Counts c (on_process_status host m g s)
  unfolding on_process_status
  on_process_status-Counts c m g s h =
      let t = keylog_changed host m g s in
      let k = keylog_changed-Counts c m g s h in
      if_cases (Counts c) (eq_bool t.state.game_running g.running) {x = t}
        {y = running_changed host m g.running t} (λ e. k)
        (λ e. running_changed-Counts c m g.running t k)

  drain_processes-Counts :
      (c : Count) (m : Moment) (gs : List GameStatus) (s : App)
      → Counts c s
      → Counts c (drain_processes host m gs s)
  unfolding drain_processes
  drain_processes-Counts c m [] s h = h
  drain_processes-Counts c m (g ∷ gs) s h =
      drain_processes-Counts c m gs _ (on_process_status-Counts c m g s h)

  drain_events-Counts :
      (c : Count) (m : Moment) (es : List (CollectorEvent F)) (gs : List GameStatus) (s : App)
      → Counts c s
      → Counts (add_all (overlays (heard es)) c) (drain_events host m es gs s)
  unfolding drain_events notify
  drain_events-Counts c m es gs s h =
      let collected = drain_collector host m es s in
      let drained = drain_processes host m gs collected in
      let k =
        drain_processes-Counts (add_all (overlays (heard es)) c) m gs collected
          (drain_collector-Counts host c m es s h) in
      if_cases (Counts (add_all (overlays (heard es)) c))
        (some_event host es || statuses_change host gs collected m) {x = notify drained}
        {y = drained} (λ e. k) (λ e. k)

  fresh_day-count_of :
      (m : Moment) (s : App)
      → count_of (fresh_day host m s) ≡ record (count_of s) {
        day = m.today;
        baseline = none;
        shown = zero_today (zero_session (counters s.state.overlay));
      }
  unfolding fresh_day apply zero_today zero_session
  fresh_day-count_of m s = refl

  rollover_day_if_needed-Counts :
      (c : Count) (m : Moment) (s : App)
      → Counts c s
      → Counts
          (if eq_text m.today c.day then c else record c {
            day = m.today;
            baseline = none;
            shown = zero_today (zero_session c.shown);
          })
          (rollover_day_if_needed host m s)
  unfolding rollover_day_if_needed
  rollover_day_if_needed-Counts c m s h =
      rw (← h) (elim (Bool-cases (eq_text m.today s.stream_day)) [
        | inl e ↦ rw e refl
        | inr e ↦ rw e (Same-count_of (rollover_day-Same host m s) ∙ fresh_day-count_of m s)
      ])

  day_begun-Counts :
      (c : Count) (m : Moment) (s : App)
      → Counts c s
      → Counts (new_day m.today c) (
          if leb disclaimer_revision s.config.disclaimer_accepted_revision
          then rollover_day_if_needed host m s
          else s)
  day_begun-Counts c m s h =
      rw (← h) (of (leb disclaimer_revision s.config.disclaimer_accepted_revision))
    where
      begun : Count
      begun = if eq_text m.today s.stream_day then count_of s else record (count_of s) {
        day = m.today;
        baseline = none;
        shown = zero_today (zero_session (counters s.state.overlay));
      }

      of :
          (b : Bool)
          → count_of (if b then rollover_day_if_needed host m s else s)
            ≡ (if b then begun else count_of s)
      of true = rollover_day_if_needed-Counts (count_of s) m s refl
      of false = refl

  logic-Counts :
      (c : Count) (f : Frame F) (s : App)
      → Counts c s
      → Counts
          (add_all (overlays (heard f.events)) (new_day f.moment.today c))
          (logic host f.moment f.news f.events f.statuses s)
  unfolding logic
  logic-Counts c f s h =
      drain_events-Counts (new_day f.moment.today c) f.moment f.events f.statuses _
        (day_begun-Counts c f.moment (record s { updates = Manager.drain f.news s.updates }) h)

  -- The frames, the first one first.
  abbrev pub draw_all : List (Frame F) → App → App
  draw_all [] s = s
  draw_all (f ∷ fs) s = draw_all fs (logic host f.moment f.news f.events f.statuses s)

  -- The frames against a machine that knows the day, whether the notice is accepted, and the responses.
  -- Before the responses of a frame, where the notice is accepted and the day is another, it forgets its
  -- baseline and counts nothing; then the first response is the baseline, and each shows what it adds to
  -- that. However the events are cut into frames, and whatever other events of the collector, statuses
  -- of the process, news of the updates and failures of SQLite come with them, after frames without an
  -- action of the user between them the day, the baseline and the numbers of the widget are those of the
  -- machine.
  pub draw_all-Counts :
      (c : Count) (fs : List (Frame F)) (s : App)
      → Counts c s
      → Counts (count_all fs c) (draw_all fs s)
  draw_all-Counts c [] s h = h
  draw_all-Counts c (f ∷ fs) s h =
      draw_all-Counts (add_all (overlays (heard f.events)) (new_day f.moment.today c)) fs
        (logic host f.moment f.news f.events f.statuses s) (logic-Counts c f s h)
