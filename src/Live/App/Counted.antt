-- ===== src/Live/App/Counted.antt =====
-- What the widget counts after the operations of crates/arc-live/src/ui.rs.
use arc_twitch_widget.Prelude.{Bool, [], Option, none, some, ◌≡◌, refl, ap, ◌∙◌, unwrap_or}
use arc_twitch_widget.Text.{Text, codes}
use arc_twitch_widget.BTreeMap
use arc_twitch_widget.Core.Overlay.{OverlayStats, apply_session_baseline}
use arc_twitch_widget.Core.Overlay.Baseline.{IsFresh, total, apply_session_baseline-IsFresh}
use arc_twitch_widget.Core.State.{record_activity}
use arc_twitch_widget.Core.WidgetPresets.{WidgetConfig}
use arc_twitch_widget.Core.WidgetConfig.{apply}
use arc_twitch_widget.Collector.{ProbePayload}
use arc_twitch_widget.Live.App.{
  Host, Moment, App, record_in_state, edit_overlay, record_user_event, persist_stream_session,
}
use arc_twitch_widget.Live.App.Stream.{zero_session, zero_today, rollover_day, start_new_stream}
use arc_twitch_widget.Live.App.Probe.{
  Change, with_look_of, overlay_of_probe, with_baseline, show_probe, apply_probe, sync_saved,
  widgets_loaded,
}
use arc_twitch_widget.Live.App.Aside.{
  Same, Same-then, record_in_state-Same, notify-Same, record_user_event-Same,
  persist_stream_session-Same, sync_saved-Same, widgets_loaded-Same,
}

-- The numbers of an overlay, without its mode, its look and its layout.
abbrev pub counters : OverlayStats → OverlayStats
counters o = record o {
  mode = [];
  preset = [];
  language = [];
  opacity = 0;
  background_preset = [];
  background_color = (0, 0, 0);
  background_blur = 0;
  presets = [];
}

counters-apply : (w : WidgetConfig) (o : OverlayStats) → counters (apply w o) ≡ counters o
unfolding apply
counters-apply w o = refl

counters-overlay_of_probe :
    (w : WidgetConfig) (b old o : OverlayStats)
    → counters (overlay_of_probe w b old o) ≡ counters (apply_session_baseline o b)
unfolding overlay_of_probe with_look_of apply
counters-overlay_of_probe w b old o = refl

-- The baseline of the stream: that which it has, or the response itself.
abbrev pub baseline_with : OverlayStats → App → OverlayStats
baseline_with o s = unwrap_or s.session_baseline o

module _ {F : Type 0} (host : Host F) where
  with_baseline-baseline :
      (m : Moment) (o : OverlayStats) (b : Option OverlayStats) (s : App)
      → s.session_baseline ≡ b
      → (with_baseline host m o b s).session_baseline ≡ some (unwrap_or b o)
  unfolding with_baseline
  with_baseline-baseline m o none s h = refl
  with_baseline-baseline m o (some b) s h = h

  with_baseline-kept :
      (m : Moment) (o : OverlayStats) (b : Option OverlayStats) (s : App)
      → ((with_baseline host m o b s).stream_day ≡ s.stream_day)
        × ((with_baseline host m o b s).config ≡ s.config)
  unfolding with_baseline
  with_baseline-kept m o none s = (refl, refl)
  with_baseline-kept m o (some b) s = (refl, refl)

  shown-Same :
      (m : Moment) (l t l' t' : Text) (o : OverlayStats) (s : App)
      → Same (edit_overlay (λ _. o) s) (
          record_user_event host m l' t'
            (persist_stream_session host m o (record_in_state m l t (edit_overlay (λ _. o) s))))
  shown-Same m l t l' t' o s =
      Same-then (record_in_state-Same m l t (edit_overlay (λ _. o) s))
        (Same-then (persist_stream_session-Same host m o _) (record_user_event-Same host m l' t' _))

  -- The overlay that a response leads to, and its baseline.
  show_probe-counts :
      (m : Moment) (p : ProbePayload F) (c : Option Change) (f : Bool) (b : OverlayStats) (s : App)
      → s.session_baseline ≡ some b
      → (counters (show_probe host m p c f s).state.overlay
          ≡ counters (apply_session_baseline p.overlay b))
        × ((show_probe host m p c f s).session_baseline ≡ some b)
  unfolding show_probe
  show_probe-counts m p c f b s h =
      let o =
        overlay_of_probe s.widget_config (unwrap_or s.session_baseline p.overlay) s.state.overlay
          p.overlay in
      let k = shown-Same m _ _ _ _ o s in
      (
        ap counters k.overlay
            ∙ counters-overlay_of_probe s.widget_config (unwrap_or s.session_baseline p.overlay)
                s.state.overlay p.overlay
            ∙ ap (λ x. counters (apply_session_baseline p.overlay (unwrap_or x p.overlay))) h,
        k.baseline ∙ h,
      )

  -- A response leaves the day and the settings alone.
  pub apply_probe-kept :
      (m : Moment) (p : ProbePayload F) (s : App)
      → ((apply_probe host m p s).stream_day ≡ s.stream_day)
        × ((apply_probe host m p s).config ≡ s.config)
  unfolding apply_probe show_probe
  apply_probe-kept m p s =
      let saved = sync_saved host m _ s in
      let k : Same s saved = sync_saved-Same host m _ s in
      let counted = record saved { last_totals = some p.overlay } in
      let (d, f) = with_baseline-kept m p.overlay saved.session_baseline counted in
      let started = with_baseline host m p.overlay saved.session_baseline counted in
      let l = widgets_loaded-Same host m _ started in
      let n = shown-Same m _ _ _ _ _ (widgets_loaded host m _ started) in
      (n.day ∙ l.day ∙ d ∙ k.day, n.config ∙ l.config ∙ f ∙ k.config)

  -- After a response, whatever SQLite and the file of the layout do: the stream has the baseline that it
  -- had, or the response itself if it had none, and the widget counts what the response adds to that
  -- baseline.
  pub apply_probe-counts :
      (m : Moment) (p : ProbePayload F) (s : App)
      → (counters (apply_probe host m p s).state.overlay
          ≡ counters (apply_session_baseline p.overlay (baseline_with p.overlay s)))
        × ((apply_probe host m p s).session_baseline ≡ some (baseline_with p.overlay s))
  unfolding apply_probe
  apply_probe-counts m p s =
      let saved = sync_saved host m _ s in
      let k : Same s saved = sync_saved-Same host m _ s in
      let counted = record saved { last_totals = some p.overlay } in
      let started = with_baseline host m p.overlay saved.session_baseline counted in
      let b = with_baseline-baseline m p.overlay saved.session_baseline counted refl in
      let l = widgets_loaded-Same host m _ started in
      show_probe-counts m p _ _ (baseline_with p.overlay s) _
        (l.baseline ∙ b ∙ ap (λ x. some (unwrap_or x p.overlay)) k.baseline)

IsFresh-counters : (o o' : OverlayStats) → counters o ≡ counters o' → IsFresh o' → IsFresh o
IsFresh-counters o o' e h = record {
  downs = ap (λ (x : OverlayStats). x.session_downs) e ∙ h.downs;
  extractions = ap (λ (x : OverlayStats). x.session_extractions) e ∙ h.extractions;
  deaths = ap (λ (x : OverlayStats). x.session_deaths) e ∙ h.deaths;
  loot_value = ap (λ (x : OverlayStats). x.session_loot_value) e ∙ h.loot_value;
  money_delta = ap (λ (x : OverlayStats). x.session_money_delta) e ∙ h.money_delta;
  raw_totals = λ k. ap (λ (x : OverlayStats). total x.session_raw_totals k) e ∙ h.raw_totals k;
}

zero_session-IsFresh : (o : OverlayStats) → IsFresh (zero_session o)
unfolding zero_session BTreeMap.get
zero_session-IsFresh o = record {
  downs = refl;
  extractions = refl;
  deaths = refl;
  loot_value = refl;
  money_delta = refl;
  raw_totals = λ k. refl;
}

zero_today-IsFresh : (o : OverlayStats) → IsFresh o → IsFresh (zero_today o)
unfolding zero_today
zero_today-IsFresh o h = record {
  downs = h.downs;
  extractions = h.extractions;
  deaths = h.deaths;
  loot_value = h.loot_value;
  money_delta = h.money_delta;
  raw_totals = h.raw_totals;
}

module _ {F : Type 0} (host : Host F) where
  -- The application on the new day, before the user is told.
  unfoldable pub fresh_day : Moment → App → App
  fresh_day m s =
      edit_overlay (λ o. apply s.widget_config (zero_today (zero_session o)))
        (record s { stream_day = m.today; session_baseline = none; stream_started_at = none })

  pub rollover_day-Same : (m : Moment) (s : App) → Same (fresh_day m s) (rollover_day host m s)
  unfolding rollover_day fresh_day
  rollover_day-Same m s =
      let k =
        Same-then (record_in_state-Same m _ _ _)
          (Same-then (notify-Same _) (record_user_event-Same host m _ _ _)) in
      record { overlay = k.overlay; baseline = k.baseline; day = k.day; config = k.config }

  -- On a new day the stream starts at zero, whatever it counted on the day before: the widget shows no
  -- counter of a stream at once, and the first response after it, whatever its totals, adds nothing.
  pub rollover_day-IsFresh :
      (m m' : Moment) (p : ProbePayload F) (s : App)
      → IsFresh (rollover_day host m s).state.overlay
        × IsFresh (apply_probe host m' p (rollover_day host m s)).state.overlay
  rollover_day-IsFresh m m' p s =
      let k = rollover_day-Same m s in
      let zeroed : IsFresh (fresh_day m s).state.overlay =
        unfold fresh_day in
        IsFresh-counters _ (zero_today (zero_session s.state.overlay))
          (counters-apply s.widget_config (zero_today (zero_session s.state.overlay)))
          (zero_today-IsFresh _ (zero_session-IsFresh s.state.overlay)) in
      let first : (rollover_day host m s).session_baseline ≡ none =
        k.baseline ∙ (unfold fresh_day in refl) in
      (
        rw k.overlay zeroed,
        IsFresh-counters _ (apply_session_baseline p.overlay p.overlay)
            ((apply_probe-counts host m' p (rollover_day host m s)).0
              ∙ ap (λ x. counters (apply_session_baseline p.overlay (unwrap_or x p.overlay))) first)
            (apply_session_baseline-IsFresh p.overlay),
      )

  -- The application with a new stream, before it is saved.
  fresh_stream : Moment → App → App
  fresh_stream m s =
      edit_overlay (λ o. apply s.widget_config (zero_session (record o { mode = codes "live" })))
        (record s { session_baseline = some s.state.overlay })

  start_new_stream-Same :
      (m : Moment) (s : App) → Same (fresh_stream m s) (start_new_stream host m s)
  unfolding start_new_stream fresh_stream record_in_state record_activity
  start_new_stream-Same m s =
      let k = Same-then (persist_stream_session-Same host m _ _) (
        record_user_event-Same host m (codes "success")
          (codes "Статистика стрима сброшена — счётчики обнулены") _) in
      record { overlay = k.overlay; baseline = k.baseline; day = k.day; config = k.config }

  -- A stream that the user starts anew shows zero at once, and after the next response the widget counts
  -- what that adds to the totals that were shown at the reset, whatever counted before.
  pub start_new_stream-counts :
      (m m' : Moment) (p : ProbePayload F) (s : App)
      → IsFresh (start_new_stream host m s).state.overlay
        × (counters (apply_probe host m' p (start_new_stream host m s)).state.overlay
            ≡ counters (apply_session_baseline p.overlay s.state.overlay))
  start_new_stream-counts m m' p s =
      let k = start_new_stream-Same m s in
      let o : OverlayStats = record s.state.overlay { mode = codes "live" } in
      let zeroed : IsFresh (fresh_stream m s).state.overlay =
        unfold fresh_stream in
        IsFresh-counters _ (zero_session o) (counters-apply s.widget_config (zero_session o))
          (zero_session-IsFresh o) in
      let kept : (start_new_stream host m s).session_baseline ≡ some s.state.overlay =
        k.baseline ∙ (unfold fresh_stream in refl) in
      (
        rw k.overlay zeroed,
        (apply_probe-counts host m' p (start_new_stream host m s)).0
            ∙ ap (λ x. counters (apply_session_baseline p.overlay (unwrap_or x p.overlay))) kept,
      )
