-- ===== src/Live/App/Restored.antt =====
-- A restart of crates/arc-live/src/ui.rs on the day of the stream.
use arc_twitch_widget.Prelude.{
  ℕ, Bool, true, false, Option, none, some, ◌≡◌, refl, sym, ap, ◌∙◌, if◌then◌else◌, is_empty,
  unwrap_or, arith,
}
use arc_twitch_widget.Prelude.Result.{Result, ok, err}
use arc_twitch_widget.Text.{Text, codes, eq_text}
use arc_twitch_widget.Core.Overlay.{OverlayStats, apply_session_baseline, hydrate_legacy_raw_totals}
use arc_twitch_widget.Core.State.{record_activity}
use arc_twitch_widget.Core.WidgetPresets.{WidgetConfig}
use arc_twitch_widget.Core.WidgetConfig.{apply}
use arc_twitch_widget.Storage.{
  Storage, StorageError, PersistedStreamSession, SessionRow, stream_session_schema_version,
}
use arc_twitch_widget.Storage.Access.{
  load_stream_session, save_stream_session, session_row, insert_user_event,
}
use arc_twitch_widget.Storage.Logged.{RoundTrips}
use arc_twitch_widget.Storage.Saved.{load-save, load-insert_user_event}
use arc_twitch_widget.Live.App.{
  Host, Moment, App, record_in_state, event_recorded, record_user_event, session_saved,
  persist_from, persist_stream_session,
}
use arc_twitch_widget.Live.App.Start.{
  Parts, found, of_day, restored_overlay, app_of, with_session, start_with, start, close,
}
use arc_twitch_widget.Live.App.Aside.{Same, Same-then, record_user_event-Same}
use arc_twitch_widget.Live.App.Counted.{counters}

-- The session that is saved at a moment.
abbrev pub session_at : Moment → OverlayStats → App → PersistedStreamSession
session_at m b s = record {
  schema_version = stream_session_schema_version;
  local_day = s.stream_day;
  started_at = unwrap_or s.stream_started_at m.now;
  updated_at = m.now;
  baseline = b;
  overlay = s.state.overlay;
}

module _ {F : Type 0} (host : Host F) where
  open host use {codec}

  session_saved-storage :
      (m : Moment) (r : Storage × Result StorageError (Unit {0})) (s : App)
      → (session_saved host m r s).storage ≡ r.0
  unfolding session_saved record_in_state
  session_saved-storage m (storage, ok _) s = refl
  session_saved-storage m (storage, err x) s = refl

  event_recorded-storage :
      (m : Moment) (l t : Text) (s : App)
      → (record_user_event host m l t s).storage
        ≡ (insert_user_event codec m.events m.prunes
            (record { at = m.now; local_day = s.stream_day; level = l; message = t })
            s.storage).0
  unfolding record_user_event
  event_recorded-storage m l t s = of (
      insert_user_event codec m.events m.prunes
        (record { at = m.now; local_day = s.stream_day; level = l; message = t }) s.storage)
    where
      of :
          (r : Storage × Result StorageError ℕ)
          → (event_recorded host m
              (record { at = m.now; local_day = s.stream_day; level = l; message = t })
              r
              s).storage
            ≡ r.0
      of (storage, ok _) = unfold event_recorded in refl
      of (storage, err x) = unfold event_recorded record_in_state in refl

  persist-storage :
      (m : Moment) (b : OverlayStats) (s : App)
      → s.session_baseline ≡ some b
      → (persist_stream_session host m s.state.overlay s).storage
        ≡ (save_stream_session codec m.sessions (session_at m b s) s.storage).0
  unfolding persist_stream_session
  persist-storage m b s h =
      ap (λ x. (persist_from host m x s.state.overlay s).storage) h
      ∙ (unfold persist_from in session_saved-storage m _ _)

  -- The database after the end of the program holds the session.
  load-close :
      (rt : RoundTrips codec) (m : Moment) (b : OverlayStats) (row : SessionRow) (s : App)
      → s.session_baseline ≡ some b
      → eq_text s.state.overlay.mode (codes "demo") ≡ false
      → m.sessions ≡ true
      → session_row codec (session_at m b s) ≡ ok row
      → load_stream_session codec true (close host m s).storage ≡ ok (some (session_at m b s))
  unfolding close
  load-close rt m b row s h live works q =
      ap (λ x. load_stream_session codec true (ended x).storage) live
      ∙ ap (load_stream_session codec true) (event_recorded-storage m _ _ saved)
      ∙ load-insert_user_event codec m.events m.prunes _ saved.storage
      ∙ ap (load_stream_session codec true) (
          persist-storage m b s h
          ∙ ap (λ w. (save_stream_session codec w (session_at m b s) s.storage).0) works)
      ∙ load-save codec rt (session_at m b s) row s.storage (omega arith) q
    where
      saved : App
      saved = persist_stream_session host m s.state.overlay s

      ended : Bool → App
      ended demo =
          record_user_event host m (codes "info")
            (codes "ARC Live закрыта — данные стрима сохранены") (if demo then s else saved)

  hydrated : (o : OverlayStats) → is_empty o.raw_totals ≡ false → hydrate_legacy_raw_totals o ≡ o
  unfolding hydrate_legacy_raw_totals
  hydrated o h = rw h refl

  counters-restored_overlay :
      (w : WidgetConfig) (current : OverlayStats) (x : PersistedStreamSession)
      → counters (restored_overlay w current x)
        ≡ counters (
            apply_session_baseline
              (hydrate_legacy_raw_totals x.overlay)
              (hydrate_legacy_raw_totals x.baseline))
  unfolding restored_overlay apply
  counters-restored_overlay w current x = refl

  with_session-baseline :
      (m : Moment) (x : PersistedStreamSession) (s : App)
      → (with_session host m x s).session_baseline ≡ some (hydrate_legacy_raw_totals x.baseline)
  unfolding with_session
  with_session-baseline m x s = refl

  with_session-counters :
      (m : Moment) (x : PersistedStreamSession) (s : App)
      → counters (with_session host m x s).state.overlay
        ≡ counters (
            apply_session_baseline
              (hydrate_legacy_raw_totals x.overlay)
              (hydrate_legacy_raw_totals x.baseline))
  unfolding with_session record_activity
  with_session-counters m x s = counters-restored_overlay s.widget_config s.state.overlay x

  start_with-found :
      (m : Moment) (r : Result StorageError (Option PersistedStreamSession))
      (x : PersistedStreamSession) (s : App)
      → r ≡ ok (some x)
      → eq_text x.local_day m.today ≡ true
      → start_with host m (found r) (of_day m.today (found r)) s
        ≡ record_user_event host m
            (codes "success")
            (codes "Статистика текущего стрима восстановлена")
            (with_session host m x s)
  unfolding start_with of_day
  start_with-found m r x s l d =
      ap (λ o. start_with host m (found o) (of_day m.today (found o)) s) l
      ∙ ap (λ b. start_with host m (some x) (if b then some x else none) s) d

  start-Same :
      (m : Moment) (p : Parts) (x : PersistedStreamSession)
      → load_stream_session codec m.sessions p.storage ≡ ok (some x)
      → eq_text x.local_day m.today ≡ true
      → Same (with_session host m x (app_of host m p)) (start host m p)
  unfolding start
  start-Same m p x l d =
      rw (start_with-found m _ x (app_of host m p) l d)
        (Same-then (record_user_event-Same host m _ _ _) (record_user_event-Same host m _ _ _))

  -- A restart on the same day goes on with the stream. Where the program ends with a baseline, without
  -- the numbers of a demo and with the counters that the baseline gives, SQLite carries the write and the
  -- read of the session out, serde writes the session and reads back what it writes, and both catalogues
  -- of totals are filled: the program that starts on the database that was left has the same baseline, and
  -- its widget the same counters.
  pub start-counts :
      (rt : RoundTrips codec) (m m' : Moment) (p : Parts) (b : OverlayStats) (row : SessionRow)
      (s : App)
      → s.session_baseline ≡ some b
      → counters s.state.overlay ≡ counters (apply_session_baseline s.state.overlay b)
      → eq_text s.state.overlay.mode (codes "demo") ≡ false
      → is_empty s.state.overlay.raw_totals ≡ false
      → is_empty b.raw_totals ≡ false
      → m.sessions ≡ true
      → m'.sessions ≡ true
      → session_row codec (session_at m b s) ≡ ok row
      → eq_text s.stream_day m'.today ≡ true
      → p.storage ≡ (close host m s).storage
      → ((start host m' p).session_baseline ≡ some b)
        × (counters (start host m' p).state.overlay ≡ counters s.state.overlay)
  start-counts rt m m' p b row s h counted live filled filled' works works' q day left =
      let x = session_at m b s in
      let l : load_stream_session codec m'.sessions p.storage ≡ ok (some x) =
        ap (λ w. load_stream_session codec w p.storage) works'
        ∙ ap (load_stream_session codec true) left
        ∙ load-close rt m b row s h live works q in
      let k = start-Same m' p x l day in
      (
        k.baseline ∙ with_session-baseline m' x (app_of host m' p) ∙ ap some (hydrated b filled'),
        ap counters k.overlay
            ∙ with_session-counters m' x (app_of host m' p)
            ∙ ap (λ o. counters (apply_session_baseline o (hydrate_legacy_raw_totals b)))
                (hydrated s.state.overlay filled)
            ∙ ap (λ o. counters (apply_session_baseline s.state.overlay o)) (hydrated b filled')
            ∙ sym counted,
      )
