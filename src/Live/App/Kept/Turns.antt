-- ===== src/Live/App/Kept/Turns.antt =====
-- Whole runs of crates/arc-live/src/ui.rs: the start, then what the user does and what
-- `ArcLiveApp::logic` drains, in any order.
use mathlib.Core.List.{Mem, mem-cons_self, mem-cons_of_mem, mem-append_left, mem-append_right}
use arc_twitch_widget.Prelude.{◌++◌, ◌≤◌, List, [], ◌∷◌, Option, length, if_cases, leb}
use arc_twitch_widget.Text.{Text}
use arc_twitch_widget.Core.Config.{disclaimer_revision}
use arc_twitch_widget.Core.WidgetFile.{File}
use arc_twitch_widget.Core.WidgetFile.Valid.{IsValid}
use arc_twitch_widget.Collector.{CollectorEvent}
use arc_twitch_widget.Live.Updates.{Remote}
use arc_twitch_widget.Live.Updates.Download.{Response}
use arc_twitch_widget.Live.Updates.Manager
use arc_twitch_widget.Live.Updates.Manager.{UpdateManager, UpdateEvent, manager_new}
use arc_twitch_widget.Live.Updates.Manager.Reachable.{
  Thread, event_of, IsGenuine, check-IsGenuine, download-IsGenuine, receive-IsGenuine,
}
use arc_twitch_widget.Live.App.{Host, Moment, App}
use arc_twitch_widget.Live.App.Events.{GameStatus}
use arc_twitch_widget.Live.App.Stream.{rollover_day_if_needed}
use arc_twitch_widget.Live.App.Actions.{Action, apply_action}
use arc_twitch_widget.Live.App.Start.{Parts, start, logic}
use arc_twitch_widget.Live.App.Kept.{IsKept, rollover_day_if_needed-IsKept}
use arc_twitch_widget.Live.App.Kept.Events.{drain_events-IsKept}
use arc_twitch_widget.Live.App.Kept.Actions.{Closed, apply_action-IsKept, start-IsKept}

module _ (r : Remote) (public_key current_version : Text) (send : Text → Option Response)
    {F : Type 0} (host : Host F) where
  open host use {sha256_hex}

  abbrev UpdateThread : Type 0
  UpdateThread = Thread r public_key current_version send sha256_hex

  -- What happens to the running application: an action, or a frame, for which threads of the updates,
  -- the collector and the process monitor have sent something.
  pub data Turn : Type 0 where
    acted : Moment → Action → Turn
    drawn : Moment → List UpdateThread → List (CollectorEvent F) → List GameStatus → Turn
    -- Somebody else writes or removes the files of settings, or makes them unreadable.
    edited : File → File → Turn

  abbrev news_of : List UpdateThread → List UpdateEvent
  news_of [] = []
  news_of (t ∷ ts) = event_of r public_key current_version send sha256_hex t ∷ news_of ts

  unfoldable pub take_turn : Turn → App → App
  take_turn (acted m a) s = apply_action host m a s
  take_turn (drawn m threads events statuses) s = logic host m (news_of threads) events statuses s
  take_turn (edited config widgets) s = record s { config_file = config; widget_file = widgets }

  -- The turns, the first one first.
  unfoldable pub run_turns : List Turn → App → App
  run_turns [] s = s
  run_turns (t ∷ ts) s = run_turns ts (take_turn t s)

  -- The threads whose news the turns bring.
  abbrev pub threads_of : List Turn → List UpdateThread
  threads_of [] = []
  threads_of (drawn m ws es gs ∷ ts) = ws ++ threads_of ts
  threads_of (_ ∷ ts) = threads_of ts

  -- The manager holds what threads of the run have found and returned.
  abbrev pub Genuine : List UpdateThread → UpdateManager → Type 0
  Genuine all u = IsGenuine r public_key current_version send sha256_hex all u

  Genuine-Closed : (all : List UpdateThread) → Closed (Genuine all)
  unfolding manager_new
  Genuine-Closed all = record {
    checked = check-IsGenuine r public_key current_version send sha256_hex all;
    downloading = download-IsGenuine r public_key current_version send sha256_hex all;
    cleared = λ u h. record { offer = tt; installer = tt };
    failed = λ e u h. record { offer = h.offer; installer = h.installer };
    new = record { offer = tt; installer = tt };
  }

  drain-Genuine :
      (all ts : List UpdateThread) (u : UpdateManager)
      → ((t : UpdateThread) → Mem t ts → Mem t all)
      → Genuine all u
      → Genuine all (Manager.drain (news_of ts) u)
  unfolding Manager.drain
  drain-Genuine all [] u within h = h
  drain-Genuine all (t ∷ ts) u within h =
      drain-Genuine all ts _ (λ x i. within x (mem-cons_of_mem t i))
        (receive-IsGenuine r public_key current_version send sha256_hex all t u
          (within t mem-cons_self) h)

  logic-IsKept :
      (all : List UpdateThread) (m : Moment) (ts : List UpdateThread) (es : List (CollectorEvent F))
      (gs : List GameStatus) (s : App)
      → ((t : UpdateThread) → Mem t ts → Mem t all)
      → IsKept (Genuine all) s
      → IsKept (Genuine all) (logic host m (news_of ts) es gs s)
  unfolding logic
  logic-IsKept all m ts es gs s within (a, e, v, u) =
      let told = record s { updates = Manager.drain (news_of ts) s.updates } in
      let k : IsKept (Genuine all) told = (a, e, v, drain-Genuine all ts s.updates within u) in
      drain_events-IsKept (Genuine all) host m es gs _ (
        if_cases (IsKept (Genuine all))
          (leb disclaimer_revision s.config.disclaimer_accepted_revision)
          {x = rollover_day_if_needed host m told} {y = told}
          (λ e. rollover_day_if_needed-IsKept (Genuine all) host m told k) (λ e. k))

  run_turns-IsKept_from :
      (all : List UpdateThread) (ts : List Turn) (s : App)
      → ((t : UpdateThread) → Mem t (threads_of ts) → Mem t all)
      → IsKept (Genuine all) s
      → IsKept (Genuine all) (run_turns ts s)
  unfolding run_turns take_turn
  run_turns-IsKept_from all [] s within h = h
  run_turns-IsKept_from all (acted m a ∷ ts) s within h =
      run_turns-IsKept_from all ts _ within
        (apply_action-IsKept (Genuine all) (Genuine-Closed all) host m a s h)
  run_turns-IsKept_from all (drawn m ws es gs ∷ ts) s within h =
      run_turns-IsKept_from all ts _ (λ t i. within t (mem-append_right ws i))
        (logic-IsKept all m ws es gs s (λ t i. within t (mem-append_left (threads_of ts) i)) h)
  run_turns-IsKept_from all (edited config widgets ∷ ts) s within h =
      run_turns-IsKept_from all ts _ within h

  -- From a start with a valid layout and at most a hundred lines of activity, whatever the user does,
  -- the game and the server of updates send, and others write to the files of settings, in any order:
  -- the window has at most a hundred lines of activity and thirty events; the layout in use has passed
  -- its check; an update that is offered was found by a check of the run, is signed by the program's key
  -- and newer than the program; and the path that would be launched was returned by a download of the
  -- run, which left there an installer within the bound and with the digest of its manifest.
  pub run_turns-IsKept :
      (m : Moment) (p : Parts) (ts : List Turn)
      → length p.state.activity ≤ 100
      → IsValid p.widget_config
      → IsKept (Genuine (threads_of ts)) (run_turns ts (start host m p))
  run_turns-IsKept m p ts few valid =
      run_turns-IsKept_from (threads_of ts) ts _ (λ t i. i)
        (start-IsKept (Genuine (threads_of ts)) (Genuine-Closed (threads_of ts)) host m p few valid)
