-- ===== src/Live/App/Refined/Streamed.antt =====
-- From the capture to the widget: crates/collector/src/lib.rs and crates/arc-live/src/ui.rs together.
use arc_twitch_widget.Prelude.{ℕ, Bool, ◌≤◌, List, ◌++◌, length, All, true, ◌≡◌, refl}
use arc_twitch_widget.Text.{Text, eq_text}
use arc_twitch_widget.Json.{Float}
use arc_twitch_widget.Collector.{CollectorStep, start_local, run}
use arc_twitch_widget.Collector.Accepted.{accepted, arrivals}
use arc_twitch_widget.Collector.Drained.{rounds, received-run}
use arc_twitch_widget.Collector.Work.{IsLive, work}
use arc_twitch_widget.Live.App.{Host, App}
use arc_twitch_widget.Live.App.Refined.{add_all, Counts, count_of, overlays}
use arc_twitch_widget.Live.App.Refined.Frames.{
  Frame, events_of, count_all-same, draw_all, draw_all-Counts,
}

module _ (fl : Float) (host : Host fl.F) where
  open fl use {F}

  -- The capture may send anything but `stopped`, in any order with the turns of the worker. After steps
  -- that leave the capture alive, the consumer there and nobody asking for a stop, and enough rounds in
  -- which the consumer takes an event and the worker has its turn, let the window draw frames that drain
  -- what was taken, in any number of them, all on the day of its stream and without an action of the
  -- user between them: its baseline and its numbers are those that the responses which
  -- `normalize_player_stats` accepts lead to, all of them, each once and in the order in which the game
  -- got them.
  pub draw_all-run :
      (version : Text) (privileged : Bool) (xs : List (CollectorStep fl)) (ts : List ℕ)
      (fs : List (Frame F)) (s : App)
      → IsLive (run fl xs (start_local version privileged))
      → work (run fl xs (start_local version privileged)) ≤ length ts
      → events_of fs ≡ (run fl (xs ++ rounds fl ts) (start_local version privileged)).received
      → All (λ f. eq_text f.moment.today s.stream_day ≡ true) fs
      → Counts (add_all (overlays (accepted fl (arrivals fl xs))) (count_of s)) (draw_all host fs s)
  draw_all-run version privileged xs ts fs s live enough drained days =
      let k = draw_all-Counts host (count_of s) fs s refl in
      rw
        (
          ← received-run fl version privileged xs ts live enough,
          ← drained,
          ← count_all-same fs (count_of s) days,
        )
        k
