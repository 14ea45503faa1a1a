-- ===== src/Collector/Tests.antt =====
-- Runs of crates/collector on small inputs, and instances of its theorems.
use arc_twitch_widget.Prelude.{
  ℕ, zero, suc, ◌≡◌, refl, true, false, List, [], ◌∷◌, ◌++◌, none, arith,
}
use arc_twitch_widget.Prelude.Int.{ℤ}
use arc_twitch_widget.Text.{codes}
use arc_twitch_widget.Json.{Value, null, array, object, nil, cons, end, member}
use arc_twitch_widget.Json.Whole.{whole}
use arc_twitch_widget.Core.Overlay.{overlay_stats_default}
use arc_twitch_widget.Capture.Report.{CaptureEvent}
use arc_twitch_widget.Collector.{
  ProbePayload, sending, Collector, capacity, start_local, CollectorStep, arrive, worker_turn,
  stop_called, step, run, ready,
}
use arc_twitch_widget.Collector.Passes.{heard}
use arc_twitch_widget.Collector.Delivery.{Tells, run-Tells}
use arc_twitch_widget.Collector.Accepted.{accepted, arrivals}
use arc_twitch_widget.Collector.Drained.{rounds, received-run}
use arc_twitch_widget.Collector.Work.{IsLive}
use arc_twitch_widget.Collector.Blocked.{IsBlocked, run-IsBlocked}

-- One scope without rows is a response that is accepted.
abbrev response : Value ℤ
response = object (
    member (codes "scopedPlayerStats")
      (array (cons (object (member (codes "playerStats") (array nil) end)) nil)) end)

abbrev told : CaptureEvent ℤ
told = CaptureEvent.player_stats_response (codes "host") 200 none response

abbrev refused : CaptureEvent ℤ
refused = CaptureEvent.player_stats_response (codes "host") 200 none null

abbrev idle : Collector ℤ
idle = start_local (codes "1") false

abbrev before_turns : List (CollectorStep whole)
before_turns = arrive told ∷ arrive (CaptureEvent.status (codes "busy")) ∷ arrive told ∷ []

abbrev turns : List ℕ
turns =
    1 ∷ 2 ∷ 3 ∷ 4 ∷ 5 ∷ 6 ∷ 7 ∷ 8 ∷ 9 ∷ 10 ∷ 11 ∷ 12 ∷ 13 ∷ 14 ∷ 15 ∷ 16 ∷ 17 ∷ 18 ∷ 19 ∷ 20 ∷ []

run-Tells_example : Tells whole (arrivals whole before_turns) (run whole before_turns idle)
run-Tells_example = run-Tells whole (codes "1") false before_turns

before_turns-IsLive : IsLive (run whole before_turns idle)
unfolding run step start_local
before_turns-IsLive = record {
  consumer = refl;
  stop = refl;
  capture_alive = refl;
  phase = λ q. cc;
  inbox = (λ q. cc, (λ q. cc, (λ q. cc, tt)));
}

received-run_example :
    heard (run whole (before_turns ++ rounds whole turns) idle).received
    ≡ accepted whole (arrivals whole before_turns)
received-run_example =
    received-run whole (codes "1") false before_turns turns before_turns-IsLive
      (unfold run step start_local in omega arith)

abbrev replicate : {A : Type 0} → ℕ → A → List A
replicate zero a = []
replicate (suc n) a = a ∷ replicate n a

abbrev waited_for : ProbePayload ℤ
waited_for = record {
  observed_at = 1;
  host = codes "host";
  status = 200;
  content_type = none;
  shape = null;
  overlay = overlay_stats_default;
  unknown_event_rows = 0;
}

abbrev full : Collector ℤ
full = record {
  stats_stream_ready = true;
  phase = sending waited_for;
  stop = false;
  inbox = [];
  capture_alive = true;
  queue = replicate capacity (ready true);
  received = [];
  consumer = true;
}

abbrev stopping : List (CollectorStep whole)
stopping = stop_called ∷ worker_turn 1 ∷ worker_turn 2 ∷ []

run-IsBlocked_example : IsBlocked whole waited_for (run whole stopping full)
run-IsBlocked_example =
    run-IsBlocked whole stopping waited_for full
      ((λ q. cc, λ q. cc), ((λ q. cc, λ q. cc), ((λ q. cc, λ q. cc), tt)))
      (record { phase = refl; consumer = refl; full = refl })
