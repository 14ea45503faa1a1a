-- ===== src/Live/App/Tests.antt =====
-- Runs of crates/arc-live/src/ui.rs on small inputs, and instances of its theorems.
use arc_twitch_widget.Prelude.{
  append-nil, ◌++◌, zero, suc, ℕ, ◌≡◌, refl, true, false, List, [], ◌∷◌, none, some, arith,
}
use arc_twitch_widget.Prelude.Result.{ok}
use arc_twitch_widget.Text.{codes, eq_text}
use arc_twitch_widget.Prelude.Int.{ℤ, clamp_i64}
use arc_twitch_widget.BTreeMap
use arc_twitch_widget.BTreeMap.{map_values}
use arc_twitch_widget.Json.{Value, null, array, object, nil, cons, end, member}
use arc_twitch_widget.Core.Overlay.{OverlayStats, apply_session_baseline, session_deltas}
use arc_twitch_widget.Core.Overlay.Baseline.{IsFresh}
use arc_twitch_widget.Core.State.{app_state_new}
use arc_twitch_widget.Core.WidgetPresets.{widget_config_default}
use arc_twitch_widget.Core.WidgetFile.{File}
use arc_twitch_widget.Core.Config.{app_config_default, disclaimer_revision}
use arc_twitch_widget.Json.Whole.{whole}
use arc_twitch_widget.Capture.Report.{CaptureEvent}
use arc_twitch_widget.Collector.{
  ProbePayload, CollectorEvent, CollectorStep, arrive, start_local, step, run,
}
use arc_twitch_widget.Collector.Accepted.{accepted, arrivals}
use arc_twitch_widget.Collector.Drained.{rounds}
use arc_twitch_widget.Collector.Work.{IsLive}
use arc_twitch_widget.Live.App.Refined.{add_all, Counts, count_of, overlays}
use arc_twitch_widget.Live.App.Refined.Frames.{Frame, count_all, draw_all, draw_all-Counts}
use arc_twitch_widget.Live.App.Refined.Streamed.{draw_all-run}
use arc_twitch_widget.Storage.{Codec, Storage, SessionRow, open_storage}
use arc_twitch_widget.Storage.Access.{session_row, session_row_with}
use arc_twitch_widget.Storage.History.{empty_database}
use arc_twitch_widget.Storage.Samples.{
  at_start, at_end, codec, codec-RoundTrips, at_start_written, at_end_written,
}
use arc_twitch_widget.Live.App.{Host, Moment, App, steam}
use arc_twitch_widget.Live.App.Stream.{rollover_day, start_new_stream}
use arc_twitch_widget.Live.App.Probe.{apply_probe}
use arc_twitch_widget.Live.App.Start.{Parts, app_of, start, close}
use arc_twitch_widget.Live.App.Counted.{
  counters, baseline_with, apply_probe-counts, rollover_day-IsFresh, start_new_stream-counts,
}
use arc_twitch_widget.Core.WidgetFile.Load.{widget_config_default-IsValid}
use arc_twitch_widget.Live.App.Actions.{Action}
use arc_twitch_widget.Live.App.Kept.{IsKept}
use arc_twitch_widget.Live.App.Kept.Turns.{
  Turn, acted, drawn, edited, threads_of, run_turns, Genuine, run_turns-IsKept,
}
use arc_twitch_widget.Live.Updates.Samples.{manifest, remote, disk, send, digest}
use arc_twitch_widget.Live.Updates.Manager.Reachable.{checks, downloads}
use arc_twitch_widget.Live.App.Restored.{session_at, start-counts}

-- A host whose files are never read or written.
abbrev host_with : {F : Type 0} → Codec F → Host F
host_with codec = record {
  codec = codec;
  sha256_hex = digest;
  widget_serde = record {
    from_slice = λ b. none;
    metric_from = λ v. none;
    config_from = λ v. none;
    to_vec = λ c. none;
  };
  config_serde = record { from_slice = λ b. none; to_vec_pretty = λ c. none };
  build = record { update_feed_url = none; beta_update_feed_url = none };
  storage_error_text = λ e. codes "storage";
  widget_error_text = λ e. codes "widget";
  config_error_text = λ e. codes "config";
}

abbrev host : Host ℕ
host = host_with codec

abbrev moment : ℕ → Moment
moment n = record {
  now = n;
  today = codes "2026-01-02";
  observations = true;
  sessions = true;
  events = true;
  prunes = true;
  spawns = true;
  restarted = ok tt;
  exported = ok (codes "diagnostics.zip");
}

abbrev next_day : Moment
next_day = record (moment 90) { today = codes "2026-01-03" }

abbrev no_file : File
no_file = record { content = none; readable = false; writable = false }

abbrev parts_on : Storage → Parts
parts_on storage = record {
  config = app_config_default host.build;
  config_file = no_file;
  widget_config = widget_config_default;
  widget_file = no_file;
  storage = storage;
  state = app_state_new 0 (codes "1") [];
  launchers = steam ∷ [];
}

abbrev first_app : App
first_app = app_of host (moment 1) (parts_on (open_storage empty_database))

abbrev response : OverlayStats → ProbePayload ℕ
response o = record {
  observed_at = 5;
  host = codes "host";
  status = 200;
  content_type = none;
  shape = null;
  overlay = o;
  unknown_event_rows = 0;
}

apply_probe-counts_example :
    (counters (apply_probe host (moment 2) (response at_start) first_app).state.overlay
      ≡ counters (apply_session_baseline at_start (baseline_with at_start first_app)))
    × ((apply_probe host (moment 2) (response at_start) first_app).session_baseline
        ≡ some (baseline_with at_start first_app))
apply_probe-counts_example = apply_probe-counts host (moment 2) (response at_start) first_app

abbrev played : App
played = apply_probe host (moment 2) (response at_start) first_app

rollover_day-IsFresh_example :
    IsFresh (rollover_day host next_day played).state.overlay
    × IsFresh
        (apply_probe host next_day
          (response at_end)
          (rollover_day host next_day played)).state.overlay
rollover_day-IsFresh_example = rollover_day-IsFresh host next_day next_day (response at_end) played

start_new_stream-counts_example :
    IsFresh (start_new_stream host (moment 3) played).state.overlay
    × (counters
          (apply_probe host
            (moment 4)
            (response at_end)
            (start_new_stream host (moment 3) played)).state.overlay
        ≡ counters (apply_session_baseline at_end played.state.overlay))
start_new_stream-counts_example =
    start_new_stream-counts host (moment 3) (moment 4) (response at_end) played

-- The application in the midst of a stream.
abbrev streaming : App
streaming = record first_app {
  session_baseline = some at_start;
  stream_day = codes "2026-01-02";
  stream_started_at = some 2;
  state = record first_app.state { overlay = at_end };
}

abbrev saved_row : SessionRow
saved_row = session_row_with codec (session_at (moment 6) at_start streaming) (0 ∷ []) (1 ∷ [])

saved_row_written : session_row codec (session_at (moment 6) at_start streaming) ≡ ok saved_row
unfolding session_row
saved_row_written = rw (at_start_written, at_end_written) refl

streaming_counted : counters at_end ≡ counters (apply_session_baseline at_end at_start)
unfolding apply_session_baseline session_deltas clamp_i64 map_values BTreeMap.get eq_text
streaming_counted = refl

abbrev left : Parts
left = parts_on (close host (moment 6) streaming).storage

start-counts_example :
    ((start host (moment 7) left).session_baseline ≡ some at_start)
    × (counters (start host (moment 7) left).state.overlay ≡ counters at_end)
start-counts_example =
    start-counts host codec-RoundTrips (moment 6) (moment 7) left at_start saved_row streaming refl
      streaming_counted (unfold eq_text in refl) refl refl refl refl saved_row_written
      (unfold eq_text in refl) refl

-- A response, a reset, a check, a download, an installation, an edit of the
-- presets' file and its reload, the end of the
-- capture, and a new day.
abbrev turns : List (Turn remote (codes "k") (codes "1.2.2") send host)
turns =
    drawn (moment 2) [] (CollectorEvent.probe (response at_start) ∷ []) []
    ∷ acted (moment 3) Action.confirm_reset
    ∷ acted (moment 4) Action.check_updates
    ∷ drawn (moment 5) (checks (codes "https://example.test/stable.json") (codes "stable") ∷ []) []
        []
    ∷ acted (moment 6) Action.download_update
    ∷ drawn (moment 7) (downloads disk manifest [] ∷ []) [] []
    ∷ acted (moment 8) Action.install_update
    ∷ edited no_file (record no_file { content = some [] })
    ∷ acted (moment 9) Action.reload_presets
    ∷ drawn (moment 10) [] (CollectorEvent.error (codes "lost") ∷ CollectorEvent.stopped ∷ []) []
    ∷ drawn next_day [] [] []
    ∷ []

run_turns-IsKept_example :
    IsKept
      (Genuine remote
        (codes "k")
        (codes "1.2.2")
        send
        host
        (threads_of remote (codes "k") (codes "1.2.2") send host turns))
      (run_turns remote
        (codes "k")
        (codes "1.2.2")
        send
        host
        turns
        (start host (moment 1) (parts_on (open_storage empty_database))))
unfolding app_state_new
run_turns-IsKept_example =
    run_turns-IsKept remote (codes "k") (codes "1.2.2") send host (moment 1)
      (parts_on (open_storage empty_database)) turns (omega arith) widget_config_default-IsValid

-- A codec that writes nothing, for the documents of the collector's tests.
abbrev silent : Codec ℤ
silent = record {
  to_rfc3339 = λ t. [];
  parse_from_rfc3339 = λ t. none;
  to_string = λ v. none;
  from_str = λ t. none;
  stats_to_string = λ o. none;
  stats_from_str = λ t. none;
}

-- Two responses that are accepted, one that is not, and a message.
abbrev accepted_body : Value ℤ
accepted_body = object (
    member (codes "scopedPlayerStats")
      (array (cons (object (member (codes "playerStats") (array nil) end)) nil)) end)

abbrev answer : Value ℤ → CollectorStep whole
answer body = arrive (CaptureEvent.player_stats_response (codes "host") 200 none body)

abbrev sent : List (CollectorStep whole)
sent =
    answer accepted_body
    ∷ arrive (CaptureEvent.status (codes "busy"))
    ∷ answer null
    ∷ answer accepted_body
    ∷ []

abbrev ticks : ℕ → List ℕ
ticks zero = []
ticks (suc n) = n ∷ ticks n

abbrev taken : List (CollectorEvent ℤ)
taken = (run whole (sent ++ rounds whole (ticks 26)) (start_local (codes "1") false)).received

sent-IsLive : IsLive (run whole sent (start_local (codes "1") false))
unfolding run step start_local
sent-IsLive = record {
  consumer = refl;
  stop = refl;
  capture_alive = refl;
  phase = λ q. cc;
  inbox = (λ q. cc, (λ q. cc, (λ q. cc, (λ q. cc, tt))));
}

abbrev frame : {F : Type 0} → Moment → List (CollectorEvent F) → Frame F
frame m es = record { moment = m; news = []; events = es; statuses = [] }

draw_all-run_example :
    Counts
      (add_all (overlays (accepted whole (arrivals whole sent))) (count_of first_app))
      (draw_all (host_with silent) (frame (moment 2) taken ∷ []) first_app)
unfolding app_of
draw_all-run_example =
    draw_all-run whole (host_with silent) (codes "1") false sent (ticks 26)
      (frame (moment 2) taken ∷ []) first_app sent-IsLive
      (unfold run step start_local in omega arith) (append-nil taken) (unfold eq_text in refl, tt)

-- Two frames of a day, and the first of the next.
abbrev frames : List (Frame ℕ)
frames =
    frame (moment 2) (CollectorEvent.probe (response at_start) ∷ [])
    ∷ frame (moment 3)
        (CollectorEvent.error (codes "lost") ∷ CollectorEvent.probe (response at_end) ∷ [])
    ∷ frame next_day (CollectorEvent.probe (response at_end) ∷ [])
    ∷ []

abbrev accepting_app : App
accepting_app = record first_app {
  config = record first_app.config { disclaimer_accepted_revision = disclaimer_revision };
}

draw_all-Counts_example :
    Counts (count_all frames (count_of accepting_app)) (draw_all host frames accepting_app)
draw_all-Counts_example = draw_all-Counts host (count_of accepting_app) frames accepting_app refl

-- On the next day the response counts from itself.
frames_counted : (count_all frames (count_of accepting_app)).baseline ≡ some at_end
unfolding eq_text app_of
frames_counted = refl
