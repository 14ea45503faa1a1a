-- ===== src/Collector.antt =====
-- crates/collector/src/lib.rs: the worker between a capture and the consumer of its events.
-- `run_collector` is cut at the places where the worker waits; what its environment does in between
-- is the other operations of `Collector`.
pub mod Passes
pub mod Fair
pub mod Accepted
pub mod Delivery
pub mod Work
pub mod Drained
pub mod Blocked
mod Tests
use arc_twitch_widget.Prelude.{
  ℕ, Bool, true, false, ◌&&◌, not, List, [], ◌∷◌, ◌++◌, Option, length, ltb, if◌then◌else◌,
}
use arc_twitch_widget.Prelude.Result.{Result, ok, err, ◌>>=◌}
use arc_twitch_widget.Text.{Text, codes}
use arc_twitch_widget.Json.{Value, Float}
use arc_twitch_widget.Core.Overlay.{OverlayStats}
use arc_twitch_widget.Core.Redaction.{json_shape}
use arc_twitch_widget.Core.Stats.{StatsError, no_scopes, no_rows, normalize_player_stats}
use arc_twitch_widget.Capture.Report.{CaptureEvent, CaptureStats}

pub record ProbePayload (F : Type 0) : Type 0 where
  pub observed_at : ℕ
  pub host : Text
  pub status : ℕ
  pub content_type : Option Text
  pub shape : Value F
  pub overlay : OverlayStats
  pub unknown_event_rows : ℕ

pub data CollectorEvent (F : Type 0) : Type 0 where
  connected : Text → Bool → CollectorEvent F
  status : Text → CollectorEvent F
  stats : CaptureStats → CollectorEvent F
  observation : Value F → CollectorEvent F
  ready : Bool → CollectorEvent F
  probe : ProbePayload F → CollectorEvent F
  error : Text → CollectorEvent F
  stopped : CollectorEvent F

-- Where the worker is: about to look at the stop flag, waiting for room in `tx.send`, or at its end.
pub data Phase (F : Type 0) : Type 0 where
  running : Phase F
  sending : ProbePayload F → Phase F
  ended : Phase F

-- `inbox` is what the capture has sent, `queue` the bounded channel, and `received` what the consumer
-- has taken from it; the consumer is there as long as it holds its end of the channel.
pub record Collector (F : Type 0) : Type 0 where
  pub stats_stream_ready : Bool
  pub phase : Phase F
  pub stop : Bool
  pub inbox : List (CaptureEvent F)
  pub capture_alive : Bool
  pub queue : List (CollectorEvent F)
  pub received : List (CollectorEvent F)
  pub consumer : Bool

-- `bounded(1024)`
abbrev pub capacity : ℕ
capacity = 1024

module _ {F : Type 0} where
  unfoldable pub push : CollectorEvent F → Collector F → Collector F
  push e s = record s { queue = s.queue ++ (e ∷ []) }

  unfoldable pub has_room : Collector F → Bool
  has_room s = ltb (length s.queue) capacity

  -- `tx.try_send(e).ok()`: the event is dropped where the channel is full or has no consumer.
  unfoldable pub try_send : CollectorEvent F → Collector F → Collector F
  try_send e s = if s.consumer && has_room s then push e s else s

  -- `send_ready`
  unfoldable pub send_ready : Bool → Collector F → Collector F
  send_ready b s = try_send (ready b) s

  -- The end of `start_local`'s thread: `run_collector` has returned.
  unfoldable pub finish_capture : Collector F → Collector F
  finish_capture s = record (try_send stopped s) { phase = ended }

  -- `tx.send(CollectorEvent::Probe(p))`, at its call and whenever the worker is woken: it fails without
  -- a consumer, and waits without room.
  unfoldable pub send_probe : ProbePayload F → Collector F → Collector F
  send_probe p s =
      if not s.consumer
      then finish_capture s
      else if has_room s
      then push (probe p) (record s { phase = running })
      else record s { phase = sending p }

  -- The consumer, if it is there, takes an event.
  unfoldable pub take_from : List (CollectorEvent F) → Collector F → Collector F
  take_from [] s = s
  take_from (e ∷ es) s = record s { queue = es; received = s.received ++ (e ∷ []) }

  unfoldable pub take : Collector F → Collector F
  take s = if s.consumer then take_from s.queue s else s

  -- `start_local`
  unfoldable pub start_local : Text → Bool → Collector F
  start_local version privileged_service = record {
    stats_stream_ready = false;
    phase = running;
    stop = false;
    inbox = [];
    capture_alive = true;
    queue = connected version privileged_service ∷ [];
    received = [];
    consumer = true;
  }

-- The contexts of `normalize_player_stats`.
abbrev pub stats_error_text : StatsError → Text
stats_error_text no_scopes = codes "player stats response is missing scopedPlayerStats"
stats_error_text no_rows = codes "player stats response is missing scopedPlayerStats[0].playerStats"

module _ (fl : Float) where
  open fl use {F}

  unfoldable pub probe_payload :
      ℕ → Text → ℕ → Option Text → Value F → OverlayStats × ℕ → ProbePayload F
  probe_payload now host code content_type value (overlay, unknown_event_rows) = record {
    observed_at = now;
    host = host;
    status = code;
    content_type = content_type;
    shape = json_shape value 0;
    overlay = overlay;
    unknown_event_rows = unknown_event_rows;
  }

  -- `native_stats_payload`
  unfoldable pub native_stats_payload :
      ℕ → Text → ℕ → Option Text → Value F → Result StatsError (ProbePayload F)
  native_stats_payload now host code content_type value = do
    normal ← normalize_player_stats fl value
    ok (probe_payload now host code content_type value normal)

  -- The match on the payload of a response.
  unfoldable pub send_payload : Result StatsError (ProbePayload F) → Collector F → Collector F
  send_payload (ok p) s = send_probe p s
  send_payload (err e) s =
      try_send (error (codes "Reading game player stats response failed: " ++ stats_error_text e)) s

  unfoldable pub announce : Collector F → Collector F
  announce s =
      if s.stats_stream_ready then s else send_ready true (record s { stats_stream_ready = true })

  -- One event of the capture.
  unfoldable pub on_event : ℕ → CaptureEvent F → Collector F → Collector F
  on_event now (CaptureEvent.status message) s = try_send (status message) s
  on_event now (CaptureEvent.stats st) s = try_send (stats st) s
  on_event now (CaptureEvent.observation value) s = try_send (observation value) s
  on_event now (CaptureEvent.stats_stream_ready host) s = send_ready true (
      try_send (status (codes "Regional player statistics stream observed (" ++ host ++ codes ")"))
        (record s { stats_stream_ready = true }))
  on_event now (CaptureEvent.player_stats_response host code content_type body) s =
      send_payload (native_stats_payload now host code content_type body) (announce s)
  on_event now (CaptureEvent.error message) s = try_send (error message) s
  on_event now CaptureEvent.stopped s = finish_capture s

  -- `recv_timeout` and its match; nothing happens when it times out.
  unfoldable pub receive_capture : ℕ → List (CaptureEvent F) → Collector F → Collector F
  receive_capture now [] s = if s.capture_alive then s else finish_capture s
  receive_capture now (e ∷ es) s = on_event now e (record s { inbox = es })

  -- The worker's turn: a round of `while !stop`, or what is left of one in which it waits.
  unfoldable pub turn_from : Phase F → ℕ → Collector F → Collector F
  turn_from running now s = if s.stop then finish_capture s else receive_capture now s.inbox s
  turn_from (sending p) now s = send_probe p s
  turn_from ended now s = s

  unfoldable pub turn : ℕ → Collector F → Collector F
  turn now s = turn_from s.phase now s

  -- What can happen next.
  pub data CollectorStep : Type 0 where
    arrive : CaptureEvent F → CollectorStep
    capture_ends : CollectorStep
    worker_turn : ℕ → CollectorStep
    consumer_takes : CollectorStep
    consumer_leaves : CollectorStep
    -- `CollectorHandle::stop`
    stop_called : CollectorStep

  unfoldable pub step : CollectorStep → Collector F → Collector F
  step (arrive e) s = record s { inbox = s.inbox ++ (e ∷ []) }
  step capture_ends s = record s { capture_alive = false }
  step (worker_turn now) s = turn now s
  step consumer_takes s = take s
  step consumer_leaves s = record s { consumer = false; queue = [] }
  step stop_called s = record s { stop = true }

  unfoldable pub run : List CollectorStep → Collector F → Collector F
  run [] s = s
  run (x ∷ xs) s = run xs (step x s)
