-- ===== src/Storage/Access.antt =====
-- crates/storage/src/lib.rs: the operations of `Storage`.
use arc_twitch_widget.Prelude.{
  ℕ, ◌%◌, ◌^◌, Bool, List, Option, none, some, unwrap_or, map, retain, if◌then◌else◌, ◌==◌, min,
}
use arc_twitch_widget.Prelude.Result.{Result, ok, err, context, ◌>>=◌}
use arc_twitch_widget.Text.{Text, eq_text}
use arc_twitch_widget.Text.Utf8.{Bytes}
use arc_twitch_widget.Json.{null}
use arc_twitch_widget.Core.Redaction.{sanitize_json}
use arc_twitch_widget.Storage.Tables.{limit_rows, order_by_id_desc}
use arc_twitch_widget.Storage.{
  Observation, PersistedStreamSession, UserEvent, ObservationRow, SessionRow, UserEventRow, Storage,
  Codec, StorageError, sql_failed, not_serialized, bad_start, bad_update, bad_baseline, bad_overlay,
  insert_observation_row, insert_user_event_row, stream_session_schema_version, newest,
}

-- `value as u16`, `value as u8`
abbrev pub as_u16 : Option ℕ → Option ℕ
as_u16 none = none
as_u16 (some n) = some (n % 2 ^ 16)

-- What becomes of the state where a value cannot be made.
abbrev pub with_state :
    {S A B : Type 0}
    → S
    → Result StorageError A
    → (A → S × Result StorageError B)
    → S × Result StorageError B
with_state s (ok a) f = f a
with_state s (err e) f = (s, err e)

module _ {F : Type 0} (c : Codec F) where
  open c use {to_rfc3339, parse_from_rfc3339, to_string, from_str, stats_to_string, stats_from_str}

  unfoldable pub observation_row_with : Observation F → Text → ObservationRow
  observation_row_with o shape_json = record {
    observed_at = to_rfc3339 o.observed_at;
    direction = o.direction;
    host = o.host;
    method = o.method;
    path = o.path;
    status = o.status;
    content_type = o.content_type;
    shape_json = shape_json;
  }

  module _ (sha256_hex : Bytes → Text) where
    -- The parameters of the `INSERT`.
    unfoldable pub observation_row : Observation F → Result StorageError ObservationRow
    observation_row o =
        context (to_string (sanitize_json sha256_hex o.shape)) not_serialized >>= λ shape_json.
        ok (observation_row_with o shape_json)

    -- `Storage::insert_observation`
    unfoldable pub insert_observation :
        Bool → Bool → Observation F → Storage → Storage × Result StorageError ℕ
    insert_observation works prune_works o s =
        with_state s (observation_row o) λ row. insert_observation_row works prune_works row s

  -- One row of `recent_observations`.
  unfoldable pub observation_of : ℕ → ℕ × ObservationRow → Observation F
  observation_of now (id, row) = record {
    id = id;
    observed_at = unwrap_or (parse_from_rfc3339 row.observed_at) now;
    direction = row.direction;
    host = row.host;
    method = row.method;
    path = row.path;
    status = as_u16 row.status;
    content_type = row.content_type;
    shape = unwrap_or (from_str row.shape_json) null;
  }

  -- `Storage::recent_observations`
  unfoldable pub recent_observations :
      Bool → ℕ → ℕ → Storage → Result StorageError (List (Observation F))
  recent_observations works now limit s =
      if works
      then ok (map (observation_of now) (newest limit s.database.observations))
      else err sql_failed

  unfoldable pub session_row_with : PersistedStreamSession → Text → Text → SessionRow
  session_row_with session baseline_json overlay_json = record {
    schema_version = session.schema_version;
    local_day = session.local_day;
    started_at = to_rfc3339 session.started_at;
    updated_at = to_rfc3339 session.updated_at;
    baseline_json = baseline_json;
    overlay_json = overlay_json;
  }

  -- The parameters of the `INSERT` of a session.
  unfoldable pub session_row : PersistedStreamSession → Result StorageError SessionRow
  session_row session = do
    baseline_json ← context (stats_to_string session.baseline) not_serialized
    overlay_json ← context (stats_to_string session.overlay) not_serialized
    ok (session_row_with session baseline_json overlay_json)

  -- `Storage::save_stream_session`
  unfoldable pub save_stream_session :
      Bool → PersistedStreamSession → Storage → Storage × Result StorageError (Unit {0})
  save_stream_session works session s = with_state s (session_row session) λ row.
      if works
      then (record s { database = record s.database { stream_session = some row } }, ok tt)
      else (s, err sql_failed)

  -- The row of a session of the present schema.
  unfoldable pub session_of : SessionRow → Result StorageError PersistedStreamSession
  session_of row = do
    started_at ← context (parse_from_rfc3339 row.started_at) bad_start
    updated_at ← context (parse_from_rfc3339 row.updated_at) bad_update
    baseline ← context (stats_from_str row.baseline_json) bad_baseline
    overlay ← context (stats_from_str row.overlay_json) bad_overlay
    ok (record {
      schema_version = row.schema_version % 2 ^ 8;
      local_day = row.local_day;
      started_at = started_at;
      updated_at = updated_at;
      baseline = baseline;
      overlay = overlay;
    })

  unfoldable pub load_session_row :
      Option SessionRow → Result StorageError (Option PersistedStreamSession)
  load_session_row none = ok none
  load_session_row (some row) =
      if (row.schema_version % 2 ^ 8) == stream_session_schema_version
      then (session_of row >>= λ session. ok (some session))
      else ok none

  -- `Storage::load_stream_session`
  unfoldable pub load_stream_session :
      Bool → Storage → Result StorageError (Option PersistedStreamSession)
  load_stream_session works s =
      if works then load_session_row s.database.stream_session else err sql_failed

  -- The parameters of the `INSERT` of an event.
  unfoldable pub user_event_row : UserEvent → UserEventRow
  user_event_row e = record {
    at = to_rfc3339 e.at;
    local_day = e.local_day;
    level = e.level;
    message = e.message;
  }

  -- `Storage::insert_user_event`
  unfoldable pub insert_user_event :
      Bool → Bool → UserEvent → Storage → Storage × Result StorageError ℕ
  insert_user_event works prune_works e s =
      insert_user_event_row works prune_works (user_event_row e) s

  -- One row of `user_events_for_day`.
  unfoldable pub user_event_of : ℕ → ℕ × UserEventRow → UserEvent
  user_event_of now (id, row) = record {
    at = unwrap_or (parse_from_rfc3339 row.at) now;
    local_day = row.local_day;
    level = row.level;
    message = row.message;
  }

  -- `Storage::user_events_for_day`
  unfoldable pub user_events_for_day :
      Bool → ℕ → Text → ℕ → Storage → Result StorageError (List UserEvent)
  user_events_for_day works now local_day limit s =
      if works
      then ok (
          map (user_event_of now) (
            limit_rows (min limit 100) (
              order_by_id_desc
                (retain (λ r. eq_text (r.1).local_day local_day) s.database.user_events.rows))))
      else err sql_failed
