-- ===== src/Storage.antt =====
-- crates/storage/src/lib.rs: the SQLite database of the program. Its statements are operations on
-- tables; `works` says whether SQLite carries a statement out.
pub mod Tables
pub mod Newest
pub mod Access
pub mod History
pub mod Logged
pub mod Recent
pub mod Bounds
pub mod Saved
pub mod Session
pub mod Samples
mod Tests
use arc_twitch_widget.Prelude.{
  ℕ, zero, suc, ◌+◌, ◌*◌, ◌%◌, ◌^◌, ◌≡◌, Bool, true, false, not, ◌&&◌, List, [], ◌∷◌, ◌++◌, Option,
  none, some, and_then, unwrap_or, map, retain, any, if◌then◌else◌, ◌==◌, min, length,
}
use arc_twitch_widget.Prelude.Result.{Result, ok, err, context, ensure, ◌>>=◌, ◌>>◌}
use arc_twitch_widget.Text.{Text, codes, eq_text}
use arc_twitch_widget.Text.Utf8.{Bytes}
use arc_twitch_widget.Json.{Value, null}
use arc_twitch_widget.Core.Overlay.{OverlayStats}
use arc_twitch_widget.Core.Redaction.{sanitize_json}
use arc_twitch_widget.Storage.Tables.{
  Table, insert_row, order_by_id_desc, limit_rows, keep_newest, empty_table,
}

abbrev pub max_observations : ℕ
max_observations = 5000

abbrev pub max_user_events : ℕ
max_user_events = 1000

abbrev pub stream_session_schema_version : ℕ
stream_session_schema_version = 2

pub record Observation (F : Type 0) : Type 0 where
  pub id : ℕ
  pub observed_at : ℕ
  pub direction : Text
  pub host : Text
  pub method : Option Text
  pub path : Option Text
  pub status : Option ℕ
  pub content_type : Option Text
  pub shape : Value F

pub record PersistedStreamSession : Type 0 where
  pub schema_version : ℕ
  pub local_day : Text
  pub started_at : ℕ
  pub updated_at : ℕ
  pub baseline : OverlayStats
  pub overlay : OverlayStats

pub record UserEvent : Type 0 where
  pub at : ℕ
  pub local_day : Text
  pub level : Text
  pub message : Text

-- The columns of the tables, the numbers of the rows apart.
pub record ObservationRow : Type 0 where
  pub observed_at : Text
  pub direction : Text
  pub host : Text
  pub method : Option Text
  pub path : Option Text
  pub status : Option ℕ
  pub content_type : Option Text
  pub shape_json : Text

pub record SessionRow : Type 0 where
  pub schema_version : ℕ
  pub local_day : Text
  pub started_at : Text
  pub updated_at : Text
  pub baseline_json : Text
  pub overlay_json : Text

pub record UserEventRow : Type 0 where
  pub at : Text
  pub local_day : Text
  pub level : Text
  pub message : Text

pub record Database : Type 0 where
  pub observations : Table ObservationRow
  -- The names of the columns of `stream_session`, and its one row.
  pub session_columns : List Text
  pub stream_session : Option SessionRow
  pub user_events : Table UserEventRow

pub record Storage : Type 0 where
  pub database : Database
  pub observation_writes : ℕ
  pub user_event_writes : ℕ

-- The times of `chrono` and the text of `serde_json`.
pub record Codec (F : Type 0) : Type 0 where
  pub to_rfc3339 : ℕ → Text
  pub parse_from_rfc3339 : Text → Option ℕ
  pub to_string : Value F → Option Text
  pub from_str : Text → Option (Value F)
  pub stats_to_string : OverlayStats → Option Text
  pub stats_from_str : Text → Option OverlayStats

pub data StorageError : Type 0 where
  sql_failed not_serialized bad_start bad_update bad_baseline bad_overlay : StorageError

-- `Storage::table_has_column`
unfoldable pub table_has_column : List Text → Text → Bool
table_has_column names column = any (λ name. eq_text name column) names

-- `Storage::prune_history`
unfoldable pub prune_history : Database → Database
prune_history d = record d {
  observations = keep_newest max_observations d.observations;
  user_events = keep_newest max_user_events d.user_events;
}

-- `ALTER TABLE stream_session ADD COLUMN schema_version INTEGER NOT NULL DEFAULT 1`
abbrev pub with_version : Option SessionRow → Option SessionRow
with_version none = none
with_version (some r) = some (record r { schema_version = 1 })

unfoldable pub add_version_column : Database → Database
add_version_column d =
    if table_has_column d.session_columns (codes "schema_version") then d else record d {
      session_columns = d.session_columns ++ (codes "schema_version" ∷ []);
      stream_session = with_version d.stream_session;
    }

-- `Storage::open`, on the database that the file holds once the tables exist.
unfoldable pub open_storage : Database → Storage
open_storage d = record {
  database = prune_history (add_version_column d);
  observation_writes = 0;
  user_event_writes = 0;
}

-- `fetch_add(1)` on an `AtomicU64`
abbrev pub next_write : ℕ → ℕ
next_write n = (n + 1) % 2 ^ 64

unfoldable pub prune_observations : Bool → ℕ → Storage → Storage × Result StorageError ℕ
prune_observations works row_id s =
    if works
    then (
      record s {
        database = record s.database {
          observations = keep_newest max_observations s.database.observations;
        };
      },
      ok row_id,
    )
    else (s, err sql_failed)

unfoldable pub insert_observation_row :
    Bool → Bool → ObservationRow → Storage → Storage × Result StorageError ℕ
insert_observation_row works prune_works row s =
    let table = insert_row row s.database.observations in
    let inserted = record s {
      database = record s.database { observations = table };
      observation_writes = next_write s.observation_writes;
    } in
    if not works
    then (s, err sql_failed)
    else if s.observation_writes % 256 == 255
    then prune_observations prune_works table.seq inserted
    else (inserted, ok table.seq)

unfoldable pub prune_user_events : Bool → ℕ → Storage → Storage × Result StorageError ℕ
prune_user_events works row_id s =
    if works
    then (
      record s {
        database = record s.database {
          user_events = keep_newest max_user_events s.database.user_events;
        };
      },
      ok row_id,
    )
    else (s, err sql_failed)

unfoldable pub insert_user_event_row :
    Bool → Bool → UserEventRow → Storage → Storage × Result StorageError ℕ
insert_user_event_row works prune_works row s =
    let table = insert_row row s.database.user_events in
    let inserted = record s {
      database = record s.database { user_events = table };
      user_event_writes = next_write s.user_event_writes;
    } in
    if not works
    then (s, err sql_failed)
    else if s.user_event_writes % 64 == 63
    then prune_user_events prune_works table.seq inserted
    else (inserted, ok table.seq)

-- `SELECT … ORDER BY id DESC LIMIT limit`
abbrev pub newest : {R : Type 0} → ℕ → Table R → List (ℕ × R)
newest limit t = limit_rows limit (order_by_id_desc t.rows)
