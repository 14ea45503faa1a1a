-- ===== src/Storage/Tests.antt =====
-- Runs of crates/storage on small inputs, and instances of its theorems.
use arc_twitch_widget.Prelude.{
  ℕ, ◌≡◌, refl, true, false, List, [], ◌∷◌, none, some, All, all, map, take, arith,
}
use arc_twitch_widget.Prelude.Result.{ok}
use arc_twitch_widget.Text.{Text, codes, is_ascii_alphanumeric, eq_text}
use arc_twitch_widget.Text.Utf8.{Bytes}
use arc_twitch_widget.Json.{string}
use arc_twitch_widget.Json.Plain.{is_plain}
use arc_twitch_widget.Core.Redaction.{sanitize_json, sanitize, sanitize_string, looks_like_jwt}
use arc_twitch_widget.Core.Redaction.Clean.{is_clean}
use arc_twitch_widget.Storage.Samples.{at_start, at_end, codec, codec-RoundTrips}
use arc_twitch_widget.Storage.Tables.{empty_table}
use arc_twitch_widget.Storage.{
  Observation, PersistedStreamSession, UserEvent, Database, open_storage, table_has_column,
}
use arc_twitch_widget.Storage.Access.{recent_observations, load_stream_session}
use arc_twitch_widget.Storage.History.{
  Command, add_observation, add_user_event, save_session, reopen, perform_all, empty_database,
}
use arc_twitch_widget.Storage.Recent.{recent_observations-perform_all, recent_observations-clean}
use arc_twitch_widget.Storage.Logged.{HasPlain, without_id, cleaned, logged}
use arc_twitch_widget.Storage.Bounds.{IsBounded, perform_all-IsBounded}
use arc_twitch_widget.Storage.Session.{
  load_stream_session-perform_all, load_stream_session-open_storage,
}
use arc_twitch_widget.Storage.Saved.{restored, last_saved}

abbrev digest : Bytes → Text
digest b = codes "0123456789abcdef"

digest_plain : (b : Bytes) → all is_ascii_alphanumeric (digest b) ≡ true
unfolding is_ascii_alphanumeric
digest_plain b = refl

abbrev seen : ℕ → Text → Observation ℕ
seen t s = record {
  id = 0;
  observed_at = t;
  direction = codes "response";
  host = codes "host";
  method = none;
  path = none;
  status = some 200;
  content_type = none;
  shape = string s;
}

abbrev session : PersistedStreamSession
session = record {
  schema_version = 2;
  local_day = codes "2026-01-02";
  started_at = 5;
  updated_at = 6;
  baseline = at_start;
  overlay = at_end;
}

abbrev event : UserEvent
event = record { at = 3; local_day = codes "2026-01-02"; level = codes "info"; message = codes "m" }

abbrev commands : List (Command ℕ)
commands =
    add_observation true true (seen 1 (codes "a"))
    ∷ add_observation false true (seen 2 (codes "lost"))
    ∷ save_session true session
    ∷ add_user_event true true event
    ∷ reopen
    ∷ add_observation true true (seen 3 (codes "b"))
    ∷ []

commands_plain : HasPlain codec digest commands
unfolding is_plain sanitize_json sanitize sanitize_string looks_like_jwt
commands_plain = (refl, (refl, (refl, tt)))

recent_observations-perform_all_example :
    (os : List (Observation ℕ)) × (recent_observations codec true 9 2
        (perform_all codec digest commands (open_storage empty_database))
      ≡ ok os)
    × (map without_id os ≡ map (cleaned codec digest) (take 2 (logged codec digest commands [])))
recent_observations-perform_all_example =
    recent_observations-perform_all codec digest codec-RoundTrips commands 9 2 commands_plain
      (omega arith)

recent_observations-clean_example :
    (os : List (Observation ℕ)) × (recent_observations codec true 9 2
        (perform_all codec digest commands (open_storage empty_database))
      ≡ ok os)
    × All (λ o. is_clean o.shape ≡ true) os
recent_observations-clean_example =
    recent_observations-clean codec digest codec-RoundTrips digest_plain commands 9 2 commands_plain
      (omega arith)

perform_all-IsBounded_example :
    IsBounded (perform_all codec digest commands (open_storage empty_database))
perform_all-IsBounded_example =
    perform_all-IsBounded codec digest empty_database commands
      (record { given = tt; descending = tt }) (record { given = tt; descending = tt })
      (refl, (refl, (tt, (refl, (tt, (refl, tt))))))

load_stream_session-perform_all_example :
    load_stream_session codec true (perform_all codec digest commands (open_storage empty_database))
    ≡ ok (restored (last_saved codec commands none))
load_stream_session-perform_all_example =
    load_stream_session-perform_all codec codec-RoundTrips digest commands
      (tt, (tt, (omega arith, (tt, (tt, (tt, tt))))))

-- A database whose session has no schema version, from before the second migration.
abbrev early : Database
early = record {
  observations = empty_table;
  session_columns = codes "id" ∷ codes "local_day" ∷ [];
  stream_session = some (record {
    schema_version = 0;
    local_day = codes "2026-01-02";
    started_at = codes "";
    updated_at = codes "";
    baseline_json = codes "";
    overlay_json = codes "";
  });
  user_events = empty_table;
}

load_stream_session-open_storage_example :
    load_stream_session codec true (open_storage early) ≡ ok none
load_stream_session-open_storage_example =
    load_stream_session-open_storage codec early (unfold table_has_column eq_text in refl)
