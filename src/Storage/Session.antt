-- ===== src/Storage/Session.antt =====
-- The session of the stream that crates/storage/src/lib.rs keeps.
use arc_twitch_widget.Prelude.{◌≡◌, refl, true, false, List, [], ◌∷◌, Option, none, some, All}
use arc_twitch_widget.Prelude.Result.{Result, ok, err}
use arc_twitch_widget.Text.{Text, codes, eq_text}
use arc_twitch_widget.Text.Utf8.{Bytes}
use arc_twitch_widget.Storage.{
  ObservationRow, PersistedStreamSession, SessionRow, Database, Storage, Codec, StorageError,
  sql_failed, insert_observation_row, open_storage, add_version_column, prune_history,
  table_has_column, with_version,
}
use arc_twitch_widget.Storage.Access.{
  with_state, observation_row, insert_observation, insert_user_event, user_event_row,
  save_stream_session, session_row, load_session_row, load_stream_session,
}
use arc_twitch_widget.Storage.History.{
  Command, add_observation, add_user_event, save_session, reopen, perform, perform_all,
  empty_database,
}
use arc_twitch_widget.Storage.Logged.{RoundTrips}
use arc_twitch_widget.Storage.Saved.{
  IsU8, restored, newer, last_saved, Keeps, insert_observation_row-Keeps,
  insert_user_event_row-Keeps, open_storage-Keeps, load_written,
}

module _ {F : Type 0} (c : Codec F) where
  module _ (rt : RoundTrips c) where
    module _ (sha256_hex : Bytes → Text) where
      perform-Keeps :
          (x : Command F) (o : Option PersistedStreamSession) (s : Storage)
          → IsU8 x
          → Keeps c o s.database
          → Keeps c (last_saved c (x ∷ []) o) (perform c sha256_hex x s).database
      unfolding perform insert_observation insert_user_event save_stream_session
      perform-Keeps (add_observation works p ob) o s u k = of (observation_row c sha256_hex ob)
        where
          of :
              (r : Result StorageError ObservationRow)
              → Keeps c o (with_state s r λ row. insert_observation_row works p row s).0.database
          of (err e) = k
          of (ok row) = insert_observation_row-Keeps c works p row o s k
      perform-Keeps (add_user_event works p e) o s u k =
          insert_user_event_row-Keeps c works p (user_event_row c e) o s k
      perform-Keeps (save_session true session) o s u k = of (session_row c session) refl
        where
          of :
              (r : Result StorageError SessionRow)
              → session_row c session ≡ r
              → Keeps c
                  (newer r session o)
                  (with_state {B = Unit {0}} s r λ row. (
                    record s { database = record s.database { stream_session = some row } },
                    ok tt,
                  )).0.database
          of (err e) q = k
          of (ok row) q = record { column = k.column; row = load_written c rt session row u q }
      perform-Keeps (save_session false session) o s u k = of (session_row c session)
        where
          of :
              (r : Result StorageError SessionRow)
              → Keeps c o (with_state {B = Unit {0}} s r λ row. (s, err sql_failed)).0.database
          of (err e) = k
          of (ok row) = k
      perform-Keeps reopen o s u k = open_storage-Keeps c o s.database k

      last_saved-cons :
          (x : Command F) (xs : List (Command F)) (o : Option PersistedStreamSession)
          → last_saved c (x ∷ xs) o ≡ last_saved c xs (last_saved c (x ∷ []) o)
      last_saved-cons (add_observation works p ob) xs o = refl
      last_saved-cons (add_user_event works p e) xs o = refl
      last_saved-cons (save_session true session) xs o = refl
      last_saved-cons (save_session false session) xs o = refl
      last_saved-cons reopen xs o = refl

      perform_all-Keeps :
          (xs : List (Command F)) (o : Option PersistedStreamSession) (s : Storage)
          → All IsU8 xs
          → Keeps c o s.database
          → Keeps c (last_saved c xs o) (perform_all c sha256_hex xs s).database
      unfolding perform_all
      perform_all-Keeps [] o s u k = k
      perform_all-Keeps (x ∷ xs) o s u k =
          rw (last_saved-cons x xs o) (perform_all-Keeps xs _ _ u.1 (perform-Keeps x o s u.0 k))

      -- Whatever commands have been performed on the database since it was made, ends and starts of the
      -- program and failures of SQLite and of serde included, a load gives back the session that was
      -- saved last, all of it, if that has the present schema, and nothing otherwise, where schema
      -- versions fit a byte and times and statistics that are written can be read back.
      pub load_stream_session-perform_all :
          (xs : List (Command F))
          → All IsU8 xs
          → load_stream_session c true (perform_all c sha256_hex xs (open_storage empty_database))
            ≡ ok (restored (last_saved c xs none))
      unfolding load_stream_session
      load_stream_session-perform_all xs u =
          (perform_all-Keeps xs none (open_storage empty_database) u (
            open_storage-Keeps c none empty_database (record {
              column = unfold table_has_column eq_text in refl;
              row = unfold load_session_row in refl;
            }))).row

module _ {F : Type 0} (c : Codec F) where
  -- A database of an earlier version, whose table of sessions has no column for the schema, is opened
  -- without the session that it holds: its baseline is not taken up, whatever it is.
  pub load_stream_session-open_storage :
      (d : Database)
      → table_has_column d.session_columns (codes "schema_version") ≡ false
      → load_stream_session c true (open_storage d) ≡ ok none
  unfolding load_stream_session open_storage prune_history add_version_column
  load_stream_session-open_storage d h = rw h (of d.stream_session)
    where
      of : (o : Option SessionRow) → load_session_row c (with_version o) ≡ ok none
      of none = unfold load_session_row in refl
      of (some row) = unfold load_session_row in refl
