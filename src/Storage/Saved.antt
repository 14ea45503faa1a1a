-- ===== src/Storage/Saved.antt =====
-- A session of crates/storage/src/lib.rs between its save and its load.
use arc_twitch_widget.Prelude.{
  ℕ, ◌%◌, ◌^◌, ◌<◌, ◌≡◌, refl, Bool, true, false, List, [], ◌∷◌, Option, none, some, if◌then◌else◌,
  ◌==◌, if_cases, arith,
}
use arc_twitch_widget.Prelude.Result.{Result, ok, err, context, ◌>>=◌}
use arc_twitch_widget.Text.{Text, codes}
use arc_twitch_widget.Storage.{
  UserEvent, ObservationRow, UserEventRow, PersistedStreamSession, SessionRow, Database, Storage,
  Codec, StorageError, not_serialized, insert_observation_row, insert_user_event_row,
  stream_session_schema_version, prune_observations, prune_user_events, open_storage,
  add_version_column, prune_history, table_has_column,
}
use arc_twitch_widget.Storage.Access.{
  insert_user_event, save_stream_session, session_row, session_row_with, session_of,
  load_session_row, load_stream_session,
}
use arc_twitch_widget.Storage.History.{Command, save_session}
use arc_twitch_widget.Storage.Logged.{RoundTrips}

-- A schema version is a `u8`.
abbrev pub IsU8 : {F : Type 0} → Command F → Type 0
IsU8 (save_session works session) = session.schema_version < 2 ^ 8
IsU8 _ = Unit

-- A session of another schema is not restored.
abbrev pub restored : Option PersistedStreamSession → Option PersistedStreamSession
restored none = none
restored (some session) =
    if session.schema_version == stream_session_schema_version then some session else none

abbrev pub newer :
    Result StorageError SessionRow
    → PersistedStreamSession
    → Option PersistedStreamSession
    → Option PersistedStreamSession
newer (ok row) session o = some session
newer (err e) session o = o

module _ {F : Type 0} (c : Codec F) where
  -- The session that was saved last.
  abbrev pub last_saved :
      List (Command F) → Option PersistedStreamSession → Option PersistedStreamSession
  last_saved [] o = o
  last_saved (save_session true session ∷ xs) o =
      last_saved xs (newer (session_row c session) session o)
  last_saved (_ ∷ xs) o = last_saved xs o

  -- The kept row is read as the session, and the table has the column of its version.
  pub record Keeps (o : Option PersistedStreamSession) (d : Database) : Type 0 where
    pub column : table_has_column d.session_columns (codes "schema_version") ≡ true
    pub row : load_session_row c d.stream_session ≡ ok (restored o)

  pub insert_observation_row-Keeps :
      (works prune_works : Bool) (row : ObservationRow) (o : Option PersistedStreamSession)
      (s : Storage)
      → Keeps o s.database
      → Keeps o (insert_observation_row works prune_works row s).0.database
  unfolding insert_observation_row prune_observations
  insert_observation_row-Keeps false p row o s k = k
  insert_observation_row-Keeps true p row o s k =
      if_cases Held (s.observation_writes % 256 == 255)
        (λ _.
          if_cases Held p (λ _. record { column = k.column; row = k.row })
            (λ _. record { column = k.column; row = k.row }))
        (λ _. record { column = k.column; row = k.row })
    where
      Held : Storage × Result StorageError ℕ → Type 0
      Held r = Keeps o r.0.database

  pub insert_user_event_row-Keeps :
      (works prune_works : Bool) (row : UserEventRow) (o : Option PersistedStreamSession)
      (s : Storage)
      → Keeps o s.database
      → Keeps o (insert_user_event_row works prune_works row s).0.database
  unfolding insert_user_event_row prune_user_events
  insert_user_event_row-Keeps false p row o s k = k
  insert_user_event_row-Keeps true p row o s k =
      if_cases Held (s.user_event_writes % 64 == 63)
        (λ _.
          if_cases Held p (λ _. record { column = k.column; row = k.row })
            (λ _. record { column = k.column; row = k.row }))
        (λ _. record { column = k.column; row = k.row })
    where
      Held : Storage × Result StorageError ℕ → Type 0
      Held r = Keeps o r.0.database

  -- An event for the user changes nothing of the session.
  pub load-insert_user_event :
      (works prune_works : Bool) (e : UserEvent) (s : Storage)
      → load_stream_session c true (insert_user_event c works prune_works e s).0
        ≡ load_stream_session c true s
  unfolding load_stream_session insert_user_event insert_user_event_row prune_user_events
  load-insert_user_event false p e s = refl
  load-insert_user_event true p e s =
      if_cases Unchanged (s.user_event_writes % 64 == 63)
        (λ _. if_cases Unchanged p (λ _. refl) (λ _. refl)) (λ _. refl)
    where
      Unchanged : Storage × Result StorageError ℕ → Type 0
      Unchanged r =
          load_session_row c r.0.database.stream_session
          ≡ load_session_row c s.database.stream_session

  pub open_storage-Keeps :
      (o : Option PersistedStreamSession) (d : Database)
      → Keeps o d
      → Keeps o (open_storage d).database
  unfolding open_storage prune_history add_version_column
  open_storage-Keeps o d k =
      if_cases {A = Database} (λ e. Keeps o (prune_history e))
        (table_has_column d.session_columns (codes "schema_version"))
        (λ _. record { column = k.column; row = k.row }) (λ e. cc)

  module _ (rt : RoundTrips c) where
    session_of_row_with :
        (session : PersistedStreamSession) (b v : Text)
        → session.schema_version < 2 ^ 8
        → c.stats_to_string session.baseline ≡ some b
        → c.stats_to_string session.overlay ≡ some v
        → session_of c (session_row_with c session b v) ≡ ok session
    unfolding session_of session_row_with
    session_of_row_with session b v h eb ev =
        let n : session.schema_version % 2 ^ 8 ≡ session.schema_version = omega arith in
        simp (
          rt.times session.started_at,
          rt.times session.updated_at,
          rt.stats session.baseline b eb,
          rt.stats session.overlay v ev,
          n,
        )

    load_row_with :
        (session : PersistedStreamSession) (b v : Text)
        → session.schema_version < 2 ^ 8
        → c.stats_to_string session.baseline ≡ some b
        → c.stats_to_string session.overlay ≡ some v
        → load_session_row c (some (session_row_with c session b v)) ≡ ok (restored (some session))
    unfolding load_session_row session_row_with
    load_row_with session b v h eb ev =
        let n : session.schema_version % 2 ^ 8 ≡ session.schema_version = omega arith in
        rw n (of (session.schema_version == stream_session_schema_version))
      where
        of :
            (t : Bool)
            → (if t
                then (session_of c (session_row_with c session b v) >>= λ x. ok (some x))
                else ok none)
              ≡ ok (if t then some session else none)
        of true = rw (session_of_row_with session b v h eb ev) refl
        of false = refl

    pub load_written :
        (session : PersistedStreamSession) (row : SessionRow)
        → session.schema_version < 2 ^ 8
        → session_row c session ≡ ok row
        → load_session_row c (some row) ≡ ok (restored (some session))
    unfolding session_row
    load_written session row h q =
        of (c.stats_to_string session.baseline) refl (c.stats_to_string session.overlay) refl q
      where
        of :
            (t : Option Text)
            → c.stats_to_string session.baseline ≡ t
            → (u : Option Text) → c.stats_to_string session.overlay ≡ u
            → (context t not_serialized >>= λ b.
                context u not_serialized >>= λ v. ok (session_row_with c session b v))
              ≡ ok row
            → load_session_row c (some row) ≡ ok (restored (some session))
        of none e u f q = cc
        of (some b) e none f q = cc
        of (some b) e (some v) f q =
            let same : session_row_with c session b v ≡ row = cc in
            rw (← same) (load_row_with session b v h e f)

    -- What is saved and can be written is what is loaded.
    pub load-save :
        (session : PersistedStreamSession) (row : SessionRow) (s : Storage)
        → session.schema_version < 2 ^ 8
        → session_row c session ≡ ok row
        → load_stream_session c true (save_stream_session c true session s).0
          ≡ ok (restored (some session))
    unfolding load_stream_session save_stream_session
    load-save session row s h q = rw q (load_written session row h q)
