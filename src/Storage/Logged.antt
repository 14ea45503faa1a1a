-- ===== src/Storage/Logged.antt =====
-- The table of observations of crates/storage/src/lib.rs as a log of what was inserted.
use arc_twitch_widget.Prelude.{
  ℕ, ◌%◌, ◌≡◌, refl, Bool, true, false, List, [], ◌∷◌, some, if◌then◌else◌, ◌==◌, arith, if_cases,
}
use arc_twitch_widget.Prelude.Result.{Result, ok, err}
use arc_twitch_widget.Text.{Text}
use arc_twitch_widget.Text.Utf8.{Bytes}
use arc_twitch_widget.Json.{Value}
use arc_twitch_widget.Json.Plain.{is_plain, depth_limit}
use arc_twitch_widget.Core.Overlay.{OverlayStats}
use arc_twitch_widget.Core.Redaction.{sanitize_json}
use arc_twitch_widget.Storage.Tables.{insert_row}
use arc_twitch_widget.Storage.{
  Observation, ObservationRow, PersistedStreamSession, SessionRow, UserEventRow, Database, Storage,
  Codec, StorageError, sql_failed, max_observations, insert_observation_row, insert_user_event_row,
  prune_observations, prune_user_events, open_storage, add_version_column, prune_history,
}
use arc_twitch_widget.Storage.Access.{
  with_state, observation_row, insert_observation, insert_user_event, user_event_row,
  save_stream_session, session_row, as_u16,
}
use arc_twitch_widget.Storage.History.{
  Command, add_observation, add_user_event, save_session, reopen, perform, perform_all, Remembers,
  insert_row-Remembers, keep_newest-Remembers,
}

-- What is written can be read back: times, plain documents and statistics.
pub record RoundTrips {F : Type 0} (c : Codec F) : Type 0 where
  pub times : (t : ℕ) → c.parse_from_rfc3339 (c.to_rfc3339 t) ≡ some t
  pub values :
      (v : Value F) (s : Text)
      → is_plain depth_limit v ≡ true
      → c.to_string v ≡ some s
      → c.from_str s ≡ some v
  pub stats :
      (o : OverlayStats) (s : Text) → c.stats_to_string o ≡ some s → c.stats_from_str s ≡ some o

abbrev pub without_id : {F : Type 0} → Observation F → Observation F
without_id o = record o { id = 0 }

-- `a` in front, where the row of a command could be written.
abbrev pub written : {R A : Type 0} → Result StorageError R → A → List A → List A
written (ok r) a h = a ∷ h
written (err e) a h = h

abbrev pub row_written : {R : Type 0} → Result StorageError R → List R → List R
row_written (ok r) h = r ∷ h
row_written (err e) h = h

module _ {F : Type 0} (c : Codec F) (sha256_hex : Bytes → Text) where
  -- The observations whose shape could be written and whose rows SQLite has inserted, newest first.
  abbrev pub logged : List (Command F) → List (Observation F) → List (Observation F)
  logged [] h = h
  logged (add_observation true prune_works o ∷ xs) h =
      logged xs (written (observation_row c sha256_hex o) o h)
  logged (_ ∷ xs) h = logged xs h

  abbrev pub rows_logged : List (Command F) → List ObservationRow → List ObservationRow
  rows_logged [] h = h
  rows_logged (add_observation true prune_works o ∷ xs) h =
      rows_logged xs (row_written (observation_row c sha256_hex o) h)
  rows_logged (_ ∷ xs) h = rows_logged xs h

  -- An observation as it is kept: its shape is cleaned, and its status a `u16`.
  abbrev pub cleaned : Observation F → Observation F
  cleaned o = record o {
    id = 0;
    status = as_u16 o.status;
    shape = sanitize_json sha256_hex o.shape;
  }

  -- Every observation of the commands has a document that is plain once it is cleaned.
  abbrev pub HasPlain : List (Command F) → Type 0
  HasPlain [] = Unit
  HasPlain (add_observation works prune_works o ∷ xs) =
      (is_plain depth_limit (sanitize_json sha256_hex o.shape) ≡ true) × HasPlain xs
  HasPlain (_ ∷ xs) = HasPlain xs

  abbrev pub Keeps : List ObservationRow → Storage → Type 0
  Keeps h s = Remembers max_observations h s.database.observations

  insert_observation_row-Keeps :
      (works prune_works : Bool) (row : ObservationRow) (h : List ObservationRow) (s : Storage)
      → Keeps h s
      → Keeps (if works then row ∷ h else h) (insert_observation_row works prune_works row s).0
  unfolding insert_observation_row prune_observations
  insert_observation_row-Keeps false p row h s k = k
  insert_observation_row-Keeps true p row h s k =
      if_cases Held (s.observation_writes % 256 == 255)
        (λ _. if_cases Held p (λ _. keep_newest-Remembers (omega arith) next) (λ _. next))
        (λ _. next)
    where
      Held : Storage × Result StorageError ℕ → Type 0
      Held r = Keeps (row ∷ h) r.0

      next : Remembers max_observations (row ∷ h) (insert_row row s.database.observations)
      next = insert_row-Remembers row k

  insert_user_event_row-observations :
      (works prune_works : Bool) (row : UserEventRow) (s : Storage)
      → (insert_user_event_row works prune_works row s).0.database.observations
        ≡ s.database.observations
  unfolding insert_user_event_row prune_user_events
  insert_user_event_row-observations false p row s = refl
  insert_user_event_row-observations true p row s =
      if_cases Same (s.user_event_writes % 64 == 63) (λ _. if_cases Same p (λ _. refl) (λ _. refl))
        (λ _. refl)
    where
      Same : Storage × Result StorageError ℕ → Type 0
      Same r = r.0.database.observations ≡ s.database.observations

  save_stream_session-observations :
      (works : Bool) (session : PersistedStreamSession) (s : Storage)
      → (save_stream_session c works session s).0.database.observations ≡ s.database.observations
  unfolding save_stream_session
  save_stream_session-observations works session s = of (session_row c session)
    where
      Same : Storage × Result StorageError (Unit {0}) → Type 0
      Same r = r.0.database.observations ≡ s.database.observations

      of :
          (r : Result StorageError SessionRow)
          → Same (
              with_state s r λ row.
                if works
                then (
                  record s { database = record s.database { stream_session = some row } },
                  ok tt,
                )
                else (s, err sql_failed))
      of (err e) = refl
      of (ok row) = if_cases Same works (λ _. refl) (λ _. refl)

  pub open_storage-Keeps :
      (h : List ObservationRow) (s : Storage) → Keeps h s → Keeps h (open_storage s.database)
  unfolding open_storage prune_history
  open_storage-Keeps h s k = keep_newest-Remembers (omega arith) (
      unfold add_version_column in
      if_cases {A = Database} (λ d. Remembers max_observations h d.observations) _ (λ _. k)
        (λ _. k))

  perform-Keeps :
      (x : Command F) (h : List ObservationRow) (s : Storage)
      → Keeps h s
      → Keeps (rows_logged (x ∷ []) h) (perform c sha256_hex x s)
  unfolding perform insert_observation insert_user_event
  perform-Keeps (add_observation true p o) h s k = of (observation_row c sha256_hex o)
    where
      of :
          (r : Result StorageError ObservationRow)
          → Keeps (row_written r h) (with_state s r λ row. insert_observation_row true p row s).0
      of (err e) = k
      of (ok row) = insert_observation_row-Keeps true p row h s k
  perform-Keeps (add_observation false p o) h s k = of (observation_row c sha256_hex o)
    where
      of :
          (r : Result StorageError ObservationRow)
          → Keeps h (with_state s r λ row. insert_observation_row false p row s).0
      of (err e) = k
      of (ok row) = insert_observation_row-Keeps false p row h s k
  perform-Keeps (add_user_event works p e) h s k =
      rw (insert_user_event_row-observations works p (user_event_row c e) s) k
  perform-Keeps (save_session works session) h s k =
      rw (save_stream_session-observations works session s) k
  perform-Keeps reopen h s k = open_storage-Keeps h s k

  rows_logged-cons :
      (x : Command F) (xs : List (Command F)) (h : List ObservationRow)
      → rows_logged (x ∷ xs) h ≡ rows_logged xs (rows_logged (x ∷ []) h)
  rows_logged-cons (add_observation true p o) xs h = refl
  rows_logged-cons (add_observation false p o) xs h = refl
  rows_logged-cons (add_user_event works p e) xs h = refl
  rows_logged-cons (save_session works session) xs h = refl
  rows_logged-cons reopen xs h = refl

  pub perform_all-Keeps :
      (xs : List (Command F)) (h : List ObservationRow) (s : Storage)
      → Keeps h s
      → Keeps (rows_logged xs h) (perform_all c sha256_hex xs s)
  unfolding perform_all
  perform_all-Keeps [] h s k = k
  perform_all-Keeps (x ∷ xs) h s k =
      rw (rows_logged-cons x xs h) (perform_all-Keeps xs _ _ (perform-Keeps x h s k))
