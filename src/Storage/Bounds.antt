-- ===== src/Storage/Bounds.antt =====
-- How large the tables of crates/storage/src/lib.rs grow.
use arc_twitch_widget.Prelude.{
  ℕ, ◌+◌, ◌%◌, ◌^◌, ◌≤◌, ◌≡◌, Bool, true, false, List, [], ◌∷◌, some, All, length, length-take,
  if◌then◌else◌, ◌==◌, if_cases, arith,
}
use arc_twitch_widget.Prelude.Word.{i64_max}
use arc_twitch_widget.Prelude.Result.{Result, ok, err}
use arc_twitch_widget.Text.{Text}
use arc_twitch_widget.Text.Utf8.{Bytes}
use arc_twitch_widget.Storage.Tables.{Table, insert_row, keep_newest, IsNumbered}
use arc_twitch_widget.Storage.Newest.{
  rows-keep_newest, keep_newest-IsNumbered, insert_row-IsNumbered,
}
use arc_twitch_widget.Storage.{
  ObservationRow, UserEventRow, PersistedStreamSession, SessionRow, Database, Storage, Codec,
  StorageError, sql_failed, max_observations, max_user_events, insert_observation_row,
  insert_user_event_row, prune_observations, prune_user_events, open_storage, add_version_column,
  prune_history, next_write,
}
use arc_twitch_widget.Storage.Access.{
  with_state, observation_row, insert_observation, insert_user_event, user_event_row,
  save_stream_session, session_row,
}
use arc_twitch_widget.Storage.History.{
  Command, add_observation, add_user_event, save_session, reopen, perform, perform_all,
}

-- The rows are numbered as SQLite does, and there are `cap` of them at most and those of the writes
-- since the last deletion.
pub record Holds {R : Type 0} (cap since : ℕ) (t : Table R) : Type 0 where
  pub numbered : IsNumbered t
  pub bounded : length t.rows ≤ cap + since

module _ {R : Type 0} where
  keep_newest-Holds :
      (cap since : ℕ) (t : Table R)
      → cap ≤ 5000
      → IsNumbered t
      → Holds cap since (keep_newest cap t)
  keep_newest-Holds cap since t l h =
      let m : cap ≤ i64_max = omega arith in
      record {
        numbered = keep_newest-IsNumbered cap t m h;
        bounded = rw (rows-keep_newest cap t m h, length-take cap t.rows) (omega arith);
      }

  insert_row-Holds :
      (cap since : ℕ) (r : R) (t : Table R)
      → Holds cap since t
      → Holds cap (since + 1) (insert_row r t)
  insert_row-Holds cap since r t h = record {
    numbered = insert_row-IsNumbered r t h.numbered;
    bounded = unfold insert_row in omega (arith, h.bounded);
  }

-- Both tables within their bounds, by the counters of the writes.
pub record IsBounded (s : Storage) : Type 0 where
  pub observations : Holds max_observations (s.observation_writes % 256) s.database.observations
  pub user_events : Holds max_user_events (s.user_event_writes % 64) s.database.user_events

wraps : (n : ℕ) → n % 2 ^ 64 % 256 ≡ n % 256
wraps n = omega arith

next_of_256 : (n : ℕ) → ((n % 256) == 255) ≡ false → next_write n % 256 ≡ n % 256 + 1
next_of_256 n e = rw (wraps (n + 1)) (ground arith)

next_of_64 : (n : ℕ) → ((n % 64) == 63) ≡ false → next_write n % 64 ≡ n % 64 + 1
next_of_64 n e = let w : (n + 1) % 2 ^ 64 % 64 ≡ (n + 1) % 64 = omega arith in rw w (ground arith)

insert_observation_row-IsBounded :
    (works : Bool) (row : ObservationRow) (s : Storage)
    → IsBounded s
    → IsBounded (insert_observation_row works true row s).0
unfolding insert_observation_row prune_observations
insert_observation_row-IsBounded false row s h = h
insert_observation_row-IsBounded true row s h =
    if_cases Bounded (s.observation_writes % 256 == 255)
      (λ e. record {
        observations =
            keep_newest-Holds _ _ _ (omega arith)
              (insert_row-IsNumbered row s.database.observations h.observations.numbered);
        user_events = h.user_events;
      })
      (λ e.
        let k = insert_row-Holds _ _ row _ h.observations in
        record {
          observations = record {
            numbered = k.numbered;
            bounded = omega (arith, k.bounded, next_of_256 _ e);
          };
          user_events = h.user_events;
        })
  where
    Bounded : Storage × Result StorageError ℕ → Type 0
    Bounded r = IsBounded r.0

insert_user_event_row-IsBounded :
    (works : Bool) (row : UserEventRow) (s : Storage)
    → IsBounded s
    → IsBounded (insert_user_event_row works true row s).0
unfolding insert_user_event_row prune_user_events
insert_user_event_row-IsBounded false row s h = h
insert_user_event_row-IsBounded true row s h =
    if_cases Bounded (s.user_event_writes % 64 == 63)
      (λ e. record {
        observations = h.observations;
        user_events =
            keep_newest-Holds _ _ _ (omega arith)
              (insert_row-IsNumbered row s.database.user_events h.user_events.numbered);
      })
      (λ e.
        let k = insert_row-Holds _ _ row _ h.user_events in
        record {
          observations = h.observations;
          user_events = record {
            numbered = k.numbered;
            bounded = omega (arith, k.bounded, next_of_64 _ e);
          };
        })
  where
    Bounded : Storage × Result StorageError ℕ → Type 0
    Bounded r = IsBounded r.0

save_stream_session-IsBounded :
    {F : Type 0} (c : Codec F) (works : Bool) (session : PersistedStreamSession) (s : Storage)
    → IsBounded s
    → IsBounded (save_stream_session c works session s).0
unfolding save_stream_session
save_stream_session-IsBounded c works session s h = of (session_row c session)
  where
    Bounded : Storage × Result StorageError (Unit {0}) → Type 0
    Bounded r = IsBounded r.0

    of :
        (r : Result StorageError SessionRow)
        → Bounded (
            with_state s r λ row.
              if works
              then (record s { database = record s.database { stream_session = some row } }, ok tt)
              else (s, err sql_failed))
    of (err e) = h
    of (ok row) =
        if_cases Bounded works
          (λ _. record { observations = h.observations; user_events = h.user_events }) (λ _. h)

open_storage-IsBounded :
    (d : Database)
    → IsNumbered d.observations
    → IsNumbered d.user_events
    → IsBounded (open_storage d)
unfolding open_storage prune_history
open_storage-IsBounded d o u = record {
  observations = keep_newest-Holds _ _ _ (omega arith) (
      unfold add_version_column in
      if_cases {A = Database} (λ d. IsNumbered d.observations) _ (λ _. o) (λ _. o));
  user_events = keep_newest-Holds _ _ _ (omega arith) (
      unfold add_version_column in
      if_cases {A = Database} (λ d. IsNumbered d.user_events) _ (λ _. u) (λ _. u));
}

-- SQLite carries out the deletions of old rows.
abbrev pub Prunes : {F : Type 0} → Command F → Type 0
Prunes (add_observation works prune_works o) = prune_works ≡ true
Prunes (add_user_event works prune_works e) = prune_works ≡ true
Prunes _ = Unit

module _ {F : Type 0} (c : Codec F) (sha256_hex : Bytes → Text) where
  perform-IsBounded :
      (x : Command F) (s : Storage) → Prunes x → IsBounded s → IsBounded (perform c sha256_hex x s)
  unfolding perform insert_observation insert_user_event
  perform-IsBounded (add_observation works true o) s p h = of (observation_row c sha256_hex o)
    where
      of :
          (r : Result StorageError ObservationRow)
          → IsBounded (with_state s r λ row. insert_observation_row works true row s).0
      of (err e) = h
      of (ok row) = insert_observation_row-IsBounded works row s h
  perform-IsBounded (add_observation works false o) s p h = cc
  perform-IsBounded (add_user_event works true e) s p h =
      insert_user_event_row-IsBounded works (user_event_row c e) s h
  perform-IsBounded (add_user_event works false e) s p h = cc
  perform-IsBounded (save_session works session) s p h =
      save_stream_session-IsBounded c works session s h
  perform-IsBounded reopen s p h =
      open_storage-IsBounded s.database h.observations.numbered h.user_events.numbered

  performed :
      (xs : List (Command F)) (s : Storage)
      → All Prunes xs
      → IsBounded s
      → IsBounded (perform_all c sha256_hex xs s)
  unfolding perform_all
  performed [] s p h = h
  performed (x ∷ xs) s p h =
      performed xs (perform c sha256_hex x s) p.1 (perform-IsBounded x s p.0 h)

  -- On any database whose rows are numbered as SQLite does, however long its tables are, and whatever
  -- commands are performed after it was opened, failing ones and further starts included: there are at
  -- most 5000 observations and one for each write since the last deletion, which is at every 256th, and
  -- at most 1000 events for the user and one for each write since the last of every 64th, as long as
  -- SQLite carries the deletions out.
  pub perform_all-IsBounded :
      (d : Database) (xs : List (Command F))
      → IsNumbered d.observations
      → IsNumbered d.user_events
      → All Prunes xs
      → IsBounded (perform_all c sha256_hex xs (open_storage d))
  perform_all-IsBounded d xs o u p = performed xs (open_storage d) p (open_storage-IsBounded d o u)
