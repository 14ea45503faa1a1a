-- ===== src/Storage/Recent.antt =====
-- What `recent_observations` of crates/storage/src/lib.rs gives back.
use arc_twitch_widget.Prelude.{
  ℕ, ◌≤◌, ◌≡◌, refl, ap, sym, ◌∙◌, true, false, List, [], ◌∷◌, Option, none, some, map, take, All,
  all, arith,
}
use arc_twitch_widget.Prelude.Result.{Result, ok, err, context, ◌>>=◌}
use arc_twitch_widget.Text.{Text, is_ascii_alphanumeric}
use arc_twitch_widget.Text.Utf8.{Bytes}
use arc_twitch_widget.Json.Plain.{is_plain, depth_limit}
use arc_twitch_widget.Core.Redaction.{sanitize_json}
use arc_twitch_widget.Core.Redaction.Clean.{is_clean, is_clean-sanitize_json}
use arc_twitch_widget.Storage.{
  Observation, ObservationRow, Codec, StorageError, not_serialized, max_observations, open_storage,
  newest,
}
use arc_twitch_widget.Storage.Access.{
  observation_row_with, observation_row, observation_of, recent_observations,
}
use arc_twitch_widget.Storage.History.{
  Command, add_observation, add_user_event, save_session, reopen, empty_database, perform_all,
  contents, contents-newest, map-take,
}
use arc_twitch_widget.Storage.Logged.{
  RoundTrips, HasPlain, without_id, written, row_written, logged, rows_logged, cleaned, Keeps,
  open_storage-Keeps, perform_all-Keeps,
}

module _ {F : Type 0} (c : Codec F) (sha256_hex : Bytes → Text) where
  made : Keeps c sha256_hex [] (open_storage empty_database)
  made =
      open_storage-Keeps c sha256_hex []
        (record { database = empty_database; observation_writes = 0; user_event_writes = 0 })
        (record {
          numbered = record { given = tt; descending = tt };
          kept = max_observations;
          enough = omega arith;
          rows = refl;
        })

  -- A row as a query gives it, without its number.
  read : ℕ → ObservationRow → Observation F
  read now row = without_id (observation_of c now (0, row))

  map_read :
      (now : ℕ) (rows : List (ℕ × ObservationRow))
      → map without_id (map (observation_of c now) rows) ≡ map (read now) (contents rows)
  unfolding read observation_of
  map_read now [] = refl
  map_read now ((i, r) ∷ rows) = ap (λ ys. read now r ∷ ys) (map_read now rows)

  module _ (rt : RoundTrips c) where
    read_row_with :
        (now : ℕ) (o : Observation F) (s : Text)
        → is_plain depth_limit (sanitize_json sha256_hex o.shape) ≡ true
        → c.to_string (sanitize_json sha256_hex o.shape) ≡ some s
        → read now (observation_row_with c o s) ≡ cleaned c sha256_hex o
    unfolding read observation_of observation_row_with
    read_row_with now o s p e = rw (rt.times o.observed_at, rt.values _ s p e) refl

    read_written :
        (now : ℕ) (o : Observation F) (r : ObservationRow)
        → is_plain depth_limit (sanitize_json sha256_hex o.shape) ≡ true
        → observation_row c sha256_hex o ≡ ok r
        → read now r ≡ cleaned c sha256_hex o
    unfolding observation_row
    read_written now o r p h = of (c.to_string (sanitize_json sha256_hex o.shape)) refl h
      where
        of :
            (t : Option Text)
            → c.to_string (sanitize_json sha256_hex o.shape) ≡ t
            → (context t not_serialized >>= λ shape_json. ok (observation_row_with c o shape_json))
              ≡ ok r
            → read now r ≡ cleaned c sha256_hex o
        of none e q = cc
        of (some s) e q =
            let same : observation_row_with c o s ≡ r = cc in
            rw (← same) (read_row_with now o s p e)

    agree :
        (now : ℕ) (xs : List (Command F)) (rows : List ObservationRow) (os : List (Observation F))
        → HasPlain c sha256_hex xs
        → map (read now) rows ≡ map (cleaned c sha256_hex) os
        → map (read now) (rows_logged c sha256_hex xs rows)
          ≡ map (cleaned c sha256_hex) (logged c sha256_hex xs os)
    agree now [] rows os p h = h
    agree now (add_observation true t o ∷ xs) rows os (p, ps) h =
        agree now xs _ _ ps (of (observation_row c sha256_hex o) refl)
      where
        of :
            (r : Result StorageError ObservationRow)
            → observation_row c sha256_hex o ≡ r
            → map (read now) (row_written r rows) ≡ map (cleaned c sha256_hex) (written r o os)
        of (err e) q = h
        of (ok row) q = let first = read_written now o row p q in cc
    agree now (add_observation false t o ∷ xs) rows os (p, ps) h = agree now xs rows os ps h
    agree now (add_user_event works t e ∷ xs) rows os p h = agree now xs rows os p h
    agree now (save_session works session ∷ xs) rows os p h = agree now xs rows os p h
    agree now (reopen ∷ xs) rows os p h = agree now xs rows os p h

    -- The database is a log of observations. Whatever commands have been performed on it since it was
    -- made, ends and starts of the program and failures of SQLite included, a query for at most five
    -- thousand observations gives those that were inserted last, newest first, as they are kept, where
    -- times and plain documents that are written can be read back and the cleaned documents of the
    -- commands are plain: they have no float, at most 127 levels, and keys in order. Their numbers are
    -- left aside.
    pub recent_observations-perform_all :
        (xs : List (Command F)) (now limit : ℕ)
        → HasPlain c sha256_hex xs
        → limit ≤ max_observations
        → (os : List (Observation F)) × (recent_observations c true now limit
              (perform_all c sha256_hex xs (open_storage empty_database))
            ≡ ok os)
          × (map without_id os
              ≡ map (cleaned c sha256_hex) (take limit (logged c sha256_hex xs [])))
    recent_observations-perform_all xs now limit p l =
        let s = perform_all c sha256_hex xs (open_storage empty_database) in
        let k : Keeps c sha256_hex (rows_logged c sha256_hex xs []) s =
          perform_all-Keeps c sha256_hex xs [] (open_storage empty_database) made in
        let last : contents (newest limit s.database.observations)
            ≡ take limit (rows_logged c sha256_hex xs []) =
          contents-newest limit l (omega arith) k in
        (
          map (observation_of c now) (newest limit s.database.observations),
          unfold recent_observations in refl,
          map_read now (newest limit s.database.observations)
              ∙ ap (map (read now)) last
              ∙ map-take (read now) limit (rows_logged c sha256_hex xs [])
              ∙ ap (take limit) (agree now xs [] [] p refl)
              ∙ sym (map-take (cleaned c sha256_hex) limit (logged c sha256_hex xs [])),
        )

    all_clean :
        ((b : Bytes) → all is_ascii_alphanumeric (sha256_hex b) ≡ true)
        → (os ps : List (Observation F)) → map without_id os ≡ map (cleaned c sha256_hex) ps
        → All (λ o. is_clean o.shape ≡ true) os
    all_clean hex [] ps h = tt
    all_clean hex (o ∷ os) [] h = cc
    all_clean hex (o ∷ os) (p ∷ ps) h =
        let tails : map without_id os ≡ map (cleaned c sha256_hex) ps = cc in
        let heads : without_id o ≡ cleaned c sha256_hex p = cc in
        let shapes : o.shape ≡ sanitize_json sha256_hex p.shape =
          ap (λ (x : Observation F). x.shape) heads in
        (rw shapes (is_clean-sanitize_json sha256_hex hex p.shape), all_clean hex os ps tails)

    -- Whatever commands have been performed since the database was made, no observation that a query for
    -- at most five thousand gives back has a string of the form of a token or an open secret in its
    -- shape, where a digest is of letters and digits, times and plain documents that are written can be
    -- read back, and the cleaned documents of the commands are plain.
    pub recent_observations-clean :
        ((b : Bytes) → all is_ascii_alphanumeric (sha256_hex b) ≡ true)
        → (xs : List (Command F)) (now limit : ℕ) → HasPlain c sha256_hex xs
        → limit ≤ max_observations
        → (os : List (Observation F)) × (recent_observations c true now limit
              (perform_all c sha256_hex xs (open_storage empty_database))
            ≡ ok os)
          × All (λ o. is_clean o.shape ≡ true) os
    recent_observations-clean hex xs now limit p l =
        let (os, e, k) = recent_observations-perform_all xs now limit p l in
        (os, e, all_clean hex os (take limit (logged c sha256_hex xs [])) k)
