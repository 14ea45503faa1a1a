-- ===== src/Storage/History.antt =====
-- Every history of the operations of crates/storage/src/lib.rs, and what a table remembers of it.
use arc_twitch_widget.Prelude.{
  ℕ, zero, suc, ◌≤◌, ◌≡◌, refl, ap, Bool, List, [], ◌∷◌, none, map, take, arith,
}
use arc_twitch_widget.Prelude.Word.{i64_max}
use arc_twitch_widget.Text.{Text, codes}
use arc_twitch_widget.Text.Utf8.{Bytes}
use arc_twitch_widget.Storage.Tables.{Table, insert_row, keep_newest, empty_table, IsNumbered}
use arc_twitch_widget.Storage.Newest.{
  rows-keep_newest, keep_newest-IsNumbered, insert_row-IsNumbered, order_by_id_desc-IsDescending,
  limit_rows-take,
}
use arc_twitch_widget.Storage.{
  Observation, PersistedStreamSession, UserEvent, Database, Storage, Codec, open_storage, newest,
}
use arc_twitch_widget.Storage.Access.{insert_observation, save_stream_session, insert_user_event}

-- What the program may do with its database; the flags say which statements SQLite carries out.
pub data Command (F : Type 0) : Type 0 where
  add_observation : Bool → Bool → Observation F → Command F
  add_user_event : Bool → Bool → UserEvent → Command F
  save_session : Bool → PersistedStreamSession → Command F
  -- The program ends, and the next start opens the file.
  reopen : Command F

-- A database that `Storage::open` has just made.
abbrev pub empty_database : Database
empty_database = record {
  observations = empty_table;
  session_columns =
      codes "id"
      ∷ codes "schema_version"
      ∷ codes "local_day"
      ∷ codes "started_at"
      ∷ codes "updated_at"
      ∷ codes "baseline_json"
      ∷ codes "overlay_json"
      ∷ [];
  stream_session = none;
  user_events = empty_table;
}

module _ {F : Type 0} (c : Codec F) (sha256_hex : Bytes → Text) where
  unfoldable pub perform : Command F → Storage → Storage
  perform (add_observation works prune_works o) s =
      (insert_observation c sha256_hex works prune_works o s).0
  perform (add_user_event works prune_works e) s = (insert_user_event c works prune_works e s).0
  perform (save_session works session) s = (save_stream_session c works session s).0
  perform reopen s = open_storage s.database

  unfoldable pub perform_all : List (Command F) → Storage → Storage
  perform_all [] s = s
  perform_all (x ∷ xs) s = perform_all xs (perform x s)

module _ {ℓ} {A : Type ℓ} where
  take-take : (n m : ℕ) (xs : List A) → n ≤ m → take n (take m xs) ≡ take n xs
  take-take zero m xs h = refl
  take-take (suc n) zero xs h = absurd (omega arith)
  take-take (suc n) (suc m) [] h = refl
  take-take (suc n) (suc m) (x ∷ xs) h = ap (λ ys. x ∷ ys) (take-take n m xs (omega arith))

  pub map-take {κ} :
      {B : Type κ} (f : A → B) (n : ℕ) (xs : List A) → map f (take n xs) ≡ take n (map f xs)
  map-take f zero xs = refl
  map-take f (suc n) [] = refl
  map-take f (suc n) (x ∷ xs) = ap (λ ys. f x ∷ ys) (map-take f n xs)

module _ {R : Type 0} where
  abbrev pub contents : List (ℕ × R) → List R
  contents = map (λ r. r.1)

  -- The table holds the last rows of the history, newest first, `cap` of them at least.
  pub record Remembers (cap : ℕ) (history : List R) (t : Table R) : Type 0 where
    pub numbered : IsNumbered t
    pub kept : ℕ
    pub enough : cap ≤ kept
    pub rows : contents t.rows ≡ take kept history

  pub insert_row-Remembers :
      {cap : ℕ} {history : List R} {t : Table R} (r : R)
      → Remembers cap history t
      → Remembers cap (r ∷ history) (insert_row r t)
  insert_row-Remembers r h = record {
    numbered = insert_row-IsNumbered r _ h.numbered;
    kept = suc h.kept;
    enough = omega (arith, h.enough);
    rows = unfold insert_row in ap (λ ys. r ∷ ys) h.rows;
  }

  pub keep_newest-Remembers :
      {cap : ℕ} {history : List R} {t : Table R}
      → cap ≤ i64_max
      → Remembers cap history t
      → Remembers cap history (keep_newest cap t)
  keep_newest-Remembers {cap} {history} {t} l h = record {
    numbered = keep_newest-IsNumbered cap t l h.numbered;
    kept = cap;
    enough = omega arith;
    rows =
        rw (rows-keep_newest cap t l h.numbered, map-take (λ r. r.1) cap t.rows, h.rows)
          (take-take cap h.kept history h.enough);
  }

  -- A query for no more rows than are kept answers with the last ones of the history.
  pub contents-newest :
      {cap : ℕ} {history : List R} {t : Table R} (limit : ℕ)
      → limit ≤ cap
      → cap ≤ i64_max
      → Remembers cap history t
      → contents (newest limit t) ≡ take limit history
  contents-newest {cap} {history} {t} limit l m h =
      rw
        (
          order_by_id_desc-IsDescending t.rows h.numbered.descending,
          limit_rows-take limit t.rows (omega arith),
          map-take (λ r. r.1) limit t.rows,
          h.rows,
        )
        (take-take limit h.kept history (omega (arith, h.enough)))
