-- ===== src/Storage/Tables.antt =====
-- What crates/storage/src/lib.rs asks of the tables of its SQLite database: a row has the number that
-- `INTEGER PRIMARY KEY AUTOINCREMENT` gave it, and the rows stand in any order.
use arc_twitch_widget.Prelude.{
  ℕ, suc, ◌<◌, ◌≤◌, Bool, List, [], ◌∷◌, take, any, retain, All, if◌then◌else◌, ltb, leb, ◌==◌,
}
use arc_twitch_widget.Prelude.Word.{i64_max}

pub record Table (R : Type 0) : Type 0 where
  -- The largest number that was ever given.
  pub seq : ℕ
  pub rows : List (ℕ × R)

abbrev pub empty_table : {R : Type 0} → Table R
empty_table = record { seq = 0; rows = [] }

module _ {R : Type 0} where
  -- `INSERT`: the new number is the next one.
  unfoldable pub insert_row : R → Table R → Table R
  insert_row r t = record { seq = suc t.seq; rows = (suc t.seq, r) ∷ t.rows }

  unfoldable pub place : ℕ × R → List (ℕ × R) → List (ℕ × R)
  place r [] = r ∷ []
  place r (x ∷ xs) = let rest = place r xs in if ltb r.0 x.0 then x ∷ rest else r ∷ x ∷ xs

  -- `ORDER BY id DESC`
  unfoldable pub order_by_id_desc : List (ℕ × R) → List (ℕ × R)
  order_by_id_desc [] = []
  order_by_id_desc (x ∷ xs) = place x (order_by_id_desc xs)

  -- `LIMIT n` of a `usize` that is passed `as i64`: a negative limit is none.
  unfoldable pub limit_rows : ℕ → List (ℕ × R) → List (ℕ × R)
  limit_rows n rows = if leb n i64_max then take n rows else rows

  abbrev pub has_id : ℕ → List (ℕ × R) → Bool
  has_id i rows = any (λ r. r.0 == i) rows

  -- `DELETE … WHERE id NOT IN (SELECT id … ORDER BY id DESC LIMIT n)`
  unfoldable pub keep_newest : ℕ → Table R → Table R
  keep_newest n t =
      let kept = limit_rows n (order_by_id_desc t.rows) in
      record t { rows = retain (λ r. has_id r.0 kept) t.rows }

  -- The numbers go down along the rows, and none is above the largest given.
  abbrev pub IsDescending : List (ℕ × R) → Type 0
  IsDescending [] = Unit
  IsDescending (x ∷ xs) = All (λ y. y.0 < x.0) xs × IsDescending xs

  pub record IsNumbered (t : Table R) : Type 0 where
    pub given : All (λ r. r.0 ≤ t.seq) t.rows
    pub descending : IsDescending t.rows
