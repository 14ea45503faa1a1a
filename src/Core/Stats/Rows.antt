-- ===== src/Core/Stats/Rows.antt =====
-- What `normalize_rows` computes, said without its loop: saturated sums over the rows.
use arc_twitch_widget.Prelude.{
  ℕ, ◌+◌, ◌≤◌, ◌≡◌, refl, List, [], ◌∷◌, Option, none, some, unwrap_or, if◌then◌else◌, arith, min,
}
use arc_twitch_widget.Prelude.Int.{ℤ}
use arc_twitch_widget.Prelude.Word.{u64_max, saturating_add}
use arc_twitch_widget.Text.{Text, codes}
use arc_twitch_widget.BTreeMap
use arc_twitch_widget.Json
use arc_twitch_widget.Json.{Value, Float}
use arc_twitch_widget.Core.Overlay.{OverlayStats, overlay_stats_default}
use arc_twitch_widget.Core.Overlay.Baseline.{total}
use arc_twitch_widget.Core.Events.{event_kind, is_other, known_row}
use arc_twitch_widget.Core.Events.Counters.{Counter, value, counts, raids}
use arc_twitch_widget.Core.Events.Totals.{added, value-known_row, total-known_row}
use arc_twitch_widget.Core.Stats.{
  integer, unsigned, row_with, normalize_row, normalize_from, normalize_rows,
}

module _ (fl : Float) where
  open fl use {F}

  -- The event id, the target and the amount of a row, as the code reads them.
  abbrev pub event_id : Value F → Option ℤ
  event_id row = integer fl (Json.get row (codes "eventId"))

  abbrev pub target_id : Value F → Option ℤ
  target_id row = integer fl (Json.get row (codes "targetId"))

  abbrev pub amount : Value F → ℕ
  amount row = unwrap_or (unsigned fl (Json.get row (codes "amount"))) 0

  abbrev counted : Counter → Option ℤ → Option ℤ → ℕ → ℕ
  counted c none t n = 0
  counted c (some e) t n = if counts c e t then n else 0

  abbrev keyed : Text → Option ℤ → Option ℤ → ℕ → ℕ
  keyed k none t n = 0
  keyed k (some e) t n = added k e t n

  -- A row that is counted as unknown.
  abbrev pub unread : Option ℤ → ℕ
  unread none = 1
  unread (some e) = if is_other (event_kind e) then 1 else 0

  -- The sum of the amounts of the rows that a counter counts.
  abbrev pub tally : Counter → List (Value F) → ℕ
  tally c [] = 0
  tally c (row ∷ rows) = counted c (event_id row) (target_id row) (amount row) + tally c rows

  -- The sum of the amounts that the rows add to a key.
  abbrev pub tally_key : Text → List (Value F) → ℕ
  tally_key k [] = 0
  tally_key k (row ∷ rows) = keyed k (event_id row) (target_id row) (amount row) + tally_key k rows

  abbrev pub tally_unknown : List (Value F) → ℕ
  tally_unknown [] = 0
  tally_unknown (row ∷ rows) = unread (event_id row) + tally_unknown rows

  value-row_with :
      (c : Counter) (e : Option ℤ) (row : Value F) (s : OverlayStats) (u : ℕ)
      → value c s ≤ u64_max
      → value c (row_with fl e row (s, u)).0
        ≡ saturating_add (value c s) (counted c e (target_id row) (amount row))
  unfolding row_with saturating_add
  value-row_with c none row s u h = omega arith
  value-row_with c (some e) row s u h = value-known_row c e (target_id row) (amount row) s u h

  value-normalize_from :
      (c : Counter) (rows : List (Value F)) (s : OverlayStats) (u : ℕ)
      → value c s ≤ u64_max
      → value c (normalize_from fl (s, u) rows).0 ≡ min (value c s + tally c rows) u64_max
  unfolding normalize_from normalize_row saturating_add
  value-normalize_from c [] s u h = omega arith
  value-normalize_from c (row ∷ rows) s u h =
      let (s', u') = row_with fl (event_id row) row (s, u) in
      omega (arith, value-row_with c (event_id row) row s u h, value-normalize_from c rows s' u')

  total-row_with :
      (e : Option ℤ) (row : Value F) (s : OverlayStats) (u : ℕ) (k : Text)
      → total s.raw_totals k ≤ u64_max
      → total (row_with fl e row (s, u)).0.raw_totals k
        ≡ saturating_add (total s.raw_totals k) (keyed k e (target_id row) (amount row))
  unfolding row_with saturating_add
  total-row_with none row s u k h = omega arith
  total-row_with (some e) row s u k h = total-known_row e (target_id row) (amount row) s u k h

  total-normalize_from :
      (rows : List (Value F)) (s : OverlayStats) (u : ℕ) (k : Text)
      → total s.raw_totals k ≤ u64_max
      → total (normalize_from fl (s, u) rows).0.raw_totals k
        ≡ min (total s.raw_totals k + tally_key k rows) u64_max
  unfolding normalize_from normalize_row saturating_add
  total-normalize_from [] s u k h = omega arith
  total-normalize_from (row ∷ rows) s u k h =
      let (s', u') = row_with fl (event_id row) row (s, u) in
      omega (arith, total-row_with (event_id row) row s u k h, total-normalize_from rows s' u' k)

  unknown-row_with :
      (e : Option ℤ) (row : Value F) (s : OverlayStats) (u : ℕ)
      → u ≤ u64_max
      → (row_with fl e row (s, u)).1 ≡ saturating_add u (unread e)
  unfolding row_with known_row saturating_add
  unknown-row_with none row s u h = omega arith
  unknown-row_with (some e) row s u h = ground arith

  unknown-normalize_from :
      (rows : List (Value F)) (s : OverlayStats) (u : ℕ)
      → u ≤ u64_max
      → (normalize_from fl (s, u) rows).1 ≡ min (u + tally_unknown rows) u64_max
  unfolding normalize_from normalize_row saturating_add
  unknown-normalize_from [] s u h = omega arith
  unknown-normalize_from (row ∷ rows) s u h =
      let (s', u') = row_with fl (event_id row) row (s, u) in
      omega (arith, unknown-row_with (event_id row) row s u h, unknown-normalize_from rows s' u')

  value_default : (c : Counter) → value c overlay_stats_default ≡ 0
  value_default raids = refl
  value_default _ = refl

  -- Each counter is the saturated sum of the amounts of the rows that it counts.
  pub value-normalize_rows :
      (c : Counter) (rows : List (Value F))
      → value c (normalize_rows fl rows).0 ≡ min (tally c rows) u64_max
  unfolding normalize_rows
  value-normalize_rows c rows =
      omega (arith, value_default c, value-normalize_from c rows overlay_stats_default 0)

  -- Each raw total is the saturated sum of the amounts that the rows add to its key.
  pub total-normalize_rows :
      (rows : List (Value F)) (k : Text)
      → total (normalize_rows fl rows).0.raw_totals k ≡ min (tally_key k rows) u64_max
  unfolding normalize_rows BTreeMap.get
  total-normalize_rows rows k = omega (arith, total-normalize_from rows overlay_stats_default 0 k)

  -- The second result counts the rows with no event id or with one that the program does not name.
  pub unknown-normalize_rows :
      (rows : List (Value F)) → (normalize_rows fl rows).1 ≡ min (tally_unknown rows) u64_max
  unfolding normalize_rows
  unknown-normalize_rows rows = omega (arith, unknown-normalize_from rows overlay_stats_default 0)
