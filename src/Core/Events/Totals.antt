-- ===== src/Core/Events/Totals.antt =====
-- What the raw totals of stats.rs hold: for each key, the amounts of the rows that have it.
use arc_twitch_widget.Prelude.{
  ℕ, ◌+◌, ◌≤◌, ◌≡◌, refl, ap, ◌∙◌, Option, none, some, if◌then◌else◌, arith, Bool-cases, inl, inr,
}
use arc_twitch_widget.Prelude.Int.{ℤ}
use arc_twitch_widget.Prelude.Word.{u64_max, saturating_add}
use arc_twitch_widget.Text.{Text, eq_text}
use arc_twitch_widget.Text.Laws.{eq_text_iff}
use arc_twitch_widget.BTreeMap.{BTreeMap}
use arc_twitch_widget.BTreeMap.Laws.{get-insert}
use arc_twitch_widget.Core.Overlay.{OverlayStats}
use arc_twitch_widget.Core.Overlay.Baseline.{total}
use arc_twitch_widget.Core.Events.{
  EventKind, damage_by_enemy, event_kind, raw_key, count_event, add_entry, add_raw_total,
  add_target_total, known_row,
}
use arc_twitch_widget.Core.Events.Counters.{Counter, value, counts, raids, value-count_event}

-- What a row adds to a key: its amount under the event, and under the event with the target.
abbrev pub at_key : Text → Text → ℕ → ℕ
at_key k j n = if eq_text j k then n else 0

abbrev pub added : Text → ℤ → Option ℤ → ℕ → ℕ
added k event none n = at_key k (raw_key event none) n
added k event (some id) n = at_key k (raw_key event none) n + at_key k (raw_key event (some id)) n

total-add_entry :
    (m : BTreeMap ℕ) (j k : Text) (n : ℕ)
    → total m k ≤ u64_max
    → total (add_entry m j n) k ≡ saturating_add (total m k) (at_key k j n)
unfolding add_entry saturating_add
total-add_entry m j k n h = rw get-insert (elim (Bool-cases (eq_text j k)) [
  | inl same ↦ rw same (rw ((eq_text_iff j k).0 same) refl)
  | inr other ↦ rw other (omega arith)
])

raw_totals-count_event :
    (kind : EventKind) (t : Option ℤ) (n : ℕ) (s : OverlayStats)
    → (count_event kind t n s).raw_totals ≡ s.raw_totals
unfolding count_event
raw_totals-count_event damage_by_enemy t n s = refl
raw_totals-count_event _ t n s = ground arith

value-add_raw_total :
    (c : Counter) (s : OverlayStats) (event : ℤ) (t : Option ℤ) (n : ℕ)
    → value c (add_raw_total s event t n) ≡ value c s
unfolding add_raw_total
value-add_raw_total raids s event t n = refl
value-add_raw_total _ s event t n = refl

value-add_target_total :
    (c : Counter) (s : OverlayStats) (event : ℤ) (t : Option ℤ) (n : ℕ)
    → value c (add_target_total s event t n) ≡ value c s
unfolding add_target_total
value-add_target_total c s event none n = refl
value-add_target_total c s event (some id) n = value-add_raw_total c s event (some id) n

-- One row adds its amount to each counter that counts it, and to no other.
pub value-known_row :
    (c : Counter) (event : ℤ) (t : Option ℤ) (n : ℕ) (s : OverlayStats) (u : ℕ)
    → value c s ≤ u64_max
    → value c (known_row event t n (s, u)).0
      ≡ saturating_add (value c s) (if counts c event t then n else 0)
unfolding known_row
value-known_row c event t n s u h =
    let s1 = add_raw_total s event none n in
    let s2 = add_target_total s1 event t n in
    let e : value c s2 ≡ value c s =
      value-add_target_total c s1 event t n ∙ value-add_raw_total c s event none n in
    value-count_event c event t n s2 (rw e h)
    ∙ ap (λ v. saturating_add v (if counts c event t then n else 0)) e

total-add_raw_total :
    (s : OverlayStats) (event : ℤ) (t : Option ℤ) (n : ℕ) (k : Text)
    → total s.raw_totals k ≤ u64_max
    → total (add_raw_total s event t n).raw_totals k
      ≡ saturating_add (total s.raw_totals k) (at_key k (raw_key event t) n)
unfolding add_raw_total
total-add_raw_total s event t n k h = total-add_entry s.raw_totals (raw_key event t) k n h

total-add_target_total :
    (s : OverlayStats) (event : ℤ) (t : Option ℤ) (n : ℕ) (k : Text)
    → total s.raw_totals k ≤ u64_max
    → total (add_target_total (add_raw_total s event none n) event t n).raw_totals k
      ≡ saturating_add (total s.raw_totals k) (added k event t n)
unfolding add_target_total saturating_add
total-add_target_total s event none n k h = total-add_raw_total s event none n k h
total-add_target_total s event (some id) n k h = omega (
  arith,
  total-add_raw_total s event none n k h,
  total-add_raw_total (add_raw_total s event none n) event (some id) n k,
)

-- One row adds its amount to the keys that it has, and to no other.
pub total-known_row :
    (event : ℤ) (t : Option ℤ) (n : ℕ) (s : OverlayStats) (u : ℕ) (k : Text)
    → total s.raw_totals k ≤ u64_max
    → total (known_row event t n (s, u)).0.raw_totals k
      ≡ saturating_add (total s.raw_totals k) (added k event t n)
unfolding known_row
total-known_row event t n s u k h =
    ap (λ m. total m k) (raw_totals-count_event (event_kind event) t n _)
    ∙ total-add_target_total s event t n k h
