-- ===== src/Core/Overlay/Baseline.antt =====
-- What the session counters of state.rs mean: deltas from a baseline.
use arc_twitch_widget.Prelude.{ℕ, ◌-◌, ◌+◌, ◌≤◌, ◌≡◌, refl, Option, none, some, unwrap_or, arith}
use arc_twitch_widget.Prelude.Int.{pos, clamp_i64, pos_part, neg_part}
use arc_twitch_widget.Prelude.Word.{i64_max}
use arc_twitch_widget.Text.{Text}
use arc_twitch_widget.BTreeMap
use arc_twitch_widget.BTreeMap.{BTreeMap, map_values}
use arc_twitch_widget.BTreeMap.Laws.{map_option, get-map_values}
use arc_twitch_widget.Core.Overlay.{OverlayStats, session_deltas, apply_session_baseline}

-- The entry of a key, 0 where the map has none.
abbrev pub total : BTreeMap ℕ → Text → ℕ
total m k = unwrap_or (BTreeMap.get m k) 0

get-session_deltas :
    (totals baseline : BTreeMap ℕ) (k : Text)
    → BTreeMap.get (session_deltas totals baseline) k
      ≡ map_option (λ v. v - total baseline k) (BTreeMap.get totals k)
unfolding session_deltas
get-session_deltas totals baseline k = get-map_values _ totals k

total-session_deltas :
    (totals baseline : BTreeMap ℕ) (k : Text)
    → total (session_deltas totals baseline) k ≡ total totals k - total baseline k
total-session_deltas totals baseline k = rw get-session_deltas (of (BTreeMap.get totals k))
  where
    of :
        (o : Option ℕ)
        → unwrap_or (map_option (λ v. v - total baseline k) o) 0 ≡ unwrap_or o 0 - total baseline k
    of none = omega arith
    of (some v) = refl

-- No counter of the account has gone back since the baseline was taken.
pub record Grown (baseline s : OverlayStats) : Type 0 where
  pub downs : baseline.downs ≤ s.downs
  pub extractions : baseline.extractions ≤ s.extractions
  pub deaths : baseline.deaths ≤ s.deaths
  pub loot_value : baseline.loot_value ≤ s.loot_value
  pub value_brought_in : baseline.value_brought_in ≤ s.value_brought_in

-- The money of two stretches of a stream fits an `i64`.
pub record MoneyFits (s : OverlayStats) : Type 0 where
  pub loot_value : s.loot_value ≤ i64_max
  pub value_brought_in : s.value_brought_in ≤ i64_max

session_money_delta-parts :
    (s baseline : OverlayStats)
    → Grown baseline s
    → MoneyFits s
    → pos_part (apply_session_baseline s baseline).session_money_delta
        + s.value_brought_in
        + baseline.loot_value
      ≡ neg_part (apply_session_baseline s baseline).session_money_delta
        + s.loot_value
        + baseline.value_brought_in
unfolding apply_session_baseline clamp_i64
session_money_delta-parts s baseline g m = ground arith

-- The session counters of `whole` are those of `first` and `second` together.
pub record Adds (whole first second : OverlayStats) : Type 0 where
  pub downs : whole.session_downs ≡ first.session_downs + second.session_downs
  pub extractions :
      whole.session_extractions ≡ first.session_extractions + second.session_extractions
  pub deaths : whole.session_deaths ≡ first.session_deaths + second.session_deaths
  pub loot_value : whole.session_loot_value ≡ first.session_loot_value + second.session_loot_value
  pub money_delta :
      pos_part whole.session_money_delta
        + neg_part first.session_money_delta
        + neg_part second.session_money_delta
      ≡ neg_part whole.session_money_delta
        + pos_part first.session_money_delta
        + pos_part second.session_money_delta
  pub raw_totals :
      (k : Text)
      → total whole.session_raw_totals k
        ≡ total first.session_raw_totals k + total second.session_raw_totals k

-- A stream may be cut anywhere: where no counter goes back and the money fits an `i64`, the counters
-- from the baseline `a` to `c` are those from `a` to `b` and those from `b` to `c` together, the
-- signed balance and every raw total included.
pub apply_session_baseline-Adds :
    (a b c : OverlayStats)
    → Grown a b
    → Grown b c
    → MoneyFits c
    → ((k : Text) → total a.raw_totals k ≤ total b.raw_totals k)
    → ((k : Text) → total b.raw_totals k ≤ total c.raw_totals k)
    → Adds (apply_session_baseline c a) (apply_session_baseline b a) (apply_session_baseline c b)
apply_session_baseline-Adds a b c g h m ra rb =
    let mb : MoneyFits b = omega arith in
    let ca : Grown a c = omega arith in
    record {
      downs = unfold apply_session_baseline in omega arith;
      extractions = unfold apply_session_baseline in omega arith;
      deaths = unfold apply_session_baseline in omega arith;
      loot_value = unfold apply_session_baseline in omega arith;
      money_delta = omega (
        arith,
        session_money_delta-parts c a ca m,
        session_money_delta-parts b a g mb,
        session_money_delta-parts c b h m,
      );
      raw_totals = λ k.
          unfold apply_session_baseline in simp total-session_deltas (omega (arith, ra k, rb k));
    }

-- Every session counter is at its start, and no raw total has moved.
pub record IsFresh (s : OverlayStats) : Type 0 where
  pub downs : s.session_downs ≡ 0
  pub extractions : s.session_extractions ≡ 0
  pub deaths : s.session_deaths ≡ 0
  pub loot_value : s.session_loot_value ≡ 0
  pub money_delta : s.session_money_delta ≡ pos 0
  pub raw_totals : (k : Text) → total s.session_raw_totals k ≡ 0

-- A stream that starts now starts at zero, whatever counters the overlay showed before.
pub apply_session_baseline-IsFresh : (s : OverlayStats) → IsFresh (apply_session_baseline s s)
apply_session_baseline-IsFresh s = record {
  downs = unfold apply_session_baseline in omega arith;
  extractions = unfold apply_session_baseline in omega arith;
  deaths = unfold apply_session_baseline in omega arith;
  loot_value = unfold apply_session_baseline in omega arith;
  money_delta = unfold apply_session_baseline clamp_i64 in ground arith;
  raw_totals = λ k. unfold apply_session_baseline in simp total-session_deltas (omega arith);
}

-- A new baseline replaces the old one: nothing of the earlier session counters is left.
pub apply_session_baseline_again :
    (s a b : OverlayStats)
    → apply_session_baseline (apply_session_baseline s a) b ≡ apply_session_baseline s b
unfolding apply_session_baseline
apply_session_baseline_again s a b = refl
