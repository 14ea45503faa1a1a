-- ===== src/Core/WidgetConfig/Sources.antt =====
-- The names of the sources of crates/core/src/widget_config.rs, and the numbers that they stand for.
use arc_twitch_widget.Prelude.{
  ℕ, ◌+◌, ◌%◌, ◌^◌, ◌≡◌, refl, ◌&&◌, List, [], ◌∷◌, ◌++◌, map, unwrap_or, if◌then◌else◌, ◌==◌, min,
}
use arc_twitch_widget.Prelude.Int.{ℤ, pos, ◌+ℤ◌, ◌-ℤ◌, ◌≤ℤ◌, clamp_i64_id, i64_min_ℤ, i64_max_ℤ}
use arc_twitch_widget.Prelude.Word.{i64_max}
use arc_twitch_widget.Text.{Text, codes, eq_text, split_once, starts_with}
use arc_twitch_widget.BTreeMap
use arc_twitch_widget.Core.Overlay.{OverlayStats}
use arc_twitch_widget.Core.WidgetPresets.{WidgetMetric}
use arc_twitch_widget.Core.WidgetConfig.{
  scope_and_name, i64_of, event_total, no_session_outcome, account_value, session_value,
  today_value, outcome_value, unsigned_value, resolve_name, resolve_source, sum_sources, resolve,
}

-- The counters of the account.
pub data Counter : Type 0 where
  raids extractions eliminations deaths loot_value arc_eliminations downs revives : Counter
  damage_by_enemy damage_by_weapon raider_damage value_brought_in xp_gained : Counter

-- What a layout can show: a counter of the account, with or without its scope, a counter of the
-- stream or of the day, an outcome, and the raw total of an event in one of the three catalogues.
pub data Source : Type 0 where
  account short : Counter → Source
  session_downs session_extractions session_deaths session_loot_value : Source
  session_money_delta today_extractions today_deaths outcome_wins outcome_losses : Source
  account_event session_event today_event : Text → Source

abbrev pub counter_name : Counter → Text
counter_name raids = codes "raids"
counter_name extractions = codes "extractions"
counter_name eliminations = codes "eliminations"
counter_name deaths = codes "deaths"
counter_name loot_value = codes "loot_value"
counter_name arc_eliminations = codes "arc_eliminations"
counter_name downs = codes "downs"
counter_name revives = codes "revives"
counter_name damage_by_enemy = codes "damage_by_enemy"
counter_name damage_by_weapon = codes "damage_by_weapon"
counter_name raider_damage = codes "raider_damage"
counter_name value_brought_in = codes "value_brought_in"
counter_name xp_gained = codes "xp_gained"

abbrev pub counter_value : Counter → OverlayStats → ℕ
counter_value raids s = s.raids
counter_value extractions s = s.extractions
counter_value eliminations s = s.eliminations
counter_value deaths s = s.deaths
counter_value loot_value s = s.loot_value
counter_value arc_eliminations s = s.arc_eliminations
counter_value downs s = s.downs
counter_value revives s = s.revives
counter_value damage_by_enemy s = s.damage_by_enemy
counter_value damage_by_weapon s = s.damage_by_weapon
counter_value raider_damage s = s.raider_damage
counter_value value_brought_in s = s.value_brought_in
counter_value xp_gained s = s.xp_gained

-- The source as a layout writes it.
abbrev pub written : Source → Text
written (account c) = codes "account." ++ counter_name c
written (short c) = counter_name c
written session_downs = codes "session.downs"
written session_extractions = codes "session.extractions"
written session_deaths = codes "session.deaths"
written session_loot_value = codes "session.loot_value"
written session_money_delta = codes "session.money_delta"
written today_extractions = codes "today.extractions"
written today_deaths = codes "today.deaths"
written outcome_wins = codes "outcome.wins"
written outcome_losses = codes "outcome.losses"
written (account_event e) = codes "account.event." ++ e
written (session_event e) = codes "session.event." ++ e
written (today_event e) = codes "today.event." ++ e

-- Counters are shown up to the greatest `i64`.
abbrev at_most : ℕ → ℤ
at_most n = pos (min n i64_max)

abbrev total_of : BTreeMap.BTreeMap ℕ → Text → ℕ
total_of totals e = unwrap_or (BTreeMap.get totals (codes "event." ++ e)) 0

-- Of the stream, or of the day where the stream has no outcome yet and the day is known.
abbrev outcome : OverlayStats → ℕ → ℕ → ℕ
outcome s of_stream of_day =
    if (s.session_extractions + s.session_deaths) % 2 ^ 64 == 0 && s.today_available
    then of_day
    else of_stream

-- The number that a source stands for.
abbrev pub value : Source → OverlayStats → ℤ
value (account c) s = at_most (counter_value c s)
value (short c) s = at_most (counter_value c s)
value session_downs s = at_most s.session_downs
value session_extractions s = at_most s.session_extractions
value session_deaths s = at_most s.session_deaths
value session_loot_value s = at_most s.session_loot_value
value session_money_delta s = s.session_money_delta
value today_extractions s = at_most s.today_extractions
value today_deaths s = at_most s.today_deaths
value outcome_wins s = at_most (outcome s s.session_extractions s.today_extractions)
value outcome_losses s = at_most (outcome s s.session_deaths s.today_deaths)
value (account_event e) s = at_most (total_of s.raw_totals e)
value (session_event e) s = at_most (total_of s.session_raw_totals e)
value (today_event e) s = at_most (total_of s.today_raw_totals e)

abbrev pub sum : List Source → OverlayStats → ℤ
sum [] s = pos 0
sum (q ∷ qs) s = value q s +ℤ sum qs s

resolve_source-account :
    (c : Counter) (s : OverlayStats)
    → resolve_source (written (account c)) s ≡ at_most (counter_value c s)
unfolding resolve_source resolve_name scope_and_name split_once starts_with eq_text unsigned_value
    account_value i64_of
resolve_source-account raids s = refl
resolve_source-account extractions s = refl
resolve_source-account eliminations s = refl
resolve_source-account deaths s = refl
resolve_source-account loot_value s = refl
resolve_source-account arc_eliminations s = refl
resolve_source-account downs s = refl
resolve_source-account revives s = refl
resolve_source-account damage_by_enemy s = refl
resolve_source-account damage_by_weapon s = refl
resolve_source-account raider_damage s = refl
resolve_source-account value_brought_in s = refl
resolve_source-account xp_gained s = refl

resolve_source-short :
    (c : Counter) (s : OverlayStats)
    → resolve_source (written (short c)) s ≡ at_most (counter_value c s)
unfolding resolve_source resolve_name scope_and_name split_once starts_with eq_text unsigned_value
    account_value i64_of
resolve_source-short raids s = refl
resolve_source-short extractions s = refl
resolve_source-short eliminations s = refl
resolve_source-short deaths s = refl
resolve_source-short loot_value s = refl
resolve_source-short arc_eliminations s = refl
resolve_source-short downs s = refl
resolve_source-short revives s = refl
resolve_source-short damage_by_enemy s = refl
resolve_source-short damage_by_weapon s = refl
resolve_source-short raider_damage s = refl
resolve_source-short value_brought_in s = refl
resolve_source-short xp_gained s = refl

resolve_source-written : (q : Source) (s : OverlayStats) → resolve_source (written q) s ≡ value q s
unfolding resolve_source resolve_name scope_and_name split_once starts_with eq_text event_total
    unsigned_value session_value today_value outcome_value no_session_outcome i64_of
resolve_source-written (account c) s = resolve_source-account c s
resolve_source-written (short c) s = resolve_source-short c s
resolve_source-written session_downs s = refl
resolve_source-written session_extractions s = refl
resolve_source-written session_deaths s = refl
resolve_source-written session_loot_value s = refl
resolve_source-written session_money_delta s = refl
resolve_source-written today_extractions s = refl
resolve_source-written today_deaths s = refl
resolve_source-written outcome_wins s = refl
resolve_source-written outcome_losses s = refl
resolve_source-written (account_event e) s = refl
resolve_source-written (session_event e) s = refl
resolve_source-written (today_event e) s = refl

sum_sources-written :
    (qs : List Source) (s : OverlayStats) → sum_sources (map written qs) s ≡ sum qs s
unfolding sum_sources
sum_sources-written [] s = refl
sum_sources-written (q ∷ qs) s = cc (resolve_source-written q s, sum_sources-written qs s)

-- A value of a layout that names the source `q`, adds those of `adds` and subtracts those of `subs`
-- shows their sum, each the number that its name says, where the sum fits an `i64`.
pub resolve-written :
    (m : WidgetMetric) (q : Source) (adds subs : List Source) (s : OverlayStats)
    → m.source ≡ written q
    → m.add ≡ map written adds
    → m.subtract ≡ map written subs
    → i64_min_ℤ ≤ℤ value q s +ℤ sum adds s -ℤ sum subs s
    → value q s +ℤ sum adds s -ℤ sum subs s ≤ℤ i64_max_ℤ
    → resolve m s ≡ value q s +ℤ sum adds s -ℤ sum subs s
unfolding resolve
resolve-written m q adds subs s source add subtract low high =
    rw
      (
        source,
        add,
        subtract,
        resolve_source-written q s,
        sum_sources-written adds s,
        sum_sources-written subs s,
      )
      (clamp_i64_id (value q s +ℤ sum adds s -ℤ sum subs s) low high)
