-- ===== src/Core/Overlay.antt =====
-- crates/core/src/state.rs: the overlay contract. Unsigned fields are numbers, `i64` fields
-- integers; the maps of totals are in the order of their keys.
pub mod Baseline
pub mod Legacy
use arc_twitch_widget.Prelude.{
  ℕ, zero, suc, ◌+◌, ◌-◌, Bool, true, false, List, [], ◌∷◌, Option, none, some, is_empty, take,
  find, first?, or_else, unwrap_or, if◌then◌else◌,
}
use arc_twitch_widget.Prelude.Int.{ℤ, pos, sub_ℕ, clamp_i64}
use arc_twitch_widget.Prelude.Word.{saturating_sub}
use arc_twitch_widget.Text.{Text, codes, eq_text}
use arc_twitch_widget.BTreeMap
use arc_twitch_widget.BTreeMap.{BTreeMap, map_values}

pub record OverlayCell : Type 0 where
  pub value : ℤ
  pub label_ru : Text
  pub label_en : Text
  pub style : Text

pub record OverlayPreset : Type 0 where
  pub id : Text
  pub name_ru : Text
  pub name_en : Text
  pub cells : List OverlayCell

-- `OverlayPreset::name`
unfoldable pub name : OverlayPreset → Text → Text
name p language = if eq_text language (codes "en") then p.name_en else p.name_ru

-- `OverlayCell::label`
unfoldable pub label : OverlayCell → Text → Text
label c language = if eq_text language (codes "en") then c.label_en else c.label_ru

pub record OverlayStats : Type 0 where
  pub mode : Text
  pub preset : Text
  pub language : Text
  pub opacity : ℕ
  pub background_preset : Text
  pub background_color : ℕ × ℕ × ℕ
  pub background_blur : ℕ
  pub raids : ℕ
  pub extractions : ℕ
  pub eliminations : ℕ
  pub deaths : ℕ
  pub loot_value : ℕ
  pub arc_eliminations : ℕ
  pub downs : ℕ
  pub revives : ℕ
  pub containers_looted : ℕ
  pub items_crafted : ℕ
  pub damage_by_enemy : ℕ
  pub damage_by_weapon : ℕ
  pub raider_damage : ℕ
  pub duration_ms : ℕ
  pub value_brought_in : ℕ
  pub xp_gained : ℕ
  pub stats_rows : ℕ
  pub session_downs : ℕ
  pub session_extractions : ℕ
  pub session_deaths : ℕ
  pub session_loot_value : ℕ
  pub session_money_delta : ℤ
  pub today_extractions : ℕ
  pub today_deaths : ℕ
  pub today_available : Bool
  pub raw_totals : BTreeMap ℕ
  pub session_raw_totals : BTreeMap ℕ
  pub today_raw_totals : BTreeMap ℕ
  pub presets : List OverlayPreset

-- `OverlayStats::default()`
abbrev pub overlay_stats_default : OverlayStats
overlay_stats_default = record {
  mode = [];
  preset = [];
  language = [];
  opacity = 0;
  background_preset = [];
  background_color = (0, 0, 0);
  background_blur = 0;
  raids = 0;
  extractions = 0;
  eliminations = 0;
  deaths = 0;
  loot_value = 0;
  arc_eliminations = 0;
  downs = 0;
  revives = 0;
  containers_looted = 0;
  items_crafted = 0;
  damage_by_enemy = 0;
  damage_by_weapon = 0;
  raider_damage = 0;
  duration_ms = 0;
  value_brought_in = 0;
  xp_gained = 0;
  stats_rows = 0;
  session_downs = 0;
  session_extractions = 0;
  session_deaths = 0;
  session_loot_value = 0;
  session_money_delta = pos 0;
  today_extractions = 0;
  today_deaths = 0;
  today_available = false;
  raw_totals = [];
  session_raw_totals = [];
  today_raw_totals = [];
  presets = [];
}

-- `OverlayStats::active_preset`
unfoldable pub active_preset : OverlayStats → Option OverlayPreset
active_preset s = or_else (find (λ p. eq_text p.id s.preset) s.presets) (first? s.presets)

-- The deltas of the raw totals.
unfoldable pub session_deltas : BTreeMap ℕ → BTreeMap ℕ → BTreeMap ℕ
session_deltas totals baseline =
    map_values (λ k value. saturating_sub value (unwrap_or (BTreeMap.get baseline k) 0)) totals

-- `OverlayStats::apply_session_baseline`
unfoldable pub apply_session_baseline : OverlayStats → OverlayStats → OverlayStats
apply_session_baseline s baseline =
    let extracted = saturating_sub s.loot_value baseline.loot_value in
    let invested = saturating_sub s.value_brought_in baseline.value_brought_in in
    record s {
      session_downs = saturating_sub s.downs baseline.downs;
      session_extractions = saturating_sub s.extractions baseline.extractions;
      session_deaths = saturating_sub s.deaths baseline.deaths;
      session_loot_value = extracted;
      session_money_delta = clamp_i64 (sub_ℕ extracted invested);
      session_raw_totals = session_deltas s.raw_totals baseline.raw_totals;
    }

-- `OverlayStats::hydrate_legacy_raw_totals`
unfoldable pub legacy_totals : OverlayStats → BTreeMap ℕ
legacy_totals s =
    let m1 = BTreeMap.insert [] (codes "event.200.target.995408715") s.eliminations in
    let m2 = BTreeMap.insert m1 (codes "event.204") s.downs in
    let m3 = BTreeMap.insert m2 (codes "event.9801") s.extractions in
    let m4 = BTreeMap.insert m3 (codes "event.9802") s.deaths in
    let m5 = BTreeMap.insert m4 (codes "event.9804") s.value_brought_in in
    BTreeMap.insert m5 (codes "event.9805") s.loot_value

unfoldable pub hydrate_legacy_raw_totals : OverlayStats → OverlayStats
hydrate_legacy_raw_totals s =
    if is_empty s.raw_totals then record s { raw_totals = legacy_totals s } else s
