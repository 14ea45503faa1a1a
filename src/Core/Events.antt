-- ===== src/Core/Events.antt =====
-- crates/core/src/stats.rs: the events of the statistics rows, and what one row adds to the counters.
pub mod Counters
pub mod Totals
pub mod Keys
use arc_twitch_widget.Prelude.{
  ℕ, Bool, true, false, not, ◌||◌, ◌++◌, Option, none, some, unwrap_or, if◌then◌else◌, ◌==◌,
}
use arc_twitch_widget.Prelude.Int.{ℤ, pos, negsuc}
use arc_twitch_widget.Prelude.Word.{saturating_add}
use arc_twitch_widget.Text.{Text, codes}
use arc_twitch_widget.Text.Decimal.{print_ℤ}
use arc_twitch_widget.BTreeMap
use arc_twitch_widget.BTreeMap.{BTreeMap}
use arc_twitch_widget.Json
use arc_twitch_widget.Core.Overlay.{OverlayStats}

abbrev pub player_target_id : ℕ
player_target_id = 995408715

abbrev pub player_damage_target_id : ℕ
player_damage_target_id = 200993951

-- The event ids that stats.rs names, and any other.
pub data EventKind : Type 0 where
  damage_by_enemy damage_by_target damage_by_weapon kills_by_target player_downs : EventKind
  revives containers_looted items_crafted raids extractions knocked_out : EventKind
  duration_ms value_brought_in value_extracted xp_gained other : EventKind

-- The constants that `match event_id` compares with.
unfoldable pub event_kind : ℤ → EventKind
event_kind (negsuc n) = other
event_kind (pos n) =
    if n == 100
    then damage_by_enemy
    else if n == 101
    then damage_by_target
    else if n == 102
    then damage_by_weapon
    else if n == 200
    then kills_by_target
    else if n == 204
    then player_downs
    else if n == 400
    then revives
    else if n == 501
    then containers_looted
    else if n == 600
    then items_crafted
    else if n == 9800
    then raids
    else if n == 9801
    then extractions
    else if n == 9802
    then knocked_out
    else if n == 9803
    then duration_ms
    else if n == 9804
    then value_brought_in
    else if n == 9805
    then value_extracted
    else if n == 9902
    then xp_gained
    else other

-- `target_id == Some(id)`
unfoldable pub is_target : ℕ → Option ℤ → Bool
is_target id none = false
is_target id (some (pos n)) = n == id
is_target id (some (negsuc n)) = false

unfoldable pub raw_key : ℤ → Option ℤ → Text
raw_key event_id none = codes "event." ++ print_ℤ event_id
raw_key event_id (some target_id) =
    codes "event." ++ (print_ℤ event_id ++ (codes ".target." ++ print_ℤ target_id))

-- `total = entry(key).or_default(); *total = total.saturating_add(amount)`
unfoldable pub add_entry : BTreeMap ℕ → Text → ℕ → BTreeMap ℕ
add_entry m k amount = BTreeMap.insert m k (saturating_add (unwrap_or (BTreeMap.get m k) 0) amount)

unfoldable pub add_raw_total : OverlayStats → ℤ → Option ℤ → ℕ → OverlayStats
add_raw_total s event_id target_id amount = record s {
  raw_totals = add_entry s.raw_totals (raw_key event_id target_id) amount;
}

-- The arms of `match event_id`; the flag is `unknown = unknown.saturating_add(1)`.
unfoldable pub count_event : EventKind → Option ℤ → ℕ → OverlayStats → OverlayStats
count_event damage_by_enemy target n s = record s {
  damage_by_enemy = saturating_add s.damage_by_enemy n;
}
count_event damage_by_target target n s =
    if not (is_target player_target_id target || is_target player_damage_target_id target)
    then record s { raider_damage = saturating_add s.raider_damage n }
    else s
count_event damage_by_weapon target n s = record s {
  damage_by_weapon = saturating_add s.damage_by_weapon n;
}
count_event kills_by_target target n s =
    if is_target player_target_id target
    then record s { eliminations = saturating_add s.eliminations n }
    else record s { arc_eliminations = saturating_add s.arc_eliminations n }
count_event player_downs target n s = record s { downs = saturating_add s.downs n }
count_event revives target n s = record s { revives = saturating_add s.revives n }
count_event containers_looted target n s = record s {
  containers_looted = saturating_add s.containers_looted n;
}
count_event items_crafted target n s = record s { items_crafted = saturating_add s.items_crafted n }
count_event raids target n s = record s { raids = saturating_add s.raids n }
count_event extractions target n s = record s { extractions = saturating_add s.extractions n }
count_event knocked_out target n s = record s { deaths = saturating_add s.deaths n }
count_event duration_ms target n s = record s { duration_ms = saturating_add s.duration_ms n }
count_event value_brought_in target n s = record s {
  value_brought_in = saturating_add s.value_brought_in n;
}
count_event value_extracted target n s = record s { loot_value = saturating_add s.loot_value n }
count_event xp_gained target n s = record s { xp_gained = saturating_add s.xp_gained n }
count_event other target n s = s

abbrev pub is_other : EventKind → Bool
is_other other = true
is_other _ = false

unfoldable pub add_target_total : OverlayStats → ℤ → Option ℤ → ℕ → OverlayStats
add_target_total s event_id none amount = s
add_target_total s event_id (some id) amount = add_raw_total s event_id (some id) amount

-- The body of the loop for a row with an event id.
unfoldable pub known_row : ℤ → Option ℤ → ℕ → OverlayStats × ℕ → OverlayStats × ℕ
known_row event_id target amount (stats, unknown) =
    let kind = event_kind event_id in
    let totals =
      add_target_total (add_raw_total stats event_id none amount) event_id target amount in
    (
      count_event kind target amount totals,
      if is_other kind then saturating_add unknown 1 else unknown,
    )
