-- ===== src/Core/Events/Counters.antt =====
-- What the counters of stats.rs count, said apart from the code: each has one event id, and three
-- look at the target.
use arc_twitch_widget.Prelude.{
  ℕ, ◌+◌, ◌≤◌, ◌≡◌, refl, Bool, true, false, not, ◌&&◌, Option, none, some, if◌then◌else◌, arith,
  ◌==◌, min,
}
use arc_twitch_widget.Prelude.Int.{ℤ, pos, negsuc}
use arc_twitch_widget.Prelude.Word.{u64_max, saturating_add}
use arc_twitch_widget.Core.Overlay.{OverlayStats}
use arc_twitch_widget.Core.Events.{event_kind, is_target, count_event}

pub data Counter : Type 0 where
  raids extractions eliminations deaths loot_value arc_eliminations downs revives : Counter
  containers_looted items_crafted damage_by_enemy damage_by_weapon raider_damage : Counter
  duration_ms value_brought_in xp_gained : Counter

-- The field that the overlay shows.
abbrev pub value : Counter → OverlayStats → ℕ
value raids s = s.raids
value extractions s = s.extractions
value eliminations s = s.eliminations
value deaths s = s.deaths
value loot_value s = s.loot_value
value arc_eliminations s = s.arc_eliminations
value downs s = s.downs
value revives s = s.revives
value containers_looted s = s.containers_looted
value items_crafted s = s.items_crafted
value damage_by_enemy s = s.damage_by_enemy
value damage_by_weapon s = s.damage_by_weapon
value raider_damage s = s.raider_damage
value duration_ms s = s.duration_ms
value value_brought_in s = s.value_brought_in
value xp_gained s = s.xp_gained

abbrev pub event_of : Counter → ℕ
event_of raids = 9800
event_of extractions = 9801
event_of eliminations = 200
event_of deaths = 9802
event_of loot_value = 9805
event_of arc_eliminations = 200
event_of downs = 204
event_of revives = 400
event_of containers_looted = 501
event_of items_crafted = 600
event_of damage_by_enemy = 100
event_of damage_by_weapon = 102
event_of raider_damage = 101
event_of duration_ms = 9803
event_of value_brought_in = 9804
event_of xp_gained = 9902

abbrev pub is_id : ℕ → ℤ → Bool
is_id n (pos m) = m == n
is_id n (negsuc m) = false

abbrev pub is_some_id : ℕ → Option ℤ → Bool
is_some_id n none = false
is_some_id n (some t) = is_id n t

-- Player knocks and ARC kills share an event and part by the target; damage to the two player
-- targets is no raider damage.
abbrev pub takes : Counter → Option ℤ → Bool
takes eliminations t = is_some_id 995408715 t
takes arc_eliminations t = not (is_some_id 995408715 t)
takes raider_damage t = not (is_some_id 995408715 t) && not (is_some_id 200993951 t)
takes _ t = true

-- Whether a row with this event id and target counts for the counter.
abbrev pub counts : Counter → ℤ → Option ℤ → Bool
counts c event target = is_id (event_of c) event && takes c target

is_target_lem : (n : ℕ) (t : Option ℤ) → is_target n t ≡ is_some_id n t
unfolding is_target
is_target_lem n none = refl
is_target_lem n (some (pos m)) = refl
is_target_lem n (some (negsuc m)) = refl

pub value-count_event :
    (c : Counter) (event : ℤ) (t : Option ℤ) (n : ℕ) (s : OverlayStats)
    → value c s ≤ u64_max
    → value c (count_event (event_kind event) t n s)
      ≡ saturating_add (value c s) (if counts c event t then n else 0)
unfolding event_kind count_event saturating_add
value-count_event c (negsuc m) t n s h = keep c s h
  where
    keep :
        (c : Counter) (s : OverlayStats)
        → value c s ≤ u64_max
        → value c s ≡ min (value c s + 0) u64_max
    keep c s h = omega arith
value-count_event eliminations (pos m) t n s h = ground (arith, is_target_lem 995408715 t)
value-count_event arc_eliminations (pos m) t n s h = ground (arith, is_target_lem 995408715 t)
value-count_event raider_damage (pos m) t n s h =
    ground (arith, is_target_lem 995408715 t, is_target_lem 200993951 t)
value-count_event _ (pos m) t n s h = ground arith
