-- ===== src/Core/Overlay/Legacy.antt =====
-- The raw totals that state.rs restores for a snapshot written before they were stored.
use arc_twitch_widget.Prelude.{ℕ, ◌≡◌, some}
use arc_twitch_widget.Text.{codes}
use arc_twitch_widget.BTreeMap
use arc_twitch_widget.BTreeMap.{BTreeMap}
use arc_twitch_widget.Core.Overlay.{OverlayStats}

-- The catalogue says what the named counters say.
pub record Agrees (s : OverlayStats) (m : BTreeMap ℕ) : Type 0 where
  pub eliminations : BTreeMap.get m (codes "event.200.target.995408715") ≡ some s.eliminations
  pub downs : BTreeMap.get m (codes "event.204") ≡ some s.downs
  pub extractions : BTreeMap.get m (codes "event.9801") ≡ some s.extractions
  pub deaths : BTreeMap.get m (codes "event.9802") ≡ some s.deaths
  pub value_brought_in : BTreeMap.get m (codes "event.9804") ≡ some s.value_brought_in
  pub loot_value : BTreeMap.get m (codes "event.9805") ≡ some s.loot_value
