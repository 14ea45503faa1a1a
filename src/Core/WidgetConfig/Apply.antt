-- ===== src/Core/WidgetConfig/Apply.antt =====
-- The layout after `WidgetConfig::apply`: the active preset is there, and applying again changes
-- nothing.
use arc_twitch_widget.Prelude.{
  ◌≡◌, ◌≢◌, refl, ◌∙◌, Bool, true, false, List, [], ◌∷◌, some, map, any, find, first?, or_else,
  Bool-cases, inl, inr,
}
use arc_twitch_widget.Text.{Text, eq_text, trim}
use arc_twitch_widget.Text.Laws.{eq_text_iff, eq_text_refl}
use arc_twitch_widget.Core.Overlay.{OverlayStats, OverlayPreset, active_preset}
use arc_twitch_widget.Core.WidgetPresets.{WidgetMetric, WidgetPreset, WidgetConfig}
use arc_twitch_widget.Core.WidgetConfig.{cell_of, preset_of, repaired, apply}
use arc_twitch_widget.Core.WidgetConfig.Resolve.{relaid, resolve-relaid}

cells-relaid :
    (ms : List WidgetMetric) (s : OverlayStats) (preset : Text) (presets : List OverlayPreset)
    → map (cell_of (relaid s preset presets)) ms ≡ map (cell_of s) ms
unfolding cell_of
cells-relaid [] s preset presets = refl
cells-relaid (m ∷ ms) s preset presets =
    cc (resolve-relaid m s preset presets, cells-relaid ms s preset presets)

presets-relaid :
    (ps : List WidgetPreset) (s : OverlayStats) (preset : Text) (presets : List OverlayPreset)
    → map (preset_of (relaid s preset presets)) ps ≡ map (preset_of s) ps
unfolding preset_of
presets-relaid [] s preset presets = refl
presets-relaid (p ∷ ps) s preset presets =
    cc (cells-relaid p.cells s preset presets, presets-relaid ps s preset presets)

has : List OverlayPreset → Text → Bool
has ps preset = any (λ q. eq_text q.id preset) ps

repaired_kept :
    (ps : List OverlayPreset) (preset : Text) → has ps preset ≡ true → repaired ps preset ≡ preset
unfolding repaired has
repaired_kept [] preset h = cc
repaired_kept (p ∷ ps) preset h = rw h refl

repaired_gone :
    (p : OverlayPreset) (ps : List OverlayPreset) (preset : Text)
    → has (p ∷ ps) preset ≡ false
    → repaired (p ∷ ps) preset ≡ p.id
unfolding repaired has
repaired_gone p ps preset h = rw h refl

has_first : (p : OverlayPreset) (ps : List OverlayPreset) → has (p ∷ ps) p.id ≡ true
unfolding has
has_first p ps = rw (eq_text_refl p.id) refl

-- A repaired selection names a preset, and a selection that names one is not touched.
has-repaired :
    (p : OverlayPreset) (ps : List OverlayPreset) (preset : Text)
    → has (p ∷ ps) (repaired (p ∷ ps) preset) ≡ true
has-repaired p ps preset = elim (Bool-cases (has (p ∷ ps) preset)) [
  | inl there ↦ rw (repaired_kept (p ∷ ps) preset there) there
  | inr gone ↦ rw (repaired_gone p ps preset gone) (has_first p ps)
]

repaired_again :
    (ps : List OverlayPreset) (preset : Text)
    → repaired ps (repaired ps preset) ≡ repaired ps preset
repaired_again [] preset = unfold repaired in refl
repaired_again (p ∷ ps) preset = repaired_kept (p ∷ ps) _ (has-repaired p ps preset)

find-has :
    (ps : List OverlayPreset) (preset : Text)
    → has ps preset ≡ true
    → (q : OverlayPreset) × (find (λ p. eq_text p.id preset) ps ≡ some q) × (q.id ≡ preset)
unfolding has
find-has [] preset h = cc
find-has (p ∷ ps) preset h = elim (Bool-cases (eq_text p.id preset)) [
  | inl same ↦ (p, rw (same, find) refl, (eq_text_iff p.id preset).0 same)
  | inr other ↦
      let (q, found, same) = find-has ps preset (rw other at h) in (q, rw (other, find) found, same)
]

has-preset_of :
    (s : OverlayStats) (ps : List WidgetPreset) (preset : Text)
    → has (map (preset_of s) ps) preset ≡ any (λ p. eq_text (trim p.id) preset) ps
unfolding has preset_of
has-preset_of s [] preset = refl
has-preset_of s (p ∷ ps) preset = rw (has-preset_of s ps preset)

-- Applying a layout a second time changes nothing.
pub apply_again : (c : WidgetConfig) (s : OverlayStats) → apply c (apply c s) ≡ apply c s
unfolding apply
apply_again c s =
    let ps = map (preset_of s) c.presets in
    rw (presets-relaid c.presets s (repaired ps s.preset) ps) (rw (repaired_again ps s.preset) refl)

-- After a layout with presets is applied, the widget renders a preset that has the id which the
-- overlay names; an id that named a preset of the layout is still the selected one.
pub active_preset-apply :
    (c : WidgetConfig) (s : OverlayStats)
    → c.presets ≢ []
    → (q : OverlayPreset) × (active_preset (apply c s) ≡ some q) × (q.id ≡ (apply c s).preset)
unfolding apply active_preset
active_preset-apply c s h = go c.presets h
  where
    go :
        (ps : List WidgetPreset)
        → ps ≢ []
        → (q : OverlayPreset) × (or_else
              (find
                (λ p. eq_text p.id (repaired (map (preset_of s) ps) s.preset))
                (map (preset_of s) ps))
              (first? (map (preset_of s) ps))
            ≡ some q)
          × (q.id ≡ repaired (map (preset_of s) ps) s.preset)
    go [] e = absurd (e refl)
    go (p ∷ ps) e =
        let (q, found, same) =
          find-has (map (preset_of s) (p ∷ ps)) _
            (has-repaired (preset_of s p) (map (preset_of s) ps) s.preset) in
        (q, rw found refl, same)

-- A selection that names a preset of the layout stays.
pub preset-apply_kept :
    (c : WidgetConfig) (s : OverlayStats)
    → any (λ (p : WidgetPreset). eq_text (trim p.id) s.preset) c.presets ≡ true
    → (apply c s).preset ≡ s.preset
unfolding apply
preset-apply_kept c s h =
    repaired_kept (map (preset_of s) c.presets) s.preset (has-preset_of s c.presets s.preset ∙ h)
