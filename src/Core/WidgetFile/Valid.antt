-- ===== src/Core/WidgetFile/Valid.antt =====
-- What the check of a layout accepts, said apart from its order.
use arc_twitch_widget.Prelude.{
  ◌≤◌, ◌≡◌, ◌↔◌, ◌⊎◌, refl, true, false, List, [], ◌∷◌, all, arith, is_empty, length, All,
}
use arc_twitch_widget.Prelude.Result.{ok, err, ◌>>◌}
use arc_twitch_widget.Text.{Text, eq_text, one_of, trim, blank}
use arc_twitch_widget.Core.WidgetPresets.{WidgetMetric, WidgetPreset, WidgetConfig, cell_styles}
use arc_twitch_widget.Core.WidgetFile.{
  Checked, validate, validate_presets, validate_metric, validate_metrics, id_character,
  validate_preset,
}

-- A value has a source and two labels, and no style or one of the five.
pub record IsMetric (m : WidgetMetric) : Type 0 where
  pub source : blank m.source ≡ false
  pub label_ru : blank m.label_ru ≡ false
  pub label_en : blank m.label_en ≡ false
  pub style : (blank m.style ≡ true) ⊎ (one_of (trim m.style) cell_styles ≡ true)

-- A preset has an id of latin letters, digits and hyphens, two names, and one to four values.
pub record IsPreset (p : WidgetPreset) : Type 0 where
  pub id_there : is_empty (trim p.id) ≡ false
  pub id_plain : all id_character (trim p.id) ≡ true
  pub name_ru : blank p.name_ru ≡ false
  pub name_en : blank p.name_en ≡ false
  pub some_cells : is_empty p.cells ≡ false
  pub few_cells : length p.cells ≤ 4
  pub cells : All IsMetric p.cells

abbrev pub ids : List WidgetPreset → List Text
ids [] = []
ids (p ∷ ps) = trim p.id ∷ ids ps

abbrev pub Distinct : List Text → Type 0
Distinct [] = Unit
Distinct (i ∷ is) = All (λ j. eq_text j i ≡ false) is × Distinct is

-- A layout is of the current schema and has one to twelve presets with different ids.
pub record IsValid (c : WidgetConfig) : Type 0 where
  pub schema : c.schema_version ≡ 2
  pub some_presets : is_empty c.presets ≡ false
  pub few_presets : length c.presets ≤ 12
  pub presets : All IsPreset c.presets
  pub distinct : Distinct (ids c.presets)

abbrev Passes : Checked → Type 0
Passes r = r ≡ ok tt

IsMetric-iff : (m : WidgetMetric) → Passes (validate_metric m) ↔ IsMetric m
unfolding validate_metric
IsMetric-iff m = ((λ h. ground arith), (λ h. ground arith))

-- Two checks pass where each does.
both : (r k : Checked) → Passes (r >> k) ↔ (Passes r × Passes k)
both (ok u) k = ((λ h. (refl, h)), (λ h. h.1))
both (err e) k = ((λ h. absurd (cc h)), (λ h. absurd (cc h.0)))

metrics_iff : (ms : List WidgetMetric) → Passes (validate_metrics ms) ↔ All IsMetric ms
unfolding validate_metrics
metrics_iff [] = ((λ h. tt), (λ h. refl))
metrics_iff (m ∷ ms) = (
  (λ h.
      let (first, rest) = (both (validate_metric m) (validate_metrics ms)).0 h in
      ((IsMetric-iff m).0 first, (metrics_iff ms).0 rest)),
  (λ h.
      (both (validate_metric m) (validate_metrics ms)).1
        ((IsMetric-iff m).1 h.0, (metrics_iff ms).1 h.1)),
)

IsPreset-iff :
    (seen : List Text) (p : WidgetPreset)
    → Passes (validate_preset seen p) ↔ (IsPreset p × (one_of (trim p.id) seen ≡ false))
unfolding validate_preset
IsPreset-iff seen p = (
  (λ h. ground (arith, (metrics_iff p.cells).0)),
  (λ h. ground (arith, (metrics_iff p.cells).1 h.0.cells)),
)

-- No id of the list is among those seen.
abbrev Unseen : List Text → List Text → Type 0
Unseen seen is = All (λ i. one_of i seen ≡ false) is

Unseen-cons :
    (j : Text) (seen is : List Text)
    → Unseen (j ∷ seen) is ↔ (All (λ i. eq_text i j ≡ false) is × Unseen seen is)
Unseen-cons j seen [] = ((λ h. (tt, tt)), (λ h. tt))
Unseen-cons j seen (i ∷ is) = (
  (λ h.
      let (new, old) = (Unseen-cons j seen is).0 h.1 in ((ground arith, new), (ground arith, old))),
  (λ h. (ground arith, (Unseen-cons j seen is).1 (h.0.1, h.1.1))),
)

Unseen-nil : (is : List Text) → Unseen [] is
Unseen-nil [] = tt
Unseen-nil (i ∷ is) = (refl, Unseen-nil is)

presets_iff :
    (seen : List Text) (ps : List WidgetPreset)
    → Passes (validate_presets seen ps)
      ↔ (All IsPreset ps × Distinct (ids ps) × Unseen seen (ids ps))
unfolding validate_presets
presets_iff seen [] = ((λ h. (tt, tt, tt)), (λ h. refl))
presets_iff seen (p ∷ ps) =
    let step = both (validate_preset seen p) (validate_presets (trim p.id ∷ seen) ps) in
    let rest = presets_iff (trim p.id ∷ seen) ps in
    (
      (λ h.
          let (now, later) = step.0 h in
          let (good, new) = (IsPreset-iff seen p).0 now in
          let (all_good, distinct, unseen) = rest.0 later in
          let (fresh, old) = (Unseen-cons (trim p.id) seen (ids ps)).0 unseen in
          ((good, all_good), (fresh, distinct), (new, old))),
      (λ h. step.1 (
        (IsPreset-iff seen p).1 (h.0.0, h.2.0),
        rest.1 (h.0.1, h.1.1, (Unseen-cons (trim p.id) seen (ids ps)).1 (h.1.0, h.2.1)),
      )),
    )

-- The check accepts a layout exactly when it is valid: the schema, one to twelve presets with
-- different ids of latin letters, digits and hyphens, names, and one to four values each with a
-- source, labels, and a style that is blank or known.
pub validate-iff-IsValid : (c : WidgetConfig) → (validate c ≡ ok tt) ↔ IsValid c
unfolding validate
validate-iff-IsValid c =
    let rest = presets_iff [] c.presets in
    (
      (λ h.
          let passed : Passes (validate_presets [] c.presets) = ground arith in
          let (good, distinct, unseen) = rest.0 passed in
          record {
            schema = ground arith;
            some_presets = ground arith;
            few_presets = ground arith;
            presets = good;
            distinct = distinct;
          }),
      (λ h.
          let passed : Passes (validate_presets [] c.presets) =
            rest.1 (h.presets, h.distinct, Unseen-nil (ids c.presets)) in
          ground arith),
    )
