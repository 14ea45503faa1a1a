-- ===== src/Core/WidgetFile.antt =====
-- crates/core/src/widget_config.rs: the check of a layout, and the file that holds it. The text of
-- the file is read and written by `serde_json`, a parameter.
pub mod Valid
pub mod Load
use arc_twitch_widget.Prelude.{
  ℕ, Bool, true, false, not, ◌&&◌, ◌||◌, List, [], ◌∷◌, Option, none, some, map, all, and_then,
  unwrap_or, if◌then◌else◌, ◌==◌, leb, is_empty, length, ◌≡◌,
}
use arc_twitch_widget.Prelude.Result.{Result, ok, err, ensure, context, ◌>>=◌, ◌>>◌}
use arc_twitch_widget.Text.{Text, codes, eq_text, one_of, trim, blank, is_ascii_alphanumeric}
use arc_twitch_widget.Text.Utf8.{Bytes}
use arc_twitch_widget.Json
use arc_twitch_widget.Json.{Value, number, pos_int}
use arc_twitch_widget.Core.WidgetPresets.{
  WidgetMetric, WidgetPreset, WidgetConfig, widget_config_schema_version, max_presets,
  max_cells_per_preset, cell_styles, default_presets, widget_config_default,
}

-- The messages of `ensure!`, `bail!` and the contexts.
pub data WidgetError : Type 0 where
  unsupported_schema no_presets too_many_presets empty_id bad_id duplicate_id : WidgetError
  empty_name no_values too_many_values no_source empty_label unknown_style : WidgetError
  cannot_read cannot_parse cannot_save : WidgetError

abbrev pub Checked : Type 0
Checked = Result WidgetError (Unit {0})

unfoldable pub validate_metric : WidgetMetric → Checked
validate_metric m = do
  ensure (not (blank m.source)) no_source
  ensure (not (blank m.label_ru) && not (blank m.label_en)) empty_label
  ensure (blank m.style || one_of (trim m.style) cell_styles) unknown_style

unfoldable pub validate_metrics : List WidgetMetric → Checked
validate_metrics [] = ok tt
validate_metrics (m ∷ ms) = do validate_metric m; validate_metrics ms

-- A latin letter, a digit or a hyphen.
unfoldable pub id_character : ℕ → Bool
id_character c = is_ascii_alphanumeric c || c == b'-'

-- The checks of one preset; `seen` holds the ids before it.
unfoldable pub validate_preset : List Text → WidgetPreset → Checked
validate_preset seen p = do
  let id = trim p.id
  ensure (not (is_empty id)) empty_id
  ensure (all id_character id) bad_id
  ensure (not (one_of id seen)) duplicate_id
  ensure (not (blank p.name_ru) && not (blank p.name_en)) empty_name
  ensure (not (is_empty p.cells)) no_values
  ensure (leb (length p.cells) max_cells_per_preset) too_many_values
  validate_metrics p.cells

unfoldable pub validate_presets : List Text → List WidgetPreset → Checked
validate_presets seen [] = ok tt
validate_presets seen (p ∷ ps) = do validate_preset seen p; validate_presets (trim p.id ∷ seen) ps

-- `WidgetConfig::validate`
unfoldable pub validate : WidgetConfig → Checked
validate c = do
  ensure (c.schema_version == widget_config_schema_version) unsupported_schema
  ensure (not (is_empty c.presets)) no_presets
  ensure (leb (length c.presets) max_presets) too_many_presets
  validate_presets [] c.presets

-- What `serde` does for the layout: the text of a document, and the values of the derived types.
pub record Serde (F : Type 0) : Type 0 where
  pub from_slice : Bytes → Option (Value F)
  pub metric_from : Value F → Option WidgetMetric
  pub config_from : Value F → Option WidgetConfig
  pub to_vec : WidgetConfig → Option Bytes

-- What is written is read back: a document with the schema version, for the same layout.
pub record RoundTrips {F : Type 0} (s : Serde F) : Type 0 where
  pub document :
      (c : WidgetConfig) (b : Bytes)
      → s.to_vec c ≡ some b
      → (v : Value F) × (s.from_slice b ≡ some v)
        × (Json.get v (codes "schema_version") ≡ some (number (pos_int c.schema_version)))
        × (s.config_from v ≡ some c)

-- The file: what it holds, and whether it can be read and written.
pub record File : Type 0 where
  pub content : Option Bytes
  pub readable : Bool
  pub writable : Bool

module _ {F : Type 0} (s : Serde F) where
  -- A cell of the old layout; an empty style is filled in from the shipped cell.
  unfoldable pub migrated_metric : Value F → WidgetMetric → Option WidgetMetric
  migrated_metric value fallback =
      and_then (s.metric_from value)
        λ m. some (if blank m.style then record m { style = fallback.style } else m)

  -- `cells.iter().zip(preset.cells.iter()).filter_map(…).collect()`
  unfoldable pub migrated_cells : List (Value F) → List WidgetMetric → List WidgetMetric
  migrated_cells [] fallbacks = []
  migrated_cells (v ∷ vs) [] = []
  migrated_cells (v ∷ vs) (m ∷ ms) = elim (migrated_metric v m) [
    | none ↦ migrated_cells vs ms
    | some m' ↦ m' ∷ migrated_cells vs ms
  ]

  unfoldable pub with_cells : WidgetPreset → List WidgetMetric → WidgetPreset
  with_cells p cells = if is_empty cells then p else record p { cells = cells }

  unfoldable pub migrated_preset : Value F → WidgetPreset → WidgetPreset
  migrated_preset document p = elim (and_then (Json.get document p.id) Json.as_array) [
    | none ↦ p
    | some cells ↦ with_cells p (migrated_cells cells p.cells)
  ]

  -- `WidgetConfig::from_legacy_document`
  unfoldable pub from_legacy_document : Value F → WidgetConfig
  from_legacy_document document = record {
    schema_version = widget_config_schema_version;
    presets = map (migrated_preset document) default_presets;
  }

  -- `WidgetConfig::save`
  unfoldable pub save : WidgetConfig → File → Checked × File
  save c file = elim (s.to_vec c) [
    | none ↦ (err cannot_save, file)
    | some b ↦
        if file.writable then (ok tt, record file { content = some b }) else (err cannot_save, file)
  ]

  -- The layout of a document, and whether it was migrated.
  unfoldable pub config_of_version : ℕ → Value F → Result WidgetError (WidgetConfig × Bool)
  config_of_version version document =
      if version == 0 || version == 1
      then ok (from_legacy_document document, true)
      else if version == 2
      then (do c ← context (s.config_from document) cannot_parse; ok (c, false))
      else err unsupported_schema

  unfoldable pub config_of_document : Value F → Result WidgetError (WidgetConfig × Bool)
  unfolding config_of_version
  config_of_document document =
      config_of_version
        (unwrap_or (and_then (Json.get document (codes "schema_version")) Json.as_u64) 1) document

  unfoldable pub read_config : File → Bytes → Result WidgetError (WidgetConfig × Bool)
  read_config file b = do
    ensure file.readable cannot_read
    document ← context (s.from_slice b) cannot_parse
    found ← config_of_document document
    validate found.0
    ok found

  -- `config.save(path)?; Ok(config)`
  unfoldable pub saved : WidgetConfig → File → Result WidgetError WidgetConfig × File
  saved c file = let (done, file') = save c file in ((do done; ok c), file')

  unfoldable pub finish_load :
      Result WidgetError (WidgetConfig × Bool) → File → Result WidgetError WidgetConfig × File
  finish_load (err e) file = (err e, file)
  finish_load (ok (c, true)) file = saved c file
  finish_load (ok (c, false)) file = (ok c, file)

  unfoldable pub load_from : Option Bytes → File → Result WidgetError WidgetConfig × File
  load_from none file = saved widget_config_default file
  load_from (some b) file = finish_load (read_config file b) file

  -- `WidgetConfig::load_or_create`
  unfoldable pub load_or_create : File → Result WidgetError WidgetConfig × File
  load_or_create file = load_from file.content file
