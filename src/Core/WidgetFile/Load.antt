-- ===== src/Core/WidgetFile/Load.antt =====
-- Loading a layout: what is returned is valid, and the next start reads the same layout.
use mathlib.Core.Path.{subst₂}
use arc_twitch_widget.Prelude.{
  ◌≡◌, refl, ap, ◌∙◌, Bool, true, false, Option, none, some, arith, inl, inr, Option-cases,
}
use arc_twitch_widget.Prelude.Result.{Result, ok, err, ensure, context, bind-eq-ok, ◌>>◌}
use arc_twitch_widget.Text.{codes, eq_text, trim, is_ascii_alphanumeric}
use arc_twitch_widget.Text.Utf8.{Bytes}
use arc_twitch_widget.Json
use arc_twitch_widget.Json.{Value, number, pos_int}
use arc_twitch_widget.Core.WidgetPresets.{WidgetConfig, widget_config_default}
use arc_twitch_widget.Core.WidgetFile.{
  WidgetError, Checked, Serde, RoundTrips, File, validate, validate_presets, validate_preset,
  validate_metrics, validate_metric, id_character, config_of_version, config_of_document,
  read_config, save, saved, finish_load, load_from, load_or_create,
}
use arc_twitch_widget.Core.WidgetFile.Valid.{IsValid, validate-iff-IsValid}

-- The layout that the program ships passes its own check.
validate_default : validate widget_config_default ≡ ok tt
unfolding validate validate_presets validate_preset validate_metrics validate_metric id_character
    widget_config_default trim is_ascii_alphanumeric eq_text
validate_default = refl

pub widget_config_default-IsValid : IsValid widget_config_default
widget_config_default-IsValid = (validate-iff-IsValid widget_config_default).0 validate_default

module _ {F : Type 0} (s : Serde F) where
  read_config-IsValid :
      (file : File) (b : Bytes) {c : WidgetConfig} {migrated : Bool}
      → read_config s file b ≡ ok (c, migrated)
      → IsValid c
  unfolding read_config
  read_config-IsValid file b {c} h =
      let (u, readable, h1) = bind-eq-ok (ensure file.readable _) _ h in
      let (document, parsed, h2) = bind-eq-ok (context (s.from_slice b) _) _ h1 in
      let (found, config, h3) = bind-eq-ok (config_of_document s document) _ h2 in
      let (v, valid, h4) = bind-eq-ok (validate found.0) _ h3 in
      (validate-iff-IsValid c).0 (ground arith)

  -- Where a layout was loaded it is valid.
  abbrev pub Loaded : Result WidgetError WidgetConfig × File → Type 0
  Loaded (ok c, file) = IsValid c
  Loaded (err e, file) = Unit

  saved-Loaded : (c : WidgetConfig) (file : File) → IsValid c → Loaded (saved s c file)
  unfolding saved
  saved-Loaded c file h = of (save s c file)
    where
      of : (r : Checked × File) → Loaded ((do r.0; ok c), r.1)
      of (ok u, file') = h
      of (err e, file') = tt

  finish_load-Loaded :
      (file : File) (b : Bytes) (r : Result WidgetError (WidgetConfig × Bool))
      → read_config s file b ≡ r
      → Loaded (finish_load s r file)
  unfolding finish_load
  finish_load-Loaded file b (err e) h = tt
  finish_load-Loaded file b (ok (c, true)) h = saved-Loaded c file (read_config-IsValid file b h)
  finish_load-Loaded file b (ok (c, false)) h = read_config-IsValid file b h

  load_from-Loaded : (file : File) (o : Option Bytes) → Loaded (load_from s o file)
  unfolding load_from
  load_from-Loaded file none = saved-Loaded widget_config_default file widget_config_default-IsValid
  load_from-Loaded file (some b) = finish_load-Loaded file b (read_config s file b) refl

  pub load_or_create-Loaded : (file : File) → Loaded (load_or_create s file)
  unfolding load_or_create
  load_or_create-Loaded file = load_from-Loaded file file.content

  -- A layout that was written is read back as it was, and needs no migration.
  read_config_written :
      (rt : RoundTrips s) (file : File) (c : WidgetConfig) (b : Bytes)
      → file.readable ≡ true
      → IsValid c
      → s.to_vec c ≡ some b
      → read_config s file b ≡ ok (c, false)
  unfolding read_config config_of_document config_of_version Json.as_u64
  read_config_written rt file c b readable valid written =
      let (v, parsed, version, back) = rt.document c b written in
      let passed : validate c ≡ ok tt = (validate-iff-IsValid c).1 valid in
      let current : Json.get v (codes "schema_version") ≡ some (number (pos_int 2)) =
        version ∙ ap (λ n. some (number (pos_int n))) valid.schema in
      rw readable (rw parsed (rw current (rw back (rw passed refl))))

  load-read :
      (file : File) (c : WidgetConfig) (b : Bytes)
      → file.content ≡ some b
      → read_config s file b ≡ ok (c, false)
      → load_or_create s file ≡ (ok c, file)
  unfolding load_or_create load_from finish_load
  load-read file c b content found = ground arith

  saved-parts :
      (file file' : File) (c d : WidgetConfig)
      → saved s d file ≡ (ok c, file')
      → (b : Bytes) × (s.to_vec d ≡ some b) × (d ≡ c) × (record file { content = some b } ≡ file')
  unfolding saved save
  saved-parts file file' c d h = elim (Option-cases (s.to_vec d)) [
    | inl unwritten ↦ absurd (ground arith)
    | inr (b, written) ↦ (b, written, ground arith, ground arith)
  ]

  -- The layout is valid, and the file is read as that layout and left alone.
  abbrev Reloads : WidgetConfig → File → Type 0
  Reloads c file = IsValid c × (load_or_create s file ≡ (ok c, file))

  saved-Reloads :
      (rt : RoundTrips s) (file file' : File) (c d : WidgetConfig)
      → file.readable ≡ true
      → IsValid d
      → saved s d file ≡ (ok c, file')
      → Reloads c file'
  saved-Reloads rt file file' c d readable valid h =
      let (b, written, same, now) = saved-parts file file' c d h in
      let at : File = record file { content = some b } in
      let there : Reloads d at =
        (valid, load-read at d b refl (read_config_written rt at d b readable valid written)) in
      subst₂ Reloads same now there

  finish_load-Reloads :
      (rt : RoundTrips s) (file file' : File) (c : WidgetConfig) (b : Bytes)
      (r : Result WidgetError (WidgetConfig × Bool))
      → file.readable ≡ true
      → file.content ≡ some b
      → read_config s file b ≡ r
      → finish_load s r file ≡ (ok c, file')
      → Reloads c file'
  unfolding finish_load
  finish_load-Reloads rt file file' c b (err e) readable content found h = absurd (cc h)
  finish_load-Reloads rt file file' c b (ok (d, true)) readable content found h =
      saved-Reloads rt file file' c d readable (read_config-IsValid file b found) h
  finish_load-Reloads rt file file' c b (ok (d, false)) readable content found h =
      subst₂ Reloads (cc h) (cc h)
        (read_config-IsValid file b found, load-read file d b content found)

  load_from-Reloads :
      (rt : RoundTrips s) (file file' : File) (c : WidgetConfig) (o : Option Bytes)
      → file.readable ≡ true
      → file.content ≡ o
      → load_from s o file ≡ (ok c, file')
      → Reloads c file'
  unfolding load_from
  load_from-Reloads rt file file' c none readable content h =
      saved-Reloads rt file file' c widget_config_default readable widget_config_default-IsValid h
  load_from-Reloads rt file file' c (some b) readable content h =
      finish_load-Reloads rt file file' c b (read_config s file b) readable content refl h

  -- What a load returns is a valid layout, and where the file can be read, the next start loads the
  -- same layout from the file as this one left it, and leaves the file alone: a migration and the
  -- shipped layout are written back.
  pub load_or_create_again :
      (rt : RoundTrips s) (file file' : File) (c : WidgetConfig)
      → file.readable ≡ true
      → load_or_create s file ≡ (ok c, file')
      → IsValid c × (load_or_create s file' ≡ (ok c, file'))
  load_or_create_again rt file file' c readable h =
      load_from-Reloads rt file file' c file.content readable refl (unfold load_or_create in h)
