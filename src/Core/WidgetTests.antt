-- ===== src/Core/WidgetTests.antt =====
-- Runs of the widget layout on small inputs, and instances of its theorems.
use mathlib.Core.Path.{subst}
use arc_twitch_widget.Prelude.{
  ℕ, zero, suc, ◌≡◌, ◌↔◌, refl, ap, true, List, [], ◌∷◌, ◌++◌, Option, none, some, arith, length,
  take, drop, take-append, drop-append, and_then, append_assoc, append-nil, sym, ◌∙◌,
}
use arc_twitch_widget.Prelude.Int.{ℤ, negsuc, ◌+ℤ◌, ◌-ℤ◌}
use arc_twitch_widget.Prelude.Result.{ok}
use arc_twitch_widget.Text.{Text, codes, eq_text}
use arc_twitch_widget.Text.Utf8.{Bytes}
use arc_twitch_widget.BTreeMap
use arc_twitch_widget.Json
use arc_twitch_widget.Json.{Value, number, string, object, member, end, pos_int}
use arc_twitch_widget.Core.Overlay.{
  OverlayStats, OverlayPreset, overlay_stats_default, active_preset,
}
use arc_twitch_widget.Core.WidgetPresets.{
  WidgetMetric, WidgetPreset, WidgetConfig, widget_config_default, metric,
}
use arc_twitch_widget.Core.WidgetConfig.{apply, resolve}
use arc_twitch_widget.Core.WidgetConfig.Sources.{
  session_extractions, session_deaths, account_event, value, sum, resolve-written,
}
use arc_twitch_widget.Core.WidgetConfig.Apply.{active_preset-apply}
use arc_twitch_widget.Core.WidgetFile.{
  Serde, RoundTrips, File, validate, load_or_create, load_from, saved, save,
}
use arc_twitch_widget.Core.WidgetFile.Valid.{IsValid, validate-iff-IsValid}
use arc_twitch_widget.Core.WidgetFile.Load.{load_or_create_again}

-- A codec: what is encoded is decoded, whatever stands behind it.
record Codec (A : Type 0) : Type 0 where
  enc : A → Bytes
  dec : Bytes → Option (A × Bytes)
  back : (a : A) (b : Bytes) → dec (enc a ++ b) ≡ some (a, b)

-- A text behind its length.
abbrev dec_text : Bytes → Option (Text × Bytes)
dec_text [] = none
dec_text (n ∷ b) = some (take n b, drop n b)

abbrev text : Codec Text
text = record {
  enc = λ t. length t ∷ t;
  dec = dec_text;
  back = λ t b. rw (take-append t b, drop-append t b) refl;
}

abbrev both : {A B : Type 0} → Codec A → Codec B → Codec (A × B)
both c d = record {
  enc = λ p. c.enc p.0 ++ d.enc p.1;
  dec = λ b. and_then (c.dec b) λ p. and_then (d.dec p.1) λ q. some ((p.0, q.0), q.1);
  back = λ p b.
      rw (append_assoc (c.enc p.0) (d.enc p.1) b, c.back p.0 (d.enc p.1 ++ b), d.back p.1 b) refl;
}

abbrev via : {A B : Type 0} (f : A → B) (g : B → A) → ((b : B) → f (g b) ≡ b) → Codec A → Codec B
via f g h c = record {
  enc = λ b. c.enc (g b);
  dec = λ b. and_then (c.dec b) λ p. some (f p.0, p.1);
  back = λ x b. rw (c.back (g x) b, h x) refl;
}

module _ {A : Type 0} (c : Codec A) where
  abbrev enc_items : List A → Bytes
  enc_items [] = []
  enc_items (a ∷ xs) = c.enc a ++ enc_items xs

  abbrev dec_items : ℕ → Bytes → Option (List A × Bytes)
  dec_items zero b = some ([], b)
  dec_items (suc n) b =
      and_then (c.dec b) λ p. and_then (dec_items n p.1) λ q. some (p.0 ∷ q.0, q.1)

  items_back : (xs : List A) (b : Bytes) → dec_items (length xs) (enc_items xs ++ b) ≡ some (xs, b)
  items_back [] b = refl
  items_back (a ∷ xs) b =
      rw (append_assoc (c.enc a) (enc_items xs) b, c.back a (enc_items xs ++ b), items_back xs b)
        refl

  abbrev dec_list : Bytes → Option (List A × Bytes)
  dec_list [] = none
  dec_list (n ∷ b) = dec_items n b

  abbrev items : Codec (List A)
  items = record { enc = λ xs. length xs ∷ enc_items xs; dec = dec_list; back = items_back }

abbrev metric_codec : Codec WidgetMetric
metric_codec =
    via
      (λ p. record {
        source = p.0.0;
        add = p.0.1.0;
        subtract = p.0.1.1;
        label_ru = p.1.0;
        label_en = p.1.1.0;
        style = p.1.1.1;
      })
      (λ m. ((m.source, (m.add, m.subtract)), (m.label_ru, (m.label_en, m.style)))) (λ m. refl)
      (both (both text (both (items text) (items text))) (both text (both text text)))

abbrev preset_codec : Codec WidgetPreset
preset_codec =
    via (λ p. record { id = p.0; name_ru = p.1.0; name_en = p.1.1.0; cells = p.1.1.1 })
      (λ p. (p.id, (p.name_ru, (p.name_en, p.cells)))) (λ p. refl)
      (both text (both text (both text (items metric_codec))))

-- The document of a layout: its schema, and its presets in one string.
abbrev document_of : Bytes → Option (Value ℤ)
document_of [] = none
document_of (v ∷ b) = some (
    object (
      member (codes "schema_version") (number (pos_int v))
        (member (codes "presets") (string b) end)))

abbrev config_of_presets : ℕ → Bytes → Option WidgetConfig
config_of_presets v b =
    and_then ((items preset_codec).dec b) λ p. some (record { schema_version = v; presets = p.0 })

abbrev config_of : Value ℤ → Option WidgetConfig
config_of v =
    and_then (and_then (Json.get v (codes "schema_version")) Json.as_u64)
      λ n. and_then (and_then (Json.get v (codes "presets")) Json.as_str) λ b. config_of_presets n b

abbrev serde : Serde ℤ
serde = record {
  from_slice = document_of;
  metric_from = λ v. none;
  config_from = config_of;
  to_vec = λ c. some (c.schema_version ∷ (items preset_codec).enc c.presets);
}

append-nil_back :
    (ps : List WidgetPreset)
    → (items preset_codec).dec ((items preset_codec).enc ps) ≡ some (ps, [])
append-nil_back ps =
    ap (items preset_codec).dec (sym (append-nil ((items preset_codec).enc ps)))
    ∙ (items preset_codec).back ps []

config_of_presets-enc :
    (v : ℕ) (ps : List WidgetPreset)
    → config_of_presets v ((items preset_codec).enc ps)
      ≡ some (record { schema_version = v; presets = ps })
config_of_presets-enc v ps = rw (append-nil_back ps) refl

-- What the text of a layout is read as.
ReadBack : WidgetConfig → Bytes → Type 0
ReadBack c b =
    (v : Value ℤ) × (document_of b ≡ some v)
    × (Json.get v (codes "schema_version") ≡ some (number (pos_int c.schema_version)))
    × (config_of v ≡ some c)

written_ReadBack :
    (c : WidgetConfig) → ReadBack c (c.schema_version ∷ (items preset_codec).enc c.presets)
unfolding ReadBack Json.get eq_text Json.as_u64 Json.as_str
written_ReadBack c = (
  object (
      member (codes "schema_version") (number (pos_int c.schema_version))
        (member (codes "presets") (string ((items preset_codec).enc c.presets)) end)),
  refl,
  refl,
  config_of_presets-enc c.schema_version c.presets,
)

some-inj : {A : Type 0} {a b : A} → some a ≡ some b → a ≡ b
some-inj h = cc h

-- What is written is read back.
serde-RoundTrips : RoundTrips serde
unfolding ReadBack
serde-RoundTrips = record {
  document = λ c b h. subst (ReadBack c) (some-inj h) (written_ReadBack c);
}

-- A layout of one value, from before the last version.
abbrev small : WidgetConfig
small = record widget_config_default {
  presets =
      record {
        id = codes "a";
        name_ru = codes "b";
        name_en = codes "c";
        cells = metric (codes "raids") (codes "r") (codes "R") (codes "plain") ∷ [];
      }
      ∷ [];
}

abbrev stats : OverlayStats
stats = record overlay_stats_default { raids = 7; preset = codes "gone" }

active_preset-apply_example :
    (q : OverlayPreset) × (active_preset (apply small stats) ≡ some q)
    × (q.id ≡ (apply small stats).preset)
active_preset-apply_example = active_preset-apply small stats (λ e. cc e)

validate-iff-IsValid_example : (validate small ≡ ok tt) ↔ IsValid small
validate-iff-IsValid_example = validate-iff-IsValid small

-- The extractions of the stream and an event of the account, less the deaths of the stream.
abbrev balance : WidgetMetric
balance = record (metric (codes "session.extractions") (codes "r") (codes "R") (codes "plain")) {
  add = codes "account.event.204" ∷ [];
  subtract = codes "session.deaths" ∷ [];
}

abbrev counted : OverlayStats
counted = record overlay_stats_default {
  session_extractions = 5;
  session_deaths = 9;
  raw_totals = (codes "event.204", 2) ∷ [];
}

balance_exact :
    value session_extractions counted
      +ℤ sum (account_event (codes "204") ∷ []) counted
      -ℤ sum (session_deaths ∷ []) counted
    ≡ negsuc 1
unfolding BTreeMap.get eq_text ◌-ℤ◌ ◌+ℤ◌
balance_exact = refl

resolve-written_example :
    resolve balance counted
    ≡ value session_extractions counted
      +ℤ sum (account_event (codes "204") ∷ []) counted
      -ℤ sum (session_deaths ∷ []) counted
unfolding metric
resolve-written_example =
    resolve-written balance session_extractions (account_event (codes "204") ∷ [])
      (session_deaths ∷ []) counted refl refl refl (rw balance_exact (omega arith))
      (rw balance_exact (omega arith))

abbrev fresh_file : File
fresh_file = record { content = none; readable = true; writable = true }

abbrev written_file : File
written_file = record fresh_file { content = serde.to_vec widget_config_default }

first_load : load_or_create serde fresh_file ≡ (ok widget_config_default, written_file)
unfolding load_or_create load_from saved save
first_load = refl

load_or_create_again_example :
    IsValid widget_config_default
    × (load_or_create serde written_file ≡ (ok widget_config_default, written_file))
load_or_create_again_example =
    load_or_create_again serde serde-RoundTrips fresh_file written_file widget_config_default refl
      first_load
