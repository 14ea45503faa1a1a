-- ===== src/Json/Plain.antt =====
-- The documents that `serde_json` writes and reads back unchanged.
use arc_twitch_widget.Prelude.{ℕ, ◌-◌, Bool, true, false, ◌&&◌, leb}
use arc_twitch_widget.Prelude.Word.{u64_max, i64_max}
use arc_twitch_widget.Text.{Text}
use arc_twitch_widget.BTreeMap.{lt_text}
use arc_twitch_widget.Json.{
  Number, Value, Values, Members, null, boolean, number, string, array, object, pos_int, neg_int,
  float, nil, cons, end, member,
}

-- `serde_json` reads at most 127 documents inside each other.
abbrev pub depth_limit : ℕ
depth_limit = 127

module _ {F : Type 0} where
  -- An integer of 64 bits. A float may lose its last digit on the way.
  abbrev is_integer : Number F → Bool
  is_integer (pos_int n) = leb n u64_max
  is_integer (neg_int n) = leb n i64_max
  is_integer (float x) = false

  -- The keys of a map are in their order.
  abbrev is_before : Text → Members F → Bool
  is_before k end = true
  is_before k (member j v ms) = lt_text k j

  unfoldable mutual
    -- Without a float, nested no deeper than `depth`, with the keys of each object in order.
    pub is_plain : ℕ → Value F → Bool
    is_plain depth null = true
    is_plain depth (boolean b) = true
    is_plain depth (number n) = is_integer n
    is_plain depth (string s) = true
    is_plain depth (array vs) = leb 1 depth && are_plain (depth - 1) vs
    is_plain depth (object ms) = leb 1 depth && has_plain (depth - 1) ms

    are_plain : ℕ → Values F → Bool
    are_plain depth nil = true
    are_plain depth (cons v vs) = is_plain depth v && are_plain depth vs

    has_plain : ℕ → Members F → Bool
    has_plain depth end = true
    has_plain depth (member k v ms) = is_plain depth v && is_before k ms && has_plain depth ms
