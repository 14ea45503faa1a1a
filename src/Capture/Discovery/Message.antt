-- ===== src/Capture/Discovery/Message.antt =====
-- crates/capture/src/scanner.rs: one HTTP message of a stream, and what is told of it. The inflaters
-- and `serde_json` are parameters.
use arc_twitch_widget.Prelude.{
  ℕ, [], ◌∷◌, Option, none, some, and_then, drop, first?, if◌then◌else◌, leb, length,
}
use arc_twitch_widget.Prelude.Word.{u64_max}
use arc_twitch_widget.Text.{
  Text, codes, eq_text, one_of, trim, to_ascii_lowercase, split_whitespace, starts_with,
}
use arc_twitch_widget.Text.Decimal.{parse_unsigned}
use arc_twitch_widget.Text.Utf8.{Bytes}
use arc_twitch_widget.HashMap
use arc_twitch_widget.HashMap.{HashMap}
use arc_twitch_widget.Json.{Value, null}
use arc_twitch_widget.Capture.Chunked.{max_decoded_body}
use arc_twitch_widget.Capture.Discovery.{Direction}

abbrev pub player_stats_path : Text
player_stats_path = codes "/v1/pioneer/stats/player-v2"

-- The compressions that a body may have.
pub data Coding : Type 0 where
  gzip deflate brotli : Coding

-- What `flate2`, `brotli` and `serde_json` do. An inflater yields the first bytes of its output, at
-- most one more than the bound.
pub record Codecs (F : Type 0) : Type 0 where
  pub inflate : Coding → Bytes → Option Bytes
  pub from_slice : Bytes → Option (Value F)
  pub to_string : Value F → Text

pub record StreamContext : Type 0 where
  pub connection_id : ℕ
  pub direction : Direction

pub data FieldValue : Type 0 where
  owned_string : Text → FieldValue
  uint64 : ℕ → FieldValue

pub record ParsedMessage : Type 0 where
  pub connection_id : ℕ
  pub direction : Direction
  pub fields : HashMap Text FieldValue

unfoldable pub put : HashMap Text FieldValue → Text → Text → HashMap Text FieldValue
put fields key value = HashMap.insert eq_text fields key (owned_string value)

-- `if let Some(value) = … { put(&mut fields, key, value) }`
unfoldable pub put_some : HashMap Text FieldValue → Text → Option Text → HashMap Text FieldValue
put_some fields key none = fields
put_some fields key (some value) = put fields key value

unfoldable pub put_status : HashMap Text FieldValue → Option ℕ → HashMap Text FieldValue
put_status fields none = fields
put_status fields (some value) = HashMap.insert eq_text fields (codes "status") (uint64 value)

unfoldable pub parse_start_line : Text → Option Text × Option Text × Option ℕ
parse_start_line line =
    let parts = split_whitespace line in
    if starts_with line (codes "HTTP/")
    then (none, none, and_then (first? (drop 1 parts)) (parse_unsigned 10 u64_max))
    else (first? parts, first? (drop 1 parts), none)

abbrev pub within_bound : Bytes → Option Bytes
within_bound output = if leb (length output) max_decoded_body then some output else none

module _ {F : Type 0} (c : Codecs F) where
  unfoldable pub put_shape : HashMap Text FieldValue → Value F → HashMap Text FieldValue
  put_shape fields null = fields
  put_shape fields shape = put fields (codes "body_shape") (c.to_string shape)

  unfoldable pub discovery_message :
      StreamContext
      → (kind host : Text) (method path : Option Text) (status : Option ℕ)
      → (content_type : Option Text) (shape : Value F) (stats_body : Option Text) → ParsedMessage
  discovery_message context kind host method path status content_type shape stats_body =
      let f1 =
        put (put (put [] (codes "kind") kind) (codes "host") host) (codes "source")
          (codes "http1") in
      let f2 = put_some (put_some f1 (codes "method") method) (codes "path") path in
      let f3 = put_some (put_status f2 status) (codes "content_type") content_type in
      record {
        connection_id = context.connection_id;
        direction = context.direction;
        fields = put_some (put_shape f3 shape) (codes "stats_body") stats_body;
      }

  unfoldable pub decode_content : Bytes → Option Text → Option Bytes
  decode_content body none = within_bound body
  decode_content body (some encoding) =
      let e = to_ascii_lowercase (trim encoding) in
      if one_of e (codes "" ∷ codes "identity" ∷ [])
      then within_bound body
      else if one_of e (codes "gzip" ∷ codes "x-gzip" ∷ [])
      then and_then (c.inflate gzip body) within_bound
      else if eq_text e (codes "deflate")
      then and_then (c.inflate deflate body) within_bound
      else if eq_text e (codes "br")
      then and_then (c.inflate brotli body) within_bound
      else none
