-- ===== src/Capture/DiscoveryTests.antt =====
-- Runs of the discovery parser on small inputs, and instances of its theorems.
use arc_twitch_widget.Prelude.{any, true, ◌≡◌, refl, List, [], ◌∷◌, ◌++◌, none, some, arith}
use arc_twitch_widget.Prelude.Int.{ℤ}
use arc_twitch_widget.Prelude.Run.{Returns}
use arc_twitch_widget.Text.{
  codes, trim, trim_end_by, before, is_ascii_alphanumeric, ascii_lower, split_by, eq_text,
  split_whitespace, nonempty, is_whitespace, starts_with,
}
use arc_twitch_widget.Text.Decimal.{parse_unsigned, parse_digits, push_digit, digit_value}
use arc_twitch_widget.Capture.Host.{
  is_allowed_host, normalize_host, lowered_host, host_character, allowed_labels, api_label,
  last_two,
}
use arc_twitch_widget.Text.Utf8.{Bytes}
use arc_twitch_widget.Capture.Chunked.{decode_chunked}
use arc_twitch_widget.Capture.Chunked.Bounds.{Decoded, decode_chunked-Returns}
use arc_twitch_widget.Capture.Chunked.Rounds.{Chunk}
use arc_twitch_widget.Capture.Discovery.{DiscoveryParser, to_client, to_server, touch_and_prune}
use arc_twitch_widget.Capture.Discovery.Message.{
  Codecs, StreamContext, parse_start_line, discovery_message, put, put_some, put_status, put_shape,
  decode_content,
}
use arc_twitch_widget.Capture.Discovery.Exchange.{
  on_message, observe, find_host, pair, pop_request, waiting_requests, has_rows, stats_message,
  shape_of, path_is_player_stats, is_success,
}
use arc_twitch_widget.Capture.Discovery.Told.{
  is_stats, host_of, status_of, document, any-on_message,
}
use arc_twitch_widget.HashMap
use arc_twitch_widget.Json
use arc_twitch_widget.Json.{null, array, object, member, end, cons, nil}
use arc_twitch_widget.Capture.Discovery.Parse.{parse_stream}
use arc_twitch_widget.Capture.Discovery.Bounded.{IsBounded, last_seen-touch_and_prune}
use arc_twitch_widget.Capture.Discovery.Kept.{IsKept, touch_and_prune-IsKept}
use arc_twitch_widget.Capture.Discovery.Tracked.{IsTracking}
use arc_twitch_widget.Capture.Discovery.Safety.{Tracks, parse_stream-Returns}

-- The wire of a test in scanner.rs: two chunks and the last one.
abbrev wiki : List Chunk
wiki =
    record { line = codes "4"; content = codes "Wiki" }
    ∷ record { line = codes "5;x=y"; content = codes "pedia" }
    ∷ []

decode_chunked-Returns_example : Returns (Decoded (codes "4;x")) (decode_chunked (codes "4;x"))
decode_chunked-Returns_example = decode_chunked-Returns (codes "4;x") (omega arith)

abbrev last_line : Bytes
last_line = codes "0"

-- A parser with one connection to the API.
abbrev started : DiscoveryParser
started = record {
  buffers = ((7, to_client), 72 ∷ []) ∷ [];
  hosts = (7, codes "api-gateway.eu.es-pio.net") ∷ [];
  pending_requests = (7, (codes "GET", codes "/") ∷ []) ∷ [];
  last_seen = (7, 5) ∷ (8, 6) ∷ [];
  parse_count = 128;
  skipped_bodies = [];
}

touch_and_prune-IsKept_example : IsKept 7 started (touch_and_prune 9000000000 9 started)
touch_and_prune-IsKept_example = touch_and_prune-IsKept 9000000000 9 started 7 refl

last_seen-touch_and_prune_example : IsBounded (touch_and_prune 9000000000 9 started).last_seen
last_seen-touch_and_prune_example =
    last_seen-touch_and_prune 9000000000 9 started (refl, (refl, tt)) (omega arith)

-- Bodies without compression, and no document.
abbrev plain : Codecs ℤ
plain = record { inflate = λ coding body. none; from_slice = λ body. none; to_string = λ value. [] }

abbrev from_game : StreamContext
from_game = record { connection_id = 7; direction = to_server }

abbrev request : Bytes
request =
    codes "POST /v1/pioneer/stats/player-v2 HTTP/1.1"
    ++ (13 ∷ 10 ∷ (codes "Host: api-gateway.eu.es-pio.net" ++ (13 ∷ 10 ∷ 13 ∷ 10 ∷ [])))

started-IsTracking : IsTracking started
unfolding is_allowed_host normalize_host lowered_host host_character is_ascii_alphanumeric
    ascii_lower trim trim_end_by before allowed_labels api_label last_two split_by eq_text
started-IsTracking = record {
  once = (refl, tt);
  few = omega arith;
  allowed = (refl, tt);
  waiting = (omega arith, tt);
  seen = ((refl, (refl, tt)), omega arith);
  buffered = (omega arith, tt);
}

parse_stream-Returns_example :
    Returns (Tracks plain from_game) (parse_stream plain 9000000000 request from_game started)
parse_stream-Returns_example =
    parse_stream-Returns plain from_game 9000000000 request started started-IsTracking (omega arith)

-- Every body is a document with one row of statistics.
abbrev rows : Codecs ℤ
rows = record {
  inflate = λ coding body. none;
  from_slice = λ body. some (
      object (
        member (codes "scopedPlayerStats")
          (array (cons (object (member (codes "playerStats") (array (cons null nil)) end)) nil))
          end));
  to_string = λ value. [];
}

answered : any is_stats (on_message rows from_game (codes "HTTP/1.1 200 OK") [] [] started).1 ≡ true
unfolding on_message observe find_host pair pop_request waiting_requests parse_start_line
    split_whitespace nonempty split_by is_whitespace starts_with parse_unsigned parse_digits
    push_digit digit_value HashMap.get HashMap.insert HashMap.remove is_allowed_host normalize_host
    lowered_host host_character is_ascii_alphanumeric ascii_lower trim trim_end_by before
    allowed_labels api_label last_two eq_text has_rows stats_message discovery_message put put_some
    put_status put_shape decode_content shape_of path_is_player_stats Json.get Json.as_array
answered = refl

any-on_message_example :
    (is_allowed_host (host_of rows from_game (codes "HTTP/1.1 200 OK") [] started) ≡ true)
    × (is_success (status_of rows from_game (codes "HTTP/1.1 200 OK")) ≡ true)
    × (has_rows rows (document rows from_game [] []) ≡ true)
any-on_message_example =
    any-on_message rows from_game (codes "HTTP/1.1 200 OK") [] [] started answered
