-- ===== src/Capture/Discovery/Exchange.antt =====
-- crates/capture/src/scanner.rs: a message is paired with its request, its host is tracked, and the
-- statistics are recognised by the body.
use arc_twitch_widget.Prelude.{
  ℕ, zero, suc, Bool, true, false, not, ◌&&◌, List, [], ◌∷◌, ◌++◌, Option, none, some, and_then,
  unwrap_or, is_some, retain, drop, first?, if◌then◌else◌, leb, ltb, ◌==◌, length, is_empty,
}
use arc_twitch_widget.Text.{Text, codes, eq_text, before}
use arc_twitch_widget.Text.Utf8.{Bytes}
use arc_twitch_widget.HashMap
use arc_twitch_widget.HashMap.{HashMap}
use arc_twitch_widget.Json
use arc_twitch_widget.Json.{Value, null}
use arc_twitch_widget.Core.Redaction.{json_shape}
use arc_twitch_widget.Capture.Host.{is_allowed_host}
use arc_twitch_widget.Capture.Discovery.{
  DiscoveryParser, keys, max_pending_requests, max_tracked_api_connections,
}
use arc_twitch_widget.Capture.Discovery.Message.{
  Codecs, StreamContext, ParsedMessage, player_stats_path, discovery_message, decode_content,
  parse_start_line,
}

-- The order of an `Option<Instant>`.
abbrev pub seen_before : Option ℕ → Option ℕ → Bool
seen_before none none = false
seen_before none (some b) = true
seen_before (some a) none = false
seen_before (some a) (some b) = ltb a b

-- `min_by_key(|id| last_seen.get(id).copied())`: the first of the least.
unfoldable pub stalest : HashMap ℕ ℕ → List ℕ → Option ℕ
stalest last_seen [] = none
stalest last_seen (id ∷ ids) = elim (stalest last_seen ids) [
  | none ↦ some id
  | some later ↦
      if seen_before (HashMap.get ◌==◌ last_seen later) (HashMap.get ◌==◌ last_seen id)
      then some later
      else some id
]

-- The loop that forgets hosts until there is room. A round removes one, so as many rounds as there
-- are hosts are enough.
unfoldable pub make_room : ℕ → HashMap ℕ ℕ → ℕ → HashMap ℕ Text → HashMap ℕ Text
make_room zero last_seen connection_id hosts = hosts
make_room (suc fuel) last_seen connection_id hosts =
    let next : HashMap ℕ Text =
      elim (stalest last_seen (retain (λ id. not (id == connection_id)) (keys hosts))) [
        | none ↦ hosts
        | some id ↦ make_room fuel last_seen connection_id (HashMap.remove ◌==◌ hosts id)
      ] in
    if leb max_tracked_api_connections (length hosts) then next else hosts

unfoldable pub track_host : ℕ → Text → DiscoveryParser → DiscoveryParser
track_host connection_id host s = record s {
  hosts =
      HashMap.insert ◌==◌ (make_room (length s.hosts) s.last_seen connection_id s.hosts)
        connection_id host;
}

-- The host of a message: its own, or for a response that of the connection.
unfoldable pub find_host : ℕ → Text → Option ℕ → DiscoveryParser → Text × DiscoveryParser
find_host connection_id host status s =
    if not (is_empty host) && is_allowed_host host
    then (host, track_host connection_id host s)
    else if is_some status
    then (unwrap_or (HashMap.get ◌==◌ s.hosts connection_id) [], s)
    else (host, s)

abbrev pub Request : Type 0
Request = Text × Text

unfoldable pub push_request : List Request → Request → List Request
push_request queue request =
    (if leb max_pending_requests (length queue) then drop 1 queue else queue) ++ (request ∷ [])

-- A response takes the oldest request of its connection.
unfoldable pub pop_request :
    ℕ
    → Option Text × Option Text
    → List Request
    → DiscoveryParser
    → (Option Text × Option Text) × DiscoveryParser
pop_request connection_id line [] s =
    (line, record s { pending_requests = HashMap.insert ◌==◌ s.pending_requests connection_id [] })
pop_request connection_id line ((method, path) ∷ queue) s = (
  (some method, some path),
  record s { pending_requests = HashMap.insert ◌==◌ s.pending_requests connection_id queue },
)

unfoldable pub waiting_requests : ℕ → DiscoveryParser → List Request
waiting_requests connection_id s = unwrap_or (HashMap.get ◌==◌ s.pending_requests connection_id) []

-- The method and path of a message: a request is queued, a response takes a request.
unfoldable pub pair :
    ℕ
    → Option Text × Option Text × Option ℕ
    → DiscoveryParser
    → (Option Text × Option Text) × DiscoveryParser
pair connection_id (some method, some path, status) s = (
  (some method, some path),
  record s {
    pending_requests =
        HashMap.insert ◌==◌ s.pending_requests connection_id
          (push_request (waiting_requests connection_id s) (method, path));
  },
)
pair connection_id (method, path, none) s = ((method, path), s)
pair connection_id (method, path, some status) s =
    pop_request connection_id (method, path) (waiting_requests connection_id s) s

-- `Some("POST")` and the path of the statistics, without its query.
unfoldable pub path_is_player_stats : Option Text → Option Text → Bool
path_is_player_stats (some method) (some path) =
    eq_text method (codes "POST") && eq_text (before (λ c. c == b'?') path) player_stats_path
path_is_player_stats _ _ = false

-- 200..300
abbrev pub is_success : Option ℕ → Bool
is_success none = false
is_success (some status) = leb 200 status && ltb status 300

module _ {F : Type 0} (c : Codecs F) where
  -- The rows of the first scope are there.
  unfoldable pub has_rows : Option (Value F) → Bool
  has_rows json =
      elim (and_then json λ value. and_then (Json.get value (codes "scopedPlayerStats")) λ v.
        and_then (Json.as_array v) λ scopes.
          and_then (first? scopes)
            λ scope. and_then (Json.get scope (codes "playerStats")) Json.as_array) [
              | none ↦ false
              | some rows ↦ not (is_empty rows)
            ]

  unfoldable pub shape_of : Option (Value F) → Value F
  shape_of none = null
  shape_of (some value) = json_shape value 0

  unfoldable pub stats_message :
      StreamContext
      → Text
      → Option Text
      → Option Text
      → Option ℕ
      → Option Text
      → Option (Value F)
      → List ParsedMessage
  stats_message context host method path status content_type none = []
  stats_message context host method path status content_type (some stats) =
      discovery_message c context (codes "player_stats_response") host method path status
        content_type null (some (c.to_string stats))
      ∷ []

  -- The messages of an exchange with an allowed host.
  unfoldable pub observe :
      StreamContext
      → HashMap Text Text
      → Bytes
      → Text
      → Option ℕ
      → (Option Text × Option Text) × DiscoveryParser
      → DiscoveryParser × List ParsedMessage
  observe context headers body host status ((method, path), s) =
      let content_type = HashMap.get eq_text headers (codes "content-type") in
      let is_path = path_is_player_stats method path in
      let ready =
        if not (is_some status) && is_path
        then discovery_message c context (codes "stats_stream_ready") host method path status
            content_type null none
          ∷ []
        else [] in
      let json =
        and_then (decode_content c body (HashMap.get eq_text headers (codes "content-encoding")))
          c.from_slice in
      let is_body = is_some status && has_rows json in
      let resync = is_body && not is_path in
      let method' = if resync then some (codes "POST") else method in
      let path' = if resync then some player_stats_path else path in
      let s' =
        if resync
        then record s {
          pending_requests = HashMap.remove ◌==◌ s.pending_requests context.connection_id;
        }
        else s in
      let stats =
        if is_success status && is_body
        then stats_message context host method' path' status content_type json
        else [] in
      let observation =
        discovery_message c context (codes "observation") host method' path' status content_type
          (shape_of json) none in
      (s', ready ++ (stats ++ (observation ∷ [])))

  -- A framed message: its first line, its headers and its body.
  unfoldable pub on_message :
      StreamContext
      → Text
      → HashMap Text Text
      → Bytes
      → DiscoveryParser
      → DiscoveryParser × List ParsedMessage
  on_message context first headers body s =
      let (method, path, status) = parse_start_line first in
      let (host, s1) =
        find_host context.connection_id (unwrap_or (HashMap.get eq_text headers (codes "host")) [])
          status s in
      if is_allowed_host host
      then observe context headers body host status
          (pair context.connection_id (method, path, status) s1)
      else (s1, [])
