-- ===== src/Capture/Discovery.antt =====
-- crates/capture/src/scanner.rs: the state of the discovery parser, and what it forgets. The locks
-- are held by one thread at a time and are left out; an `Instant` is a number.
pub mod Message
pub mod Exchange
pub mod Stream
pub mod Parse
pub mod Scan
pub mod Hosts
pub mod Tracked
pub mod Safety
pub mod Told
pub mod Counts
pub mod Kept
pub mod Bounded
use arc_twitch_widget.Prelude.{
  ℕ, ◌+◌, ◌-◌, ◌*◌, ◌%◌, ◌^◌, Bool, true, false, not, ◌&&◌, List, [], ◌∷◌, ◌++◌, map, retain, any,
  take, if◌then◌else◌, leb, ltb, ◌==◌, length, is_empty,
}
use arc_twitch_widget.Prelude.Word.{saturating_sub}
use arc_twitch_widget.Text.{Text}
use arc_twitch_widget.Text.Utf8.{Bytes}
use arc_twitch_widget.HashMap
use arc_twitch_widget.HashMap.{HashMap}

abbrev pub max_scan_buffer : ℕ
max_scan_buffer = 128 * 1024

abbrev pub max_message_bytes : ℕ
max_message_bytes = 8 * 1024 * 1024

abbrev pub max_total_scan_bytes : ℕ
max_total_scan_bytes = 96 * 1024 * 1024

abbrev pub max_discovery_connections : ℕ
max_discovery_connections = 256

abbrev pub max_pending_requests : ℕ
max_pending_requests = 16

abbrev pub max_tracked_api_connections : ℕ
max_tracked_api_connections = 64

-- 45 minutes, in microseconds.
abbrev pub discovery_connection_timeout : ℕ
discovery_connection_timeout = 45 * 60 * 1000000

-- The direction of a stream, a type of pcapsql.
pub data Direction : Type 0 where
  to_server to_client : Direction

abbrev pub same_direction : Direction → Direction → Bool
same_direction to_server to_server = true
same_direction to_client to_client = true
same_direction _ _ = false

-- The key of a buffer: a connection and a direction.
abbrev pub Key : Type 0
Key = ℕ × Direction

abbrev pub same_key : Key → Key → Bool
same_key j k = j.0 == k.0 && same_direction j.1 k.1

pub record DiscoveryParser : Type 0 where
  pub buffers : HashMap Key Bytes
  pub hosts : HashMap ℕ Text
  pub pending_requests : HashMap ℕ (List (Text × Text))
  pub last_seen : HashMap ℕ ℕ
  pub parse_count : ℕ
  pub skipped_bodies : HashMap Key ℕ

abbrev pub contains_id : List ℕ → ℕ → Bool
contains_id ids id = any (λ i. i == id) ids

abbrev pub keys {ℓ} : {V : Type ℓ} → HashMap ℕ V → List ℕ
keys m = map (λ e. e.0) m

-- `sort_unstable_by_key(|(_, seen_at)| *seen_at)`
unfoldable pub insert_by_age : ℕ × ℕ → List (ℕ × ℕ) → List (ℕ × ℕ)
insert_by_age e [] = e ∷ []
insert_by_age e (f ∷ es) =
    let rest = insert_by_age e es in if leb e.1 f.1 then e ∷ f ∷ es else f ∷ rest

unfoldable pub sort_by_age : List (ℕ × ℕ) → List (ℕ × ℕ)
sort_by_age [] = []
sort_by_age (e ∷ es) = insert_by_age e (sort_by_age es)

-- The connections that are silent for longer than the timeout.
unfoldable pub silent : List ℕ → ℕ → HashMap ℕ ℕ → List ℕ
silent protected now last_seen = keys (
    retain
      (λ e.
        not (contains_id protected e.0)
        && ltb discovery_connection_timeout (saturating_sub now e.1))
      last_seen)

-- The connections that are too many: the oldest that are not protected.
unfoldable pub crowded : List ℕ → HashMap ℕ ℕ → List ℕ
crowded protected last_seen =
    if ltb max_discovery_connections (length last_seen)
    then take (length last_seen - max_discovery_connections)
        (keys (sort_by_age (retain (λ e. not (contains_id protected e.0)) last_seen)))
    else []

-- `retain(|id, _| !victims.contains(id))`
unfoldable pub without {ℓ} : {V : Type ℓ} → List ℕ → HashMap ℕ V → HashMap ℕ V
without victims m = retain (λ e. not (contains_id victims e.0)) m

unfoldable pub without_keys {ℓ} : {V : Type ℓ} → List ℕ → HashMap Key V → HashMap Key V
without_keys victims m = retain (λ e. not (contains_id victims e.0.0)) m

-- Nothing is kept of the victims.
unfoldable pub forget : List ℕ → DiscoveryParser → DiscoveryParser
forget victims s = if is_empty victims then s else record s {
  buffers = without_keys victims s.buffers;
  hosts = without victims s.hosts;
  pending_requests = without victims s.pending_requests;
  skipped_bodies = without_keys victims s.skipped_bodies;
}

-- `DiscoveryParser::touch_and_prune`
unfoldable pub touch_and_prune : ℕ → ℕ → DiscoveryParser → DiscoveryParser
touch_and_prune now connection_id s =
    let protected = keys s.hosts in
    let seen = HashMap.insert ◌==◌ s.last_seen connection_id now in
    let counted = record s { last_seen = seen; parse_count = (s.parse_count + 1) % 2 ^ 64 } in
    if not (s.parse_count % 128 == 0) && leb (length seen) max_discovery_connections
    then counted
    else let idle = silent protected now seen in
      let recent = without idle seen in
      let extra = crowded protected recent in
      forget (idle ++ extra) (record counted { last_seen = without extra recent })
