-- ===== src/Capture/Discovery/Tracked.antt =====
-- The hosts that the parser tracks: allowed ones, each connection once, and no more than 64.
use arc_twitch_widget.Prelude.{
  ℕ, ◌≤◌, ◌≡◌, Bool, true, false, not, ◌&&◌, List, [], ◌∷◌, Option, none, some, unwrap_or, is_some,
  drop, if◌then◌else◌, leb, ◌==◌, length, length-append, length-drop, is_empty, All, arith,
  Bool-cases, Option-cases, inl, inr, ◌⊎◌, and-eq-true,
}
use arc_twitch_widget.Text.{Text, codes, eq_text}
use arc_twitch_widget.Text.Utf8.{Bytes}
use arc_twitch_widget.HashMap
use arc_twitch_widget.HashMap.{HashMap}
use arc_twitch_widget.HashMap.Laws.{All-insert, All-get, All-retain, length-insert}
use arc_twitch_widget.Capture.Host.{is_allowed_host}
use arc_twitch_widget.Capture.Discovery.{DiscoveryParser, max_message_bytes}
use arc_twitch_widget.Capture.Discovery.Message.{Codecs, StreamContext, parse_start_line}
use arc_twitch_widget.Capture.Discovery.Exchange.{
  make_room, track_host, find_host, Request, push_request, pop_request, waiting_requests, pair,
  observe, on_message,
}
use arc_twitch_widget.Capture.Discovery.Stream.{Headers}
use arc_twitch_widget.Capture.Discovery.Counts.{IsMap, IsMap-insert}
use arc_twitch_widget.Capture.Discovery.Bounded.{IsBounded}
use arc_twitch_widget.Capture.Discovery.Hosts.{make_room-Room}

-- Every tracked host is one of the game's API, each connection has one, and there are at most 64;
-- the requests that wait on a connection are at most 16; at most 256 connections are remembered,
-- each once; and a buffer holds at most 8 MiB.
pub record IsTracking (s : DiscoveryParser) : Type 0 where
  pub once : IsMap s.hosts
  pub few : length s.hosts ≤ 64
  pub allowed : All (λ e. is_allowed_host e.1 ≡ true) s.hosts
  pub waiting : All (λ e. length e.1 ≤ 16) s.pending_requests
  pub seen : IsBounded s.last_seen
  pub buffered : All (λ e. length e.1 ≤ max_message_bytes) s.buffers

abbrev pub IsAllowed : Text → Type 0
IsAllowed host = is_allowed_host host ≡ true

abbrev pub FewWait : List Request → Type 0
FewWait queue = length queue ≤ 16

track_host-IsTracking :
    (id : ℕ) (host : Text) (s : DiscoveryParser)
    → is_allowed_host host ≡ true
    → IsTracking s
    → IsTracking (track_host id host s)
unfolding track_host
track_host-IsTracking id host s good h =
    let (once, allowed, room) =
      make_room-Room IsAllowed s.last_seen id (length s.hosts) s.hosts (omega arith) h.once
        h.allowed in
    let hosts = make_room (length s.hosts) s.last_seen id s.hosts in
    record {
      once = IsMap-insert hosts id host once;
      few = omega (arith, length-insert ◌==◌ hosts id host);
      allowed = All-insert ◌==◌ IsAllowed hosts id host allowed good;
      waiting = h.waiting;
      seen = h.seen;
      buffered = h.buffered;
    }

find_host-IsTracking :
    (id : ℕ) (host : Text) (status : Option ℕ) (s : DiscoveryParser)
    → IsTracking s
    → IsTracking (find_host id host status s).1
unfolding find_host
find_host-IsTracking id host status s h =
    of (Bool-cases (not (is_empty host) && is_allowed_host host)) (Bool-cases (is_some status))
  where
    of :
        ((not (is_empty host) && is_allowed_host host ≡ true)
          ⊎ (not (is_empty host) && is_allowed_host host ≡ false))
        → ((is_some status ≡ true) ⊎ (is_some status ≡ false))
        → IsTracking (find_host id host status s).1
    of (inl own) d =
        let (there, good) = and-eq-true (not (is_empty host)) (is_allowed_host host) own in
        rw own (track_host-IsTracking id host s good h)
    of (inr other) (inl response) = rw (other, response) h
    of (inr other) (inr request) = rw (other, request) h

waiting_requests-FewWait :
    (s : DiscoveryParser) (id : ℕ) → IsTracking s → FewWait (waiting_requests id s)
unfolding waiting_requests
waiting_requests-FewWait s id h = elim (Option-cases (HashMap.get ◌==◌ s.pending_requests id)) [
  | inl nobody ↦ rw nobody (omega arith)
  | inr (queue, found) ↦ rw found (All-get ◌==◌ FewWait s.pending_requests id queue h.waiting found)
]

push_request-FewWait :
    (queue : List Request) (r : Request) → FewWait queue → FewWait (push_request queue r)
unfolding push_request
push_request-FewWait queue r h = elim (Bool-cases (leb 16 (length queue))) [
  | inl full ↦ rw full (omega (arith, length-append (drop 1 queue) (r ∷ []), length-drop 1 queue))
  | inr room ↦
      let small : length queue ≤ 15 = ground arith in
      rw room (omega (arith, length-append queue (r ∷ [])))
]

-- A new queue of a connection.
with_queue-IsTracking :
    (s : DiscoveryParser) (id : ℕ) (queue : List Request)
    → FewWait queue
    → IsTracking s
    → IsTracking (record s { pending_requests = HashMap.insert ◌==◌ s.pending_requests id queue })
with_queue-IsTracking s id queue few h = record {
  once = h.once;
  few = h.few;
  allowed = h.allowed;
  waiting = All-insert ◌==◌ FewWait s.pending_requests id queue h.waiting few;
  seen = h.seen;
  buffered = h.buffered;
}

pop_request-IsTracking :
    (id : ℕ) (line : Option Text × Option Text) (queue : List Request) (s : DiscoveryParser)
    → FewWait queue
    → IsTracking s
    → IsTracking (pop_request id line queue s).1
unfolding pop_request
pop_request-IsTracking id line [] s few h = with_queue-IsTracking s id [] (omega arith) h
pop_request-IsTracking id line (request ∷ queue) s few h =
    with_queue-IsTracking s id queue (omega arith) h

pair-IsTracking :
    (id : ℕ) (method path : Option Text) (status : Option ℕ) (s : DiscoveryParser)
    → IsTracking s
    → IsTracking (pair id (method, path, status) s).1
unfolding pair
pair-IsTracking id (some method) (some path) status s h =
    with_queue-IsTracking s id _
      (push_request-FewWait _ (method, path) (waiting_requests-FewWait s id h)) h
pair-IsTracking id none path none s h = h
pair-IsTracking id (some method) none none s h = h
pair-IsTracking id none path (some status) s h =
    pop_request-IsTracking id (none, path) _ s (waiting_requests-FewWait s id h) h
pair-IsTracking id (some method) none (some status) s h =
    pop_request-IsTracking id (some method, none) _ s (waiting_requests-FewWait s id h) h

if-IsTracking :
    (b : Bool) (s t : DiscoveryParser)
    → IsTracking s
    → IsTracking t
    → IsTracking (if b then s else t)
if-IsTracking true s t h k = h
if-IsTracking false s t h k = k

forget_requests-IsTracking :
    (s : DiscoveryParser) (id : ℕ)
    → IsTracking s
    → IsTracking (record s { pending_requests = HashMap.remove ◌==◌ s.pending_requests id })
unfolding HashMap.remove
forget_requests-IsTracking s id h = record {
  once = h.once;
  few = h.few;
  allowed = h.allowed;
  waiting = All-retain ◌==◌ FewWait _ s.pending_requests h.waiting;
  seen = h.seen;
  buffered = h.buffered;
}

module _ {F : Type 0} (c : Codecs F) (context : StreamContext) where
  observe-IsTracking :
      (headers : Headers) (body : Bytes) (host : Text) (status : Option ℕ)
      (line : Option Text × Option Text) (s : DiscoveryParser)
      → IsTracking s
      → IsTracking (observe c context headers body host status (line, s)).0
  unfolding observe
  observe-IsTracking headers body host status line s h =
      if-IsTracking _ _ s (forget_requests-IsTracking s context.connection_id h) h

  -- A message of any content keeps the hosts, their number and the queues as they have to be.
  pub on_message-IsTracking :
      (first : Text) (headers : Headers) (body : Bytes) (s : DiscoveryParser)
      → IsTracking s
      → IsTracking (on_message c context first headers body s).0
  unfolding on_message
  on_message-IsTracking first headers body s h =
      let (method, path, status) = parse_start_line first in
      let own = unwrap_or (HashMap.get eq_text headers (codes "host")) [] in
      let tracked = find_host-IsTracking context.connection_id own status s h in
      of (is_allowed_host (find_host context.connection_id own status s).0) method path status
        (find_host context.connection_id own status s).0
        (find_host context.connection_id own status s).1 tracked
    where
      of :
          (b : Bool) (method path : Option Text) (status : Option ℕ) (host : Text)
          (s1 : DiscoveryParser)
          → IsTracking s1
          → IsTracking
              (if b
                then observe c context headers body host status
                    (pair context.connection_id (method, path, status) s1)
                else (s1, [])).0
      of true method path status host s1 h =
          observe-IsTracking headers body host status _ _
            (pair-IsTracking context.connection_id method path status s1 h)
      of false method path status host s1 h = h
