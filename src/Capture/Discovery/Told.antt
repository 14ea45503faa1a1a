-- ===== src/Capture/Discovery/Told.antt =====
-- What the parser tells: statistics only of a successful answer that has rows, of an allowed host.
use arc_twitch_widget.Prelude.{
  ℕ, ◌≡◌, refl, ap, ◌∙◌, Bool, true, false, ◌&&◌, ◌||◌, List, [], ◌∷◌, ◌++◌, Option, none, some,
  and_then, unwrap_or, is_some, any, if◌then◌else◌, Bool-cases, inl, inr, arith,
}
use arc_twitch_widget.Text.{Text, codes, eq_text}
use arc_twitch_widget.Text.Utf8.{Bytes}
use arc_twitch_widget.HashMap
use arc_twitch_widget.HashMap.{HashMap}
use arc_twitch_widget.Json.{Value, null, boolean, number, string, array, object}
use arc_twitch_widget.Capture.Host.{is_allowed_host}
use arc_twitch_widget.Capture.Discovery.{DiscoveryParser}
use arc_twitch_widget.Capture.Discovery.Message.{
  Codecs, StreamContext, ParsedMessage, FieldValue, owned_string, uint64, put, put_some, put_status,
  put_shape, discovery_message, decode_content, parse_start_line,
}
use arc_twitch_widget.Capture.Discovery.Exchange.{
  find_host, pair, is_success, has_rows, observe, on_message,
}
use arc_twitch_widget.Capture.Discovery.Stream.{Headers}

abbrev Fields : Type 0
Fields = HashMap Text FieldValue

-- The first field is the kind.
abbrev HasKind : Text → Fields → Type 0
HasKind kind f = (m : Fields) × (f ≡ (codes "kind", owned_string kind) ∷ m)

put-HasKind :
    (kind key value : Text) (f : Fields)
    → eq_text (codes "kind") key ≡ false
    → HasKind kind f
    → HasKind kind (put f key value)
unfolding put HashMap.insert
put-HasKind kind key value f other (m, e) =
    (HashMap.insert eq_text m key (owned_string value), rw e (rw other refl))

first-HasKind : (kind : Text) → HasKind kind (put [] (codes "kind") kind)
unfolding put HashMap.insert
first-HasKind kind = ([], refl)

put_some-HasKind :
    (kind key : Text) (value : Option Text) (f : Fields)
    → eq_text (codes "kind") key ≡ false
    → HasKind kind f
    → HasKind kind (put_some f key value)
unfolding put_some
put_some-HasKind kind key none f other h = h
put_some-HasKind kind key (some value) f other h = put-HasKind kind key value f other h

put_status-HasKind :
    (kind : Text) (status : Option ℕ) (f : Fields)
    → HasKind kind f
    → HasKind kind (put_status f status)
unfolding put_status HashMap.insert eq_text
put_status-HasKind kind none f h = h
put_status-HasKind kind (some n) f (m, e) =
    (HashMap.insert eq_text m (codes "status") (uint64 n), rw e refl)

abbrev pub field_is : Option FieldValue → Text → Bool
field_is none k = false
field_is (some (owned_string s)) k = eq_text s k
field_is (some (uint64 n)) k = false

-- The kind of a message.
abbrev pub is_kind : Text → ParsedMessage → Bool
is_kind k m = field_is (HashMap.get eq_text m.fields (codes "kind")) k

abbrev pub is_stats : ParsedMessage → Bool
is_stats = is_kind (codes "player_stats_response")

module _ {F : Type 0} (c : Codecs F) (context : StreamContext) where
  put_shape-HasKind :
      (kind : Text) (shape : Value F) (f : Fields)
      → HasKind kind f
      → HasKind kind (put_shape c f shape)
  unfolding put_shape eq_text
  put_shape-HasKind kind null f h = h
  put_shape-HasKind kind (boolean b) f h = put-HasKind kind (codes "body_shape") _ f refl h
  put_shape-HasKind kind (number n) f h = put-HasKind kind (codes "body_shape") _ f refl h
  put_shape-HasKind kind (string s) f h = put-HasKind kind (codes "body_shape") _ f refl h
  put_shape-HasKind kind (array vs) f h = put-HasKind kind (codes "body_shape") _ f refl h
  put_shape-HasKind kind (object ms) f h = put-HasKind kind (codes "body_shape") _ f refl h

  discovery_message-HasKind :
      (kind host : Text) (method path : Option Text) (status : Option ℕ)
      (content_type : Option Text) (shape : Value F) (stats_body : Option Text)
      → HasKind kind
          (discovery_message c context kind host method path status content_type shape
            stats_body).fields
  unfolding discovery_message eq_text
  discovery_message-HasKind kind host method path status content_type shape stats_body =
      put_some-HasKind kind (codes "stats_body") stats_body _ refl (
        put_shape-HasKind kind shape _ (
          put_some-HasKind kind (codes "content_type") content_type _ refl (
            put_status-HasKind kind status _ (
              put_some-HasKind kind (codes "path") path _ refl (
                put_some-HasKind kind (codes "method") method _ refl (
                  put-HasKind kind (codes "source") _ _ refl
                    (put-HasKind kind (codes "host") _ _ refl (first-HasKind kind))))))))

  is_kind-discovery_message :
      (k kind host : Text) (method path : Option Text) (status : Option ℕ)
      (content_type : Option Text) (shape : Value F) (stats_body : Option Text)
      → is_kind k
          (discovery_message c context kind host method path status content_type shape stats_body)
        ≡ eq_text kind k
  unfolding HashMap.get eq_text
  is_kind-discovery_message k kind host method path status content_type shape stats_body =
      let (m, e) =
        discovery_message-HasKind kind host method path status content_type shape stats_body in
      ap (λ f. field_is (HashMap.get eq_text f (codes "kind")) k) e ∙ refl

  any-append :
      (p : ParsedMessage → Bool) (xs ys : List ParsedMessage)
      → any p (xs ++ ys) ≡ (any p xs || any p ys)
  any-append p [] ys = refl
  any-append p (x ∷ xs) ys = let rest = any-append p xs ys in ground arith

  -- The status of a message, and its host.
  abbrev pub status_of : Text → Option ℕ
  status_of first = (parse_start_line first).2

  abbrev pub host_of : Text → Headers → DiscoveryParser → Text
  host_of first headers s =
      (find_host context.connection_id (unwrap_or (HashMap.get eq_text headers (codes "host")) [])
        (status_of first) s).0

  -- The document in a body.
  abbrev pub document : Headers → Bytes → Option (Value F)
  document headers body =
      and_then (decode_content c body (HashMap.get eq_text headers (codes "content-encoding")))
        c.from_slice

  any_quiet :
      (ready : List ParsedMessage) (m : ParsedMessage)
      → any is_stats ready ≡ false
      → is_stats m ≡ false
      → any is_stats (ready ++ (m ∷ [])) ≡ false
  any_quiet ready m h k = any-append is_stats ready (m ∷ []) ∙ rw (h, k) refl

  any_if :
      (b : Bool) (m : ParsedMessage)
      → is_stats m ≡ false
      → any is_stats (if b then m ∷ [] else []) ≡ false
  any_if true m h = rw h refl
  any_if false m h = refl

  any-observe :
      (headers : Headers) (body : Bytes) (host : Text) (status : Option ℕ)
      (line : Option Text × Option Text) (s : DiscoveryParser)
      → any is_stats (observe c context headers body host status (line, s)).1 ≡ true
      → (is_success status && (is_some status && has_rows c (document headers body))) ≡ true
  unfolding observe eq_text
  any-observe headers body host status line s h =
      elim (Bool-cases
        (is_success status && (is_some status && has_rows c (document headers body)))) [
          | inl told ↦ told
          | inr nothing ↦
              let quiet : any is_stats (observe c context headers body host status (line, s)).1
                  ≡ false =
                rw (nothing, observe)
                  (any_quiet _ _
                    (any_if _ _ (
                      is_kind-discovery_message (codes "player_stats_response")
                        (codes "stats_stream_ready") host _ _ status _ _ _))
                    (is_kind-discovery_message (codes "player_stats_response") (codes "observation")
                      host _ _ status _ _ _)) in
              absurd (cc (quiet, h))
        ]

  -- Statistics are told only where the host of the message is allowed, its status is that of a
  -- success, and its body is a document whose first scope has rows: no other answer can wipe the
  -- counters of a stream.
  pub any-on_message :
      (first : Text) (headers : Headers) (body : Bytes) (s : DiscoveryParser)
      → any is_stats (on_message c context first headers body s).1 ≡ true
      → (is_allowed_host (host_of first headers s) ≡ true)
        × (is_success (status_of first) ≡ true)
        × (has_rows c (document headers body) ≡ true)
  unfolding on_message
  any-on_message first headers body s h =
      let id = context.connection_id in
      let own = unwrap_or (HashMap.get eq_text headers (codes "host")) [] in
      let (method, path, status) = parse_start_line first in
      let s1 = (find_host id own status s).1 in
      let paired = pair id (method, path, status) s1 in
      elim (Bool-cases (is_allowed_host (host_of first headers s))) [
        | inl good ↦
            let told =
              any-observe headers body (host_of first headers s) (status_of first) paired.0 paired.1
                (rw (good, on_message) at h) in
            (good, ground arith, ground arith)
        | inr bad ↦ absurd (cc (rw (bad, on_message) at h))
      ]
