-- ===== src/Capture/Host/Allowed.antt =====
-- What the host allowlist lets through.
use arc_twitch_widget.Prelude.{
  ℕ, ◌+◌, ◌≡◌, ◌≢◌, refl, ap, ◌∙◌, sym, true, false, not, ◌&&◌, List, [], ◌∷◌, ◌++◌, ◌==◌, leb,
  is_empty, all, length, length-append, arith, ◌⊎◌, inl, inr, ◌↔◌, Bool-cases, and-eq-true,
}
use arc_twitch_widget.Text.{
  Text, codes, eq_text, one_of, split, join, split_by, is_ascii_alphanumeric,
}
use arc_twitch_widget.Text.Laws.{
  all-append, eq_text_iff, join-split, join-append, split-append, split_by-ne-nil,
}
use arc_twitch_widget.Capture.Host.{
  host_character, lowered_host, normalize_host, last_two, api_label, allowed_labels,
  is_allowed_host,
}

-- The services of the game's API.
abbrev pub services : List Text
services = codes "api-gateway" ∷ codes "client2pubsub" ∷ codes "client2pubsub-ipv4" ∷ []

-- A host of the API: a service, a region of at least one label, and the game's domain.
abbrev pub api_host : Text → Text → Text
api_host service region = service ++ (b'.' ∷ (region ++ (b'.' ∷ codes "es-pio.net")))

abbrev domain : List Text
domain = codes "es-pio" ∷ codes "net" ∷ []

last_two-eq : (ls : List Text) → last_two ls ≡ true → (init : List Text) × (ls ≡ init ++ domain)
unfolding last_two
last_two-eq [] h = cc
last_two-eq (a ∷ []) h = cc
last_two-eq (a ∷ b ∷ []) h =
    ([], ground (arith, eq_text_iff a (codes "es-pio"), eq_text_iff b (codes "net")))
last_two-eq (a ∷ b ∷ c ∷ ls) h =
    let (init, e) = last_two-eq (b ∷ c ∷ ls) h in (a ∷ init, ap (◌∷◌ a) e)

last_two-domain : (init : List Text) → last_two (init ++ domain) ≡ true
unfolding last_two eq_text
last_two-domain [] = refl
last_two-domain (a ∷ []) = refl
last_two-domain (a ∷ b ∷ []) = refl
last_two-domain (a ∷ b ∷ c ∷ init) = last_two-domain (b ∷ c ∷ init)

-- The labels of an allowed host.
labels-eq :
    (ls : List Text)
    → allowed_labels ls ≡ true
    → (s : Text) × (r : Text) × (rs : List Text) × (ls ≡ s ∷ r ∷ (rs ++ domain))
      × (one_of s services ≡ true)
unfolding allowed_labels api_label
labels-eq ls h =
    let (few, last) = and-eq-true (leb 4 (length ls) && api_label ls) (last_two ls) h in
    let (init, e) = last_two-eq ls last in go init e
  where
    go :
        (init : List Text)
        → ls ≡ init ++ domain
        → (s : Text) × (r : Text) × (rs : List Text) × (ls ≡ s ∷ r ∷ (rs ++ domain))
          × (one_of s services ≡ true)
    go [] e = absurd (ground arith)
    go (s ∷ []) e = absurd (ground arith)
    go (s ∷ r ∷ rs) e = (s, r, rs, e, ground arith)

join_labels :
    (s r : Text) (rs : List Text)
    → join b'.' (s ∷ r ∷ (rs ++ domain)) ≡ api_host s (join b'.' (r ∷ rs))
unfolding join
join_labels s r rs =
    ap (λ t. s ++ (b'.' ∷ t)) (join-append b'.' (r ∷ rs) domain (λ e. cc e) (λ e. cc e))

-- What an allowed host is: a service of the API, a region, and the game's domain.
pub record IsApiHost (host : Text) : Type 0 where
  pub service : Text
  pub region : Text
  pub known : one_of service services ≡ true
  pub plain : all host_character region ≡ true
  pub shape : lowered_host host ≡ api_host service region

all_region : (s r : Text) → all host_character (api_host s r) ≡ true → all host_character r ≡ true
all_region s r h = ground (
  arith,
  all-append host_character s (b'.' ∷ (r ++ (b'.' ∷ codes "es-pio.net"))),
  all-append host_character r (b'.' ∷ codes "es-pio.net"),
)

-- The test, in one formula.
allowed_lem :
    (host : Text)
    → is_allowed_host host ≡ (
        (not (is_empty (lowered_host host)) && all host_character (lowered_host host))
        && allowed_labels (split b'.' (lowered_host host)))
unfolding is_allowed_host normalize_host
allowed_lem host = ground arith

allowed-IsApiHost : (host : Text) → is_allowed_host host ≡ true → IsApiHost host
allowed-IsApiHost host h =
    let normalized = lowered_host host in
    let (good, labels) =
      and-eq-true (not (is_empty normalized) && all host_character normalized)
        (allowed_labels (split b'.' normalized)) (sym (allowed_lem host) ∙ h) in
    let (there, plain) =
      and-eq-true (not (is_empty normalized)) (all host_character normalized) good in
    let (s, r, rs, e, known) = labels-eq (split b'.' normalized) labels in
    let shape : normalized ≡ api_host s (join b'.' (r ∷ rs)) =
      sym (join-split b'.' normalized) ∙ ap (join b'.') e ∙ join_labels s r rs in
    record {
      service = s;
      region = join b'.' (r ∷ rs);
      known = known;
      plain = all_region s (join b'.' (r ∷ rs)) (sym (ap (all host_character) shape) ∙ plain);
      shape = shape;
    }

-- The three services are single labels of plain characters.
service_label :
    (s : Text)
    → one_of s services ≡ true
    → (split b'.' s ≡ s ∷ []) × (all host_character s ≡ true) × (is_empty s ≡ false)
unfolding split_by host_character is_ascii_alphanumeric
service_label s h =
    of (Bool-cases (eq_text s (codes "api-gateway")))
      (Bool-cases (eq_text s (codes "client2pubsub")))
  where
    Single : Text → Type 0
    Single t = (split b'.' t ≡ t ∷ []) × (all host_character t ≡ true) × (is_empty t ≡ false)

    at : (t : Text) → eq_text s t ≡ true → Single t → Single s
    at t e p = rw ((eq_text_iff s t).0 e) p

    of :
        ((eq_text s (codes "api-gateway") ≡ true) ⊎ (eq_text s (codes "api-gateway") ≡ false))
        → ((eq_text s (codes "client2pubsub") ≡ true) ⊎ (eq_text s (codes "client2pubsub") ≡ false))
        → Single s
    of (inl e) d = at (codes "api-gateway") e (refl, refl, refl)
    of (inr e) (inl d) = at (codes "client2pubsub") d (refl, refl, refl)
    of (inr e) (inr d) = at (codes "client2pubsub-ipv4") (ground arith) (refl, refl, refl)

all-api_host :
    (s r : Text)
    → all host_character s ≡ true
    → all host_character r ≡ true
    → all host_character (api_host s r) ≡ true
unfolding host_character is_ascii_alphanumeric
all-api_host s r h k =
    all-append host_character s (b'.' ∷ (r ++ (b'.' ∷ codes "es-pio.net")))
    ∙ rw h (all-append host_character r (b'.' ∷ codes "es-pio.net") ∙ rw k refl)

few_labels : (s : Text) (ls : List Text) → ls ≢ [] → leb 4 (length (s ∷ (ls ++ domain))) ≡ true
few_labels s [] h = absurd (h refl)
few_labels s (r ∷ rs) h =
    let e : length (rs ++ domain) ≡ length rs + 2 = length-append rs domain in ground arith

is_empty-append : (a b : Text) (x : ℕ) → is_empty (a ++ (x ∷ b)) ≡ false
is_empty-append [] b x = refl
is_empty-append (y ∷ a) b x = refl

-- The labels of a service, a region and the game's domain are allowed.
labels-allowed :
    (s : Text) (rs : List Text)
    → one_of s services ≡ true
    → rs ≢ []
    → allowed_labels (s ∷ (rs ++ domain)) ≡ true
unfolding allowed_labels api_label
labels-allowed s rs known some_label =
    let few = few_labels s rs some_label in
    let last = last_two-domain (s ∷ rs) in rw (few, last, known) refl

IsApiHost-allowed : (host : Text) → IsApiHost host → is_allowed_host host ≡ true
unfolding split_by
IsApiHost-allowed host h =
    let (single, plain, there) = service_label h.service h.known in
    let labels : split b'.' (lowered_host host) ≡ h.service ∷ (split b'.' h.region ++ domain) =
      ap (split b'.') h.shape
      ∙ split-append b'.' h.service (h.region ++ (b'.' ∷ codes "es-pio.net"))
      ∙ rw single (ap (◌∷◌ h.service) (split-append b'.' h.region (codes "es-pio.net"))) in
    let good : all host_character (lowered_host host) ≡ true =
      ap (all host_character) h.shape ∙ all-api_host h.service h.region plain h.plain in
    let some_byte : is_empty (lowered_host host) ≡ false =
      ap is_empty h.shape
      ∙ is_empty-append h.service (h.region ++ (b'.' ∷ codes "es-pio.net")) b'.' in
    let allowed : allowed_labels (split b'.' (lowered_host host)) ≡ true =
      ap allowed_labels labels
      ∙ labels-allowed h.service (split b'.' h.region) h.known
          (split_by-ne-nil (λ c. c == b'.') h.region) in
    allowed_lem host ∙ rw (some_byte, good, allowed) refl

-- A host is allowed exactly when its normal form is a service of the game's API, a region of plain
-- characters, and `es-pio.net` behind them: no other suffix, prefix or domain passes.
pub is_allowed_host-iff-IsApiHost : (host : Text) → (is_allowed_host host ≡ true) ↔ IsApiHost host
is_allowed_host-iff-IsApiHost host = (allowed-IsApiHost host, IsApiHost-allowed host)
