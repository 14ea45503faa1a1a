-- ===== src/Capture/Host.antt =====
-- crates/capture/src/scanner.rs: which hosts are the game's API, and what is kept of a path.
pub mod Allowed
use arc_twitch_widget.Prelude.{
  ℕ, Bool, true, false, not, ◌&&◌, ◌||◌, List, [], ◌∷◌, ◌++◌, Option, none, some, and_then,
  if◌then◌else◌, ◌==◌, leb, is_empty, all, first?, length, map, retain,
}
use arc_twitch_widget.Text.{
  Text, codes, eq_text, one_of, is_ascii_alphanumeric, to_ascii_lowercase, trim, trim_end_by,
  before, split, split_by, nonempty, join, starts_with, ends_with, contains,
}
use arc_twitch_widget.Text.Utf8.{len}

-- A byte that a host name may have.
unfoldable pub host_character : ℕ → Bool
host_character c = is_ascii_alphanumeric c || c == b'.' || c == b'-'

-- `host.trim().trim_end_matches('.').split(':').next()?.to_ascii_lowercase()`
unfoldable pub lowered_host : Text → Text
lowered_host host =
    to_ascii_lowercase (before (λ c. c == b':') (trim_end_by (λ c. c == b'.') (trim host)))

unfoldable pub normalize_host : Text → Option Text
normalize_host host =
    let normalized = lowered_host host in
    if not (is_empty normalized) && all host_character normalized then some normalized else none

-- `labels[labels.len() - 2..] == ["es-pio", "net"]`, for at least two labels.
unfoldable pub last_two : List Text → Bool
last_two [] = false
last_two (a ∷ []) = false
last_two (a ∷ b ∷ []) = eq_text a (codes "es-pio") && eq_text b (codes "net")
last_two (a ∷ b ∷ c ∷ ls) = last_two (b ∷ c ∷ ls)

-- `labels.first()` is one of the three API names.
unfoldable pub api_label : List Text → Bool
api_label [] = false
api_label (l ∷ ls) =
    one_of l (codes "api-gateway" ∷ codes "client2pubsub" ∷ codes "client2pubsub-ipv4" ∷ [])

unfoldable pub allowed_labels : List Text → Bool
allowed_labels labels = leb 4 (length labels) && api_label labels && last_two labels

unfoldable pub is_allowed_host : Text → Bool
is_allowed_host host = elim (normalize_host host) [
  | none ↦ false
  | some normalized ↦ allowed_labels (split b'.' normalized)
]

unfoldable pub looks_like_regional_api_host : Text → Bool
looks_like_regional_api_host host = elim (normalize_host host) [
  | none ↦ false
  | some h ↦
      starts_with h (codes "api-gateway.")
      || ends_with h (codes ".es-pio.net")
      || contains h (codes "arc-raiders")
]

-- A segment that may be an identifier: long, and of plain characters.
unfoldable pub looks_identifier : Text → Bool
looks_identifier segment =
    leb 16 (len segment) && all (λ c. is_ascii_alphanumeric c || c == b'-' || c == b'_') segment

unfoldable pub safe_segment : Text → Text
safe_segment segment = if looks_identifier segment then codes ":id" else segment

-- `path.split(['?', '#']).next()`
unfoldable pub without_query : Text → Text
without_query path = before (λ c. c == b'?' || c == b'#') path

unfoldable pub safe_segments : Text → List Text
safe_segments path = map safe_segment (nonempty (split b'/' (without_query path)))

unfoldable pub sanitize_path : Text → Text
sanitize_path path =
    let joined = join b'/' (safe_segments path) in
    if starts_with (without_query path) (codes "/")
    then b'/' ∷ joined
    else if is_empty joined
    then codes "/"
    else joined
