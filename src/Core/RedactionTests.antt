-- ===== src/Core/RedactionTests.antt =====
-- An instance of the theorem on redaction.
use arc_twitch_widget.Prelude.{◌≡◌, refl, true}
use arc_twitch_widget.Prelude.Int.{ℤ}
use arc_twitch_widget.Text.{Text, codes, is_ascii_alphanumeric}
use arc_twitch_widget.Text.Utf8.{Bytes}
use arc_twitch_widget.Json.{Value, object, member, string, end}
use arc_twitch_widget.Core.Redaction.{sanitize_json}
use arc_twitch_widget.Core.Redaction.Clean.{is_clean, is_clean-sanitize_json}

-- The document of a test in redaction.rs.
abbrev secrets : Value ℤ
secrets = object (
    member (codes "Authorization") (string (codes "Bearer abc")) (
      member (codes "jwt") (string (codes "abcdefgh.ijklmnop.qrstuvwx")) (
        member (codes "nested")
          (object (member (codes "accessToken") (string (codes "secret")) end)) end)))

abbrev digest : Bytes → Text
digest bytes = codes "0123456789abcdef0123456789abcdef"

is_clean-sanitize_json_example : is_clean (sanitize_json digest secrets) ≡ true
unfolding is_ascii_alphanumeric
is_clean-sanitize_json_example = is_clean-sanitize_json digest (λ b. refl) secrets
