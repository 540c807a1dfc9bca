-- ===== src/Request/Tests.antt =====
-- Requests at concrete inputs, and the theorems on them.
use livechat.ApiError.{ok}
use livechat.Prelude.{◌≡◌, refl, ◌↔◌, none, some, ◌==◌, if◌then◌else◌}
use livechat.Visitor.Tests.{signing}
use livechat.Request.{Request, read_visitor_session_value}
use livechat.Request.Csrf.{csrf_header, compute_csrf_token, csrf_protection, csrf_protection_iff}

-- The header is used, not the cookie.
abbrev req : Request
req = record {
  header = λ name.
      if name == "x-visitor-session"
      then some "id.sig"
      else if name == csrf_header
      then some "sig"
      else none;
  cookies = λ name. some "sig.sig";
  ip = none;
}

presented : read_visitor_session_value req ≡ some "id.sig"
unfolding read_visitor_session_value
presented = refl

csrf_protection_iff_example :
    (csrf_protection signing "secret" req ≡ ok tt)
    ↔ (some "sig" ≡ some (compute_csrf_token signing "secret" "id.sig"))
csrf_protection_iff_example = csrf_protection_iff signing "secret" req "id.sig" presented
