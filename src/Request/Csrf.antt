-- ===== src/Request/Csrf.antt =====
-- api/src/middlewares/csrf.ts. The comparison in constant time is the equality of the texts; `next()`
-- is `ok`, `next(error)` is `err`.
use livechat.ApiError.{Result, ok, err, forbidden}
use livechat.Prelude.{
  String, ◌≡◌, ◌↔◌, Option, none, some, concat, arith, eq_iff, ◌==◌, if◌then◌else◌,
}
use livechat.Visitor.Cookie.{CookieFunctions}
use livechat.Request.{Request, read_visitor_session_value}

abbrev pub csrf_header : String
csrf_header = "x-xsrf-token"

module _ (lib : CookieFunctions) (secret : String) where
  unfoldable pub compute_csrf_token : String → String
  compute_csrf_token cookie_value = lib.hmac (concat "csrf:" cookie_value) secret

  abbrev pub safe_equal : Option String → String → Result (Unit {0})
  safe_equal none expected = err (forbidden "Invalid or missing CSRF token")
  safe_equal (some provided) expected =
      if provided == expected then ok tt else err (forbidden "Invalid or missing CSRF token")

  protect : Option String → Option String → Result (Unit {0})
  protect provided none = ok tt
  protect provided (some cookie) = safe_equal provided (compute_csrf_token cookie)

  unfoldable pub csrf_protection : Request → Result (Unit {0})
  unfolding protect
  csrf_protection req = protect (req.header csrf_header) (read_visitor_session_value req)

  safe_equal_iff :
      (provided : Option String) (expected : String)
      → (safe_equal provided expected ≡ ok tt) ↔ (provided ≡ some expected)
  safe_equal_iff none expected = ground arith
  safe_equal_iff (some provided) expected = ground (arith, eq_iff provided expected)

  -- A request with a visitor's session passes the guard exactly when it also carries the token that
  -- belongs to that session.
  pub csrf_protection_iff :
      (req : Request) (cookie : String)
      → read_visitor_session_value req ≡ some cookie
      → (csrf_protection req ≡ ok tt) ↔ (req.header csrf_header ≡ some (compute_csrf_token cookie))
  unfolding csrf_protection protect
  csrf_protection_iff req cookie presented =
      rw presented (safe_equal_iff (req.header csrf_header) (compute_csrf_token cookie))
