-- ===== src/Request.antt =====
-- What the visitor's routes read of a request: api/src/middlewares/visitor-request.ts,
-- api/src/routes/consent-request.ts, geo-resolve.ts and tenant-resolve.ts. A header or a cookie that
-- is absent, or a cookie that is no text, is `none`; `req.header` takes its name in any case, and the
-- names here are in lower case. Regular expressions and the case conversion are parameters.
pub mod Csrf
pub mod Answered
mod Tests
use livechat.ApiError.{Result, ok, err, ApiError, bad_request, unauthorized}
use livechat.Prelude.{
  ℕ, ◌*◌, String, Bool, true, false, not, ◌&&◌, ◌||◌, Option, none, some, List, ◌==◌, find,
  first_of, if◌then◌else◌,
}
use livechat.Models.{Tenant, is_active_tenant, has_slug}
use livechat.Visitor.Cookie.{
  CookieFunctions, mint_visitor_cookie, verify_visitor_cookie, hash_session_id,
}

pub record Request : Type 0 where
  pub header : String → Option String
  pub cookies : String → Option String
  pub ip : Option String

abbrev pub visitor_cookie_name : String
visitor_cookie_name = "livechat_visitor"

abbrev pub visitor_cookie_max_age_ms : ℕ
visitor_cookie_max_age_ms = 30 * 24 * 60 * 60 * 1000

abbrev pub visitor_session_header : String
visitor_session_header = "x-visitor-session"

pub data SameSite : Type 0 where
  same_site_none lax : SameSite

pub record CookieOptions : Type 0 where
  pub http_only : Bool
  pub same_site : SameSite
  pub secure : Bool
  pub max_age : ℕ
  pub path : String
  pub partitioned : Bool

unfoldable pub visitor_cookie_options : Bool → CookieOptions
visitor_cookie_options cross_site = record {
  http_only = true;
  same_site = if cross_site then same_site_none else lax;
  secure = cross_site;
  max_age = visitor_cookie_max_age_ms;
  path = "/";
  partitioned = cross_site;
}

-- A text that is there and not empty.
abbrev pub non_empty : Option String → Option String
non_empty none = none
non_empty (some s) = if s == "" then none else some s

unfoldable pub read_visitor_session_value : Request → Option String
read_visitor_session_value req =
    first_of (non_empty (req.header visitor_session_header))
      (non_empty (req.cookies visitor_cookie_name))

abbrev pub require_value : Option String → Result String
require_value none = err (unauthorized "Visitor session required")
require_value (some value) = ok value

unfoldable pub require_visitor_cookie : Request → Result String
require_visitor_cookie req = require_value (read_visitor_session_value req)

abbrev pub is_text : String → Option String → Bool
is_text s none = false
is_text s (some t) = t == s

abbrev pub is_set : Option Bool → Bool
is_set none = false
is_set (some flag) = flag

unfoldable pub detect_gpc : Request → Option Bool → Bool
detect_gpc req client_flag = is_text "1" (req.header "sec-gpc") || is_set client_flag

-- The subject of a request, and the cookie that the response sets for it.
pub record ResolvedSubject : Type 0 where
  pub subject_key : String
  pub cookie_value : String
  pub set_cookie : Option CookieOptions

module _ (lib : CookieFunctions) (secret : String) (production : Bool) where
  -- `subjectKeyFromCookie`, for a subject that presented its cookie.
  subject_of_parts : String → Result String → Result ResolvedSubject
  subject_of_parts raw (err e) = err e
  subject_of_parts raw (ok session_id) = ok (record {
    subject_key = hash_session_id lib secret session_id;
    cookie_value = raw;
    set_cookie = none;
  })

  -- `mintHandle` with its random id.
  subject_of : String → Option String → Result ResolvedSubject
  unfolding subject_of_parts
  subject_of fresh_id (some raw) = subject_of_parts raw (verify_visitor_cookie lib secret raw)
  subject_of fresh_id none = ok (record {
    subject_key = hash_session_id lib secret fresh_id;
    cookie_value = mint_visitor_cookie lib secret fresh_id;
    set_cookie = some (visitor_cookie_options production);
  })

  unfoldable pub resolve_subject : String → Request → Result ResolvedSubject
  unfolding subject_of
  resolve_subject fresh_id req = subject_of fresh_id (read_visitor_session_value req)

pub record GeoEnv : Type 0 where
  pub country_header : String
  pub region_header : String

pub record ResolvedGeo : Type 0 where
  pub country : Option String
  pub region : Option String

-- `/^[A-Za-z]{2}$/.test` and `toUpperCase`
pub record GeoFunctions : Type 0 where
  pub is_two_letters : String → Bool
  pub to_upper_case : String → String

-- `name === '' ? undefined : req.header(name)`
abbrev pub header_of : Request → String → Option String
header_of req name = if name == "" then none else req.header name

module _ (text : GeoFunctions) where
  abbrev pub country_of : Option String → Option String
  country_of none = none
  country_of (some raw) =
      let code = text.to_upper_case raw in
      if text.is_two_letters raw && not (code == "XX") then some code else none

  abbrev pub region_of : Option String → Option String
  region_of none = none
  region_of (some raw) = if raw == "" then none else some (text.to_upper_case raw)

  unfoldable pub resolve_geo : GeoEnv → Request → ResolvedGeo
  resolve_geo env req = record {
    country = country_of (header_of req env.country_header);
    region = region_of (header_of req env.region_header);
  }

abbrev pub or_unknown : Option Tenant → Result Tenant
or_unknown none = err (bad_request "Unknown tenant")
or_unknown (some tenant) = ok tenant

-- `Tenant.findOne({ where: { slug, status: 'active' } })`, or 400.
unfoldable pub resolve_active_tenant : String → List Tenant → Result Tenant
resolve_active_tenant tenant_key tenants =
    or_unknown (find (λ t. has_slug tenant_key t && is_active_tenant t.status) tenants)
