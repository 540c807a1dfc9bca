-- ===== src/Visitor/Tests.antt =====
-- Visitor sessions at concrete inputs, and their theorems applied to them.
use livechat.ApiError.{ok, err, unauthorized, forbidden}
use livechat.Prelude.{
  String, ◌≡◌, refl, ◌⊎◌, inl, inr, not, ◌&&◌, Bool, true, false, none, some, List, [], ◌∷◌, concat,
  arith, eq_iff, ◌==◌, find, starts_with, if◌then◌else◌,
}
use livechat.Shared.{VisitorStatus}
use livechat.Models.{VisitorSession, Store, destroy_sessions}
use livechat.Visitor.Minimize.{
  TextFunctions, is_ipv4, truncate_ipv4, expand_ipv6, truncate_trimmed, truncate_ip,
}
use livechat.Visitor.Retention.{
  PurgeParams, anonymize, Purged, purge_expired_visitor_data, purge-Purged,
}
use livechat.Visitor.Cookie.{
  CookieFunctions, mint_visitor_cookie, verify_visitor_cookie, verify-mint,
}
use livechat.Visitor.Session.{SessionEnv, revoke_by_id, find_by_cookie}
use livechat.Visitor.Session.Revoked.{MayRevoke, revoke_by_id-ends}

abbrev ann : VisitorSession
ann = record {
  id = "v1";
  tenant_id = "acme";
  session_cookie_hash = "k1";
  identity_token_sub = none;
  user_agent = some "Firefox";
  ip_address = some "203.0.113.0";
  country = none;
  city = none;
  language = none;
  current_url = none;
  referrer = none;
  status = VisitorStatus.active;
  first_seen_at = 1;
  last_seen_at = 5;
}

abbrev db : Store
db = record { visitor_sessions = ann ∷ []; chats = []; messages = [] }

abbrev month : PurgeParams
month = record { retention_days = 30; strategy = anonymize; now = 9000000000 }

purge-Purged_example : Purged month db anonymize (purge_expired_visitor_data month db).1
purge-Purged_example = purge-Purged month db

-- Text functions that know the addresses of the examples.
abbrev pub known : TextFunctions
known = record {
  split = λ separator value.
      if separator == "."
      then (if value == "203.0.113.7"
          then "203" ∷ "0" ∷ "113" ∷ "7" ∷ []
          else if value == "203.0.113.9"
          then "203" ∷ "0" ∷ "113" ∷ "9" ∷ []
          else value ∷ [])
      else if separator == ":"
      then (if value == "2001:db8:85a3" then "2001" ∷ "db8" ∷ "85a3" ∷ [] else value ∷ [])
      else if value == "2001:db8:85a3::1"
      then "2001:db8:85a3" ∷ "1" ∷ []
      else if value == "2001:db8:85a3::2"
      then "2001:db8:85a3" ∷ "2" ∷ []
      else value ∷ [];
  trim = λ s. s;
  to_lower_case = λ s. s;
  has_colon = λ s. starts_with s "2001:";
  is_digits = λ s. true;
  number = λ s. 7;
  matches_hextet = λ s. true;
  mapped_ipv4 = λ s. none;
  strip_zeros = λ s. s;
}

ipv4_seven : is_ipv4 known "203.0.113.7" ≡ true
unfolding is_ipv4
ipv4_seven = refl

ipv4_nine : is_ipv4 known "203.0.113.9" ≡ true
unfolding is_ipv4
ipv4_nine = refl

stored_seven : truncate_ip known (some "203.0.113.7") ≡ some "203.0.113.0"
unfolding truncate_ip truncate_trimmed is_ipv4 truncate_ipv4
stored_seven = refl

expanded_one :
    expand_ipv6 known "2001:db8:85a3::1"
    ≡ some ("2001" ∷ "db8" ∷ "85a3" ∷ "0" ∷ "0" ∷ "0" ∷ "0" ∷ "1" ∷ [])
unfolding expand_ipv6
expanded_one = refl

expanded_two :
    expand_ipv6 known "2001:db8:85a3::2"
    ≡ some ("2001" ∷ "db8" ∷ "85a3" ∷ "0" ∷ "0" ∷ "0" ∷ "0" ∷ "2" ∷ [])
unfolding expand_ipv6
expanded_two = refl

not_ipv4_one : is_ipv4 known "2001:db8:85a3::1" ≡ false
unfolding is_ipv4
not_ipv4_one = refl

not_ipv4_two : is_ipv4 known "2001:db8:85a3::2" ≡ false
unfolding is_ipv4
not_ipv4_two = refl

-- A signature and a `split` for the texts "id" and "sig".
abbrev pub dotted : String → Bool
dotted s = not (s == "id") && not (s == "sig")

abbrev pub split : String → List String
split s =
    if s == "id.id"
    then "id" ∷ "id" ∷ []
    else if s == "id.sig"
    then "id" ∷ "sig" ∷ []
    else if s == "sig.id"
    then "sig" ∷ "id" ∷ []
    else if s == "sig.sig"
    then "sig" ∷ "sig" ∷ []
    else s ∷ []

pub undotted : (s : String) → dotted s ≡ false → (s ≡ "id") ⊎ (s ≡ "sig")
undotted s e = ground (arith, eq_iff s "id", eq_iff s "sig")

pub split-joined :
    (a b : String)
    → (a ≡ "id") ⊎ (a ≡ "sig")
    → (b ≡ "id") ⊎ (b ≡ "sig")
    → split (concat a (concat "." b)) ≡ a ∷ b ∷ []
split-joined a b (inl p) (inl q) = rw (p, q) refl
split-joined a b (inl p) (inr q) = rw (p, q) refl
split-joined a b (inr p) (inl q) = rw (p, q) refl
split-joined a b (inr p) (inr q) = rw (p, q) refl

abbrev pub signing : CookieFunctions
signing = record {
  hmac = λ value secret. "sig";
  split_dot = split;
  has_dot = dotted;
  has_dot-hmac = λ value secret. refl;
  split_dot-concat = λ a b p q. split-joined a b (undotted a p) (undotted b q);
}

abbrev pub env : SessionEnv
env = record { cookie_secret = "secret"; absolute_ttl_hours = 720; idle_ttl_hours = 24 }

abbrev pub cookie : String
cookie = mint_visitor_cookie signing "secret" "id"

pub signed : verify_visitor_cookie signing "secret" cookie ≡ ok "id"
signed = verify-mint signing "secret" "id" refl

abbrev bob : VisitorSession
bob = record ann { session_cookie_hash = "sig" }

abbrev bob_db : Store
bob_db = record { visitor_sessions = bob ∷ []; chats = []; messages = [] }

found_bob : find (λ s. s.id == "v1") bob_db.visitor_sessions ≡ some bob
unfolding find
found_bob = refl

revoke_by_id-ends_example :
    (MayRevoke (some "acme") bob
      × (revoke_by_id "v1" (some "acme") bob_db
          ≡ (ok ("acme", "v1"), destroy_sessions ("v1" ∷ []) bob_db))
      × (find_by_cookie signing env 9 cookie (destroy_sessions ("v1" ∷ []) bob_db)
          ≡ (err (unauthorized "Visitor session not found"), destroy_sessions ("v1" ∷ []) bob_db)))
    ⊎ ((¬ MayRevoke (some "acme") bob)
        × (revoke_by_id "v1" (some "acme") bob_db
            ≡ (err (forbidden "Visitor belongs to a different tenant"), bob_db)))
revoke_by_id-ends_example =
    revoke_by_id-ends signing env 9 cookie "id" (some "acme") bob bob_db signed found_bob
      ((λ e. refl), tt)
