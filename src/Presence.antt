-- ===== src/Presence.antt =====
-- api/src/services/presence-service.ts: staff availability and visitor presence, over the keys of
-- Redis. A set or a hash that is empty is not there, as in Redis; a key with a lifetime is there
-- while the clock, in seconds, is before its expiry. A visitor's
-- payload is not modelled.
pub mod Hours
pub mod Reachable
mod Tests
use livechat.Prelude.{
  ℕ, ◌+◌, ◌*◌, String, Bool, true, false, not, ◌&&◌, ◌||◌, Option, none, some, List, [], ◌∷◌, ◌++◌,
  ◌==◌, ltb, any, filter, includes, if◌then◌else◌,
}
use livechat.Presence.Hours.{SupportHours, Calendar, is_within_support_hours}

pub data StaffStatus : Type 0 where
  available away : StaffStatus

abbrev pub is_available : StaffStatus → Bool
is_available available = true
is_available away = false

abbrev pub global_staff_tenant : String
global_staff_tenant = "__global__"

abbrev pub conn_grace_s : ℕ
conn_grace_s = 120

abbrev pub visitor_presence_ttl_s : ℕ
visitor_presence_ttl_s = 60

-- The keys of the service, each family as a function of what its key is made of.
pub record Redis : Type 0 where
  pub status : String → Option StaffStatus
  pub available_set : String → List String
  pub conn_expires : String → ℕ
  pub visitors : String → List String
  pub visitors_expire : String → ℕ
  pub visitor_tenants : List String

abbrev pub set_at {ℓ} : {A : Type ℓ} → String → A → (String → A) → String → A
set_at key a f k = if k == key then a else f k

abbrev pub sadd : String → List String → List String
sadd member members = if includes member members then members else members ++ member ∷ []

abbrev pub srem : List String → List String → List String
srem gone members = filter (λ m. not (includes m gone)) members

unfoldable pub touch_connection : ℕ → String → Redis → Redis
touch_connection now user_id r = record r {
  conn_expires = set_at user_id (now + conn_grace_s) r.conn_expires;
}

unfoldable pub get_availability : String → Redis → StaffStatus
get_availability user_id r = elim (r.status user_id) [ none ↦ away | some s ↦ s ]

abbrev pub add_available : String → String → Redis → Redis
add_available tenant_id user_id r = record r {
  available_set = set_at tenant_id (sadd user_id (r.available_set tenant_id)) r.available_set;
}

abbrev pub remove_available : String → List String → Redis → Redis
remove_available tenant_id users r = record r {
  available_set = set_at tenant_id (srem users (r.available_set tenant_id)) r.available_set;
}

unfoldable pub set_availability : ℕ → String → String → StaffStatus → Redis → Redis
unfolding touch_connection
set_availability now user_id tenant_id status r =
    let stored = record r { status = set_at user_id (some status) r.status } in
    if is_available status
    then touch_connection now user_id (add_available tenant_id user_id stored)
    else remove_available tenant_id (user_id ∷ []) stored

unfoldable pub restore_on_connect : ℕ → String → String → Redis → StaffStatus × Redis
unfolding touch_connection get_availability
restore_on_connect now user_id tenant_id r =
    let status = get_availability user_id r in
    (
      status,
      touch_connection now user_id
          (if is_available status then add_available tenant_id user_id r else r),
    )

unfoldable pub heartbeat : ℕ → String → Redis → Redis
heartbeat = touch_connection

abbrev pub is_live : ℕ → Redis → String → Bool
is_live now r user_id = ltb now (r.conn_expires user_id)

-- `sunion` of the tenant's set and the global one.
abbrev pub members_of : String → Redis → List String
members_of tenant_id r =
    r.available_set tenant_id
    ++ filter (λ m. not (includes m (r.available_set tenant_id)))
        (r.available_set global_staff_tenant)

-- The members whose connection has lapsed are taken out of both sets.
unfoldable pub prune : String → List String → Redis → Redis
prune tenant_id dead r =
    remove_available global_staff_tenant dead (remove_available tenant_id dead r)

-- The schedule is read at the same instant, in milliseconds.
unfoldable pub any_staff_available :
    Calendar → ℕ → Option SupportHours → String → Redis → Bool × Redis
unfolding prune
any_staff_available lib now hours tenant_id r =
    if not (is_within_support_hours lib hours (now * 1000)) then (false, r) else (
      any (is_live now r) (members_of tenant_id r),
      prune tenant_id (filter (λ m. not (is_live now r m)) (members_of tenant_id r)) r,
    )

unfoldable pub mark_visitor_present : ℕ → String → String → Redis → Redis
mark_visitor_present now tenant_id session_id r = record r {
  visitors = set_at tenant_id (sadd session_id (here now r tenant_id)) r.visitors;
  visitors_expire = set_at tenant_id (now + visitor_presence_ttl_s) r.visitors_expire;
  visitor_tenants = sadd tenant_id r.visitor_tenants;
}
  where
    here : ℕ → Redis → String → List String
    here now r tenant_id =
        if ltb now (r.visitors_expire tenant_id) then r.visitors tenant_id else []

unfoldable pub remove_visitor : String → String → Redis → Redis
remove_visitor tenant_id session_id r = record r {
  visitors = set_at tenant_id (srem (session_id ∷ []) (r.visitors tenant_id)) r.visitors;
}

-- `exists`: the hash is there, not expired and not empty.
abbrev pub is_watched : ℕ → Redis → String → Bool
is_watched now r tenant_id =
    ltb now (r.visitors_expire tenant_id) && any (λ s. true) (r.visitors tenant_id)

unfoldable pub tenants_with_visitors : ℕ → Redis → List String × Redis
tenants_with_visitors now r =
    let live = filter (is_watched now r) r.visitor_tenants in
    let stale = filter (λ t. not (is_watched now r t)) r.visitor_tenants in
    let kept = srem stale r.visitor_tenants in (live, record r { visitor_tenants = kept })
