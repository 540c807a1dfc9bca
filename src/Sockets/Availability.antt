-- ===== src/Sockets/Availability.antt =====
-- api/src/io/availability.ts and `computeSupportAvailable` of api/src/routes/visitor.ts: whether
-- anyone answers for a tenant, and who is told. The schedule that the settings hold is read by a
-- parameter, which gives none where the settings hold none or no valid one. Instants are in seconds.
use livechat.Prelude.{ℕ, String, Bool, not, Option, none, some, List, [], ◌∷◌, find, if◌then◌else◌}
use livechat.Shared.{bool_eq}
use livechat.Models.{Tenant, tenant_by_id}
use livechat.Presence.{Redis, any_staff_available, tenants_with_visitors}
use livechat.Presence.Hours.{SupportHours, Calendar}
use livechat.Sockets.{
  tenant_room, visitor_ns, staff_ns, support_availability_changed, Io, emit_both,
}

-- The clock, the calendar and the tenants' table of a call.
pub record Clock : Type 0 where
  pub calendar : Calendar
  pub parse_support_hours : Option String → Option SupportHours
  pub tenants : List Tenant
  pub now : ℕ

abbrev pub settings_of : Option Tenant → Option String
settings_of none = none
settings_of (some tenant) = tenant.settings

module _ (clock : Clock) where
  unfoldable pub load_support_hours : String → Option SupportHours
  load_support_hours tenant_id =
      clock.parse_support_hours (settings_of (find (tenant_by_id tenant_id) clock.tenants))

  unfoldable pub compute_tenant_availability : String → Redis → Bool × Redis
  unfolding load_support_hours
  compute_tenant_availability tenant_id r =
      any_staff_available clock.calendar clock.now (load_support_hours tenant_id) tenant_id r

  abbrev pub emit_availability_changed : String → Bool → Io → Io
  emit_availability_changed tenant_id available =
      emit_both visitor_ns staff_ns (tenant_room tenant_id) (support_availability_changed available)

  unfoldable pub broadcast_tenant_availability : String → Io → Io
  broadcast_tenant_availability tenant_id io =
      let (available, redis) = compute_tenant_availability tenant_id io.redis in
      emit_availability_changed tenant_id available (record io { redis = redis })

  -- The snapshot before a change. The ids come from a set, so each occurs once.
  unfoldable pub before_change : List String → Redis → List (String × Bool) × Redis
  before_change [] r = ([], r)
  before_change (tenant_id ∷ rest) r =
      let (available, r1) = compute_tenant_availability tenant_id r in
      let (answers, r2) = before_change rest r1 in ((tenant_id, available) ∷ answers, r2)

  tell_if_changed : String → Bool → Bool → Io → Io
  tell_if_changed tenant_id before available io =
      if not (bool_eq available before)
      then emit_availability_changed tenant_id available io
      else io

  unfoldable pub after_change : List (String × Bool) → Io → Io
  unfolding tell_if_changed
  after_change [] io = io
  after_change ((tenant_id, before) ∷ rest) io =
      let (available, redis) = compute_tenant_availability tenant_id io.redis in
      after_change rest (tell_if_changed tenant_id before available (record io { redis = redis }))

  unfoldable pub broadcast_global_staff_availability :
      {A : Type 0} → (Redis → A × Redis) → Io → A × Io
  unfolding before_change after_change
  broadcast_global_staff_availability apply io =
      let (tenant_ids, r0) = tenants_with_visitors clock.now io.redis in
      let (before, r1) = before_change tenant_ids r0 in
      let (result, r2) = apply r1 in (result, after_change before (record io { redis = r2 }))
