-- ===== src/Presence/Tests.antt =====
-- Presence at concrete inputs, and its theorems applied to them.
use livechat.Prelude.{◌≡◌, none, some, [], ◌∷◌, arith}
use livechat.Presence.Hours.{SupportHours, Calendar, is_within_support_hours}
use livechat.Presence.{available, Redis, any_staff_available, set_availability}
use livechat.Presence.Reachable.{set_availability-reachable}

abbrev monday : Calendar
monday = record {
  local_parts = λ tz now. record { weekday = "mon"; hour = 10; minute = 30 };
  day_key = λ s. s;
  hour_of = λ s. 9;
  minute_of = λ s. 0;
}

abbrev office : SupportHours
office = record { tz = "UTC"; days = λ day. some (("09:00", "17:00") ∷ []) }

abbrev quiet : Redis
quiet = record {
  status = λ u. none;
  available_set = λ t. "u9" ∷ [];
  conn_expires = λ u. 0;
  visitors = λ t. [];
  visitors_expire = λ t. 0;
  visitor_tenants = [];
}

set_availability-reachable_example :
    (any_staff_available monday 100
      (some office)
      "acme"
      (set_availability 5 "u1" "acme" available quiet)).0
    ≡ is_within_support_hours monday (some office) 100000
set_availability-reachable_example =
    set_availability-reachable monday 5 100 (some office) "u1" "acme" quiet (omega arith)
