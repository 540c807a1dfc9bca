-- ===== src/Presence/Hours.antt =====
-- api/src/services/support-hours.ts. The local weekday, hour and minute that `Intl` formats for a time
-- zone, and the text functions, are parameters.
use livechat.Prelude.{
  ℕ, ◌+◌, ◌*◌, ◌%◌, String, Bool, true, false, not, ◌&&◌, Option, none, some, List, [], ◌∷◌, ltb,
  leb, any, includes, if◌then◌else◌,
}

pub record SupportHours : Type 0 where
  pub tz : String
  pub days : String → Option (List (String × String))

abbrev pub support_hours_day_keys : List String
support_hours_day_keys = "mon" ∷ "tue" ∷ "wed" ∷ "thu" ∷ "fri" ∷ "sat" ∷ "sun" ∷ []

pub record LocalParts : Type 0 where
  pub weekday : String
  pub hour : ℕ
  pub minute : ℕ

pub record Calendar : Type 0 where
  pub local_parts : String → ℕ → LocalParts
  -- `.toLowerCase().slice(0, 3)`
  pub day_key : String → String
  -- `Number` of the parts of `split(':')`
  pub hour_of : String → ℕ
  pub minute_of : String → ℕ

module _ (lib : Calendar) where
  abbrev pub to_minutes : String → ℕ
  to_minutes hhmm = lib.hour_of hhmm * 60 + lib.minute_of hhmm

  abbrev pub local_minutes : LocalParts → ℕ
  local_minutes parts = parts.hour % 24 * 60 + parts.minute

  abbrev pub is_open : ℕ → String × String → Bool
  is_open minutes window = leb (to_minutes window.0) minutes && ltb minutes (to_minutes window.1)

  abbrev pub windows_of : Option (List (String × String)) → List (String × String)
  windows_of none = []
  windows_of (some windows) = windows

  unfoldable pub is_within_support_hours : Option SupportHours → ℕ → Bool
  is_within_support_hours none now = true
  is_within_support_hours (some hours) now =
      let parts = lib.local_parts hours.tz now in
      let day = lib.day_key parts.weekday in
      if not (includes day support_hours_day_keys)
      then false
      else any (is_open (local_minutes parts)) (windows_of (hours.days day))
