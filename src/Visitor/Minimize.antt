-- ===== src/Visitor/Minimize.antt =====
-- api/src/utils/pii-minimize.ts. The text functions and regular expressions of the language are
-- parameters, named for what the source calls.
pub mod Network
use livechat.Prelude.{
  ℕ, zero, suc, ◌+◌, ◌-◌, String, Bool, true, false, not, ◌&&◌, Option, none, some, List, [], ◌∷◌,
  ◌++◌, map, is_nil, length, every, concat, leb, ◌==◌, if◌then◌else◌,
}

pub record TextFunctions : Type 0 where
  pub split : String → String → List String
  pub trim : String → String
  pub to_lower_case : String → String
  pub has_colon : String → Bool
  -- `/^\d{1,3}$/.test` and `Number`
  pub is_digits : String → Bool
  pub number : String → ℕ
  -- `/^[0-9a-f]{1,4}$/i.test`
  pub matches_hextet : String → Bool
  -- group 1 of `/^::ffff:(\d{1,3}\.\d{1,3}\.\d{1,3}\.\d{1,3})$/i`
  pub mapped_ipv4 : String → Option String
  -- `.replace(/^0+(?=.)/, '')`
  pub strip_zeros : String → String

abbrev pub take {ℓ} : {A : Type ℓ} → ℕ → List A → List A
take zero xs = []
take (suc n) [] = []
take (suc n) (x ∷ xs) = x ∷ take n xs

abbrev pub repeat : ℕ → String → List String
repeat zero s = []
repeat (suc n) s = s ∷ repeat n s

abbrev pub join : String → List String → String
join separator [] = ""
join separator (x ∷ xs) = if is_nil xs then x else concat x (concat separator (join separator xs))

-- `octets[i] ?? '0'`
abbrev pub octet_at : ℕ → List String → String
octet_at n [] = "0"
octet_at zero (x ∷ xs) = x
octet_at (suc n) (x ∷ xs) = octet_at n xs

module _ (text : TextFunctions) where
  unfoldable pub is_octet : String → Bool
  is_octet octet = text.is_digits octet && leb (text.number octet) 255

  unfoldable pub is_ipv4 : String → Bool
  unfolding is_octet
  is_ipv4 value =
      let octets = text.split "." value in
      if not (leb (length octets) 4 && leb 4 (length octets)) then false else every is_octet octets

  unfoldable pub truncate_ipv4 : String → String
  truncate_ipv4 value =
      let octets = text.split "." value in
      join "." (octet_at 0 octets ∷ octet_at 1 octets ∷ octet_at 2 octets ∷ "0" ∷ [])

  unfoldable pub split_hextet_groups : String → List String
  split_hextet_groups half = if half == "" then [] else text.split ":" half

  pub expand_halves : List String → List String → Bool → Option (List String)
  expand_halves head tail compressed =
      if not (every text.matches_hextet (head ++ tail))
      then none
      else if not compressed
      then (if leb (length head) 8 && leb 8 (length head) then some head else none)
      else if leb 8 (length head + length tail)
      then none
      else some (head ++ repeat (8 - length head - length tail) "0" ++ tail)

  unfoldable pub expand_ipv6 : String → Option (List String)
  unfolding expand_halves split_hextet_groups
  expand_ipv6 value = elim (text.split "::" value) [
    | [] ↦ expand_halves [] [] false
    | head ∷ rest ↦ elim rest [
      | [] ↦ expand_halves (split_hextet_groups head) [] false
      | tail ∷ more ↦
          if is_nil more
          then expand_halves (split_hextet_groups head) (split_hextet_groups tail) true
          else none
    ]
  ]

  abbrev pub prefix_of : List String → String
  prefix_of groups =
      concat (join ":" (map (λ g. text.strip_zeros (text.to_lower_case g)) (take 3 groups))) "::"

  abbrev pub prefix_of_groups : Option (List String) → Option String
  prefix_of_groups none = none
  prefix_of_groups (some groups) = some (prefix_of groups)

  unfoldable pub truncate_ipv6 : String → Option String
  truncate_ipv6 value = prefix_of_groups (expand_ipv6 value)

  abbrev pub candidate : String → String
  candidate trimmed = elim (text.mapped_ipv4 trimmed) [ none ↦ trimmed | some ipv4 ↦ ipv4 ]

  unfoldable pub truncate_trimmed : String → Option String
  truncate_trimmed trimmed =
      if trimmed == ""
      then none
      else if is_ipv4 (candidate trimmed)
      then some (truncate_ipv4 (candidate trimmed))
      else if text.has_colon trimmed
      then truncate_ipv6 trimmed
      else none

  unfoldable pub truncate_ip : Option String → Option String
  truncate_ip none = none
  truncate_ip (some ip) = truncate_trimmed (text.trim ip)

  -- `coarsenGeo`, the country; the city is always null.
  unfoldable pub coarsen_country : Option String → Option String
  coarsen_country none = none
  coarsen_country (some country) =
      let trimmed = text.trim country in if trimmed == "" then none else some trimmed
