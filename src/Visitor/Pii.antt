-- ===== src/Visitor/Pii.antt =====
-- api/src/services/visitor-pii.ts. The columns are fields here, so the list of their names is the
-- list of their values.
use livechat.Prelude.{
  String, ◌≡◌, refl, Bool, false, not, Option, none, arith, List, [], ◌∷◌, any, is_null,
}
use livechat.Models.{VisitorSession}

abbrev pub visitor_pii_columns : VisitorSession → List (Option String)
visitor_pii_columns s =
    s.ip_address ∷ s.user_agent ∷ s.country ∷ s.city ∷ s.current_url ∷ s.referrer
    ∷ s.identity_token_sub ∷ []

unfoldable pub visitor_pii_nulls : VisitorSession → VisitorSession
visitor_pii_nulls s = record s {
  ip_address = none;
  user_agent = none;
  country = none;
  city = none;
  current_url = none;
  referrer = none;
  identity_token_sub = none;
}

-- A column of personal data is not null.
abbrev pub has_pii : VisitorSession → Bool
has_pii s = any (λ column. not (is_null column)) (visitor_pii_columns s)

-- What an anonymous session is, column by column: it says neither where a visitor is nor with what
-- they browse, nor which pages they saw, nor who they are to the tenant.
pub record IsAnonymous (s : VisitorSession) : Type 0 where
  pub no_address : s.ip_address ≡ none
  pub no_agent : s.user_agent ≡ none
  pub no_country : s.country ≡ none
  pub no_city : s.city ≡ none
  pub no_page : s.current_url ≡ none
  pub no_referrer : s.referrer ≡ none
  pub no_identity : s.identity_token_sub ≡ none

pub visitor_pii_nulls-IsAnonymous : (s : VisitorSession) → IsAnonymous (visitor_pii_nulls s)
unfolding visitor_pii_nulls
visitor_pii_nulls-IsAnonymous s = record {
  no_address = refl;
  no_agent = refl;
  no_country = refl;
  no_city = refl;
  no_page = refl;
  no_referrer = refl;
  no_identity = refl;
}

-- The test of the code finds every column that is left.
pub has_pii-IsAnonymous : (s : VisitorSession) → has_pii s ≡ false → IsAnonymous s
has_pii-IsAnonymous s e = record {
  no_address = ground arith;
  no_agent = ground arith;
  no_country = ground arith;
  no_city = ground arith;
  no_page = ground arith;
  no_referrer = ground arith;
  no_identity = ground arith;
}
