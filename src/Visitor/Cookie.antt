-- ===== src/Visitor/Cookie.antt =====
-- api/src/services/visitor-cookie.ts. The HMAC and `split('.')` are parameters; the bytes of a text
-- determine it, so the constant-time comparison of the two buffers is the equality of the texts.
use livechat.ApiError.{Result, ok, err, unauthorized}
use livechat.Prelude.{
  String, ◌≡◌, ap, ◌∙◌, inl, inr, Bool, false, List, [], ◌∷◌, concat, arith, eq_iff, ◌==◌,
  Bool-cases, if◌then◌else◌,
}

pub record CookieFunctions : Type 0 where
  pub hmac : String → String → String
  pub split_dot : String → List String
  pub has_dot : String → Bool
  -- A digest in hexadecimal has no dot, and `split` takes a text apart at its dots.
  pub has_dot-hmac : (value secret : String) → has_dot (hmac value secret) ≡ false
  pub split_dot-concat :
      (a b : String)
      → has_dot a ≡ false
      → has_dot b ≡ false
      → split_dot (concat a (concat "." b)) ≡ a ∷ b ∷ []

module _ (lib : CookieFunctions) where
  unfoldable pub mint_visitor_cookie : String → String → String
  mint_visitor_cookie secret session_id =
      concat session_id (concat "." (lib.hmac session_id secret))

  pub verify_parts : String → List String → Result String
  verify_parts secret [] = err (unauthorized "Invalid visitor cookie")
  verify_parts secret (session_id ∷ []) = err (unauthorized "Invalid visitor cookie")
  verify_parts secret (session_id ∷ sig ∷ rest) =
      if sig == lib.hmac session_id secret
      then ok session_id
      else err (unauthorized "Visitor cookie signature mismatch")

  unfoldable pub verify_visitor_cookie : String → String → Result String
  unfolding verify_parts
  verify_visitor_cookie secret cookie_value = verify_parts secret (lib.split_dot cookie_value)

  abbrev pub hash_session_id : String → String → String
  hash_session_id secret session_id = lib.hmac session_id secret

  -- A cookie that was minted for an id verifies, and gives that id back.
  pub verify-mint :
      (secret session_id : String)
      → lib.has_dot session_id ≡ false
      → verify_visitor_cookie secret (mint_visitor_cookie secret session_id) ≡ ok session_id
  unfolding verify_visitor_cookie mint_visitor_cookie verify_parts
  verify-mint secret session_id plain =
      let signature = lib.hmac session_id secret in
      ap (verify_parts secret)
        (lib.split_dot-concat session_id signature plain (lib.has_dot-hmac session_id secret))
      ∙ ground (arith, eq_iff signature signature)

  verify_parts_sound :
      (secret session_id : String) (parts : List String)
      → verify_parts secret parts ≡ ok session_id
      → (rest : List String) × (parts ≡ session_id ∷ lib.hmac session_id secret ∷ rest)
  unfolding verify_parts
  verify_parts_sound secret session_id [] e = ground arith
  verify_parts_sound secret session_id (a ∷ []) e = ground arith
  verify_parts_sound secret session_id (a ∷ sig ∷ rest) e =
      elim (Bool-cases (sig == lib.hmac a secret)) [
        | inl signed ↦ (rest, ground (arith, eq_iff sig (lib.hmac a secret)))
        | inr forged ↦ ground arith
      ]

  -- An accepted cookie splits into its session id and the HMAC of that.
  pub verify-signed :
      (secret session_id cookie_value : String)
      → verify_visitor_cookie secret cookie_value ≡ ok session_id
      → (rest : List String) × (lib.split_dot cookie_value
          ≡ session_id ∷ lib.hmac session_id secret ∷ rest)
  unfolding verify_visitor_cookie
  verify-signed secret session_id cookie_value e =
      verify_parts_sound secret session_id (lib.split_dot cookie_value) e
