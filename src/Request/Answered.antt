-- ===== src/Request/Answered.antt =====
-- api/src/routes/consent-request.ts: the cookie that a request is answered with stands for its
-- subject.
use livechat.ApiError.{ok, err, ApiError}
use livechat.Prelude.{
  String, ◌≡◌, refl, sym, ap, subst, ◌∙◌, inl, inr, Bool, false, Option, none, some,
}
use livechat.Prelude.Action.{Result-cases, ok_injective}
use livechat.Visitor.Cookie.{CookieFunctions, verify_visitor_cookie, hash_session_id, verify-mint}
use livechat.Request.{
  Request, ResolvedSubject, read_visitor_session_value, subject_of_parts, subject_of,
  resolve_subject,
}

module _ (lib : CookieFunctions) (secret : String) (production : Bool) where
  -- The cookie verifies, and its id gives the key.
  abbrev pub IsCookieOf : ResolvedSubject → Type 0
  IsCookieOf subject =
      (session_id : String) × (verify_visitor_cookie lib secret subject.cookie_value
        ≡ ok session_id)
      × (subject.subject_key ≡ hash_session_id lib secret session_id)

  subject_of_parts-IsCookieOf :
      (raw : String) (subject : ResolvedSubject)
      → subject_of_parts lib secret production raw (verify_visitor_cookie lib secret raw)
        ≡ ok subject
      → IsCookieOf subject
  unfolding subject_of_parts
  subject_of_parts-IsCookieOf raw subject e =
      elim (Result-cases (verify_visitor_cookie lib secret raw)) [
        | inl (x, forged) ↦
            absurd (refused (sym (ap (subject_of_parts lib secret production raw) forged) ∙ e))
        | inr (session_id, valid) ↦
            subst IsCookieOf
              (ok_injective (sym (ap (subject_of_parts lib secret production raw) valid) ∙ e))
              (session_id, valid, refl)
      ]
    where
      refused : {x : ApiError} → ¬ (err x ≡ ok subject)
      refused e = cc

  -- A cookie that was presented, or one that was minted for an id without a dot.
  subject_of-IsCookieOf :
      (fresh_id : String) (presented : Option String) (subject : ResolvedSubject)
      → lib.has_dot fresh_id ≡ false
      → subject_of lib secret production fresh_id presented ≡ ok subject
      → IsCookieOf subject
  unfolding subject_of
  subject_of-IsCookieOf fresh_id (some raw) subject plain e =
      subject_of_parts-IsCookieOf raw subject e
  subject_of-IsCookieOf fresh_id none subject plain e =
      subst IsCookieOf (ok_injective e) (fresh_id, verify-mint lib secret fresh_id plain, refl)

  pub resolve_subject-IsCookieOf :
      (fresh_id : String) (req : Request) (subject : ResolvedSubject)
      → lib.has_dot fresh_id ≡ false
      → resolve_subject lib secret production fresh_id req ≡ ok subject
      → IsCookieOf subject
  unfolding resolve_subject
  resolve_subject-IsCookieOf fresh_id req subject plain e =
      subject_of-IsCookieOf fresh_id (read_visitor_session_value req) subject plain e

  -- The next request that presents the cookie is of the same subject.
  pub resolve_subject-again :
      (fresh_id : String) (req : Request) (subject : ResolvedSubject)
      → IsCookieOf subject
      → read_visitor_session_value req ≡ some subject.cookie_value
      → resolve_subject lib secret production fresh_id req
        ≡ ok (record subject { set_cookie = none })
  unfolding resolve_subject subject_of subject_of_parts
  resolve_subject-again fresh_id req subject (session_id, valid, key) presented =
      rw (presented, valid, key) refl
