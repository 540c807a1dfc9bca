-- ===== src/Gate/Again.antt =====
-- api/src/routes/visitor.ts: a visitor who begins a chat again.
use livechat.ApiError.{ok, err, ApiError}
use livechat.Prelude.{
  String, ◌≡◌, refl, sym, ap, ◌∙◌, inl, inr, none, some, arith, Option-cases, [], ◌∷◌, ◌++◌, eq_iff,
  find, find-holds, find-append_none,
}
use livechat.Prelude.Action.{Result-cases, ok_injective, gets, bind_ok, ◌>>=◌}
use livechat.Models.{VisitorSession, Store}
use livechat.Visitor.Cookie.{verify_visitor_cookie, hash_session_id}
use livechat.Visitor.Session.{has_cookie_hash, find_by_subject, create_tracked, subject_key_of}
use livechat.Consent.Records.{ConsentStore}
use livechat.Consent.Service.{latest_for}
use livechat.Request.{Request}
use livechat.Gate.{
  Deps, Fresh, on_tables, get_or_create_visitor_for_chat, found_or, create_for_chat, anonymous,
}
use livechat.Gate.Started.{subject_key_of-ok}

-- A new session is found by its key.
appended-found :
    (key : String) (db : Store) (x : VisitorSession)
    → find_by_subject key db ≡ none
    → x.session_cookie_hash ≡ key
    → find_by_subject key (record db { visitor_sessions = db.visitor_sessions ++ x ∷ [] }) ≡ some x
unfolding find_by_subject find
appended-found key db x gone own =
    find-append_none (has_cookie_hash key) db.visitor_sessions (x ∷ []) gone
    ∙ ground (arith, eq_iff x.session_cookie_hash key)

find_by_subject-key :
    (key : String) (db : Store) {x : VisitorSession}
    → find_by_subject key db ≡ some x
    → x.session_cookie_hash ≡ key
unfolding find_by_subject
find_by_subject-key key db {x} found =
    (eq_iff x.session_cookie_hash key).0
      (find-holds (has_cookie_hash key) db.visitor_sessions found)

module _ (deps : Deps) where
  -- The subject key that a cookie's session id stands for.
  abbrev pub key_of : String → String
  key_of = hash_session_id deps.cookie deps.session_env.cookie_secret

  -- What begins a chat is found by its subject key on the tables that are left.
  found_or-kept :
      (fresh : Fresh) (req : Request) (key : String) (db : ConsentStore) (visitor : VisitorSession)
      → (found_or deps fresh req
          (create_for_chat deps fresh req key)
          (find_by_subject key db.tables)
          db).0
        ≡ ok visitor
      → find_by_subject key
          (found_or deps fresh req
            (create_for_chat deps fresh req key)
            (find_by_subject key db.tables)
            db).1.tables
        ≡ some visitor
  unfolding found_or create_for_chat anonymous create_tracked
  found_or-kept fresh req key db visitor = elim (Option-cases (find_by_subject key db.tables)) [
    | inr (s, found) ↦ rw found (λ e. found ∙ ap some (ok_injective e))
    | inl gone ↦ elim (Option-cases (latest_for key db.consent_records)) [
      | inl undecided ↦ rw (gone, undecided) (λ e. absurd (refused e))
      | inr (r, last) ↦
          rw (gone, last) (λ e. appended-found key db.tables _ gone refl ∙ ap some (ok_injective e))
    ]
  ]
    where
      refused : {x : ApiError} → ¬ (err x ≡ ok visitor)
      refused e = cc

  found_or-again :
      (fresh : Fresh) (req : Request) (key : String) (db : ConsentStore) {visitor : VisitorSession}
      → find_by_subject key db.tables ≡ some visitor
      → found_or deps fresh req
          (create_for_chat deps fresh req key)
          (find_by_subject key db.tables)
          db
        ≡ (ok visitor, db)
  unfolding found_or
  found_or-again fresh req key db found = rw found refl

  forged-refused :
      (fresh : Fresh) (req : Request) (cookie : String) (db : ConsentStore)
      (visitor : VisitorSession) {x : ApiError}
      → verify_visitor_cookie deps.cookie deps.session_env.cookie_secret cookie ≡ err x
      → ¬ ((get_or_create_visitor_for_chat deps fresh req cookie db).0 ≡ ok visitor)
  unfolding get_or_create_visitor_for_chat subject_key_of
  forged-refused fresh req cookie db visitor forged e = ground arith

  entered :
      (fresh : Fresh) (req : Request) (cookie session_id : String) (db : ConsentStore)
      → verify_visitor_cookie deps.cookie deps.session_env.cookie_secret cookie ≡ ok session_id
      → get_or_create_visitor_for_chat deps fresh req cookie db
        ≡ found_or deps fresh req
            (create_for_chat deps fresh req (key_of session_id))
            (find_by_subject (key_of session_id) db.tables)
            db
  unfolding get_or_create_visitor_for_chat
  entered fresh req cookie session_id db valid =
      bind_ok (on_tables (subject_key_of deps.cookie deps.session_env cookie))
        (λ k. gets (λ d. find_by_subject k d.tables) >>= λ existing.
          found_or deps fresh req (create_for_chat deps fresh req k) existing)
        db
        (ap (λ r. (r.0, record db { tables = r.1 }))
          (subject_key_of-ok deps fresh req cookie session_id db.tables valid))

  pub get_or_create_visitor_for_chat-found :
      (fresh : Fresh) (req : Request) (cookie session_id : String) (db : ConsentStore)
      {visitor : VisitorSession}
      → verify_visitor_cookie deps.cookie deps.session_env.cookie_secret cookie ≡ ok session_id
      → find_by_subject (key_of session_id) db.tables ≡ some visitor
      → get_or_create_visitor_for_chat deps fresh req cookie db ≡ (ok visitor, db)
  get_or_create_visitor_for_chat-found fresh req cookie session_id db valid found =
      entered fresh req cookie session_id db valid
      ∙ found_or-again fresh req (key_of session_id) db found

  -- A visitor who begins a chat again gets the session of the first: a call that answers a session has
  -- accepted the cookie and answers a session of the cookie's subject key, and on the tables that it
  -- leaves the next call with that cookie, whatever its request, answers the same session and writes
  -- nothing.
  pub get_or_create_visitor_for_chat-again :
      (fresh next : Fresh) (req later : Request) (cookie : String) (db : ConsentStore)
      (visitor : VisitorSession)
      → (get_or_create_visitor_for_chat deps fresh req cookie db).0 ≡ ok visitor
      → (session_id : String) × (verify_visitor_cookie deps.cookie deps.session_env.cookie_secret
            cookie
          ≡ ok session_id)
        × (visitor.session_cookie_hash ≡ key_of session_id)
        × (get_or_create_visitor_for_chat deps next later cookie
              (get_or_create_visitor_for_chat deps fresh req cookie db).1
            ≡ (ok visitor, (get_or_create_visitor_for_chat deps fresh req cookie db).1))
  get_or_create_visitor_for_chat-again fresh next req later cookie db visitor e =
      elim (Result-cases
        (verify_visitor_cookie deps.cookie deps.session_env.cookie_secret cookie)) [
          | inl (x, forged) ↦ absurd (forged-refused fresh req cookie db visitor forged e)
          | inr (session_id, valid) ↦
              let key = key_of session_id in
              let made = entered fresh req cookie session_id db valid in
              let after = (get_or_create_visitor_for_chat deps fresh req cookie db).1 in
              let kept : find_by_subject key after.tables ≡ some visitor =
                ap (λ r. find_by_subject key r.1.tables) made
                ∙ found_or-kept fresh req key db visitor (sym (ap (λ r. r.0) made) ∙ e) in
              (
                session_id,
                valid,
                find_by_subject-key key after.tables kept,
                entered next later cookie session_id after valid
                    ∙ found_or-again next later key after kept,
              )
        ]
