-- ===== src/Gate/Chats/Transcript.antt =====
-- api/src/routes/visitor.ts: whose transcript is mailed.
use livechat.ApiError.{ok, err, ApiError, unauthorized}
use livechat.Prelude.{
  String, ◌≡◌, ◌⊎◌, inl, inr, some, [], ◌∷◌, ◌++◌, map, arith, Option-cases, Bool-cases,
}
use livechat.Prelude.Action.{Result-cases}
use livechat.Models.{Chat, VisitorSession, Store, find_chat}
use livechat.Chat.{err_chat_not_found, err_chat_forbidden, visitor, list_messages, get_by_id}
use livechat.Chat.Access.{load_chat-cases}
use livechat.Visitor.Cookie.{verify_visitor_cookie, hash_session_id}
use livechat.Visitor.Session.{find_by_cookie, find_by_subject, subject_key_of, is_expired}
use livechat.Request.{Request, require_visitor_cookie}
use livechat.Request.Csrf.{csrf_protection}
use livechat.Gate.{Deps, Fresh}
use livechat.Gate.Chats.{Web, post_transcript, line_of}

module _ (deps : Deps) (fresh : Fresh) (req : Request) where
  find_by_cookie-cases :
      (cookie : String) (db : Store)
      → ((e : ApiError) × (find_by_cookie deps.cookie deps.session_env fresh.now cookie db
            ≡ (err e, db)))
        ⊎ ((session : VisitorSession) × (find_by_cookie deps.cookie deps.session_env fresh.now
                cookie db
              ≡ (ok session, db)))
  unfolding find_by_cookie subject_key_of
  find_by_cookie-cases cookie db =
      elim (Result-cases
        (verify_visitor_cookie deps.cookie deps.session_env.cookie_secret cookie)) [
          | inl (e, h) ↦ inl (e, ground arith)
          | inr (session_id, h) ↦
              elim (Option-cases (find_by_subject (subject_key session_id) db)) [
                | inl missing ↦ inl (unauthorized "Visitor session not found", ground arith)
                | inr (session, found) ↦
                    elim (Bool-cases (is_expired deps.cookie deps.session_env fresh.now session)) [
                      | inl expired ↦ inl (unauthorized "Visitor session expired", ground arith)
                      | inr live ↦ inr (session, ground arith)
                    ]
              ]
        ]
    where
      subject_key : String → String
      subject_key = hash_session_id deps.cookie deps.session_env.cookie_secret

  -- A chat of the session that the cookie stands for, whose transcript is mailed to the address.
  abbrev pub SendsOwn : String → String → Web → String → VisitorSession → Chat → Type 0
  SendsOwn id email web cookie session chat =
      (csrf_protection deps.cookie deps.session_env.cookie_secret req ≡ ok tt)
      × (require_visitor_cookie req ≡ ok cookie)
      × (find_by_cookie deps.cookie deps.session_env fresh.now cookie web.store.tables
          ≡ (ok session, web.store.tables))
      × (find_chat id web.store.tables ≡ some chat)
      × (chat.visitor_session_id ≡ session.id)
      × (post_transcript deps fresh req id email web ≡ (
        ok tt,
        record web {
          mails =
              web.mails
              ++ record { to = email; lines = map line_of (list_messages chat.id web.store.tables) }
                ∷ [];
        },
      ))

  -- A transcript is only mailed with the session's own token, and it is that of a chat of the session
  -- that the cookie stands for, to the given address; in every other case the request is refused and
  -- nothing changes.
  pub post_transcript-own :
      (id email : String) (web : Web)
      → ((e : ApiError) × (post_transcript deps fresh req id email web ≡ (err e, web)))
        ⊎ ((cookie : String) × (session : VisitorSession) × (chat : Chat) × SendsOwn id email web
              cookie session chat)
  unfolding post_transcript get_by_id
  post_transcript-own id email web =
      elim (Result-cases (csrf_protection deps.cookie deps.session_env.cookie_secret req)) [
        | inl (e, h) ↦ inl (e, ground arith)
        | inr (_, passed) ↦ elim (Result-cases (require_visitor_cookie req)) [
          | inl (e, h) ↦ inl (e, ground arith)
          | inr (cookie, shown) ↦ elim (find_by_cookie-cases cookie web.store.tables) [
            | inl (e, h) ↦ inl (e, ground arith)
            | inr (session, known) ↦
                elim (load_chat-cases id (visitor session.id) web.store.tables) [
                  | inl (_, h) ↦ inl (err_chat_not_found, ground arith)
                  | inr (inl (_, _, _, h)) ↦ inl (err_chat_forbidden, ground arith)
                  | inr (inr (chat, found, owns, h)) ↦
                      inr (cookie, session, chat, (passed, shown, known, found, owns, ground arith))
                ]
          ]
        ]
      ]
