-- ===== src/Gate/Chats.antt =====
-- api/src/routes/visitor.ts: the handlers of a visitor's heartbeat, chats, return, transcript and
-- wish to be forgotten. A body has been validated; what is answered is the handler's value. Mails are
-- a list of what the email service is asked to send.
pub mod Transcript
mod Tests
use livechat.ApiError.{Result, ok, err}
use livechat.Prelude.{ℕ, String, Bool, Option, none, some, List, [], ◌∷◌, ◌++◌, map}
use livechat.Prelude.Action.{Action, pure, gets, of_result, modify, ◌>>=◌, ◌>>◌}
use livechat.Shared.{MessageSenderKind}
use livechat.Models.{Chat, ChatMessage, VisitorSession}
use livechat.Chat.{
  visitor, initiate_by_visitor, find_resumable_by_visitor_session, get_by_id, list_messages,
}
use livechat.Visitor.Session.{find_by_cookie, heartbeat, subject_key_of}
use livechat.Consent.Records.{ConsentStore}
use livechat.Presence.{Redis}
use livechat.Request.{
  Request, CookieOptions, read_visitor_session_value, require_visitor_cookie,
  visitor_cookie_options,
}
use livechat.Request.Csrf.{compute_csrf_token, csrf_protection}
use livechat.Sockets.Availability.{Clock, compute_tenant_availability}
use livechat.Gate.{Deps, Fresh, on_tables, forget_subject, get_or_create_visitor_for_chat}

pub record Line : Type 0 where
  pub sender_kind : MessageSenderKind
  pub body : String
  pub delivered_at : ℕ

-- `sendTranscriptEmail(to, lines)`
pub record TranscriptEmail : Type 0 where
  pub to : String
  pub lines : List Line

pub record Web : Type 0 where
  pub store : ConsentStore
  pub redis : Redis
  pub mails : List TranscriptEmail

pub record InitiateChatInput : Type 0 where
  pub customer_name : String
  pub customer_email : Option String
  pub body : String

pub record ChatCreated : Type 0 where
  pub chat : Chat
  pub message : ChatMessage
  pub support_available : Bool

pub record CurrentChat : Type 0 where
  pub chat : Option Chat
  pub messages : List ChatMessage
  pub csrf_token : String
  pub session_token : String

abbrev pub on_store : {A : Type 0} → Action ConsentStore A → Action Web A
on_store m web = let (r, store) = m web.store in (r, record web { store = store })

abbrev pub line_of : ChatMessage → Line
line_of m = record { sender_kind = m.sender_kind; body = m.body; delivered_at = m.delivered_at }

-- The call's error is swallowed.
swallowed : {S : Type 0} → Action S (Unit {0}) → Action S (Unit {0})
swallowed m s = let (r, after) = m s in (ok tt, after)

unfoldable pub compute_support_available : Clock → String → Action Web Bool
compute_support_available clock tenant_id web =
    let (available, redis) = compute_tenant_availability clock tenant_id web.redis in
    (ok available, record web { redis = redis })

module _ (deps : Deps) (fresh : Fresh) (req : Request) where
  -- `deps.visitorSession.findByCookie`
  abbrev pub session_of_cookie : String → Action Web VisitorSession
  session_of_cookie cookie =
      on_store (on_tables (find_by_cookie deps.cookie deps.session_env fresh.now cookie))

  abbrev pub csrf_guard : Action Web (Unit {0})
  csrf_guard = of_result (csrf_protection deps.cookie deps.session_env.cookie_secret req)

  -- POST /heartbeat
  unfoldable pub post_heartbeat : Option String → Action Web (Unit {0})
  post_heartbeat current_url = do
    csrf_guard
    cookie ← of_result (require_visitor_cookie req)
    session ← session_of_cookie cookie
    on_store (on_tables (modify (heartbeat fresh.now session current_url)))

  -- POST /chats
  unfoldable pub post_chats : Clock → String → String → InitiateChatInput → Action Web ChatCreated
  post_chats clock chat_id message_id body = do
    csrf_guard
    cookie ← of_result (require_visitor_cookie req)
    session ← on_store (get_or_create_visitor_for_chat deps fresh req cookie)
    (chat, message) ← on_store (
        on_tables (
          initiate_by_visitor fresh.now chat_id message_id (record {
            visitor_session = session;
            customer_name = body.customer_name;
            body = body.body;
            customer_email = body.customer_email;
          })))
    support_available ← compute_support_available clock session.tenant_id
    pure (record { chat = chat; message = message; support_available = support_available })

  messages_of : Option Chat → Web → List ChatMessage
  messages_of none web = []
  messages_of (some chat) web = list_messages chat.id web.store.tables

  -- GET /chats/current
  unfoldable pub get_current_chat : Action Web CurrentChat
  unfolding messages_of
  get_current_chat = do
    cookie ← of_result (require_visitor_cookie req)
    session ← session_of_cookie cookie
    chat ← gets (λ web. find_resumable_by_visitor_session session.id web.store.tables)
    messages ← gets (messages_of chat)
    pure (record {
      chat = chat;
      messages = messages;
      csrf_token = compute_csrf_token deps.cookie deps.session_env.cookie_secret cookie;
      session_token = cookie;
    })

  -- `forgetByCookie`
  forget_cookie : Option String → Action ConsentStore (Unit {0})
  forget_cookie none = pure tt
  forget_cookie (some cookie) =
      on_tables (subject_key_of deps.cookie deps.session_env cookie) >>= forget_subject

  -- POST /session/forget, with the options that the cookie is cleared with.
  unfoldable pub post_forget : Action Web CookieOptions
  unfolding swallowed forget_cookie
  post_forget = do
    on_store (swallowed (forget_cookie (read_visitor_session_value req)))
    pure (visitor_cookie_options deps.production)

  -- POST /chats/:id/transcript
  unfoldable pub post_transcript : String → String → Action Web (Unit {0})
  post_transcript id email = do
    csrf_guard
    cookie ← of_result (require_visitor_cookie req)
    session ← session_of_cookie cookie
    chat ← on_store (on_tables (get_by_id id (visitor session.id)))
    messages ← gets (λ web. list_messages chat.id web.store.tables)
    modify (λ web. record web {
      mails = web.mails ++ record { to = email; lines = map line_of messages } ∷ [];
    })
