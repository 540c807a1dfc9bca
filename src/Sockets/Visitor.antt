-- ===== src/Sockets/Visitor.antt =====
-- api/src/io/visitor-namespace.ts: the handshake and every handler of a visitor's socket. The text
-- functions that take a Cookie header apart are parameters; the clock and a new row's id are arguments.
pub mod Confined
use livechat.ApiError.{Result, ok, err}
use livechat.Prelude.{
  ℕ, ◌*◌, String, Bool, Option, none, some, List, [], ◌∷◌, first_of, concat, starts_with,
  if◌then◌else◌,
}
use livechat.Prelude.Action.{Action, modify, ◌>>=◌, ◌>>◌}
use livechat.Shared.{ChatInitiatedBy, MessageSenderKind}
use livechat.Models.{VisitorSession, Store}
use livechat.Visitor.Cookie.{CookieFunctions}
use livechat.Visitor.Session.{SessionEnv, find_by_cookie}
use livechat.Request.{visitor_cookie_name}
use livechat.Chat.{ChatCaller, get_by_id, send_message, end_chat}
use livechat.Presence.{mark_visitor_present, remove_visitor}
use livechat.Sockets.{
  tenant_room, visitor_room, chat_room, staff_ns, visitor_ns, Event, MessageEvent, Io, has_room,
  join, emit_both, emit_watching, on_chats, on_redis, guard,
}
use livechat.Sockets.Staff.{Handshake, rejected, accepted}

-- `header.split(';')` with each part trimmed, and the rest of a text after some characters.
pub record HeaderFunctions : Type 0 where
  pub trimmed_parts : String → List String
  pub rest_after : String → String → String

module _ (text : HeaderFunctions) where
  cookie_in : String → List String → Option String
  cookie_in name [] = none
  cookie_in name (part ∷ parts) =
      let rest = cookie_in name parts in
      if starts_with part (concat name "=")
      then some (text.rest_after (concat name "=") part)
      else rest

  unfoldable pub extract_cookie : Option String → String → Option String
  unfolding cookie_in
  extract_cookie none name = none
  extract_cookie (some header) name = cookie_in name (text.trimmed_parts header)

-- `socket.data`
pub record VisitorSocketData : Type 0 where
  pub visitor_session_id : String
  pub tenant_id : String

abbrev pub found_session : Result VisitorSession → Handshake VisitorSocketData
found_session (err e) = rejected "Invalid visitor cookie"
found_session (ok session) =
    accepted (record { visitor_session_id = session.id; tenant_id = session.tenant_id })

with_cookie : (String → Result VisitorSession) → Option String → Handshake VisitorSocketData
with_cookie find_session none = rejected "Visitor cookie required"
with_cookie find_session (some cookie) = found_session (find_session cookie)

-- The cookie comes from the client's `auth`, else from the Cookie header.
unfoldable pub visitor_handshake :
    HeaderFunctions
    → CookieFunctions
    → SessionEnv
    → ℕ
    → Option String
    → Option String
    → Store
    → Handshake VisitorSocketData
unfolding with_cookie
visitor_handshake text lib env now auth_cookie header db =
    with_cookie (λ cookie. (find_by_cookie lib env now cookie db).0)
      (first_of auth_cookie (extract_cookie text header visitor_cookie_name))

pub data VisitorEvent : Type 0 where
  chat_join chat_end page_changed : String → VisitorEvent
  chat_message : String → String → VisitorEvent
  chat_typing : String → Bool → VisitorEvent
  disconnect : VisitorEvent

module _ (now : ℕ) (data_ : VisitorSocketData) where
  abbrev pub caller : ChatCaller
  caller = ChatCaller.visitor data_.visitor_session_id

  unfoldable pub on_visitor_connection : Io → Io
  on_visitor_connection io =
      emit_watching data_.tenant_id (Event.visitor_joined data_.tenant_id data_.visitor_session_id)
        (on_redis (mark_visitor_present now data_.tenant_id data_.visitor_session_id)
          (join (tenant_room data_.tenant_id) (join (visitor_room data_.visitor_session_id) io)))

  join_chat : String → Action Io (Unit {0})
  join_chat chat_id = do
    chat ← on_chats (get_by_id chat_id caller)
    modify (join (chat_room chat_id))
    modify (
        emit_watching data_.tenant_id
          (Event.chat_requested chat.id data_.tenant_id chat.customer_name chat.status))

  send : String → String → String → Action Io (Unit {0})
  send message_id chat_id body = do
    msg ← on_chats (
        send_message (now * 1000) message_id
          (record {
            chat_id = chat_id;
            sender_kind = MessageSenderKind.visitor;
            sender_user_id = none;
            body = body;
          })
          caller)
    modify (
        sent (record {
          chat_id = chat_id;
          message_id = msg.id;
          sender_kind = MessageSenderKind.visitor;
          sender_user_id = none;
          body = msg.body;
          delivered_at = msg.delivered_at;
        }))
    where
      sent : MessageEvent → Io → Io
      sent event io =
          emit_watching data_.tenant_id (Event.chat_message event)
            (emit_both visitor_ns staff_ns (chat_room chat_id) (Event.chat_message event) io)

  end_ : String → Action Io (Unit {0})
  end_ chat_id = do
    chat ← on_chats (
        end_chat (now * 1000) (record { chat_id = chat_id; ended_by = ChatInitiatedBy.customer })
          caller)
    modify (
        emit_both visitor_ns staff_ns (chat_room chat.id)
          (Event.chat_ended chat.id ChatInitiatedBy.customer))

  unfoldable pub on_visitor_event : String → VisitorEvent → Io → Io
  unfolding join_chat send end_
  on_visitor_event fresh_id (chat_join chat_id) io = guard "chat:join" (join_chat chat_id) io
  on_visitor_event fresh_id (chat_message chat_id body) io =
      guard "chat:message" (send fresh_id chat_id body) io
  on_visitor_event fresh_id (chat_typing chat_id is_typing) io =
      if has_room (chat_room chat_id) io.rooms
      then emit_both visitor_ns staff_ns (chat_room chat_id)
          (Event.chat_typing chat_id MessageSenderKind.visitor is_typing) io
      else io
  on_visitor_event fresh_id (chat_end chat_id) io = guard "chat:end" (end_ chat_id) io
  on_visitor_event fresh_id (page_changed current_url) io =
      emit_watching data_.tenant_id
        (Event.visitor_page_changed data_.visitor_session_id current_url) io
  on_visitor_event fresh_id disconnect io =
      emit_watching data_.tenant_id (Event.visitor_left data_.tenant_id data_.visitor_session_id)
        (on_redis (remove_visitor data_.tenant_id data_.visitor_session_id) io)
