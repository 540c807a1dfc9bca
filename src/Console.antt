-- ===== src/Console.antt =====
-- api/src/routes/chats.ts and api/src/routes/visitor-sessions.ts: the routes of the staff's console. A
-- request is what `authenticate` leaves of it; a status that is no status of a chat is `none`.
pub mod Confined
mod Tests
use livechat.ApiError.{bad_request}
use livechat.Prelude.{ℕ, String, Bool, Option, none, some, List, [], ◌∷◌, ◌++◌, ◌==◌}
use livechat.Prelude.Action.{Action, pure, gets, of_result, throw_if, modify, ◌>>=◌, ◌>>◌}
use livechat.Shared.{ChatStatus, ChatInitiatedBy, MessageSenderKind}
use livechat.Models.{Chat, ChatMessage, Store}
use livechat.Chat.{ChatCaller, list, get_by_id, list_messages, send_message, assign, end_chat}
use livechat.Visitor.Session.{revoke_by_id}
use livechat.Presence.{remove_visitor}
use livechat.Authorize.{require_staff_or_admin, resolve_tenant_filter}
use livechat.Admin.{AdminRequest, AdminEntry, caller_of}
use livechat.Sockets.{
  Event, Room, tenant_room, visitor_room, staff_ns, Emission, to_rooms, Io, on_chats, on_redis,
  emit,
}

abbrev pub staff_caller : AdminRequest → ChatCaller
staff_caller req = ChatCaller.staff req.tenant_id

-- The check in front of every handler of both routers.
unfoldable pub staff_route : {S A : Type 0} → AdminRequest → Action S A → Action S A
staff_route req handler = of_result (require_staff_or_admin (caller_of req)) >> handler

module _ (req : AdminRequest) where
  -- GET /chats
  unfoldable pub get_chats_route : Option String → Option ChatStatus → Action Store (List Chat)
  unfolding staff_route
  get_chats_route asked status = staff_route req do
    tenant_id ← of_result (resolve_tenant_filter (caller_of req) asked)
    gets (list (record { tenant_id = tenant_id; status = status }))

  -- GET /chats/:id
  unfoldable pub get_chat_route : String → Action Store Chat
  unfolding staff_route
  get_chat_route id = staff_route req (get_by_id id (staff_caller req))

  -- GET /chats/:id/messages
  unfoldable pub get_messages_route : String → Action Store (List ChatMessage)
  unfolding staff_route
  get_messages_route id =
      staff_route req (get_by_id id (staff_caller req) >> gets (list_messages id))

  -- POST /chats/:id/messages
  unfoldable pub post_message_route : ℕ → String → String → String → Action Store ChatMessage
  unfolding staff_route
  post_message_route now message_id id body = staff_route req (
      send_message now message_id
        (record {
          chat_id = id;
          sender_kind = MessageSenderKind.user;
          sender_user_id = some req.user_id;
          body = body;
        })
        (staff_caller req))

  -- POST /chats/:id/accept
  unfoldable pub accept_route : String → Action Store Chat
  unfolding staff_route
  accept_route id = staff_route req (assign id req.user_id (staff_caller req))

  -- POST /chats/:id/end
  unfoldable pub end_route : ℕ → String → ChatInitiatedBy → Action Store Chat
  unfolding staff_route
  end_route now id ended_by =
      staff_route req
        (end_chat now (record { chat_id = id; ended_by = ended_by }) (staff_caller req))

-- What the revocation of a session touches. The rooms whose sockets are closed are a list.
pub record Revocations : Type 0 where
  pub io : Io
  pub disconnected : List Room
  pub audit_logs : List AdminEntry

abbrev pub on_io : {A : Type 0} → Action Io A → Action Revocations A
on_io m s = let (r, io) = m s.io in (r, record s { io = io })

-- The actor's tenant is recorded: the call gives none of its own.
audited : AdminRequest → String → Revocations → Revocations
audited req id s = record s {
  audit_logs =
      s.audit_logs
      ++ record {
        user_id = some req.user_id;
        tenant_id = req.tenant_id;
        action = "visitor_session.revoke";
        resource_type = "visitor_session";
        resource_id = id;
      }
        ∷ [];
}

-- DELETE /visitor-sessions/:id, with the Socket.IO server running. Its `visitor:left` carries no
-- tenant; the event of the model does, and the room it is sent to is the tenant's.
unfoldable pub delete_session_route : AdminRequest → String → Action Revocations (Unit {0})
unfolding staff_route audited
delete_session_route req id = staff_route req do
  throw_if (id == "") (bad_request "Session id is required")
  (tenant_id, session_id) ← on_io (on_chats (revoke_by_id id req.tenant_id))
  on_io (modify (on_redis (remove_visitor tenant_id session_id)))
  modify (λ s. record s { disconnected = s.disconnected ++ visitor_room session_id ∷ [] })
  on_io (
      modify (
        emit (
          to_rooms staff_ns (tenant_room tenant_id ∷ [])
            (Event.visitor_left tenant_id session_id))))
  modify (audited req session_id)
