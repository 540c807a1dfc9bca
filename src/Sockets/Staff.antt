-- ===== src/Sockets/Staff.antt =====
-- api/src/io/staff-namespace.ts: the handshake and every handler of a staff member's socket. The
-- clock and a new row's id are arguments of an event.
pub mod Confined
pub mod Refused
use livechat.ApiError.{Result, ok, err}
use livechat.Prelude.{ℕ, ◌*◌, String, Bool, Option, none, some, List, [], ◌∷◌, any, if◌then◌else◌}
use livechat.Prelude.Action.{Action, pure, modify, ◌>>=◌, ◌>>◌}
use livechat.Shared.{ChatInitiatedBy, MessageSenderKind}
use livechat.Auth.{Role, super_admin, admin, staff, User, Libraries, AuthStore}
use livechat.Auth.Login.{authenticate_access_token}
use livechat.Authorize.{role_eq}
use livechat.Chat.{ChatCaller, assign, get_by_id, send_message, end_chat, initiate_by_support}
use livechat.Presence.{
  Redis, StaffStatus, global_staff_tenant, set_availability, restore_on_connect, heartbeat,
}
use livechat.Sockets.{
  user_room, staff_room, global_staff_room, tenant_room, visitor_room, chat_room, staff_ns,
  visitor_ns, Event, to_rooms, Io, has_room, join, emit, emit_both, emit_watching, on_chats,
  on_redis, guard,
}
use livechat.Sockets.Availability.{
  Clock, broadcast_tenant_availability, broadcast_global_staff_availability,
}

-- `socket.data`
pub record StaffSocketData : Type 0 where
  pub user_id : String
  pub role : Role
  pub tenant_id : Option String

abbrev pub staff_roles : List Role
staff_roles = super_admin ∷ admin ∷ staff ∷ []

abbrev pub is_staff : StaffSocketData → Bool
is_staff data_ = any (role_eq data_.role) staff_roles

-- `next(new Error(…))`, or the data of the socket.
pub data Handshake (A : Type 0) : Type 0 where
  rejected : String → Handshake A
  accepted : A → Handshake A

abbrev pub checked_role : User → Handshake StaffSocketData
checked_role u =
    if any (role_eq u.role) staff_roles
    then accepted (record { user_id = u.id; role = u.role; tenant_id = u.tenant_id })
    else rejected "Insufficient permissions"

abbrev pub authenticated : Result (User × String) → Handshake StaffSocketData
authenticated (err e) = rejected "Invalid token"
authenticated (ok (u, jti)) = checked_role u

unfoldable pub staff_handshake :
    Libraries → ℕ → Option String → AuthStore → Handshake StaffSocketData
staff_handshake lib now none db = rejected "Authentication required"
staff_handshake lib now (some token) db =
    authenticated (authenticate_access_token lib now token db).0

-- An event that the client sends; a status that the schema refuses is `none`.
pub data StaffEvent : Type 0 where
  chat_accept chat_join chat_end : String → StaffEvent
  chat_message : String → String → StaffEvent
  chat_typing : String → Bool → StaffEvent
  chat_initiate : String → StaffEvent
  availability_set : Option StaffStatus → StaffEvent
  availability_heartbeat : StaffEvent

module _ (clock : Clock) (data_ : StaffSocketData) where
  abbrev pub caller : ChatCaller
  caller = ChatCaller.staff data_.tenant_id

  -- `tenantId ?? GLOBAL_STAFF_TENANT`
  abbrev pub availability_tenant : String
  availability_tenant = elim data_.tenant_id [ none ↦ global_staff_tenant | some t ↦ t ]

  abbrev pub now_ms : ℕ
  now_ms = clock.now * 1000

  join_own_rooms : Io → Io
  join_own_rooms io =
      let joined = join staff_room (join (user_room data_.user_id) io) in
      elim data_.tenant_id [
        | none ↦ join global_staff_room joined
        | some tenant_id ↦ join (tenant_room tenant_id) joined
      ]

  -- A change of this user's presence, and who is told of what it changes.
  change_presence : {A : Type 0} → Option String → (Redis → A × Redis) → Io → A × Io
  change_presence none apply io = broadcast_global_staff_availability clock apply io
  change_presence (some tenant_id) apply io =
      let (result, redis) = apply io.redis in
      (result, broadcast_tenant_availability clock tenant_id (record io { redis = redis }))

  echo : StaffStatus × Io → Io
  echo (status, io) =
      emit (to_rooms staff_ns (user_room data_.user_id ∷ []) (Event.availability_self status)) io

  unfoldable pub on_staff_connection : Io → Io
  unfolding join_own_rooms change_presence echo
  on_staff_connection io =
      let joined = join_own_rooms io in
      if is_staff data_
      then echo (
          change_presence data_.tenant_id
            (restore_on_connect clock.now data_.user_id availability_tenant) joined)
      else joined

  accept_chat : String → Action Io (Unit {0})
  accept_chat chat_id = do
    chat ← on_chats (assign chat_id data_.user_id caller)
    modify (join (chat_room chat.id))
    modify (
        emit_both staff_ns visitor_ns (chat_room chat.id)
          (Event.chat_assigned chat.id data_.user_id))

  join_chat : String → Action Io (Unit {0})
  join_chat chat_id = do
    chat ← on_chats (get_by_id chat_id caller)
    modify (join (chat_room chat.id))

  send : String → String → String → Action Io (Unit {0})
  send message_id chat_id body = do
    msg ← on_chats (
        send_message now_ms message_id
          (record {
            chat_id = chat_id;
            sender_kind = MessageSenderKind.user;
            sender_user_id = some data_.user_id;
            body = body;
          })
          caller)
    modify (
        emit_both staff_ns visitor_ns (chat_room chat_id) (
          Event.chat_message (record {
            chat_id = chat_id;
            message_id = msg.id;
            sender_kind = MessageSenderKind.user;
            sender_user_id = some data_.user_id;
            body = msg.body;
            delivered_at = msg.delivered_at;
          })))

  end_ : String → Action Io (Unit {0})
  end_ chat_id = do
    chat ←
        on_chats (
          end_chat now_ms (record { chat_id = chat_id; ended_by = ChatInitiatedBy.support }) caller)
    modify (
        emit_both staff_ns visitor_ns (chat_room chat.id)
          (Event.chat_ended chat.id ChatInitiatedBy.support))

  initiate_in : String → String → String → Action Io (Unit {0})
  initiate_in chat_id visitor_session_id tenant_id = do
    chat ← on_chats (
        initiate_by_support now_ms chat_id (record {
          tenant_id = tenant_id;
          visitor_session_id = visitor_session_id;
          support_user_id = data_.user_id;
        }))
    modify (join (chat_room chat.id))
    modify (
        emit_watching chat.tenant_id
          (Event.chat_requested chat.id chat.tenant_id chat.customer_name chat.status))
    modify (
        emit (
          to_rooms visitor_ns (visitor_room visitor_session_id ∷ [])
            (Event.support_initiated chat.id)))

  initiate : String → String → Action Io (Unit {0})
  unfolding initiate_in
  initiate chat_id visitor_session_id = elim data_.tenant_id [
    | none ↦ pure tt
    | some tenant_id ↦ initiate_in chat_id visitor_session_id tenant_id
  ]

  set_status : Option StaffStatus → Io → Io
  unfolding change_presence echo
  set_status none io = io
  set_status (some status) io = echo (
      change_presence data_.tenant_id
        (λ r. (status, set_availability clock.now data_.user_id availability_tenant status r)) io)

  unfoldable pub on_staff_event : String → StaffEvent → Io → Io
  unfolding accept_chat join_chat send end_ initiate set_status
  on_staff_event fresh_id (chat_accept chat_id) io = guard "chat:accept" (accept_chat chat_id) io
  on_staff_event fresh_id (chat_join chat_id) io = guard "chat:join" (join_chat chat_id) io
  on_staff_event fresh_id (chat_message chat_id body) io =
      guard "chat:message" (send fresh_id chat_id body) io
  on_staff_event fresh_id (chat_typing chat_id is_typing) io =
      if has_room (chat_room chat_id) io.rooms
      then emit_both staff_ns visitor_ns (chat_room chat_id)
          (Event.chat_typing chat_id MessageSenderKind.user is_typing) io
      else io
  on_staff_event fresh_id (chat_end chat_id) io = guard "chat:end" (end_ chat_id) io
  on_staff_event fresh_id (chat_initiate visitor_session_id) io =
      guard "chat:initiate" (initiate fresh_id visitor_session_id) io
  on_staff_event fresh_id (availability_set status) io =
      if is_staff data_ then set_status status io else io
  on_staff_event fresh_id availability_heartbeat io =
      if is_staff data_ then on_redis (heartbeat clock.now data_.user_id) io else io
