-- ===== src/Sockets.antt =====
-- api/src/io: the rooms, the events and what one socket's handler reads and writes. A room's name is
-- its prefix with an id, so that names of different kinds differ; `emit` hands an event to Socket.IO,
-- which is the record of what is emitted. A `guard`ed handler that throws answers the socket.
pub mod Availability
pub mod Staff
pub mod Visitor
pub mod Rooms
pub mod Confined
pub mod Reach
pub mod Refused
mod Tests
use livechat.ApiError.{Result, ok, err, ApiError}
use livechat.Prelude.{
  ℕ, String, Bool, true, false, Option, List, [], ◌∷◌, ◌++◌, ◌==◌, any, if◌then◌else◌,
}
use livechat.Prelude.Action.{Action, modify}
use livechat.Shared.{ChatStatus, ChatInitiatedBy, MessageSenderKind}
use livechat.Models.{Store}
use livechat.Presence.{Redis, StaffStatus}

pub data Namespace : Type 0 where
  staff_ns visitor_ns : Namespace

-- `user:`, `staff`, `staff:global`, `tenant:`, `visitor:` and `chat:`
pub data Room : Type 0 where
  user_room : String → Room
  staff_room global_staff_room : Room
  tenant_room visitor_room chat_room : String → Room

abbrev pub room_eq : Room → Room → Bool
room_eq (user_room a) (user_room b) = a == b
room_eq staff_room staff_room = true
room_eq global_staff_room global_staff_room = true
room_eq (tenant_room a) (tenant_room b) = a == b
room_eq (visitor_room a) (visitor_room b) = a == b
room_eq (chat_room a) (chat_room b) = a == b
room_eq _ _ = false

-- What a `chat:message` event carries.
pub record MessageEvent : Type 0 where
  pub chat_id : String
  pub message_id : String
  pub sender_kind : MessageSenderKind
  pub sender_user_id : Option String
  pub body : String
  pub delivered_at : ℕ

pub data Event : Type 0 where
  chat_assigned : String → String → Event
  chat_message : MessageEvent → Event
  chat_typing : String → MessageSenderKind → Bool → Event
  chat_ended : String → ChatInitiatedBy → Event
  chat_requested : String → String → Option String → ChatStatus → Event
  chat_error : String → String → Event
  support_initiated : String → Event
  support_availability_changed : Bool → Event
  availability_self : StaffStatus → Event
  visitor_joined visitor_left : String → String → Event
  visitor_page_changed : String → String → Event

-- `to(room).to(room).emit(event)` on a namespace, or `socket.emit(event)`.
pub data Emission : Type 0 where
  to_rooms : Namespace → List Room → Event → Emission
  to_socket : Event → Emission

pub record Io : Type 0 where
  pub store : Store
  pub redis : Redis
  pub rooms : List Room
  pub emitted : List Emission

abbrev pub has_room : Room → List Room → Bool
has_room room rooms = any (room_eq room) rooms

abbrev pub add_room : Room → List Room → List Room
add_room room rooms = if has_room room rooms then rooms else rooms ++ room ∷ []

abbrev pub join : Room → Io → Io
join room io = record io { rooms = add_room room io.rooms }

abbrev pub emit : Emission → Io → Io
emit e io = record io { emitted = io.emitted ++ e ∷ [] }

-- To the sockets in a room, of one namespace and then of the other.
abbrev pub emit_both : Namespace → Namespace → Room → Event → Io → Io
emit_both first second room event io =
    emit (to_rooms second (room ∷ []) event) (emit (to_rooms first (room ∷ []) event) io)

-- To the staff who watch a tenant.
abbrev pub emit_watching : String → Event → Io → Io
emit_watching tenant_id event =
    emit (to_rooms staff_ns (tenant_room tenant_id ∷ global_staff_room ∷ []) event)

-- A call of the chat service.
abbrev pub on_chats : {A : Type 0} → Action Store A → Action Io A
on_chats m io = let (r, store) = m io.store in (r, record io { store = store })

abbrev pub on_redis : (Redis → Redis) → Io → Io
on_redis f io = record io { redis = f io.redis }

answered : String → Result (Unit {0}) × Io → Io
answered event (ok _, io) = io
answered event (err e, io) = emit (to_socket (chat_error event e.message)) io

unfoldable pub guard : String → Action Io (Unit {0}) → Io → Io
unfolding answered
guard event run io = answered event (run io)
