-- ===== src/Sockets/Rooms.antt =====
-- api/src/io: where the socket of a visitor, or of a staff member of one tenant, may be and may send.
use livechat.Prelude.{String, ◌≡◌, some, All}
use livechat.Auth.{Role}
use livechat.Models.{Store}
use livechat.Chat.{ChatCaller}
use livechat.Chat.Owned.{Owned}
use livechat.Sockets.{
  Namespace, staff_ns, visitor_ns, Room, user_room, staff_room, global_staff_room, tenant_room,
  visitor_room, chat_room, Event, support_availability_changed, Emission, to_rooms, to_socket, Io,
}
use livechat.Sockets.Staff.{StaffSocketData}
use livechat.Sockets.Visitor.{VisitorSocketData}

-- Who the socket is of.
pub data Home : Type 0 where
  staff_home : String → Role → String → Home
  visitor_home : VisitorSocketData → Home

abbrev pub staff_data : String → Role → String → StaffSocketData
staff_data user_id role tenant_id = record {
  user_id = user_id;
  role = role;
  tenant_id = some tenant_id;
}

abbrev pub caller_of : Home → ChatCaller
caller_of (staff_home user_id role tenant_id) = ChatCaller.staff (some tenant_id)
caller_of (visitor_home v) = ChatCaller.visitor v.visitor_session_id

abbrev pub tenant_of : Home → String
tenant_of (staff_home user_id role tenant_id) = tenant_id
tenant_of (visitor_home v) = v.tenant_id

abbrev pub IsAvailability : Event → Type 0
IsAvailability (support_availability_changed available) = Unit
IsAvailability _ = ⊥

-- The visitor has a chat that the caller owns.
abbrev pub HasChatWith : ChatCaller → Store → String → Type 0
HasChatWith caller s visitor_session_id =
    (id : String) × Owned caller s id × Owned (ChatCaller.visitor visitor_session_id) s id

-- A visitor is told by a staff member that a chat began, and by nobody else.
abbrev pub NearVisitor : Home → Store → String → Type 0
NearVisitor (staff_home u r t) s v = HasChatWith (ChatCaller.staff (some t)) s v
NearVisitor (visitor_home d) s v = ⊥

abbrev pub NearUser : Home → String → Type 0
NearUser (staff_home u r t) user_id = user_id ≡ u
NearUser (visitor_home d) user_id = ⊥

-- The rooms that an event may be sent to: a chat's only by who owns the chat; a tenant's only in the
-- own tenant, and to its visitors only whether support is available; a user's own.
abbrev pub Near : Home → Store → Namespace → Event → Room → Type 0
Near h s ns e (chat_room id) = Owned (caller_of h) s id
Near h s staff_ns e (tenant_room t) = t ≡ tenant_of h
Near h s visitor_ns e (tenant_room t) = (t ≡ tenant_of h) × IsAvailability e
Near h s staff_ns e global_staff_room = Unit
Near h s visitor_ns e global_staff_room = ⊥
Near h s ns e (user_room u) = NearUser h u
Near h s ns e (visitor_room v) = NearVisitor h s v
Near h s ns e staff_room = ⊥

abbrev pub IsSent : Home → Store → Emission → Type 0
IsSent h s (to_rooms ns rooms e) = All (Near h s ns e) rooms
IsSent h s (to_socket e) = Unit

-- A socket is in a chat's room only if its caller owns the chat.
abbrev pub IsJoined : Home → Store → Room → Type 0
IsJoined h s (chat_room id) = Owned (caller_of h) s id
IsJoined h s _ = Unit

abbrev pub IsConfined : Home → Io → Type 0
IsConfined h io = All (IsJoined h io.store) io.rooms × All (IsSent h io.store) io.emitted
