-- ===== src/Sockets/Reach.antt =====
-- api/src/io: a socket from its connection on, while others use the services.
use livechat.Prelude.{ℕ, String, ◌≡◌, none, []}
use livechat.Auth.{Role}
use livechat.Models.{Store, find_chat}
use livechat.Presence.{Redis}
use livechat.Chat.Lifecycle.{Step}
use livechat.Sockets.{Io}
use livechat.Sockets.Availability.{Clock}
use livechat.Sockets.Staff.{StaffEvent, on_staff_connection, on_staff_event}
use livechat.Sockets.Visitor.{
  VisitorSocketData, VisitorEvent, on_visitor_connection, on_visitor_event,
}
use livechat.Sockets.Rooms.{Home, staff_home, visitor_home, staff_data}

-- The state that a new socket meets.
abbrev pub met : Store → Redis → Io
met store redis = record { store = store; redis = redis; rooms = []; emitted = [] }

-- A socket connects, its client sends events, and in between anyone calls the chat service and
-- changes who is present. The id of a new row is one that no chat has.
pub data SocketReach : Home → Io → Type 0 where
  staff_connects :
      (clock : Clock) (user_id : String) (role : Role) (tenant_id : String) (store : Store)
      (redis : Redis)
      → SocketReach
          (staff_home user_id role tenant_id)
          (on_staff_connection clock (staff_data user_id role tenant_id) (met store redis))
  visitor_connects :
      (now : ℕ) (d : VisitorSocketData) (store : Store) (redis : Redis)
      → SocketReach (visitor_home d) (on_visitor_connection now d (met store redis))
  staff_sends :
      {user_id : String} {role : Role} {tenant_id : String} {io : Io} (clock : Clock)
      (fresh_id : String) (e : StaffEvent)
      → SocketReach (staff_home user_id role tenant_id) io
      → find_chat fresh_id io.store ≡ none
      → SocketReach
          (staff_home user_id role tenant_id)
          (on_staff_event clock (staff_data user_id role tenant_id) fresh_id e io)
  visitor_sends :
      {d : VisitorSocketData} {io : Io} (now : ℕ) (fresh_id : String) (e : VisitorEvent)
      → SocketReach (visitor_home d) io
      → SocketReach (visitor_home d) (on_visitor_event now d fresh_id e io)
  others_call :
      {h : Home} {io : Io} (store : Store)
      → SocketReach h io
      → Step io.store store
      → SocketReach h (record io { store = store })
  presence_changes :
      {h : Home} {io : Io} (redis : Redis)
      → SocketReach h io
      → SocketReach h (record io { redis = redis })
