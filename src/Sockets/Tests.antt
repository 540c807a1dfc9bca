-- ===== src/Sockets/Tests.antt =====
-- Sockets at concrete inputs, and their theorems applied to them.
use livechat.Prelude.{◌≡◌, refl, Bool, none, some, [], ◌∷◌, arith, eq_iff, find}
use livechat.Auth.{Role}
use livechat.Shared.{ChatStatus, ChatInitiatedBy}
use livechat.Models.{Chat, Store, find_chat}
use livechat.Chat.{ChatCaller}
use livechat.Chat.Access.{Owns}
use livechat.Presence.{Redis}
use livechat.Sockets.{Io}
use livechat.Sockets.Availability.{Clock}
use livechat.Sockets.Staff.{StaffSocketData, StaffEvent, on_staff_connection, on_staff_event}
use livechat.Sockets.Staff.Refused.{told, on_staff_event-refused}
use livechat.Sockets.Rooms.{staff_data}
use livechat.Sockets.Reach.{met}

abbrev question : Chat
question = record {
  id = "c1";
  tenant_id = "t1";
  visitor_session_id = "v1";
  assigned_to = none;
  initiated_by = ChatInitiatedBy.customer;
  status = ChatStatus.pending;
  customer_name = some "Ann";
  customer_email = none;
  started_at = 1;
  ended_at = none;
  created_at = 1;
}

abbrev db : Store
db = record { visitor_sessions = []; chats = question ∷ []; messages = [] }

abbrev redis : Redis
redis = record {
  status = λ user. none;
  available_set = λ tenant. [];
  conn_expires = λ user. 0;
  visitors = λ tenant. [];
  visitors_expire = λ tenant. 0;
  visitor_tenants = [];
}

abbrev clock : Clock
clock = record {
  calendar = record {
    local_parts = λ tz now. record { weekday = "Mon"; hour = 9; minute = 0 };
    day_key = λ s. s;
    hour_of = λ s. 0;
    minute_of = λ s. 0;
  };
  parse_support_hours = λ settings. none;
  tenants = [];
  now = 5;
}

no_chat : find_chat "c9" db ≡ none
unfolding find
no_chat = refl

abbrev opened : Io
opened = on_staff_connection clock (staff_data "u1" Role.staff "t1") (met db redis)

found : find_chat "c1" db ≡ some question
unfolding find
found = refl

abbrev stranger : StaffSocketData
stranger = staff_data "u2" Role.staff "t2"

foreigner : ¬ Owns question (ChatCaller.staff (some "t2"))
foreigner = ground (arith, eq_iff "t1" "t2")

on_staff_event-refused_example :
    (on_staff_event clock stranger "c9" (StaffEvent.chat_accept "c1") (met db redis)
      ≡ told "chat:accept" (met db redis))
    × (on_staff_event clock stranger "c9" (StaffEvent.chat_join "c1") (met db redis)
        ≡ told "chat:join" (met db redis))
    × (on_staff_event clock stranger "c9" (StaffEvent.chat_message "c1" "Hello") (met db redis)
        ≡ told "chat:message" (met db redis))
    × (on_staff_event clock stranger "c9" (StaffEvent.chat_end "c1") (met db redis)
        ≡ told "chat:end" (met db redis))
    × ((is_typing : Bool)
        → on_staff_event clock stranger "c9" (StaffEvent.chat_typing "c1" is_typing) (met db redis)
          ≡ met db redis)
on_staff_event-refused_example =
    on_staff_event-refused clock stranger "c9" "c1" "Hello" question (met db redis) found foreigner
      refl
