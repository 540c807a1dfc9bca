-- ===== src/Console/Tests.antt =====
-- The console's routes at concrete inputs, and the theorem on them.
use livechat.ApiError.{ok, err}
use livechat.Prelude.{◌≡◌, refl, none, some, [], ◌∷◌, All, order_desc, arith, eq_iff, find}
use livechat.Shared.{ChatStatus, customer, ChatInitiatedBy}
use livechat.Models.{Chat, Store, find_chat}
use livechat.Auth.{staff}
use livechat.Chat.{list, err_chat_forbidden}
use livechat.Chat.Access.{Owns}
use livechat.Authorize.{require_staff_or_admin, assert_tenant_access, resolve_tenant_filter}
use livechat.Admin.{AdminRequest, caller_of}
use livechat.Console.{
  staff_caller, get_chats_route, get_chat_route, get_messages_route, post_message_route,
  accept_route, end_route,
}
use livechat.Console.Confined.{chats_routes-confined}

abbrev agent : AdminRequest
agent = record { user_id = "u1"; role = staff; tenant_id = some "acme" }

abbrev own : Chat
own = record {
  id = "c1";
  tenant_id = "acme";
  visitor_session_id = "v1";
  assigned_to = none;
  initiated_by = customer;
  status = ChatStatus.pending;
  customer_name = none;
  customer_email = none;
  started_at = 1;
  ended_at = none;
  created_at = 1;
}

abbrev other : Chat
other = record own { id = "c2"; tenant_id = "beta" }

abbrev db : Store
db = record { visitor_sessions = []; chats = own ∷ other ∷ []; messages = [] }

passed : require_staff_or_admin (caller_of agent) ≡ ok tt
unfolding require_staff_or_admin
passed = refl

listed : (get_chats_route agent none none db).0 ≡ ok (own ∷ [])
unfolding get_chats_route require_staff_or_admin resolve_tenant_filter list order_desc
listed = refl

found_other : find_chat "c2" db ≡ some other
unfolding find
found_other = refl

not_owned : ¬ Owns other (staff_caller agent)
not_owned = ground (arith, eq_iff "beta" "acme")

chats_routes-confined_example :
    All (λ c. assert_tenant_access (caller_of agent) (some c.tenant_id) ≡ ok tt) (own ∷ [])
    × (get_chat_route agent "c2" db ≡ (err err_chat_forbidden, db))
    × (get_messages_route agent "c2" db ≡ (err err_chat_forbidden, db))
    × (post_message_route agent 9 "m1" "c2" "Hello" db ≡ (err err_chat_forbidden, db))
    × (accept_route agent "c2" db ≡ (err err_chat_forbidden, db))
    × (end_route agent 9 "c2" ChatInitiatedBy.support db ≡ (err err_chat_forbidden, db))
chats_routes-confined_example =
    chats_routes-confined agent db none none (own ∷ []) "c2" other 9 "m1" "Hello"
      ChatInitiatedBy.support passed listed found_other not_owned
