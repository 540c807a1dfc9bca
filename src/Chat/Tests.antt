-- ===== src/Chat/Tests.antt =====
-- The chat service at concrete inputs, and its theorems applied to them.
use livechat.ApiError.{err}
use livechat.Prelude.{
  ◌≡◌, refl, arith, eq_iff, none, some, [], ◌∷◌, find, includes, false, String, latest,
}
use livechat.Shared.{ChatStatus, MessageSenderKind, customer, support}
use livechat.Models.{Chat, ChatMessage, Store, find_chat, destroy_sessions}
use livechat.Chat.{
  staff, visitor, err_chat_forbidden, load_chat, send_message, end_chat, assign, list_messages,
  find_resumable_by_visitor_session,
}
use livechat.Chat.Access.{Owns, foreign_refused}
use livechat.Chat.Lifecycle.{Reach, here, next, ends, ending, Moves}
use livechat.Chat.Lifecycle.Refines.{Step-Moves}
use livechat.Chat.Lifecycle.Invariants.{IsConsistent, Holds, Later, Reach-IsConsistent}
use livechat.Chat.Kept.{Spared, call, destroy, untouched, Spared-Later, Spared-list_messages}
use livechat.Chat.Replies.{reply, from_visitor, visitor_message-unassigned}
use livechat.Chat.Resume.{IsAnswer, find_resumable-IsAnswer}

abbrev waiting_chat : Chat
waiting_chat = record {
  id = "c1";
  tenant_id = "acme";
  visitor_session_id = "v1";
  assigned_to = none;
  initiated_by = customer;
  status = ChatStatus.pending;
  customer_name = some "Ann";
  customer_email = none;
  started_at = 10;
  ended_at = none;
  created_at = 10;
}

abbrev old_chat : Chat
old_chat = record waiting_chat {
  id = "c0";
  status = ChatStatus.ended_by_support;
  ended_at = some 7;
  created_at = 5;
}

abbrev hello : ChatMessage
hello = record {
  id = "m1";
  chat_id = "c0";
  sender_kind = MessageSenderKind.visitor;
  sender_user_id = none;
  body = "hello";
  delivered_at = 5;
  read_at = none;
}

abbrev db : Store
db = record { visitor_sessions = []; chats = old_chat ∷ waiting_chat ∷ []; messages = hello ∷ [] }

waiting_found : find_chat "c1" db ≡ some waiting_chat
unfolding find
waiting_found = refl

old_found : find_chat "c0" db ≡ some old_chat
unfolding find
old_found = refl

waiting-IsConsistent : IsConsistent waiting_chat
waiting-IsConsistent = ground arith

old-IsConsistent : IsConsistent old_chat
old-IsConsistent = ground arith

abbrev after_end : Store
after_end = (end_chat 20 (record { chat_id = "c1"; ended_by = customer }) (visitor "v1") db).1

history : Reach db after_end
history = next here (ends db 20 (record { chat_id = "c1"; ended_by = customer }) (visitor "v1"))

late_message : (send_message 30 "m2" (from_visitor "c0" "more") (visitor "v1") db).1 ≡ db
unfolding send_message load_chat find
late_message = refl

foreign_staff : ¬ Owns waiting_chat (staff (some "other"))
foreign_staff e = ground (arith, eq_iff "acme" "other")

foreign_refused_example : assign "c1" "u1" (staff (some "other")) db ≡ (err err_chat_forbidden, db)
foreign_refused_example =
    (foreign_refused "c1" (staff (some "other")) db waiting_chat 20 "m2" "u1" "hi"
      MessageSenderKind.user none support waiting_found foreign_staff).2

Step-Moves_example :
    Moves (ending (visitor "v1") "c1" customer 20) (find_chat "c1" db) (find_chat "c1" after_end)
Step-Moves_example =
    Step-Moves "c1" (ends db 20 (record { chat_id = "c1"; ended_by = customer }) (visitor "v1"))

Reach-IsConsistent_example : Holds IsConsistent (find_chat "c1" after_end)
Reach-IsConsistent_example = Reach-IsConsistent "c1" (rw waiting_found waiting-IsConsistent) history

-- Another visitor's session is deleted, and then the chat is ended.
abbrev after_both : Store
after_both =
    (end_chat 20 (record { chat_id = "c1"; ended_by = customer }) (visitor "v1")
      (destroy_sessions ("v2" ∷ []) db)).1

spared : (id : String) → includes id [] ≡ false → Spared id db after_both
unfolding destroy_sessions
spared id apart =
    call (destroy untouched ("v2" ∷ []) apart)
      (ends _ 20 (record { chat_id = "c1"; ended_by = customer }) (visitor "v1"))

Spared-Later_example :
    (d : Chat) × (find_chat "c1" after_both ≡ some d) × IsConsistent d × Later waiting_chat d
Spared-Later_example = Spared-Later "c1" waiting_found waiting-IsConsistent (spared "c1" refl)

Spared-list_messages_example : list_messages "c0" after_both ≡ list_messages "c0" db
Spared-list_messages_example =
    Spared-list_messages "c0" old_found old-IsConsistent refl (spared "c0" refl)

find_resumable-IsAnswer_example : IsAnswer "v1" db.chats (find_resumable_by_visitor_session "v1" db)
find_resumable-IsAnswer_example = find_resumable-IsAnswer "v1" db

resumable : find_resumable_by_visitor_session "v1" db ≡ some waiting_chat
unfolding find_resumable_by_visitor_session latest
resumable = refl

visitor_message-unassigned_example :
    find_chat "c1"
      (send_message 30 "m3"
        (reply "c1" "u1" "hi")
        (staff none)
        (send_message 20 "m2" (from_visitor "c1" "anyone?") (visitor "v1") db).1).1
    ≡ some (record waiting_chat { status = ChatStatus.active })
visitor_message-unassigned_example =
    (visitor_message-unassigned "c1" db waiting_chat waiting_found refl refl refl 20 30 "m2" "m3"
      "u1" "anyone?" "hi" (staff none) tt).1
