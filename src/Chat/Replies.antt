-- ===== src/Chat/Replies.antt =====
-- api/src/services/chat-service.ts: who a chat belongs to after its first replies.
use livechat.ApiError.{ok}
use livechat.Prelude.{
  ℕ, String, ◌≡◌, refl, ap, ◌∙◌, ◌≢◌, none, some, arith, eq_iff, find-update, Bool-cases, inl, inr,
  if◌then◌else◌,
}
use livechat.Shared.{ChatStatus, MessageSenderKind, is_pending}
use livechat.Models.{Chat, Store, has_id, find_chat, save_chat}
use livechat.Chat.{
  ChatCaller, staff, visitor, SendMessageParams, send_message, new_message, activate,
  insert_message,
}
use livechat.Chat.Access.{Owns, load_chat-owned}
use livechat.Chat.Effects.{after_send}

-- The found row is the one that is saved.
find_chat-save_chat :
    (id : String) (db : Store) (chat : Chat) (f : Chat → Chat)
    → ((c : Chat) → (f c).id ≡ c.id)
    → find_chat id db ≡ some chat
    → find_chat id (save_chat chat.id f db) ≡ some (f chat)
find_chat-save_chat id db chat f keeps found =
    rw (find-update (has_id id) (has_id chat.id) f db.chats (λ c. rw (keeps c)), found)
      (ground (arith, eq_iff chat.id chat.id))

module _ (now : ℕ) (message_id : String) (params : SendMessageParams) (caller : ChatCaller)
    (db : Store) (chat : Chat) (found : find_chat params.chat_id db ≡ some chat)
    (owns : Owns chat caller) (open_ended : chat.ended_at ≡ none) where
  pub send_message-ok :
      send_message now message_id params caller db
      ≡ (ok (new_message now message_id params), after_send now message_id params chat db)
  unfolding send_message after_send
  send_message-ok =
      let loaded = load_chat-owned params.chat_id caller db chat found owns in ground arith

  activate-id : (c : Chat) → (activate params c).id ≡ c.id
  unfolding activate
  activate-id c = ground arith

  find_chat-after_send :
      find_chat params.chat_id (after_send now message_id params chat db)
      ≡ some (if is_pending chat.status then activate params chat else chat)
  unfolding after_send insert_message
  find_chat-after_send = elim (Bool-cases (is_pending chat.status)) [
    | inl pending ↦
        rw (pending, after_send)
          (find_chat-save_chat params.chat_id db chat (activate params) activate-id found)
    | inr other ↦ rw (other, after_send) found
  ]

  -- The chat after a message that is accepted.
  pub find_chat-send_message :
      find_chat params.chat_id (send_message now message_id params caller db).1
      ≡ some (if is_pending chat.status then activate params chat else chat)
  find_chat-send_message =
      ap (λ r. find_chat params.chat_id r.1) send_message-ok ∙ find_chat-after_send

abbrev pub reply : String → String → String → SendMessageParams
reply id user_id body = record {
  chat_id = id;
  sender_kind = MessageSenderKind.user;
  sender_user_id = some user_id;
  body = body;
}

abbrev pub from_visitor : String → String → SendMessageParams
from_visitor id body = record {
  chat_id = id;
  sender_kind = MessageSenderKind.visitor;
  sender_user_id = none;
  body = body;
}

module _ (id : String) (db : Store) (chat : Chat) (found : find_chat id db ≡ some chat)
    (pending : chat.status ≡ ChatStatus.pending) (unassigned : chat.assigned_to ≡ none)
    (open_ended : chat.ended_at ≡ none) where
  -- A staff member's message to a chat that is pending, open and unassigned makes the chat active
  -- and theirs.
  pub first_reply-assigns :
      (now : ℕ) (message_id user_id body : String) (caller : ChatCaller)
      → user_id ≢ ""
      → Owns chat caller
      → find_chat id (send_message now message_id (reply id user_id body) caller db).1
        ≡ some (record chat { status = ChatStatus.active; assigned_to = some user_id })
  unfolding activate
  first_reply-assigns now message_id user_id body caller named owns =
      find_chat-send_message now message_id (reply id user_id body) caller db chat found owns
        open_ended
      ∙ ground (arith, eq_iff user_id "")

  -- But if the visitor writes once more before anyone replies, the chat is active with nobody
  -- assigned, and the first reply of a staff member, of any name and tenant scope that may send it,
  -- leaves it so.
  pub visitor_message-unassigned :
      (now later : ℕ) (message_id reply_id user_id body answer : String) (caller : ChatCaller)
      → Owns chat caller
      → let s =
          (send_message now message_id
            (from_visitor id body)
            (visitor chat.visitor_session_id)
            db).1 in
        let t = (send_message later reply_id (reply id user_id answer) caller s).1 in
        (find_chat id s ≡ some (record chat { status = ChatStatus.active }))
        × (find_chat id t ≡ some (record chat { status = ChatStatus.active }))
  unfolding activate
  visitor_message-unassigned now later message_id reply_id user_id body answer caller owns =
      (first, second)
    where
      s : Store
      s =
          (send_message now message_id (from_visitor id body) (visitor chat.visitor_session_id)
            db).1

      active : Chat
      active = record chat { status = ChatStatus.active }

      first : find_chat id s ≡ some active
      first =
          find_chat-send_message now message_id (from_visitor id body)
            (visitor chat.visitor_session_id) db chat found refl open_ended
          ∙ ground arith

      same_owner : (x : ChatCaller) → Owns chat x → Owns active x
      same_owner (staff none) o = o
      same_owner (staff (some t)) o = o
      same_owner (visitor v) o = o

      second :
          find_chat id (send_message later reply_id (reply id user_id answer) caller s).1
          ≡ some active
      second =
          find_chat-send_message later reply_id (reply id user_id answer) caller s active first
            (same_owner caller owns) open_ended
