-- ===== src/Chat.antt =====
-- api/src/services/chat-service.ts. A method is an action on the tables; the instant `now` and the
-- ids of the rows that it creates are arguments.
pub mod Access
mod Effects
pub mod Lifecycle
pub mod Owned
pub mod Transcript
pub mod Kept
pub mod Replies
pub mod Resume
mod Tests
use livechat.ApiError.{ApiError, bad_request, forbidden, not_found}
use livechat.Prelude.{
  ℕ, String, Bool, true, false, not, ◌&&◌, Option, none, some, List, [], ◌∷◌, ◌++◌, ◌==◌, is_null,
  filter, find, order_asc, order_desc, latest, if◌then◌else◌,
}
use livechat.Prelude.Action.{Action, pure, throw_if, gets, or_throw, modify, ◌>>=◌, ◌>>◌}
use livechat.Shared.{
  ChatStatus, ChatInitiatedBy, customer, support, MessageSenderKind, is_pending, is_user,
  is_customer, status_eq,
}
use livechat.Models.{Chat, ChatMessage, VisitorSession, Store, find_chat, save_chat}

pub data ChatCaller : Type 0 where
  staff : Option String → ChatCaller
  visitor : String → ChatCaller

abbrev pub err_chat_not_found : ApiError
err_chat_not_found = not_found "Chat not found"

abbrev pub err_chat_forbidden : ApiError
err_chat_forbidden = forbidden "Access denied to this chat"

abbrev pub err_chat_ended : ApiError
err_chat_ended = bad_request "Chat has ended"

unfoldable pub assert_chat_access : Chat → ChatCaller → Action Store (Unit {0})
assert_chat_access chat (staff none) = pure tt
assert_chat_access chat (staff (some tenant_id)) =
    throw_if (not (chat.tenant_id == tenant_id)) err_chat_forbidden
assert_chat_access chat (visitor visitor_session_id) =
    throw_if (not (chat.visitor_session_id == visitor_session_id)) err_chat_forbidden

pub record VisitorInitiateParams : Type 0 where
  pub visitor_session : VisitorSession
  pub customer_name : String
  pub body : String
  pub customer_email : Option String

pub record SupportInitiateParams : Type 0 where
  pub tenant_id : String
  pub visitor_session_id : String
  pub support_user_id : String

pub record SendMessageParams : Type 0 where
  pub chat_id : String
  pub sender_kind : MessageSenderKind
  pub sender_user_id : Option String
  pub body : String

pub record EndChatParams : Type 0 where
  pub chat_id : String
  pub ended_by : ChatInitiatedBy

pub insert_chat : Chat → Store → Store
insert_chat chat db = record db { chats = db.chats ++ chat ∷ [] }

pub insert_message : ChatMessage → Store → Store
insert_message message db = record db { messages = db.messages ++ message ∷ [] }

unfoldable pub initiate_by_visitor :
    ℕ → String → String → VisitorInitiateParams → Action Store (Chat × ChatMessage)
unfolding insert_chat insert_message
initiate_by_visitor now chat_id message_id params = do
  modify (insert_chat chat)
  modify (insert_message message)
  pure (chat, message)
  where
    chat : Chat
    chat = record {
      id = chat_id;
      tenant_id = params.visitor_session.tenant_id;
      visitor_session_id = params.visitor_session.id;
      assigned_to = none;
      initiated_by = customer;
      status = ChatStatus.pending;
      customer_name = some params.customer_name;
      customer_email = params.customer_email;
      started_at = now;
      ended_at = none;
      created_at = now;
    }

    message : ChatMessage
    message = record {
      id = message_id;
      chat_id = chat_id;
      sender_kind = MessageSenderKind.visitor;
      sender_user_id = none;
      body = params.body;
      delivered_at = now;
      read_at = none;
    }

-- `VisitorSession.findByPk`
abbrev pub find_visitor : String → Store → Option VisitorSession
find_visitor id db = find (λ v. v.id == id) db.visitor_sessions

pub supported_chat : ℕ → String → SupportInitiateParams → VisitorSession → Chat
supported_chat now chat_id params visitor_session = record {
  id = chat_id;
  tenant_id = params.tenant_id;
  visitor_session_id = visitor_session.id;
  assigned_to = some params.support_user_id;
  initiated_by = support;
  status = ChatStatus.pending;
  customer_name = none;
  customer_email = none;
  started_at = now;
  ended_at = none;
  created_at = now;
}

unfoldable pub initiate_by_support : ℕ → String → SupportInitiateParams → Action Store Chat
unfolding supported_chat insert_chat
initiate_by_support now chat_id params = do
  found ← gets (find_visitor params.visitor_session_id)
  visitor_session ← or_throw found (bad_request "Visitor not found")
  throw_if (not (visitor_session.tenant_id == params.tenant_id))
      (forbidden "Visitor belongs to a different tenant")
  modify (insert_chat (supported_chat now chat_id params visitor_session))
  pure (supported_chat now chat_id params visitor_session)

-- The lookup that every method on an existing chat begins with.
unfoldable pub load_chat : String → ChatCaller → Action Store Chat
unfolding assert_chat_access
load_chat id caller = do
  found ← gets (find_chat id)
  chat ← or_throw found err_chat_not_found
  assert_chat_access chat caller
  pure chat

pub new_message : ℕ → String → SendMessageParams → ChatMessage
new_message now message_id params = record {
  id = message_id;
  chat_id = params.chat_id;
  sender_kind = params.sender_kind;
  sender_user_id = params.sender_user_id;
  body = params.body;
  delivered_at = now;
  read_at = none;
}

-- `params.senderUserId` as a condition: present and not the empty text.
abbrev pub is_truthy : Option String → Bool
is_truthy none = false
is_truthy (some s) = not (s == "")

abbrev pub is_first_reply : SendMessageParams → Chat → Bool
is_first_reply params chat =
    is_user params.sender_kind && is_null chat.assigned_to && is_truthy params.sender_user_id

-- The part of `sendMessage` that activates a pending chat.
pub activate : SendMessageParams → Chat → Chat
activate params chat =
    let active : Chat = record chat { status = ChatStatus.active } in
    if is_first_reply params chat
    then record active { assigned_to = params.sender_user_id }
    else active

unfoldable pub send_message : ℕ → String → SendMessageParams → ChatCaller → Action Store ChatMessage
unfolding insert_message activate new_message
send_message now message_id params caller = do
  chat ← load_chat params.chat_id caller
  throw_if (not (is_null chat.ended_at)) err_chat_ended
  modify (insert_message (new_message now message_id params))
  if is_pending chat.status then modify (save_chat chat.id (activate params)) else pure tt
  pure (new_message now message_id params)

abbrev pub ended_status : ChatInitiatedBy → ChatStatus
ended_status customer = ChatStatus.ended_by_customer
ended_status support = ChatStatus.ended_by_support

pub close : ℕ → ChatInitiatedBy → Chat → Chat
close now ended_by chat = record chat { status = ended_status ended_by; ended_at = some now }

save_closed : ℕ → ChatInitiatedBy → Chat → Action Store Chat
unfolding close
save_closed now ended_by chat = do
  modify (save_chat chat.id (close now ended_by))
  pure (close now ended_by chat)

unfoldable pub end_chat : ℕ → EndChatParams → ChatCaller → Action Store Chat
unfolding save_closed
end_chat now params caller = do
  chat ← load_chat params.chat_id caller
  if is_null chat.ended_at then save_closed now params.ended_by chat else pure chat

pub accept : String → Chat → Chat
accept user_id chat =
    let assigned : Chat = record chat { assigned_to = some user_id } in
    if is_pending chat.status then record assigned { status = ChatStatus.active } else assigned

unfoldable pub assign : String → String → ChatCaller → Action Store Chat
unfolding accept
assign chat_id user_id caller = do
  chat ← load_chat chat_id caller
  modify (save_chat chat.id (accept user_id))
  pure (accept user_id chat)

unfoldable pub get_by_id : String → ChatCaller → Action Store Chat
get_by_id = load_chat

-- The messages of a chat, oldest first.
unfoldable pub list_messages : String → Store → List ChatMessage
list_messages chat_id db =
    order_asc (λ m. m.delivered_at) (filter (λ m. m.chat_id == chat_id) db.messages)

pub record ChatFilter : Type 0 where
  pub tenant_id : Option String
  pub status : Option ChatStatus

abbrev pub matches_tenant : Option String → Chat → Bool
matches_tenant none c = true
matches_tenant (some t) c = c.tenant_id == t

abbrev pub matches_status : Option ChatStatus → Chat → Bool
matches_status none c = true
matches_status (some s) c = status_eq c.status s

unfoldable pub list : ChatFilter → Store → List Chat
list f db =
    order_desc (λ c. c.created_at)
      (filter (λ c. matches_tenant f.tenant_id c && matches_status f.status c) db.chats)

-- `status: ['pending', 'active', 'waiting']`
abbrev pub is_resumable : ChatStatus → Bool
is_resumable ChatStatus.pending = true
is_resumable ChatStatus.active = true
is_resumable ChatStatus.waiting = true
is_resumable _ = false

unfoldable pub find_resumable_by_visitor_session : String → Store → Option Chat
find_resumable_by_visitor_session visitor_session_id db =
    latest (λ c. c.created_at)
      (filter
        (λ c.
          c.visitor_session_id == visitor_session_id
          && is_customer c.initiated_by
          && is_resumable c.status)
        db.chats)
