-- ===== src/Chat/Lifecycle.antt =====
-- api/src/services/chat-service.ts: what its methods do to a chat, one call after another.
pub mod Rows
pub mod Refines
pub mod Invariants
use livechat.Prelude.{ℕ, String, ◌≡◌, ◌≢◌, Bool, Option, none, some, if◌then◌else◌}
use livechat.Shared.{ChatStatus, ChatInitiatedBy, MessageSenderKind, is_pending}
use livechat.Models.{Chat, Store, find_chat}
use livechat.Chat.{
  ChatCaller, VisitorInitiateParams, SupportInitiateParams, SendMessageParams, EndChatParams,
  initiate_by_visitor, initiate_by_support, send_message, end_chat, assign, ended_status,
}
use livechat.Chat.Access.{Owns}

-- A call of the service, by any caller at any time. A new row's id is one that no row has.
pub data Step : Store → Store → Type 0 where
  visitor_starts :
      (db : Store) (now : ℕ) (chat_id message_id : String) (params : VisitorInitiateParams)
      → find_chat chat_id db ≡ none
      → Step db (initiate_by_visitor now chat_id message_id params db).1
  support_starts :
      (db : Store) (now : ℕ) (chat_id : String) (params : SupportInitiateParams)
      → find_chat chat_id db ≡ none
      → Step db (initiate_by_support now chat_id params db).1
  sends :
      (db : Store) (now : ℕ) (message_id : String) (params : SendMessageParams)
      (caller : ChatCaller)
      → Step db (send_message now message_id params caller db).1
  ends :
      (db : Store) (now : ℕ) (params : EndChatParams) (caller : ChatCaller)
      → Step db (end_chat now params caller db).1
  assigns :
      (db : Store) (chat_id user_id : String) (caller : ChatCaller)
      → Step db (assign chat_id user_id caller db).1

pub data Reach (s : Store) : Store → Type 0 where
  here : Reach s s
  next : {t u : Store} → Reach s t → Step t u → Reach s u

-- What is asked, without its tables: the new chat's id; or the caller, the chat and the message's
-- sender, the end or the staff member.
pub data Call : Type 0 where
  starting : String → Call
  sending : ChatCaller → String → MessageSenderKind → Option String → Call
  ending : ChatCaller → String → ChatInitiatedBy → ℕ → Call
  assigning : ChatCaller → String → String → Call

abbrev pub call_of : {s t : Store} → Step s t → Call
call_of (visitor_starts db now chat_id message_id params fresh) = starting chat_id
call_of (support_starts db now chat_id params fresh) = starting chat_id
call_of (sends db now message_id params caller) =
    sending caller params.chat_id params.sender_kind params.sender_user_id
call_of (ends db now params caller) = ending caller params.chat_id params.ended_by now
call_of (assigns db chat_id user_id caller) = assigning caller chat_id user_id

-- The chat is the one that is named, and its caller may touch it.
abbrev pub IsTarget : Chat → String → ChatCaller → Type 0
IsTarget c chat_id caller = (c.id ≡ chat_id) × Owns c caller

-- A named staff member writes to a chat that nobody is assigned to.
abbrev pub IsTakenBy : Chat → MessageSenderKind → Option String → String → Type 0
IsTakenBy c kind sender user_id =
    (kind ≡ MessageSenderKind.user)
    × (c.assigned_to ≡ none)
    × (sender ≡ some user_id)
    × (user_id ≢ "")

-- A call that is not for the chat: it names another, its caller may not touch the chat, the chat has
-- ended, or a message finds it active already.
abbrev pub IsIdle : Call → Chat → Type 0
IsIdle (starting chat_id) c = Unit
IsIdle (sending caller chat_id kind sender) c =
    ¬ (IsTarget c chat_id caller × ((c.ended_at ≡ none) × (c.status ≡ ChatStatus.pending)))
IsIdle (ending caller chat_id ended_by now) c = ¬ (IsTarget c chat_id caller × (c.ended_at ≡ none))
IsIdle (assigning caller chat_id user_id) c = ¬ IsTarget c chat_id caller

-- The life of one chat, with what each move needs of the call.
pub data Move (c d : Chat) : Call → Type 0 where
  stays : {call : Call} → IsIdle call c → d ≡ c → Move c d call
  activates :
      {caller : ChatCaller} {chat_id : String} {kind : MessageSenderKind} {sender : Option String}
      → IsTarget c chat_id caller
      → c.status ≡ ChatStatus.pending
      → ((user_id : String) → ¬ IsTakenBy c kind sender user_id)
      → d ≡ record c { status = ChatStatus.active }
      → Move c d (sending caller chat_id kind sender)
  first_reply :
      {caller : ChatCaller} {chat_id : String} {kind : MessageSenderKind} {sender : Option String}
      (user_id : String)
      → IsTarget c chat_id caller
      → c.status ≡ ChatStatus.pending
      → IsTakenBy c kind sender user_id
      → d ≡ record c { status = ChatStatus.active; assigned_to = some user_id }
      → Move c d (sending caller chat_id kind sender)
  closes :
      {caller : ChatCaller} {chat_id : String} {ended_by : ChatInitiatedBy} {now : ℕ}
      → IsTarget c chat_id caller
      → c.ended_at ≡ none
      → d ≡ record c { status = ended_status ended_by; ended_at = some now }
      → Move c d (ending caller chat_id ended_by now)
  accepts :
      {caller : ChatCaller} {chat_id user_id : String}
      → IsTarget c chat_id caller
      → d ≡ record c {
        status = if is_pending c.status then ChatStatus.active else c.status;
        assigned_to = some user_id;
      }
      → Move c d (assigning caller chat_id user_id)

pub record IsNew (c : Chat) : Type 0 where
  pub pending : c.status ≡ ChatStatus.pending
  pub open_ended : c.ended_at ≡ none

pub data Moves (call : Call) : Option Chat → Option Chat → Type 0 where
  absent : Moves call none none
  created : {c : Chat} → call ≡ starting c.id → IsNew c → Moves call none (some c)
  moved : {c d : Chat} → Move c d call → Moves call (some c) (some d)
