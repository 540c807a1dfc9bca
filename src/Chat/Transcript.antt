-- ===== src/Chat/Transcript.antt =====
-- api/src/services/chat-service.ts: the messages of a chat, across calls.
use mathlib.Core.List.{append-nil, append_assoc}
use livechat.Prelude.{
  ℕ, String, ◌≡◌, refl, sym, ap, ◌∙◌, ◌≢◌, inl, inr, none, some, List, [], ◌∷◌, ◌++◌, ◌==◌, eq_iff,
  arith, All, filter, filter-append, Bool-cases,
}
use livechat.Shared.{is_pending}
use livechat.Models.{Chat, ChatMessage, Store, find_chat}
use livechat.Chat.{
  ChatCaller, SendMessageParams, insert_chat, insert_message, new_message, initiate_by_visitor,
  send_message, list_messages,
}
use livechat.Chat.Effects.{
  initiate_by_support-cases, after_send, send_message-cases, end_chat-cases, assign-cases,
}
use livechat.Chat.Lifecycle.{
  Step, visitor_starts, support_starts, sends, ends, assigns, Reach, here, next,
}

-- No chat that has ended carries this id.
abbrev pub IsOpen : Store → ChatMessage → Type 0
IsOpen db m = (c : Chat) → find_chat m.chat_id db ≡ some c → c.ended_at ≡ none

abbrev Logs : Store → List ChatMessage → Type 0
Logs s log = (ms : List ChatMessage) × (log ≡ s.messages ++ ms) × All (IsOpen s) ms

Logs-none : (s : Store) → Logs s s.messages
Logs-none s = ([], sym (append-nil s.messages), tt)

after_send-messages :
    (now : ℕ) (message_id : String) (params : SendMessageParams) (chat : Chat) (db : Store)
    → (after_send now message_id params chat db).messages
      ≡ db.messages ++ new_message now message_id params ∷ []
unfolding after_send insert_message
after_send-messages now message_id params chat db = elim (Bool-cases (is_pending chat.status)) [
  | inl pending ↦ rw pending
  | inr other ↦ rw other
]

send_message-Logs :
    (now : ℕ) (message_id : String) (params : SendMessageParams) (caller : ChatCaller) (db : Store)
    → Logs db (send_message now message_id params caller db).1.messages
unfolding new_message
send_message-Logs now message_id params caller db =
    elim (send_message-cases now message_id params caller db) [
      | inl (_, same) ↦ rw same (Logs-none db)
      | inr (chat, found, _, open_ended, e) ↦ rw e (
        new_message now message_id params ∷ [],
        after_send-messages now message_id params chat db,
        ((λ c named. ground arith), tt),
      )
    ]

-- Every call only adds to the log, and adds nothing to a chat that has ended.
Step-Logs : {s t : Store} → Step s t → Logs s t.messages
unfolding initiate_by_visitor insert_chat
Step-Logs (visitor_starts db now chat_id message_id params fresh) =
    (_, refl, ((λ c named. ground arith), tt))
Step-Logs (support_starts db now chat_id params fresh) =
    elim (initiate_by_support-cases now chat_id params db) [
      | inl same ↦ rw same (Logs-none db)
      | inr (visitor, found, e) ↦ rw e (Logs-none db)
    ]
Step-Logs (sends db now message_id params caller) =
    send_message-Logs now message_id params caller db
Step-Logs (ends db now params caller) = elim (end_chat-cases now params caller db) [
  | inl (_, same) ↦ rw same (Logs-none db)
  | inr (chat, found, _, open_ended, e) ↦ rw e (Logs-none db)
]
Step-Logs (assigns db chat_id user_id caller) = elim (assign-cases chat_id user_id caller db) [
  | inl (_, same) ↦ rw same (Logs-none db)
  | inr (chat, found, _, e) ↦ rw e (Logs-none db)
]

-- The log of all messages is append-only: after any calls, it begins with what it was.
pub Reach-messages :
    {s t : Store} → Reach s t → (ms : List ChatMessage) × (t.messages ≡ s.messages ++ ms)
Reach-messages {s} here = ([], sym (append-nil s.messages))
Reach-messages {s} (next r st) =
    let (ms, e) = Reach-messages r in
    let (more, e', _) = Step-Logs st in
    (ms ++ more, e' ∙ ap (λ l. l ++ more) e ∙ append_assoc s.messages ms more)

filter-closed :
    (id : String) (s : Store) (c : Chat) (ms : List ChatMessage)
    → find_chat id s ≡ some c
    → c.ended_at ≢ none
    → All (IsOpen s) ms
    → filter (λ m. m.chat_id == id) ms ≡ []
filter-closed id s c [] found ended h = refl
filter-closed id s c (m ∷ ms) found ended (h, hs) = elim (Bool-cases (m.chat_id == id)) [
  | inl own ↦
      let named : find_chat m.chat_id s ≡ some c =
        ap (λ k. find_chat k s) ((eq_iff m.chat_id id).0 own) ∙ found in
      absurd (ended (h c named))
  | inr other ↦ rw other (filter-closed id s c ms found ended hs)
]

-- No call of the chat service writes to a chat that has ended.
pub Step-list_messages :
    (id : String) {s t : Store} {c : Chat}
    → find_chat id s ≡ some c
    → c.ended_at ≢ none
    → Step s t
    → list_messages id t ≡ list_messages id s
unfolding list_messages
Step-list_messages id {s} {t} {c} found ended st =
    let (ms, e, open_all) = Step-Logs st in
    rw
      (
        e,
        filter-append (λ m. m.chat_id == id) s.messages ms,
        filter-closed id s c ms found ended open_all,
      )
      (rw append-nil)
