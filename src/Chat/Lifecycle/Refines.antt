-- ===== src/Chat/Lifecycle/Refines.antt =====
-- Every method of api/src/services/chat-service.ts moves each chat as `Move` allows.
use livechat.Prelude.{
  ℕ, String, ◌≡◌, refl, sym, ap, ◌∙◌, inl, inr, true, false, Option, none, some, eq_iff, arith,
  Bool-cases, ◌&&◌, is_null,
}
use livechat.Models.{Chat, Store, find_chat}
use livechat.Shared.{ChatStatus, is_pending, is_user, MessageSenderKind}
use livechat.Chat.{
  ChatCaller, VisitorInitiateParams, SupportInitiateParams, SendMessageParams, EndChatParams,
  insert_message, supported_chat, is_first_reply, is_truthy, activate, close, accept,
  initiate_by_visitor, initiate_by_support, send_message, end_chat, assign,
}
use livechat.Chat.Effects.{
  initiate_by_support-cases, after_send, send_message-cases, end_chat-cases, assign-cases,
}
use livechat.Chat.Lifecycle.{
  starting, sending, ending, assigning, IsTarget, IsTakenBy, call_of, Step, visitor_starts,
  support_starts, sends, ends, assigns, Move, activates, first_reply, closes, accepts, Moves,
}
use livechat.Chat.Lifecycle.Rows.{
  find_chat-id, find_chat_unique, find_chat_named, Moves-idle, save_chat-Moves, insert_chat-Moves,
}

activate-id : (params : SendMessageParams) (c : Chat) → (activate params c).id ≡ c.id
unfolding activate
activate-id params c = ground arith

is_user-user : (kind : MessageSenderKind) → is_user kind ≡ true → kind ≡ MessageSenderKind.user
is_user-user MessageSenderKind.visitor e = ground arith
is_user-user MessageSenderKind.user e = refl
is_user-user MessageSenderKind.system e = ground arith

-- The test of the code is the condition of the abstract move.
taken_by :
    (kind : MessageSenderKind) (sender : Option String) (c : Chat)
    → (is_user kind && is_null c.assigned_to && is_truthy sender) ≡ true
    → (user_id : String) × IsTakenBy c kind sender user_id
taken_by kind none c e = ground arith
taken_by kind (some u) c e =
    (u, (is_user-user kind (ground arith), ground arith, refl, ground (arith, eq_iff u "")))

not_taken :
    (kind : MessageSenderKind) (sender : Option String) (c : Chat) (user_id : String)
    → (is_user kind && is_null c.assigned_to && is_truthy sender) ≡ false
    → ¬ IsTakenBy c kind sender user_id
not_taken kind sender c user_id e (k, a, s, named) = ground (arith, eq_iff user_id "")

activate-Move :
    (params : SendMessageParams) (caller : ChatCaller) (c : Chat)
    → IsTarget c params.chat_id caller
    → is_pending c.status ≡ true
    → Move c
        (activate params c)
        (sending caller params.chat_id params.sender_kind params.sender_user_id)
unfolding activate
activate-Move params caller c target p = elim (Bool-cases (is_first_reply params c)) [
  | inl first ↦
      let (user_id, taken) = taken_by params.sender_kind params.sender_user_id c first in
      first_reply user_id target (ground arith) taken (ground arith)
  | inr later ↦
      activates target (ground arith)
        (λ u. not_taken params.sender_kind params.sender_user_id c u later) (ground arith)
]

accept-id : (user_id : String) (c : Chat) → (accept user_id c).id ≡ c.id
unfolding accept
accept-id user_id c = ground arith

accept-Move :
    (caller : ChatCaller) (chat_id user_id : String) (c : Chat)
    → IsTarget c chat_id caller
    → Move c (accept user_id c) (assigning caller chat_id user_id)
unfolding accept
accept-Move caller chat_id user_id c target = accepts target (ground arith)

active : {s : ChatStatus} → is_pending s ≡ false → ¬ (s ≡ ChatStatus.pending)
active {s} e p = ground arith

module _ (id : String) (db : Store) where
  initiate_by_visitor-Moves :
      (now : ℕ) (chat_id message_id : String) (params : VisitorInitiateParams)
      → find_chat chat_id db ≡ none
      → Moves
          (starting chat_id)
          (find_chat id db)
          (find_chat id (initiate_by_visitor now chat_id message_id params db).1)
  unfolding initiate_by_visitor
  initiate_by_visitor-Moves now chat_id message_id params fresh =
      insert_chat-Moves id db _ fresh (record { pending = refl; open_ended = refl })

  initiate_by_support-Moves :
      (now : ℕ) (chat_id : String) (params : SupportInitiateParams)
      → find_chat chat_id db ≡ none
      → Moves
          (starting chat_id)
          (find_chat id db)
          (find_chat id (initiate_by_support now chat_id params db).1)
  unfolding supported_chat
  initiate_by_support-Moves now chat_id params fresh =
      elim (initiate_by_support-cases now chat_id params db) [
        | inl same ↦ rw same (Moves-idle (starting chat_id) id db (λ c found. tt))
        | inr (visitor, found, e) ↦
            rw e (insert_chat-Moves id db _ fresh (record { pending = refl; open_ended = refl }))
      ]

  send_message-Moves :
      (now : ℕ) (message_id : String) (params : SendMessageParams) (caller : ChatCaller)
      → Moves
          (sending caller params.chat_id params.sender_kind params.sender_user_id)
          (find_chat id db)
          (find_chat id (send_message now message_id params caller db).1)
  unfolding after_send insert_message
  send_message-Moves now message_id params caller =
      elim (send_message-cases now message_id params caller db) [
        | inl (refused, same) ↦ rw same (
            Moves-idle (sending caller params.chat_id params.sender_kind params.sender_user_id) id
              db
              (λ c there ((named, mine), (open_ended, _)).
                refused c (find_chat_named id params.chat_id db there named) (mine, open_ended)))
        | inr (chat, found, owns, _, e) ↦ rw e (elim (Bool-cases (is_pending chat.status)) [
          | inl pending ↦
              rw (pending, after_send)
                (save_chat-Moves _ id params.chat_id db chat (activate params) found
                  (λ c other x. other (x.0.0 ∙ sym (find_chat-id params.chat_id db found)))
                  (activate-id params)
                  (activate-Move params caller chat (find_chat-id params.chat_id db found, owns)
                    pending))
          | inr other ↦
              rw (other, after_send)
                (Moves-idle (sending caller params.chat_id params.sender_kind params.sender_user_id)
                  id db
                  (λ c there x.
                    let one : c ≡ chat =
                      find_chat_unique id params.chat_id db there found
                        (x.0.0 ∙ sym (find_chat-id params.chat_id db found)) in
                    active other (sym (ap (λ y. y.status) one) ∙ x.1.1)))
        ])
      ]

  end_chat-Moves :
      (now : ℕ) (params : EndChatParams) (caller : ChatCaller)
      → Moves
          (ending caller params.chat_id params.ended_by now)
          (find_chat id db)
          (find_chat id (end_chat now params caller db).1)
  unfolding close
  end_chat-Moves now params caller = elim (end_chat-cases now params caller db) [
    | inl (refused, same) ↦ rw same (
        Moves-idle (ending caller params.chat_id params.ended_by now) id db
          (λ c there ((named, mine), open_ended).
            refused c (find_chat_named id params.chat_id db there named) (mine, open_ended)))
    | inr (chat, found, owns, open_ended, e) ↦ rw e (
        save_chat-Moves _ id params.chat_id db chat (close now params.ended_by) found
          (λ c other x. other (x.0.0 ∙ sym (find_chat-id params.chat_id db found))) (λ c. refl)
          (closes (find_chat-id params.chat_id db found, owns) open_ended refl))
  ]

  assign-Moves :
      (chat_id user_id : String) (caller : ChatCaller)
      → Moves
          (assigning caller chat_id user_id)
          (find_chat id db)
          (find_chat id (assign chat_id user_id caller db).1)
  assign-Moves chat_id user_id caller = elim (assign-cases chat_id user_id caller db) [
    | inl (refused, same) ↦ rw same (
        Moves-idle (assigning caller chat_id user_id) id db
          (λ c there (named, mine). refused c (find_chat_named id chat_id db there named) mine))
    | inr (chat, found, owns, e) ↦ rw e (
        save_chat-Moves _ id chat_id db chat (accept user_id) found
          (λ c other x. other (x.0 ∙ sym (find_chat-id chat_id db found))) (accept-id user_id)
          (accept-Move caller chat_id user_id chat (find_chat-id chat_id db found, owns)))
  ]

-- Whatever method of the chat service is called, a new chat is open and pending under the new id, and
-- every chat that is there moves as `Move` says. A message to a pending and open chat activates it, and gives it to the
-- sender exactly if that is a named staff member and nobody is assigned; an end closes an open chat;
-- an assignment gives the chat to the staff member that is named, and activates it if it is pending.
-- So it is with the chat that the call names, if the caller may touch it; every other chat, and a
-- chat in another state, stays as it is.
pub Step-Moves :
    (id : String) {db db' : Store} (st : Step db db')
    → Moves (call_of st) (find_chat id db) (find_chat id db')
Step-Moves id (visitor_starts db now chat_id message_id params fresh) =
    initiate_by_visitor-Moves id db now chat_id message_id params fresh
Step-Moves id (support_starts db now chat_id params fresh) =
    initiate_by_support-Moves id db now chat_id params fresh
Step-Moves id (sends db now message_id params caller) =
    send_message-Moves id db now message_id params caller
Step-Moves id (ends db now params caller) = end_chat-Moves id db now params caller
Step-Moves id (assigns db chat_id user_id caller) = assign-Moves id db chat_id user_id caller
