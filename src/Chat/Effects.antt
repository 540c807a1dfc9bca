-- ===== src/Chat/Effects.antt =====
-- api/src/services/chat-service.ts: the tables after a call, with the conditions under which it
-- writes.
use livechat.ApiError.{ok}
use livechat.Prelude.{
  ℕ, String, ◌≡◌, sym, ap, subst, ◌∙◌, Option, ◌⊎◌, inl, inr, none, some, arith, Option-cases,
  Bool-cases, ◌==◌, if◌then◌else◌,
}
use mathlib.Core.Option.{some-injective}
use livechat.Shared.{is_pending}
use livechat.Models.{Chat, VisitorSession, Store, find_chat, save_chat}
use livechat.Chat.{
  ChatCaller, SupportInitiateParams, SendMessageParams, EndChatParams, insert_chat, find_visitor,
  supported_chat, initiate_by_support, insert_message, new_message, activate, close, accept,
  send_message, end_chat, assign,
}
use livechat.Chat.Access.{Owns, load_chat-cases}

pub initiate_by_support-cases :
    (now : ℕ) (chat_id : String) (params : SupportInitiateParams) (db : Store)
    → ((initiate_by_support now chat_id params db).1 ≡ db)
      ⊎ ((visitor : VisitorSession) × (find_visitor params.visitor_session_id db ≡ some visitor)
          × ((initiate_by_support now chat_id params db).1
              ≡ insert_chat (supported_chat now chat_id params visitor) db))
unfolding initiate_by_support
initiate_by_support-cases now chat_id params db =
    elim (Option-cases (find_visitor params.visitor_session_id db)) [
      | inl missing ↦ inl (ground arith)
      | inr (visitor, found) ↦ elim (Bool-cases (visitor.tenant_id == params.tenant_id)) [
        | inl own ↦ inr (visitor, found, ground arith)
        | inr foreign ↦ inl (ground arith)
      ]
    ]

unfoldable pub after_send : ℕ → String → SendMessageParams → Chat → Store → Store
after_send now message_id params chat db =
    let logged = insert_message (new_message now message_id params) db in
    if is_pending chat.status then save_chat chat.id (activate params) logged else logged

-- The chat that is looked up is one.
not_owned :
    {o : Option Chat} {chat c : Chat} (caller : ChatCaller)
    → o ≡ some chat
    → o ≡ some c
    → ¬ Owns chat caller
    → ¬ Owns c caller
not_owned {o} {chat} {c} caller found named foreign owns =
    foreign (subst (λ x. Owns x caller) (some-injective c chat (sym named ∙ found)) owns)

not_open :
    {o : Option Chat} {chat c : Chat} {at : ℕ}
    → o ≡ some chat
    → o ≡ some c
    → chat.ended_at ≡ some at
    → ¬ (c.ended_at ≡ none)
not_open {o} {chat} {c} found named ended open_ended =
    let one : c ≡ chat = some-injective c chat (sym named ∙ found) in
    let both : none ≡ some _ = sym open_ended ∙ ap (λ x. x.ended_at) one ∙ ended in cc

pub send_message-cases :
    (now : ℕ) (message_id : String) (params : SendMessageParams) (caller : ChatCaller) (db : Store)
    → (((c : Chat) → find_chat params.chat_id db ≡ some c → ¬ (Owns c caller × (c.ended_at ≡ none)))
        × ((send_message now message_id params caller db).1 ≡ db))
      ⊎ ((chat : Chat) × (find_chat params.chat_id db ≡ some chat)
          × Owns chat caller
          × (chat.ended_at ≡ none)
          × (send_message now message_id params caller db
              ≡ (ok (new_message now message_id params), after_send now message_id params chat db)))
unfolding send_message after_send
send_message-cases now message_id params caller db =
    elim (load_chat-cases params.chat_id caller db) [
      | inl (missing, e) ↦ inl ((λ c named x. ground arith), ground arith)
      | inr (inl (chat, found, foreign, e)) ↦
          inl ((λ c named x. not_owned caller found named foreign x.0), ground arith)
      | inr (inr (chat, found, owns, e)) ↦ elim (Option-cases chat.ended_at) [
        | inl open_ended ↦ inr (chat, found, owns, open_ended, ground arith)
        | inr (at, ended) ↦ inl ((λ c named x. not_open found named ended x.1), ground arith)
      ]
    ]

pub end_chat-cases :
    (now : ℕ) (params : EndChatParams) (caller : ChatCaller) (db : Store)
    → (((c : Chat) → find_chat params.chat_id db ≡ some c → ¬ (Owns c caller × (c.ended_at ≡ none)))
        × ((end_chat now params caller db).1 ≡ db))
      ⊎ ((chat : Chat) × (find_chat params.chat_id db ≡ some chat)
          × Owns chat caller
          × (chat.ended_at ≡ none)
          × ((end_chat now params caller db).1 ≡ save_chat chat.id (close now params.ended_by) db))
unfolding end_chat
end_chat-cases now params caller db = elim (load_chat-cases params.chat_id caller db) [
  | inl (missing, e) ↦ inl ((λ c named x. ground arith), ground arith)
  | inr (inl (chat, found, foreign, e)) ↦
      inl ((λ c named x. not_owned caller found named foreign x.0), ground arith)
  | inr (inr (chat, found, owns, e)) ↦ elim (Option-cases chat.ended_at) [
    | inl open_ended ↦ inr (chat, found, owns, open_ended, ground arith)
    | inr (at, ended) ↦ inl ((λ c named x. not_open found named ended x.1), ground arith)
  ]
]

pub assign-cases :
    (chat_id user_id : String) (caller : ChatCaller) (db : Store)
    → (((c : Chat) → find_chat chat_id db ≡ some c → ¬ Owns c caller)
        × ((assign chat_id user_id caller db).1 ≡ db))
      ⊎ ((chat : Chat) × (find_chat chat_id db ≡ some chat)
          × Owns chat caller
          × ((assign chat_id user_id caller db).1 ≡ save_chat chat.id (accept user_id) db))
unfolding assign
assign-cases chat_id user_id caller db = elim (load_chat-cases chat_id caller db) [
  | inl (missing, e) ↦ inl ((λ c named o. ground arith), ground arith)
  | inr (inl (chat, found, foreign, e)) ↦
      inl ((λ c named o. not_owned caller found named foreign o), ground arith)
  | inr (inr (chat, found, owns, e)) ↦ inr (chat, found, owns, ground arith)
]
