-- ===== src/Chat/Access.antt =====
-- api/src/services/chat-service.ts: who may touch a chat.
use livechat.ApiError.{ok, err}
use livechat.Prelude.{
  ℕ, String, ◌≡◌, refl, subst, ◌↔◌, ◌⊎◌, inl, inr, Option, none, some, arith, eq_iff, Option-cases,
}
use livechat.Shared.{ChatInitiatedBy, MessageSenderKind}
use livechat.Models.{Chat, Store, find_chat}
use livechat.Chat.{
  ChatCaller, staff, visitor, err_chat_not_found, err_chat_forbidden, assert_chat_access, load_chat,
  send_message, end_chat, assign, get_by_id,
}

-- The policy: untenanted staff serve every tenant, other staff their own, a visitor's session its
-- own chats.
abbrev pub Owns : Chat → ChatCaller → Type 0
Owns chat (staff none) = Unit
Owns chat (staff (some tenant_id)) = chat.tenant_id ≡ tenant_id
Owns chat (visitor visitor_session_id) = chat.visitor_session_id ≡ visitor_session_id

assert_chat_access-cases :
    (chat : Chat) (caller : ChatCaller) (db : Store)
    → (Owns chat caller × (assert_chat_access chat caller db ≡ (ok tt, db)))
      ⊎ ((¬ Owns chat caller) × (assert_chat_access chat caller db ≡ (err err_chat_forbidden, db)))
unfolding assert_chat_access
assert_chat_access-cases chat (staff none) db = inl (tt, refl)
assert_chat_access-cases chat (staff (some t)) db = ground (arith, eq_iff chat.tenant_id t)
assert_chat_access-cases chat (visitor v) db = ground (arith, eq_iff chat.visitor_session_id v)

module _ (id : String) (caller : ChatCaller) (db : Store) where
  pub load_chat-cases :
      ((find_chat id db ≡ none) × (load_chat id caller db ≡ (err err_chat_not_found, db)))
      ⊎ ((chat : Chat) × (find_chat id db ≡ some chat)
          × (¬ Owns chat caller)
          × (load_chat id caller db ≡ (err err_chat_forbidden, db)))
      ⊎ ((chat : Chat) × (find_chat id db ≡ some chat)
          × Owns chat caller
          × (load_chat id caller db ≡ (ok chat, db)))
  unfolding load_chat
  load_chat-cases = elim (Option-cases (find_chat id db)) [
    | inl missing ↦ inl (missing, rw (missing, load_chat))
    | inr (chat, found) ↦ elim (assert_chat_access-cases chat caller db) [
      | inl (owns, e) ↦ inr (inr (chat, found, owns, ground arith))
      | inr (foreign, e) ↦ inr (inl (chat, found, foreign, ground arith))
    ]
  ]

  load_chat-foreign :
      (chat : Chat)
      → find_chat id db ≡ some chat
      → ¬ Owns chat caller
      → load_chat id caller db ≡ (err err_chat_forbidden, db)
  load_chat-foreign chat found foreign = elim load_chat-cases [
    | inl (missing, e) ↦ ground arith
    | inr (inl (other, named, _, e)) ↦ e
    | inr (inr (other, named, owns, e)) ↦
        let same : other ≡ chat = ground arith in
        absurd (foreign (subst (λ c. Owns c caller) same owns))
  ]

  pub load_chat-owned :
      (chat : Chat)
      → find_chat id db ≡ some chat
      → Owns chat caller
      → load_chat id caller db ≡ (ok chat, db)
  load_chat-owned chat found owns = elim load_chat-cases [
    | inl (missing, e) ↦ ground arith
    | inr (inl (other, named, foreign, e)) ↦
        let same : chat ≡ other = ground arith in
        absurd (foreign (subst (λ c. Owns c caller) same owns))
    | inr (inr (other, named, _, e)) ↦ ground arith
  ]

-- `getById` returns a chat exactly when the id names it and the caller may touch it.
pub get_by_id_iff :
    (id : String) (caller : ChatCaller) (db : Store) (chat : Chat)
    → ((get_by_id id caller db).0 ≡ ok chat) ↔ ((find_chat id db ≡ some chat) × Owns chat caller)
unfolding get_by_id
get_by_id_iff id caller db chat = elim (load_chat-cases id caller db) [
  | inl (missing, e) ↦ ground arith
  | inr (inl (other, found, foreign, e)) ↦ (
    λ h. ground arith,
    λ (named, owns).
        let same : chat ≡ other = ground arith in
        absurd (foreign (subst (λ c. Owns c caller) same owns)),
  )
  | inr (inr (other, found, owns, e)) ↦ (
    λ h.
        let same : other ≡ chat = ground arith in
        (ground arith, subst (λ c. Owns c caller) same owns),
    λ (named, _). ground arith,
  )
]

-- A caller that may not touch a chat can neither write to it, end it, accept it nor read it: each
-- call is answered with 403 and leaves every table as it was.
pub foreign_refused :
    (id : String) (caller : ChatCaller) (db : Store) (chat : Chat) (now : ℕ)
    (message_id user_id body : String) (kind : MessageSenderKind) (sender : Option String)
    (ended_by : ChatInitiatedBy)
    → find_chat id db ≡ some chat
    → ¬ Owns chat caller
    → (send_message now message_id
          (record { chat_id = id; sender_kind = kind; sender_user_id = sender; body = body })
          caller
          db
        ≡ (err err_chat_forbidden, db))
      × (end_chat now (record { chat_id = id; ended_by = ended_by }) caller db
          ≡ (err err_chat_forbidden, db))
      × (assign id user_id caller db ≡ (err err_chat_forbidden, db))
      × (get_by_id id caller db ≡ (err err_chat_forbidden, db))
unfolding send_message end_chat assign get_by_id
foreign_refused id caller db chat now message_id user_id body kind sender ended_by found foreign =
    let refused = load_chat-foreign id caller db chat found foreign in
    (ground arith, ground arith, ground arith, refused)
