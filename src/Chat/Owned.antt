-- ===== src/Chat/Owned.antt =====
-- api/src/services/chat-service.ts: whose the chats are that the service answers for.
use livechat.ApiError.{Result, ok, err}
use livechat.Prelude.{
  ℕ, String, ◌≡◌, refl, sym, ap, subst, ◌∙◌, inl, inr, true, Option, none, some, [], ◌∷◌, arith,
  eq_iff, ◌==◌, find, find-append_none, find-holds, Bool-cases, Option-cases,
}
use livechat.Prelude.Action.{ok_injective}
use livechat.Models.{Chat, ChatMessage, VisitorSession, Store, find_chat, has_id}
use livechat.Chat.{
  ChatCaller, load_chat, assign, get_by_id, send_message, end_chat, initiate_by_support, accept,
  close, save_closed, supported_chat, insert_chat, find_visitor, SupportInitiateParams,
  SendMessageParams, EndChatParams,
}
use livechat.Chat.Access.{Owns, load_chat-cases}
use livechat.Chat.Lifecycle.{
  Call, Step, Move, stays, activates, first_reply, closes, accepts, Moves, absent, created, moved,
}
use livechat.Chat.Lifecycle.Refines.{Step-Moves}

-- The chat is there, and the policy gives it to the caller.
abbrev pub Owned : ChatCaller → Store → String → Type 0
Owned caller s id = (chat : Chat) × (find_chat id s ≡ some chat) × Owns chat caller

Move-Owns :
    {c d : Chat} {call : Call} (caller : ChatCaller) → Move c d call → Owns c caller → Owns d caller
Move-Owns caller (stays _ e) o = subst (λ d. Owns d caller) (sym e) o
Move-Owns (ChatCaller.staff none) m o = tt
Move-Owns {c} {d} (ChatCaller.staff (some t)) (activates _ p _ e) o = ap (λ x. x.tenant_id) e ∙ o
Move-Owns (ChatCaller.staff (some t)) (first_reply u _ p n e) o = ap (λ x. x.tenant_id) e ∙ o
Move-Owns (ChatCaller.staff (some t)) (closes _ p e) o = ap (λ x. x.tenant_id) e ∙ o
Move-Owns (ChatCaller.staff (some t)) (accepts _ e) o = ap (λ x. x.tenant_id) e ∙ o
Move-Owns (ChatCaller.visitor v) (activates _ p _ e) o = ap (λ x. x.visitor_session_id) e ∙ o
Move-Owns (ChatCaller.visitor v) (first_reply u _ p n e) o = ap (λ x. x.visitor_session_id) e ∙ o
Move-Owns (ChatCaller.visitor v) (closes _ p e) o = ap (λ x. x.visitor_session_id) e ∙ o
Move-Owns (ChatCaller.visitor v) (accepts _ e) o = ap (λ x. x.visitor_session_id) e ∙ o

Moves-Owns :
    {c : Chat} {call : Call} {o o' : Option Chat} (caller : ChatCaller)
    → Moves call o o'
    → o ≡ some c
    → Owns c caller
    → (d : Chat) × (o' ≡ some d) × Owns d caller
Moves-Owns caller absent e h = ground arith
Moves-Owns caller (created _ n) e h = ground arith
Moves-Owns caller (moved {c = x} {d = y} m) e h =
    (y, refl, Move-Owns caller m (subst (λ c. Owns c caller) (sym (ap (or_itself x) e)) h))
  where
    or_itself : Chat → Option Chat → Chat
    or_itself x none = x
    or_itself x (some c) = c

-- No call of the chat service takes a chat away from its owner.
pub Step-Owned :
    (caller : ChatCaller) (id : String) {s t : Store}
    → Step s t
    → Owned caller s id
    → Owned caller t id
Step-Owned caller id st (chat, found, owns) = Moves-Owns caller (Step-Moves id st) found owns

-- What an answered call says of its chat.
abbrev pub IsAnsweredFor : ChatCaller → Store → String → String → Type 0
IsAnsweredFor caller s id answered_id = (answered_id ≡ id) × Owned caller s id

module _ (caller : ChatCaller) (s : Store) (id : String) where
  found_id : {chat : Chat} → find_chat id s ≡ some chat → chat.id ≡ id
  found_id {chat} found = (eq_iff chat.id id).0 (find-holds (has_id id) s.chats found)

  pub get_by_id-owned :
      (chat : Chat) → (get_by_id id caller s).0 ≡ ok chat → IsAnsweredFor caller s id chat.id
  unfolding get_by_id
  get_by_id-owned chat e = elim (load_chat-cases id caller s) [
    | inl (missing, step) ↦ ground arith
    | inr (inl (c, found, foreign, step)) ↦ ground arith
    | inr (inr (c, found, owns, step)) ↦ (
      ap (λ x. x.id) (sym (ok_injective (sym (ap (λ r. r.0) step) ∙ e))) ∙ found_id found,
      (c, found, owns),
    )
  ]

  pub assign-owned :
      (user_id : String) (chat : Chat)
      → (assign id user_id caller s).0 ≡ ok chat
      → IsAnsweredFor caller s id chat.id
  unfolding assign accept
  assign-owned user_id chat e = elim (load_chat-cases id caller s) [
    | inl (missing, step) ↦ ground arith
    | inr (inl (c, found, foreign, step)) ↦ ground arith
    | inr (inr (c, found, owns, step)) ↦
        (sym (ap id_of (sym (answer step) ∙ e)) ∙ accepted_id c ∙ found_id found, (c, found, owns))
  ]
    where
      id_of : Result Chat → String
      id_of (ok x) = x.id
      id_of (err x) = ""

      answer :
          {c : Chat}
          → load_chat id caller s ≡ (ok c, s)
          → (assign id user_id caller s).0 ≡ ok (accept user_id c)
      answer step = ground arith

      accepted_id : (c : Chat) → (accept user_id c).id ≡ c.id
      accepted_id c = ground arith

  end_chat-found :
      (now : ℕ) (params : EndChatParams) (c : Chat)
      → load_chat params.chat_id caller s ≡ (ok c, s)
      → (chat : Chat) × ((end_chat now params caller s).0 ≡ ok chat) × (chat.id ≡ c.id)
  unfolding end_chat save_closed close
  end_chat-found now params c step = elim (Option-cases c.ended_at) [
    | inl open_ended ↦ (close now params.ended_by c, ground arith, refl)
    | inr (at, ended) ↦ (c, ground arith, refl)
  ]

module _ (caller : ChatCaller) (s : Store) where
  pub end_chat-owned :
      (now : ℕ) (params : EndChatParams) (chat : Chat)
      → (end_chat now params caller s).0 ≡ ok chat
      → IsAnsweredFor caller s params.chat_id chat.id
  unfolding end_chat
  end_chat-owned now params chat e = elim (load_chat-cases params.chat_id caller s) [
    | inl (missing, step) ↦ ground arith
    | inr (inl (c, found, foreign, step)) ↦ ground arith
    | inr (inr (c, found, owns, step)) ↦
        (let (made, answer, same_id) = end_chat-found caller s params.chat_id now params c step in
          (
            ap (λ x. x.id) (sym (ok_injective (sym answer ∙ e)))
                ∙ same_id
                ∙ found_id caller s params.chat_id found,
            (c, found, owns),
          ))
  ]

  pub send_message-Owned :
      (now : ℕ) (message_id : String) (params : SendMessageParams) (message : ChatMessage)
      → (send_message now message_id params caller s).0 ≡ ok message
      → Owned caller s params.chat_id
  unfolding send_message
  send_message-Owned now message_id params message e =
      elim (load_chat-cases params.chat_id caller s) [
        | inl (missing, step) ↦ ground arith
        | inr (inl (c, found, foreign, step)) ↦ ground arith
        | inr (inr (c, found, owns, step)) ↦ (c, found, owns)
      ]

  insert_chat-found :
      (chat_id : String) (c : Chat)
      → find_chat chat_id s ≡ none
      → c.id ≡ chat_id
      → find_chat chat_id (insert_chat c s) ≡ some c
  unfolding insert_chat find
  insert_chat-found chat_id c fresh named =
      find-append_none (has_id chat_id) s.chats (c ∷ []) fresh ∙ ground (arith, eq_iff c.id chat_id)

  -- A chat that staff of a tenant begin is their own, and has the id that it was given.
  pub initiate_by_support-Owned :
      (now : ℕ) (chat_id : String) (params : SupportInitiateParams) (chat : Chat)
      → find_chat chat_id s ≡ none
      → (initiate_by_support now chat_id params s).0 ≡ ok chat
      → (chat.id ≡ chat_id)
        × (chat.tenant_id ≡ params.tenant_id)
        × ((visitor : VisitorSession) × (find_visitor params.visitor_session_id s ≡ some visitor)
            × (visitor.tenant_id ≡ params.tenant_id))
        × Owned
            (ChatCaller.staff (some params.tenant_id))
            (initiate_by_support now chat_id params s).1
            chat_id
        × Owned
            (ChatCaller.visitor params.visitor_session_id)
            (initiate_by_support now chat_id params s).1
            chat_id
  unfolding initiate_by_support supported_chat insert_chat
  initiate_by_support-Owned now chat_id params chat fresh e =
      elim (Option-cases (find_visitor params.visitor_session_id s)) [
        | inl missing ↦ ground arith
        | inr (visitor, found) ↦ elim (Bool-cases (visitor.tenant_id == params.tenant_id)) [
          | inl own ↦
              (let new = supported_chat now chat_id params visitor in
                let step = begun visitor found own in
                let same : new ≡ chat = ok_injective (sym (ap (λ r. r.0) step) ∙ e) in
                (
                  ap (λ c. c.id) (sym same),
                  ap (λ c. c.tenant_id) (sym same),
                  (visitor, found, (eq_iff visitor.tenant_id params.tenant_id).0 own),
                  (new, there visitor step, refl),
                  (
                    new,
                    there visitor step,
                    (eq_iff visitor.id params.visitor_session_id).0 (
                        find-holds (λ v. v.id == params.visitor_session_id) s.visitor_sessions
                          found),
                  ),
                ))
          | inr foreign ↦ ground arith
        ]
      ]
    where
      there :
          (visitor : VisitorSession)
          → initiate_by_support now chat_id params s ≡ (
            ok (supported_chat now chat_id params visitor),
            insert_chat (supported_chat now chat_id params visitor) s,
          )
          → find_chat chat_id (initiate_by_support now chat_id params s).1
            ≡ some (supported_chat now chat_id params visitor)
      there visitor step =
          ap (λ r. find_chat chat_id r.1) step
          ∙ insert_chat-found chat_id (supported_chat now chat_id params visitor) fresh refl

      begun :
          (visitor : VisitorSession)
          → find_visitor params.visitor_session_id s ≡ some visitor
          → (visitor.tenant_id == params.tenant_id) ≡ true
          → initiate_by_support now chat_id params s ≡ (
            ok (supported_chat now chat_id params visitor),
            insert_chat (supported_chat now chat_id params visitor) s,
          )
      begun visitor found own = ground arith

pub get_by_id-keeps :
    (id : String) (caller : ChatCaller) (s : Store) → (get_by_id id caller s).1 ≡ s
unfolding get_by_id
get_by_id-keeps id caller s = elim (load_chat-cases id caller s) [
  | inl (missing, step) ↦ ap (λ r. r.1) step
  | inr (inl (c, found, foreign, step)) ↦ ap (λ r. r.1) step
  | inr (inr (c, found, owns, step)) ↦ ap (λ r. r.1) step
]
