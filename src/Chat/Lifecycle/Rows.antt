-- ===== src/Chat/Lifecycle/Rows.antt =====
-- api/src/services/chat-service.ts: the rows that a write touches, as moves of chats.
use livechat.Prelude.{
  String, ◌≡◌, ◌≢◌, refl, sym, ap, subst, ◌⊎◌, ◌∙◌, inl, inr, true, false, none, some, [], ◌∷◌,
  eq_iff, arith, find, find-holds, find-append, find-append_none, find-update, Bool-cases,
  Option-cases, if◌then◌else◌,
}
use mathlib.Core.Option.{some-injective}
use livechat.Models.{Chat, Store, has_id, find_chat, save_chat}
use livechat.Chat.{insert_chat}
use livechat.Chat.Lifecycle.{
  Call, starting, IsIdle, Move, stays, IsNew, Moves, absent, created, moved,
}

pub find_chat-id : (id : String) (db : Store) {c : Chat} → find_chat id db ≡ some c → c.id ≡ id
find_chat-id id db {c} found = (eq_iff c.id id).0 (find-holds (has_id id) db.chats found)

pub find_chat_unique :
    (id key : String) (db : Store) {c d : Chat}
    → find_chat id db ≡ some c
    → find_chat key db ≡ some d
    → c.id ≡ d.id
    → c ≡ d
find_chat_unique id key db {c} {d} e e' same =
    let one : id ≡ key = sym (find_chat-id id db e) ∙ same ∙ find_chat-id key db e' in
    some-injective c d (sym e ∙ ap (λ k. find_chat k db) one ∙ e')

-- A chat that is found is found under the id that names it.
pub find_chat_named :
    (id chat_id : String) (db : Store) {c : Chat}
    → find_chat id db ≡ some c
    → c.id ≡ chat_id
    → find_chat chat_id db ≡ some c
find_chat_named id chat_id db {c} found named =
    ap (λ k. find_chat k db) (sym named ∙ find_chat-id id db found) ∙ found

pub Moves-idle :
    (call : Call) (id : String) (db : Store)
    → ((c : Chat) → find_chat id db ≡ some c → IsIdle call c)
    → Moves call (find_chat id db) (find_chat id db)
Moves-idle call id db idle = elim (Option-cases (find_chat id db)) [
  | inl missing ↦ rw missing absent
  | inr (c, found) ↦ rw found (moved (stays (idle c found) refl))
]

save_one-Moves :
    (call : Call) (chat c : Chat) (f : Chat → Chat)
    → (c.id ≢ chat.id → IsIdle call c)
    → (c.id ≡ chat.id → c ≡ chat)
    → Move chat (f chat) call
    → Moves call (some c) (some (if has_id chat.id c then f c else c))
save_one-Moves call chat c f idle unique m = elim (Bool-cases (has_id chat.id c)) [
  | inl hit ↦
      let same : c ≡ chat = unique ((eq_iff c.id chat.id).0 hit) in
      rw hit (subst (λ x. Moves call (some x) (some (f x))) (sym same) (moved m))
  | inr miss ↦ rw miss (moved (stays (idle (λ e. ground (arith, eq_iff c.id chat.id))) refl))
]

-- A saved chat moves by the change that is saved; the others stay.
pub save_chat-Moves :
    (call : Call) (id key : String) (db : Store) (chat : Chat) (f : Chat → Chat)
    → find_chat key db ≡ some chat
    → ((c : Chat) → c.id ≢ chat.id → IsIdle call c)
    → ((c : Chat) → (f c).id ≡ c.id)
    → Move chat (f chat) call
    → Moves call (find_chat id db) (find_chat id (save_chat chat.id f db))
save_chat-Moves call id key db chat f found idle keeps m =
    rw (find-update (has_id id) (has_id chat.id) f db.chats (λ c. rw (keeps c)))
      (elim (Option-cases (find_chat id db)) [
        | inl missing ↦ rw missing absent
        | inr (c, named) ↦
            rw named
              (save_one-Moves call chat c f (idle c) (find_chat_unique id key db named found) m)
      ])

-- A new row is found under its own id only, and hides no other.
pub insert_chat-Moves :
    (id : String) (db : Store) (chat : Chat)
    → find_chat chat.id db ≡ none
    → IsNew chat
    → Moves (starting chat.id) (find_chat id db) (find_chat id (insert_chat chat db))
unfolding insert_chat find
insert_chat-Moves id db chat fresh new = elim (Option-cases (find_chat id db)) [
  | inl missing ↦
      rw (missing, find-append_none (has_id id) db.chats (chat ∷ []) missing)
        (last (Bool-cases (has_id id chat)))
  | inr (c, named) ↦
      rw (named, find-append (has_id id) db.chats (chat ∷ []) named) (moved (stays tt refl))
]
  where
    last :
        (has_id id chat ≡ true) ⊎ (has_id id chat ≡ false)
        → Moves (starting chat.id) none (find (has_id id) (chat ∷ []))
    last (inl hit) = rw (hit, find) (created refl new)
    last (inr miss) = rw (miss, find) absent
