-- ===== src/Chat/Resume.antt =====
-- api/src/services/chat-service.ts: the chat that a returning visitor is offered.
use livechat.Prelude.{
  String, ◌≤◌, ◌≡◌, refl, ◌⊎◌, Option, none, some, List, [], ◌&&◌, ◌==◌, eq_iff, Bool, true, arith,
  All, All-map, All-filter, filter-All_inv, All-Memᴰ, Memᴰ, filter, latest, latest-le,
  latest-eq-none, latest-All,
}
use livechat.Shared.{ChatStatus, customer, is_customer}
use livechat.Models.{Chat, Store}
use livechat.Chat.{is_resumable, find_resumable_by_visitor_session}

-- The visitor began the conversation in this session, and it goes on.
pub record IsResumable (visitor_session_id : String) (c : Chat) : Type 0 where
  pub own : c.visitor_session_id ≡ visitor_session_id
  pub begun : c.initiated_by ≡ customer
  pub goes_on :
      (c.status ≡ ChatStatus.pending)
      ⊎ (c.status ≡ ChatStatus.active)
      ⊎ (c.status ≡ ChatStatus.waiting)

abbrev matches : String → Chat → Bool
matches v c = c.visitor_session_id == v && is_customer c.initiated_by && is_resumable c.status

matches_sound : (v : String) (c : Chat) → matches v c ≡ true → IsResumable v c
matches_sound v c h = ground (arith, eq_iff c.visitor_session_id v)

matches_complete : (v : String) (c : Chat) → IsResumable v c → matches v c ≡ true
matches_complete v c h = ground (arith, eq_iff c.visitor_session_id v)

abbrev pub IsAnswer : String → List Chat → Option Chat → Type 0
IsAnswer v chats none = All (λ x. ¬ IsResumable v x) chats
IsAnswer v chats (some c) =
    Memᴰ c chats × IsResumable v c × All (λ x. IsResumable v x → x.created_at ≤ c.created_at) chats

no_match :
    (v : String) (chats : List Chat)
    → filter (matches v) chats ≡ []
    → All (λ x. ¬ IsResumable v x) chats
no_match v chats e =
    All-map chats (λ x f r. f (matches_complete v x r))
      (filter-All_inv (λ x. ⊥) (matches v) chats (rw e tt))

best_match :
    (v : String) (chats : List Chat) (c : Chat)
    → latest (λ x. x.created_at) (filter (matches v) chats) ≡ some c
    → IsAnswer v chats (some c)
best_match v chats c e =
    let matching = filter (matches v) chats in
    let within : All (λ x. Memᴰ x chats × IsResumable v x) matching =
      All-filter (λ x. Memᴰ x chats × IsResumable v x) (matches v) chats
        (All-map chats (λ x m h. (m, matches_sound v x h)) (All-Memᴰ chats)) in
    let (member, good) = latest-All _ (λ x. x.created_at) matching e within in
    (
      member,
      good,
      All-map chats (λ x f r. f (matches_complete v x r))
          (filter-All_inv (λ x. x.created_at ≤ c.created_at) (matches v) chats
            (latest-le (λ x. x.created_at) matching e)),
    )

-- A returning visitor is offered a conversation that the visitor began in this session and that
-- goes on, the most recent of them; nothing is offered exactly if there is none.
pub find_resumable-IsAnswer :
    (v : String) (db : Store) → IsAnswer v db.chats (find_resumable_by_visitor_session v db)
unfolding find_resumable_by_visitor_session
find_resumable-IsAnswer v db = go (find_resumable_by_visitor_session v db) refl
  where
    go : (o : Option Chat) → find_resumable_by_visitor_session v db ≡ o → IsAnswer v db.chats o
    go none e = no_match v db.chats (latest-eq-none _ _ e)
    go (some c) e = best_match v db.chats c e
