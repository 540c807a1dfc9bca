-- ===== src/Chat/Lifecycle/Invariants.antt =====
-- api/src/services/chat-service.ts: what stays true of a chat, whatever of its methods is called.
use livechat.Prelude.{
  ℕ, String, ◌≤◌, ◌≡◌, refl, sym, ap, subst, ◌∙◌, ◌≢◌, Bool, true, false, Option, none, some, arith,
}
use mathlib.Core.Option.{some-injective}
use livechat.Shared.{ChatStatus, customer, support}
use livechat.Models.{Chat, Store, find_chat}
use livechat.Chat.{ChatCaller, staff, visitor}
use livechat.Chat.Access.{Owns}
use livechat.Chat.Lifecycle.{
  Call, Reach, here, next, Move, stays, activates, first_reply, closes, accepts, Moves, absent,
  created, moved,
}
use livechat.Chat.Lifecycle.Refines.{Step-Moves}

abbrev pub is_ended : ChatStatus → Bool
is_ended ChatStatus.ended_by_customer = true
is_ended ChatStatus.ended_by_support = true
is_ended _ = false

-- Where a status stands in a chat's life. The last two are no status that the service writes.
abbrev pub rank : ChatStatus → ℕ
rank ChatStatus.pending = 0
rank ChatStatus.active = 1
rank ChatStatus.ended_by_customer = 2
rank ChatStatus.ended_by_support = 2
rank ChatStatus.waiting = 3
rank ChatStatus.abandoned = 3

-- The status and the end time agree, and the status is one of the four that the service writes.
pub record IsConsistent (c : Chat) : Type 0 where
  pub ended_has_time : is_ended c.status ≡ true → c.ended_at ≢ none
  pub open_has_none : is_ended c.status ≡ false → c.ended_at ≡ none
  pub written : rank c.status ≤ 2

abbrev pub Holds {ℓ} : (Chat → Type ℓ) → Option Chat → Type ℓ
Holds P none = Unit
Holds P (some c) = P c

Move-IsConsistent : {c d : Chat} {call : Call} → Move c d call → IsConsistent c → IsConsistent d
Move-IsConsistent (stays _ e) h = rw e h
Move-IsConsistent {c} (activates _ p _ e) h = rw e (ground arith)
Move-IsConsistent {c} (first_reply u _ p _ e) h = rw e (ground arith)
Move-IsConsistent {c} (closes {ended_by = customer} _ p e) h = rw e (ground arith)
Move-IsConsistent {c} (closes {ended_by = support} _ p e) h = rw e (ground arith)
Move-IsConsistent {c} (accepts _ e) h = rw e (ground arith)

-- How a chat may look after any number of calls: the same conversation, never further back in its
-- life, and, once it has ended, with the same end.
pub record Later (c d : Chat) : Type 0 where
  pub same_tenant : d.tenant_id ≡ c.tenant_id
  pub same_visitor : d.visitor_session_id ≡ c.visitor_session_id
  pub same_initiator : d.initiated_by ≡ c.initiated_by
  pub same_name : d.customer_name ≡ c.customer_name
  pub same_start : d.started_at ≡ c.started_at
  pub onward : rank c.status ≤ rank d.status
  pub same_end : is_ended c.status ≡ true → (d.status ≡ c.status) × (d.ended_at ≡ c.ended_at)

pub Later-refl : (c : Chat) → Later c c
Later-refl c = ground arith

Later-trans : {c d e : Chat} → Later c d → Later d e → Later c e
Later-trans {c} {d} {e} h k = record {
  same_tenant = k.same_tenant ∙ h.same_tenant;
  same_visitor = k.same_visitor ∙ h.same_visitor;
  same_initiator = k.same_initiator ∙ h.same_initiator;
  same_name = k.same_name ∙ h.same_name;
  same_start = k.same_start ∙ h.same_start;
  onward = omega (arith, h.onward, k.onward);
  same_end = λ ended.
      let first = h.same_end ended in
      let second = k.same_end (ap is_ended first.0 ∙ ended) in
      (second.0 ∙ first.0, second.1 ∙ first.1);
}

Move-Later : {c d : Chat} {call : Call} → Move c d call → IsConsistent c → Later c d
Move-Later {c} (stays _ e) h = rw e (Later-refl c)
Move-Later {c} (activates _ p _ e) h = rw e (ground arith)
Move-Later {c} (first_reply u _ p _ e) h = rw e (ground arith)
Move-Later {c} (closes {ended_by = customer} _ p e) h = rw e (ground arith)
Move-Later {c} (closes {ended_by = support} _ p e) h = rw e (ground arith)
Move-Later {c} (accepts _ e) h = rw e (ground arith)

Moves-Holds :
    {call : Call} {o o' : Option Chat}
    → Moves call o o'
    → Holds IsConsistent o
    → Holds IsConsistent o'
Moves-Holds absent h = tt
Moves-Holds (created {c} _ n) h = ground arith
Moves-Holds (moved m) h = Move-IsConsistent m h

-- After any calls on a store whose chats are consistent, every chat has an end time exactly if its
-- status says that it has ended, and no chat is `waiting` or `abandoned`.
pub Reach-IsConsistent :
    (id : String) {s t : Store}
    → Holds IsConsistent (find_chat id s)
    → Reach s t
    → Holds IsConsistent (find_chat id t)
Reach-IsConsistent id h here = h
Reach-IsConsistent id h (next r st) = Moves-Holds (Step-Moves id st) (Reach-IsConsistent id h r)

-- The chat is there, and as it may look later.
abbrev pub LaterThan : Chat → Option Chat → Type 0
LaterThan c o = (d : Chat) × (o ≡ some d) × IsConsistent d × Later c d

pub Moves-LaterThan :
    {c : Chat} {call : Call} {o o' : Option Chat} → Moves call o o' → LaterThan c o → LaterThan c o'
Moves-LaterThan absent (d, e, _, _) = cc
Moves-LaterThan (created _ n) (d, e, _, _) = cc
Moves-LaterThan {c} (moved {c = x} {d = y} m) (d, e, h, l) =
    let same : d ≡ x = sym (some-injective x d e) in
    let hx = subst IsConsistent same h in
    (y, refl, Move-IsConsistent m hx, Later-trans (subst (Later c) same l) (Move-Later m hx))

Later-Owns : (c d : Chat) (caller : ChatCaller) → Later c d → Owns d caller → Owns c caller
Later-Owns c d (staff none) l o = tt
Later-Owns c d (staff (some t)) l o = sym l.same_tenant ∙ o
Later-Owns c d (visitor v) l o = sym l.same_visitor ∙ o
