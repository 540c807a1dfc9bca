-- ===== src/Widget/Effects.antt =====
-- widget/src/state-machine.ts: what any sequence of actions keeps.
use livechat.Prelude.{
  ◌-◌, String, ◌≡◌, refl, ap, inl, inr, Bool, true, false, not, ◌&&◌, ◌||◌, List, [], ◌∷◌, ◌++◌,
  arith, eq_iff, All, any, any-append, includes, Bool-cases,
}
use livechat.Widget.{
  WidgetMessage, WidgetModel, WidgetAction, Counts, set_count, persisted_visitor_body_counts,
  same_id, append_unique, ids, pending, reconcile_messages, message_received, message_sent,
  messages_synced, chat_created, restart, reduce,
}

-- No id occurs twice.
abbrev pub distinct : List String → Bool
distinct [] = true
distinct (x ∷ xs) = not (includes x xs) && distinct xs

includes-append :
    (x : String) (xs ys : List WidgetMessage)
    → includes x (ids (xs ++ ys)) ≡ (includes x (ids xs) || includes x (ids ys))
includes-append x [] ys = refl
includes-append x (m ∷ xs) ys = ground (arith, includes-append x xs ys)

any-same_id : (x : String) (ms : List WidgetMessage) → any (same_id x) ms ≡ includes x (ids ms)
any-same_id x [] = refl
any-same_id x (m ∷ ms) = ground (arith, eq_iff m.id x, eq_iff x m.id, any-same_id x ms)

distinct-append :
    (xs ys : List WidgetMessage)
    → distinct (ids xs) ≡ true
    → distinct (ids ys) ≡ true
    → ((x : String) → includes x (ids xs) ≡ true → includes x (ids ys) ≡ false)
    → distinct (ids (xs ++ ys)) ≡ true
distinct-append [] ys h k apart = k
distinct-append (m ∷ xs) ys h k apart = ground (
  arith,
  includes-append m.id xs ys,
  apart m.id,
  eq_iff m.id m.id,
  distinct-append xs ys (ground arith) k (λ x e. apart x (ground arith)),
)

append_unique-distinct :
    (ms : List WidgetMessage) (m : WidgetMessage)
    → distinct (ids ms) ≡ true
    → distinct (ids (append_unique ms m)) ≡ true
unfolding append_unique
append_unique-distinct ms m h = elim (Bool-cases (any (same_id m.id) ms)) [
  | inl shown ↦ ground arith
  | inr new ↦ ground (
    arith,
    distinct-append ms (m ∷ []) h refl (λ x e. ground (arith, any-same_id m.id ms, eq_iff x m.id)),
  )
]

pending-includes :
    (listed : List String) (counts : Counts) (ms : List WidgetMessage) (x : String)
    → includes x (ids (pending listed counts ms)) ≡ true
    → (includes x (ids ms) ≡ true) × (includes x listed ≡ false)
unfolding pending
pending-includes listed counts [] x e = ground arith
pending-includes listed counts (m ∷ ms) x e = ground (
  arith,
  eq_iff x m.id,
  pending-includes listed counts ms x,
  pending-includes listed (set_count m.body (counts m.body - 1) counts) ms x,
)

pending-distinct :
    (listed : List String) (counts : Counts) (ms : List WidgetMessage)
    → distinct (ids ms) ≡ true
    → distinct (ids (pending listed counts ms)) ≡ true
unfolding pending
pending-distinct listed counts [] h = refl
pending-distinct listed counts (m ∷ ms) h = ground (
  arith,
  pending-includes listed counts ms m.id,
  pending-distinct listed counts ms,
  pending-distinct listed (set_count m.body (counts m.body - 1) counts) ms,
)

reconcile_messages-distinct :
    (existing incoming : List WidgetMessage)
    → distinct (ids existing) ≡ true
    → distinct (ids incoming) ≡ true
    → distinct (ids (reconcile_messages existing incoming)) ≡ true
unfolding reconcile_messages
reconcile_messages-distinct existing incoming h k =
    let counts = persisted_visitor_body_counts incoming (λ b. 0) in
    distinct-append incoming (pending (ids incoming) counts existing) k
      (pending-distinct (ids incoming) counts existing h)
      (λ x e. ground (arith, pending-includes (ids incoming) counts existing x))

-- The actions one after another.
unfoldable pub run : WidgetModel → List WidgetAction → WidgetModel
run m [] = m
run m (a ∷ actions) = run (reduce m a) actions

-- A transcript from the server lists no id twice.
abbrev pub FromServer : WidgetAction → Type 0
FromServer (messages_synced transcript) = distinct (ids transcript) ≡ true
FromServer (restart chat_id customer_name transcript) = distinct (ids transcript) ≡ true
FromServer _ = Unit

reduce-distinct :
    (m : WidgetModel) (a : WidgetAction)
    → FromServer a
    → distinct (ids m.messages) ≡ true
    → distinct (ids (reduce m a).messages) ≡ true
unfolding reduce
reduce-distinct m (message_received x) s h = append_unique-distinct m.messages x h
reduce-distinct m (message_sent x) s h = append_unique-distinct m.messages x h
reduce-distinct m (messages_synced t) s h = reconcile_messages-distinct m.messages t h s
reduce-distinct m (restart c n t) s h = s
reduce-distinct m (chat_created c n x) s h = refl
reduce-distinct m a s h = h

-- Whatever actions the widget takes, with transcripts that list no id twice, it never shows two
-- messages with one id.
pub run-distinct :
    (m : WidgetModel) (actions : List WidgetAction)
    → All FromServer actions
    → distinct (ids m.messages) ≡ true
    → distinct (ids (run m actions).messages) ≡ true
unfolding run
run-distinct m [] s h = h
run-distinct m (a ∷ actions) (s, ss) h =
    run-distinct (reduce m a) actions ss (reduce-distinct m a s h)

append_unique-any :
    (ms : List WidgetMessage) (x : WidgetMessage) → any (same_id x.id) (append_unique ms x) ≡ true
unfolding append_unique
append_unique-any ms x = elim (Bool-cases (any (same_id x.id) ms)) [
  | inl shown ↦ ground arith
  | inr new ↦ ground (arith, any-append (same_id x.id) ms (x ∷ []), eq_iff x.id x.id)
]

append_unique-shown :
    (ms : List WidgetMessage) (y : WidgetMessage)
    → any (same_id y.id) ms ≡ true
    → append_unique ms y ≡ ms
unfolding append_unique
append_unique-shown ms y h = rw h refl

append_unique-twice :
    (ms : List WidgetMessage) (x y : WidgetMessage)
    → y.id ≡ x.id
    → append_unique (append_unique ms x) y ≡ append_unique ms x
append_unique-twice ms x y e =
    append_unique-shown (append_unique ms x) y (rw e (append_unique-any ms x))

-- A message that the socket delivers again, or echoes after the widget showed it, changes nothing.
pub redelivered :
    (m : WidgetModel) (x y : WidgetMessage)
    → y.id ≡ x.id
    → (reduce (reduce m (message_received x)) (message_received y) ≡ reduce m (message_received x))
      × (reduce (reduce m (message_sent x)) (message_received y) ≡ reduce m (message_sent x))
unfolding reduce
redelivered m x y e =
    let twice = append_unique-twice m.messages x y e in
    (ap (λ ms. record m { messages = ms }) twice, ap (λ ms. record m { messages = ms }) twice)
