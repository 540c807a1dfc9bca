-- ===== src/Widget/Sync.antt =====
-- widget/src/state-machine.ts: what a reconnect keeps of the messages in flight.
use livechat.Prelude.{
  ℕ, suc, ◌+◌, ◌-◌, String, ◌≡◌, Bool, true, not, ◌&&◌, List, [], ◌∷◌, ◌++◌, arith, eq_iff, ◌==◌,
  includes, if◌then◌else◌,
}
use livechat.Shared.{is_visitor}
use livechat.Widget.{
  WidgetMessage, Counts, set_count, persisted_visitor_body_counts, is_local, ids, pending,
  reconcile_messages,
}

abbrev pub count : (WidgetMessage → Bool) → List WidgetMessage → ℕ
count p [] = 0
count p (m ∷ ms) = (if p m then 1 else 0) + count p ms

-- A message of the visitor that reads `body`.
abbrev pub said : String → WidgetMessage → Bool
said body m = is_visitor m.sender_kind && body == m.body

-- Such a message that the widget shows and the server's transcript does not list.
abbrev pub in_flight : List String → String → WidgetMessage → Bool
in_flight listed body m = is_local m && not (includes m.id listed) && said body m

count-append :
    (p : WidgetMessage → Bool) (xs ys : List WidgetMessage)
    → count p (xs ++ ys) ≡ count p xs + count p ys
count-append p [] ys = omega arith
count-append p (x ∷ xs) ys = omega (arith, count-append p xs ys)

persisted-count :
    (body : String) (incoming : List WidgetMessage) (counts : Counts)
    → persisted_visitor_body_counts incoming counts body ≡ counts body + count (said body) incoming
unfolding persisted_visitor_body_counts
persisted-count body [] counts = omega arith
persisted-count body (m ∷ incoming) counts = ground (
  arith,
  eq_iff body m.body,
  persisted-count body incoming counts,
  persisted-count body incoming (set_count m.body (suc (counts m.body)) counts),
)

count-pending :
    (listed : List String) (body : String) (counts : Counts) (existing : List WidgetMessage)
    → count (in_flight listed body) (pending listed counts existing)
      ≡ count (in_flight listed body) existing - counts body
unfolding pending
count-pending listed body counts [] = omega arith
count-pending listed body counts (m ∷ existing) = ground (
  arith,
  eq_iff body m.body,
  count-pending listed body counts existing,
  count-pending listed body (set_count m.body (counts m.body - 1) counts) existing,
)

includes_self : (x : String) → includes x (x ∷ []) ≡ true
includes_self x = ground (arith, eq_iff x x)

-- A listed message is not in flight.
count-in_flight :
    (listed : List String) (body : String) (ms : List WidgetMessage)
    → ((x : String) → includes x (ids ms) ≡ true → includes x listed ≡ true)
    → count (in_flight listed body) ms ≡ 0
count-in_flight listed body [] h = omega arith
count-in_flight listed body (m ∷ ms) h =
    let here = includes_self m.id in
    ground (
      arith,
      h m.id,
      eq_iff m.id m.id,
      count-in_flight listed body ms (λ x e. h x (ground (arith, eq_iff x m.id))),
    )

-- After a reconnect the widget still shows, of the visitor's messages with one text that the server
-- does not list by id, as many as there were beyond the server's own messages with that text: a text
-- sent twice and stored once leaves one bubble in flight.
pub count-reconcile_messages :
    (body : String) (existing incoming : List WidgetMessage)
    → count (in_flight (ids incoming) body) (reconcile_messages existing incoming)
      ≡ count (in_flight (ids incoming) body) existing - count (said body) incoming
unfolding reconcile_messages
count-reconcile_messages body existing incoming = omega (
  arith,
  count-append (in_flight (ids incoming) body) incoming
      (pending (ids incoming) (persisted_visitor_body_counts incoming (λ b. 0)) existing),
  count-in_flight (ids incoming) body incoming (λ x e. e),
  persisted-count body incoming (λ b. 0),
  count-pending (ids incoming) body (persisted_visitor_body_counts incoming (λ b. 0)) existing,
)

-- A second reconnect with the same transcript counts the server's messages against those in flight
-- once more.
pub count-reconcile_messages_twice :
    (body : String) (existing incoming : List WidgetMessage)
    → count
        (in_flight (ids incoming) body)
        (reconcile_messages (reconcile_messages existing incoming) incoming)
      ≡ count (in_flight (ids incoming) body) existing
        - count (said body) incoming
        - count (said body) incoming
count-reconcile_messages_twice body existing incoming = omega (
  arith,
  count-reconcile_messages body existing incoming,
  count-reconcile_messages body (reconcile_messages existing incoming) incoming,
)
