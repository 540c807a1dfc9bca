-- ===== src/Widget/Tests.antt =====
-- The widget's reducer at concrete inputs, and its theorems applied to them.
use livechat.Prelude.{◌≡◌, refl, true, List, [], ◌∷◌}
use livechat.Shared.{MessageSenderKind}
use livechat.Widget.{
  WidgetMessage, WidgetAction, initial_model, ids, chat_created, message_sent, pending,
  persisted_visitor_body_counts, messages_synced, restart_resumed, reconcile_messages,
}
use livechat.Widget.Sync.{count, in_flight, count-reconcile_messages}
use livechat.Widget.Effects.{distinct, run, run-distinct}

abbrev stored : WidgetMessage
stored = record {
  id = "m1";
  body = "hi";
  sender_kind = MessageSenderKind.visitor;
  delivered_at = 1;
}

abbrev first_copy : WidgetMessage
first_copy = record stored { id = "local-1" }

abbrev second_copy : WidgetMessage
second_copy = record stored { id = "local-2"; delivered_at = 2 }

abbrev session : List WidgetAction
session =
    chat_created "c1" "Ann" first_copy
    ∷ message_sent second_copy
    ∷ messages_synced (stored ∷ [])
    ∷ restart_resumed
    ∷ []

one_kept :
    reconcile_messages (first_copy ∷ second_copy ∷ []) (stored ∷ []) ≡ stored ∷ second_copy ∷ []
unfolding reconcile_messages pending persisted_visitor_body_counts
one_kept = refl

count-reconcile_messages_example :
    count
      (in_flight ("m1" ∷ []) "hi")
      (reconcile_messages (first_copy ∷ second_copy ∷ []) (stored ∷ []))
    ≡ 1
count-reconcile_messages_example =
    count-reconcile_messages "hi" (first_copy ∷ second_copy ∷ []) (stored ∷ [])

run-distinct_example : distinct (ids (run initial_model session).messages) ≡ true
unfolding initial_model
run-distinct_example = run-distinct initial_model session (tt, (tt, (refl, (tt, tt)))) refl
