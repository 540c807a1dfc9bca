-- ===== src/Widget.antt =====
-- widget/src/state-machine.ts and widget/src/types.ts: the state of the embedded widget and its
-- reducer. A time stamp is a number.
pub mod Effects
pub mod Sync
mod Tests
use livechat.Prelude.{
  ℕ, zero, suc, ◌-◌, String, Bool, true, false, not, ◌&&◌, ◌||◌, Option, none, some, List, [], ◌∷◌,
  ◌++◌, map, any, filter, includes, ltb, ◌==◌, starts_with, if◌then◌else◌,
}
use livechat.Shared.{MessageSenderKind, is_visitor}

pub data WidgetState : Type 0 where
  initial invitation customer_initiated no_support support_initiated active ended restart :
      WidgetState

pub record WidgetMessage : Type 0 where
  pub id : String
  pub body : String
  pub sender_kind : MessageSenderKind
  pub delivered_at : ℕ

pub record WidgetModel : Type 0 where
  pub state : WidgetState
  pub is_open : Bool
  pub chat_id : Option String
  pub customer_name : String
  pub messages : List WidgetMessage
  pub error_message : Option String
  pub support_available : Bool

unfoldable pub initial_model : WidgetModel
initial_model = record {
  state = WidgetState.initial;
  is_open = false;
  chat_id = none;
  customer_name = "";
  messages = [];
  error_message = none;
  support_available = false;
}

pub data WidgetAction : Type 0 where
  open_panel close_panel : WidgetAction
  support_available : Bool → WidgetAction
  chat_created : String → String → WidgetMessage → WidgetAction
  chat_created_no_support : String → WidgetAction
  support_initiated : String → WidgetAction
  support_accepted : WidgetAction
  message_received message_sent : WidgetMessage → WidgetAction
  messages_synced : List WidgetMessage → WidgetAction
  chat_ended_by_support chat_ended_by_customer : WidgetAction
  restart : String → String → List WidgetMessage → WidgetAction
  restart_resumed : WidgetAction
  error : String → WidgetAction

abbrev pub same_id : String → WidgetMessage → Bool
same_id id m = m.id == id

unfoldable pub append_unique : List WidgetMessage → WidgetMessage → List WidgetMessage
append_unique messages message =
    if any (same_id message.id) messages then messages else messages ++ message ∷ []

-- `persistedVisitorBodyCounts`: how many times a body is still to be matched.
abbrev pub Counts : Type 0
Counts = String → ℕ

abbrev pub set_count : String → ℕ → Counts → Counts
set_count body n counts b = if b == body then n else counts b

unfoldable pub persisted_visitor_body_counts : List WidgetMessage → Counts → Counts
persisted_visitor_body_counts [] counts = counts
persisted_visitor_body_counts (m ∷ incoming) counts =
    persisted_visitor_body_counts incoming
      (if is_visitor m.sender_kind then set_count m.body (suc (counts m.body)) counts else counts)

abbrev pub is_local : WidgetMessage → Bool
is_local m = starts_with m.id "local-"

abbrev pub ids : List WidgetMessage → List String
ids = map (λ m. m.id)

-- The loop over `existing` that collects `pending`.
unfoldable pub pending : List String → Counts → List WidgetMessage → List WidgetMessage
pending incoming_ids counts [] = []
pending incoming_ids counts (m ∷ existing) =
    let rest = pending incoming_ids counts existing in
    let retired = pending incoming_ids (set_count m.body (counts m.body - 1) counts) existing in
    if not (is_local m) || includes m.id incoming_ids
    then rest
    else if is_visitor m.sender_kind && ltb 0 (counts m.body)
    then retired
    else m ∷ rest

unfoldable pub reconcile_messages : List WidgetMessage → List WidgetMessage → List WidgetMessage
reconcile_messages existing incoming =
    incoming ++ pending (ids incoming) (persisted_visitor_body_counts incoming (λ b. 0)) existing

unfoldable pub reduce : WidgetModel → WidgetAction → WidgetModel
unfolding initial_model
reduce m open_panel = record m { is_open = true; error_message = none }
reduce m close_panel = record m { is_open = false }
reduce m (WidgetAction.support_available available) = record m { support_available = available }
reduce m (chat_created chat_id customer_name first_message) = record m {
  state = active;
  chat_id = some chat_id;
  customer_name = customer_name;
  messages = first_message ∷ [];
  error_message = none;
}
reduce m (chat_created_no_support customer_name) = record m {
  state = no_support;
  customer_name = customer_name;
}
reduce m (WidgetAction.support_initiated chat_id) = record m {
  state = WidgetState.support_initiated;
  chat_id = some chat_id;
  is_open = true;
}
reduce m support_accepted = record m { state = active }
reduce m (message_received message) =
    let messages = append_unique m.messages message in record m { messages = messages }
reduce m (message_sent message) =
    let messages = append_unique m.messages message in record m { messages = messages }
reduce m (messages_synced transcript) =
    let messages = reconcile_messages m.messages transcript in record m { messages = messages }
reduce m chat_ended_by_support = record m { state = ended }
reduce m chat_ended_by_customer = record m { state = ended }
reduce m (WidgetAction.restart chat_id customer_name messages) = record initial_model {
  state = WidgetState.restart;
  is_open = true;
  chat_id = some chat_id;
  customer_name = customer_name;
  messages = messages;
}
reduce m restart_resumed = record m { state = active }
reduce m (error message) = record m { error_message = some message }
