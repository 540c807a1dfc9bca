-- ===== src/Gate/Chats/Tests.antt =====
-- A visitor's transcript at concrete inputs, and the theorem on it.
use livechat.ApiError.{err, ApiError}
use livechat.Prelude.{String, ◌≡◌, ◌⊎◌, none, some, [], ◌∷◌}
use livechat.Shared.{ChatStatus, customer, MessageSenderKind}
use livechat.Models.{Chat, ChatMessage, VisitorSession}
use livechat.Gate.Tests.{deps, fresh, browser, ann, db}
use livechat.Gate.Chats.{Web, post_transcript}
use livechat.Gate.Chats.Transcript.{SendsOwn, post_transcript-own}

abbrev chat : Chat
chat = record {
  id = "c1";
  tenant_id = "t1";
  visitor_session_id = "v1";
  assigned_to = none;
  initiated_by = customer;
  status = ChatStatus.pending;
  customer_name = some "Ann";
  customer_email = none;
  started_at = 6;
  ended_at = none;
  created_at = 6;
}

abbrev hello : ChatMessage
hello = record {
  id = "m1";
  chat_id = "c1";
  sender_kind = MessageSenderKind.visitor;
  sender_user_id = none;
  body = "hello";
  delivered_at = 6;
  read_at = none;
}

abbrev web : Web
web = record {
  store = record db {
    tables = record { visitor_sessions = ann ∷ []; chats = chat ∷ []; messages = hello ∷ [] };
  };
  redis = record {
    status = λ _. none;
    available_set = λ _. [];
    conn_expires = λ _. 0;
    visitors = λ _. [];
    visitors_expire = λ _. 0;
    visitor_tenants = [];
  };
  mails = [];
}

post_transcript-own_example :
    ((e : ApiError) × (post_transcript deps fresh browser "c1" "ann@example.org" web
        ≡ (err e, web)))
    ⊎ ((cookie : String) × (session : VisitorSession) × (c : Chat) × SendsOwn deps fresh browser
          "c1" "ann@example.org" web cookie session c)
post_transcript-own_example = post_transcript-own deps fresh browser "c1" "ann@example.org" web
