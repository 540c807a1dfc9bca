-- ===== src/Models.antt =====
-- api/src/models: the rows of the visitor and chat tables. Ids are the UUID texts and instants are
-- milliseconds. A nullable column is an `Option`. The columns that only the database reads (`inc`,
-- `updated_at`) are left out.
use livechat.Prelude.{
  ℕ, String, Bool, true, false, not, ◌&&◌, Option, List, map, filter, includes, ◌==◌, find, update,
  is_null,
}
use livechat.Shared.{ChatStatus, ChatInitiatedBy, MessageSenderKind, VisitorStatus}

pub record Chat : Type 0 where
  pub id : String
  pub tenant_id : String
  pub visitor_session_id : String
  pub assigned_to : Option String
  pub initiated_by : ChatInitiatedBy
  pub status : ChatStatus
  pub customer_name : Option String
  pub customer_email : Option String
  pub started_at : ℕ
  pub ended_at : Option ℕ
  pub created_at : ℕ

pub record ChatMessage : Type 0 where
  pub id : String
  pub chat_id : String
  pub sender_kind : MessageSenderKind
  pub sender_user_id : Option String
  pub body : String
  pub delivered_at : ℕ
  pub read_at : Option ℕ

pub record VisitorSession : Type 0 where
  pub id : String
  pub tenant_id : String
  pub session_cookie_hash : String
  pub identity_token_sub : Option String
  pub user_agent : Option String
  pub ip_address : Option String
  pub country : Option String
  pub city : Option String
  pub language : Option String
  pub current_url : Option String
  pub referrer : Option String
  pub status : VisitorStatus
  pub first_seen_at : ℕ
  pub last_seen_at : ℕ

pub data TenantStatus : Type 0 where
  active suspended archived : TenantStatus

abbrev pub is_active_tenant : TenantStatus → Bool
is_active_tenant TenantStatus.active = true
is_active_tenant _ = false

-- `settings` is the text of the JSON column; a soft delete sets `deleted_at`.
pub record Tenant : Type 0 where
  pub id : String
  pub name : String
  pub slug : String
  pub domain : Option String
  pub status : TenantStatus
  pub expires_at : Option ℕ
  pub settings : Option String
  pub embed_secret : String
  pub allowed_origins : Option (List String)
  pub deleted_at : Option ℕ

-- What every query of a paranoid model adds.
abbrev pub is_present : Tenant → Bool
is_present t = is_null t.deleted_at

-- `Tenant.findOne({ where: { slug } })`
abbrev pub has_slug : String → Tenant → Bool
has_slug slug t = is_present t && t.slug == slug

-- `Tenant.findByPk`
abbrev pub tenant_by_id : String → Tenant → Bool
tenant_by_id id t = is_present t && t.id == id

-- The tables that the chat and visitor services share.
pub record Store : Type 0 where
  pub visitor_sessions : List VisitorSession
  pub chats : List Chat
  pub messages : List ChatMessage

abbrev pub has_id : String → Chat → Bool
has_id id c = c.id == id

abbrev pub find_chat : String → Store → Option Chat
find_chat id db = find (has_id id) db.chats

-- `chat.save()`: the changed columns of the row with the chat's id.
abbrev pub save_chat : String → (Chat → Chat) → Store → Store
save_chat id f db = record db { chats = update (has_id id) f chats }
  where
    open db use {chats}

-- The ids of the chats of some sessions.
abbrev pub chat_ids_of : List String → Store → List String
chat_ids_of session_ids db =
    map (λ c. c.id) (filter (λ c. includes c.visitor_session_id session_ids) db.chats)

-- The hard delete of visitor sessions, by their primary keys: ON DELETE CASCADE takes their chats,
-- and with those the messages.
unfoldable pub destroy_sessions : List String → Store → Store
destroy_sessions session_ids db = record {
  visitor_sessions = filter (λ s. not (includes s.id session_ids)) db.visitor_sessions;
  chats = filter (λ c. not (includes c.visitor_session_id session_ids)) db.chats;
  messages = filter (λ m. not (includes m.chat_id (chat_ids_of session_ids db))) db.messages;
}
