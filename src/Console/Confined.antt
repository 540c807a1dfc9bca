-- ===== src/Console/Confined.antt =====
-- api/src/routes/chats.ts: what a staff member reaches.
use livechat.ApiError.{ok, err}
use livechat.Prelude.{ℕ, String, ◌≡◌, subst, Option, inl, inr, some, List, All, arith}
use livechat.Prelude.Action.{ok_injective, Result-cases}
use livechat.Shared.{ChatStatus, ChatInitiatedBy, MessageSenderKind}
use livechat.Models.{Chat, Store, find_chat}
use livechat.Chat.{err_chat_forbidden}
use livechat.Chat.Access.{Owns, foreign_refused}
use livechat.Authorize.{require_staff_or_admin, resolve_tenant_filter, assert_tenant_access}
use livechat.Authorize.Confined.{list-confined}
use livechat.Admin.{AdminRequest, caller_of}
use livechat.Console.{
  staff_caller, get_chats_route, get_chat_route, get_messages_route, post_message_route,
  accept_route, end_route,
}

module _ (req : AdminRequest) (db : Store) where
  get_chats_route-confined :
      (asked : Option String) (status : Option ChatStatus) (chats : List Chat)
      → require_staff_or_admin (caller_of req) ≡ ok tt
      → (get_chats_route req asked status db).0 ≡ ok chats
      → All (λ chat. assert_tenant_access (caller_of req) (some chat.tenant_id) ≡ ok tt) chats
  unfolding get_chats_route
  get_chats_route-confined asked status chats passed answered =
      elim (Result-cases (resolve_tenant_filter (caller_of req) asked)) [
        | inl (e, h) ↦ ground arith
        | inr (tenant_id, h) ↦
            subst (All (λ chat. assert_tenant_access (caller_of req) (some chat.tenant_id) ≡ ok tt))
              (ok_injective (ground arith))
              (list-confined (caller_of req) asked tenant_id status db h)
      ]

  -- A staff member reaches no chat of a tenant that they may not access: whatever tenant and status
  -- they ask for, the list that is answered holds none, and reading such a chat or its messages,
  -- writing to it, accepting it and ending it are each answered with 403 and change nothing.
  pub chats_routes-confined :
      (asked : Option String) (status : Option ChatStatus) (chats : List Chat) (id : String)
      (chat : Chat) (now : ℕ) (message_id body : String) (ended_by : ChatInitiatedBy)
      → require_staff_or_admin (caller_of req) ≡ ok tt
      → (get_chats_route req asked status db).0 ≡ ok chats
      → find_chat id db ≡ some chat
      → ¬ Owns chat (staff_caller req)
      → All (λ c. assert_tenant_access (caller_of req) (some c.tenant_id) ≡ ok tt) chats
        × (get_chat_route req id db ≡ (err err_chat_forbidden, db))
        × (get_messages_route req id db ≡ (err err_chat_forbidden, db))
        × (post_message_route req now message_id id body db ≡ (err err_chat_forbidden, db))
        × (accept_route req id db ≡ (err err_chat_forbidden, db))
        × (end_route req now id ended_by db ≡ (err err_chat_forbidden, db))
  unfolding get_chat_route get_messages_route post_message_route accept_route end_route
  chats_routes-confined asked status chats id chat now message_id body ended_by passed answered
        found foreign =
      let (sent, ended, assigned, read) =
        foreign_refused id (staff_caller req) db chat now message_id req.user_id body
          MessageSenderKind.user (some req.user_id) ended_by found foreign in
      (
        get_chats_route-confined asked status chats passed answered,
        ground arith,
        ground arith,
        ground arith,
        ground arith,
        ground arith,
      )
