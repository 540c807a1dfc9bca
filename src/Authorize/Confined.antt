-- ===== src/Authorize/Confined.antt =====
-- api/src/middlewares/authorize.ts with `list` of api/src/services/chat-service.ts: what a staff
-- member is shown.
use livechat.ApiError.{ok}
use livechat.Prelude.{
  String, ◌≡◌, refl, true, ◌&&◌, Option, none, some, List, [], ◌∷◌, arith, eq_iff, filter, All,
  All-filter, order_desc-All,
}
use livechat.Shared.{ChatStatus}
use livechat.Models.{Chat, Store}
use livechat.Chat.{matches_tenant, matches_status, list}
use livechat.Authorize.{
  Caller, caller_tenant_scope, within_scope, assert_tenant_access, filter_within,
  resolve_tenant_filter,
}

filter_within-scope :
    (scope requested tenant : Option String) (chat : Chat)
    → filter_within scope requested ≡ ok tenant
    → matches_tenant tenant chat ≡ true
    → within_scope scope (some chat.tenant_id) ≡ ok tt
filter_within-scope none requested tenant chat e h = refl
filter_within-scope (some scope) none tenant chat e h = ground (arith, eq_iff chat.tenant_id scope)
filter_within-scope (some scope) (some asked) tenant chat e h =
    ground (arith, eq_iff chat.tenant_id scope, eq_iff asked scope)

all_rows : (P : Chat → Type 0) (chats : List Chat) → ((c : Chat) → P c) → All P chats
all_rows P [] h = tt
all_rows P (c ∷ chats) h = (h c, all_rows P chats h)

-- Whatever tenant a staff member asks for, each chat in the list that is answered is one that they
-- may access: leaving the tenant out or asking for another never shows another tenant's chats.
pub list-confined :
    (caller : Option Caller) (requested tenant : Option String) (status : Option ChatStatus)
    (db : Store)
    → resolve_tenant_filter caller requested ≡ ok tenant
    → All
        (λ chat. assert_tenant_access caller (some chat.tenant_id) ≡ ok tt)
        (list (record { tenant_id = tenant; status = status }) db)
unfolding resolve_tenant_filter assert_tenant_access list
list-confined caller requested tenant status db e =
    order_desc-All _ (λ c. c.created_at)
      (filter (λ c. matches_tenant tenant c && matches_status status c) db.chats)
      (All-filter _ (λ c. matches_tenant tenant c && matches_status status c) db.chats
        (all_rows _ db.chats (λ c h.
          filter_within-scope (caller_tenant_scope caller) requested tenant c e (ground arith))))
