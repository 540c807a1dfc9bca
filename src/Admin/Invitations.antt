-- ===== src/Admin/Invitations.antt =====
-- api/src/routes/invitations.ts, with `list` of api/src/services/invitation-service.ts.
use livechat.Prelude.{ℕ, String, Bool, true, Option, none, some, List, [], ◌∷◌, ◌++◌, filter, same}
use livechat.Prelude.Action.{Action, gets}
use livechat.Auth.{Invitation, AuthStore, Libraries}
use livechat.Auth.Register.{CreateInvitationInput, create, revoke}
use livechat.Admin.{AdminRequest, AdminStore, on_accounts, admin_route}

abbrev pub invites_to : Option String → Invitation → Bool
invites_to none i = true
invites_to (some t) i = same i.tenant_id (some t)

abbrev pub newest_first : List Invitation → List Invitation
newest_first [] = []
newest_first (i ∷ rest) = newest_first rest ++ i ∷ []

-- The instant of its creation is no column of the model: the newest is the last inserted.
unfoldable pub list_invitations : Option String → AuthStore → List Invitation
list_invitations tenant_id db = newest_first (filter (invites_to tenant_id) db.invitations)

module _ (req : AdminRequest) where
  -- GET /invitations
  unfoldable pub get_invitations_route : Option String → Action AdminStore (List Invitation)
  unfolding admin_route
  get_invitations_route asked = admin_route req (gets (λ db. list_invitations asked db.accounts))

  -- POST /invitations
  unfoldable pub post_invitation_route :
      Libraries → ℕ → String → String → CreateInvitationInput → Action AdminStore Invitation
  unfolding admin_route
  post_invitation_route lib now id token body =
      admin_route req (on_accounts (create lib now id token body req.user_id))

  -- POST /invitations/:id/revoke
  unfoldable pub revoke_invitation_route : String → Action AdminStore (Unit {0})
  unfolding admin_route
  revoke_invitation_route id = admin_route req (on_accounts (revoke id))
