-- ===== src/Visitor/Retention.antt =====
-- api/src/services/data-retention-service.ts. The instants and the window are natural numbers; a
-- cutoff before the epoch, where nothing is expired, is the cutoff 0.
use livechat.Prelude.{
  ℕ, ◌-◌, ◌*◌, String, ◌≡◌, refl, inl, inr, Bool, true, false, not, ◌&&◌, List, [], ◌∷◌, map,
  length, filter, arith, includes, ltb, update, All, kept-All, Bool-cases,
}
use livechat.Models.{VisitorSession, Store, chat_ids_of, destroy_sessions}
use livechat.Visitor.Rows.{listed}
use livechat.Visitor.Pii.{
  has_pii, visitor_pii_nulls, IsAnonymous, visitor_pii_nulls-IsAnonymous, has_pii-IsAnonymous,
}

pub data RetentionStrategy : Type 0 where
  anonymize delete : RetentionStrategy

pub record PurgeParams : Type 0 where
  pub retention_days : ℕ
  pub strategy : RetentionStrategy
  pub now : ℕ

pub record PurgeResult : Type 0 where
  pub cutoff : ℕ
  pub strategy : RetentionStrategy
  pub anonymized : ℕ
  pub deleted : ℕ

abbrev pub ms_per_day : ℕ
ms_per_day = 24 * 60 * 60 * 1000

abbrev pub cutoff_of : PurgeParams → ℕ
cutoff_of params = params.now - params.retention_days * ms_per_day

-- `lastSeenAt < cutoff`
abbrev pub expired : PurgeParams → VisitorSession → Bool
expired params s = ltb s.last_seen_at (cutoff_of params)

-- The rows that an anonymizing run updates: expired, with a column of personal data left.
abbrev pub to_anonymize : PurgeParams → VisitorSession → Bool
to_anonymize params s = expired params s && has_pii s

abbrev pub expired_ids : PurgeParams → Store → List String
expired_ids params db = map (λ s. s.id) (filter (expired params) db.visitor_sessions)

unfoldable pub purge : PurgeParams → Store → RetentionStrategy → PurgeResult × Store
purge params db delete = (
  record {
    cutoff = cutoff_of params;
    strategy = delete;
    anonymized = 0;
    deleted = length (filter (expired params) db.visitor_sessions);
  },
  destroy_sessions (expired_ids params db) db,
)
purge params db anonymize =
    let rows = update (to_anonymize params) visitor_pii_nulls db.visitor_sessions in
    (
      record {
        cutoff = cutoff_of params;
        strategy = anonymize;
        anonymized = length (filter (to_anonymize params) db.visitor_sessions);
        deleted = 0;
      },
      record db { visitor_sessions = rows },
    )

unfoldable pub purge_expired_visitor_data : PurgeParams → Store → PurgeResult × Store
purge_expired_visitor_data params db = purge params db params.strategy

nothing_left :
    (params : PurgeParams) (ss : List VisitorSession)
    → length (filter (to_anonymize params) (update (to_anonymize params) visitor_pii_nulls ss)) ≡ 0
unfolding update visitor_pii_nulls
nothing_left params [] = refl
nothing_left params (s ∷ ss) = ground (arith, nothing_left params ss)

unexpired :
    (params : PurgeParams) (ids : List String) (ss : List VisitorSession)
    → All (λ s. expired params s ≡ true → includes s.id ids ≡ true) ss
    → length (filter (expired params) (filter (λ s. not (includes s.id ids)) ss)) ≡ 0
unexpired params ids [] h = refl
unexpired params ids (s ∷ ss) (k, h) = ground (arith, unexpired params ids ss h)

cleaned :
    (params : PurgeParams) (ss : List VisitorSession)
    → All
        (λ s. expired params s ≡ true → IsAnonymous s)
        (update (to_anonymize params) visitor_pii_nulls ss)
unfolding update visitor_pii_nulls
cleaned params [] = tt
cleaned params (s ∷ ss) = elim (Bool-cases (to_anonymize params s)) [
  | inl hit ↦ rw hit ((λ e. visitor_pii_nulls-IsAnonymous s), cleaned params ss)
  | inr kept ↦ rw kept ((λ e. has_pii-IsAnonymous s (ground arith)), cleaned params ss)
]

kept_live :
    (params : PurgeParams) (ids : List String) (ss : List VisitorSession)
    → All (λ s. expired params s ≡ true → includes s.id ids ≡ true) ss
    → All (λ s. expired params s ≡ false) (filter (λ s. not (includes s.id ids)) ss)
kept_live params ids [] h = tt
kept_live params ids (s ∷ ss) (k, h) = ground (arith, kept_live params ids ss h)

-- What a purge of `db` leaves, by each strategy.
abbrev pub Purged : PurgeParams → Store → RetentionStrategy → Store → Type 0
Purged params db delete after =
    All (λ s. expired params s ≡ false) after.visitor_sessions
    × All (λ c. includes c.visitor_session_id (expired_ids params db) ≡ false) after.chats
    × All (λ m. includes m.chat_id (chat_ids_of (expired_ids params db) db) ≡ false) after.messages
Purged params db anonymize after =
    All (λ s. expired params s ≡ true → IsAnonymous s) after.visitor_sessions
    × (after.chats ≡ db.chats)
    × (after.messages ≡ db.messages)

purged :
    (params : PurgeParams) (db : Store) (strategy : RetentionStrategy)
    → Purged params db strategy (purge params db strategy).1
unfolding purge destroy_sessions
purged params db delete = (
  kept_live params (expired_ids params db) db.visitor_sessions
      (listed (expired params) db.visitor_sessions),
  kept-All _ db.chats,
  kept-All _ db.messages,
)
purged params db anonymize = (cleaned params db.visitor_sessions, refl, refl)

again :
    (params : PurgeParams) (db : Store) (strategy : RetentionStrategy)
    → ((purge params (purge params db strategy).1 strategy).0.anonymized ≡ 0)
      × ((purge params (purge params db strategy).1 strategy).0.deleted ≡ 0)
unfolding purge destroy_sessions
again params db delete = (
  refl,
  unexpired params (expired_ids params db) db.visitor_sessions
      (listed (expired params) db.visitor_sessions),
)
again params db anonymize = (nothing_left params db.visitor_sessions, refl)

-- A purge by the delete strategy leaves no session that was last seen before the window, no chat of
-- such a session and no message of such a chat. By the anonymize strategy, such a session holds no
-- address, browser, place, page, referrer or identity any more, and the chats and messages stay as
-- they are, with the names that visitors gave.
pub purge-Purged :
    (params : PurgeParams) (db : Store)
    → Purged params db params.strategy (purge_expired_visitor_data params db).1
unfolding purge_expired_visitor_data
purge-Purged params db = purged params db params.strategy

-- A second purge of the same window finds nothing to do.
pub purge-again :
    (params : PurgeParams) (db : Store)
    → ((purge_expired_visitor_data params (purge_expired_visitor_data params db).1).0.anonymized
        ≡ 0)
      × ((purge_expired_visitor_data params (purge_expired_visitor_data params db).1).0.deleted ≡ 0)
unfolding purge_expired_visitor_data
purge-again params db = again params db params.strategy
