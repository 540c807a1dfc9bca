-- ===== src/Lib.antt =====
-- livechat: a model of the services of a multi-tenant chat product, with the theorems that they keep
-- to what they promise.
--
-- The program has a server (api), a widget that is embedded in a customer's site (widget), a console
-- for staff (ui) and the types that they share (shared). A visitor is a signed cookie; a visitor
-- session is created for it once tracking is permitted or a chat begins. Chats belong to a tenant and
-- to a visitor session. The consent service decides what may be tracked; the auth service keeps the
-- staff accounts and tokens; the presence service says whether anyone answers. The gate composes the
-- visitor's routes from consent, sessions and chats; the sockets compose chats, presence and the
-- rooms that events are sent to; the routes of administrators compose the services of users, tenants
-- and invitations with the checks of roles and tenants.
--
-- Which file models which part:
--   * Shared, Models: shared/src/schemas/*.ts and api/src/models/{chat,chat-message,
--     visitor-session}.ts: enumerations, rows, the tables as lists of rows, the cascade of a hard
--     delete. ApiError: api/src/utils/api-error.ts. ErrorHandler: api/src/middlewares/{error-handler,
--     not-found-handler}.ts.
--   * Chat: api/src/services/chat-service.ts. Every method is a function of that name in snake case;
--     `initiateByVisitor` is `initiate_by_visitor`. Chat/Access, Chat/Effects, Chat/Lifecycle,
--     Chat/Transcript, Chat/Kept, Chat/Replies and Chat/Resume hold the theorems; Chat/Lifecycle
--     states the abstract life of a chat and the step relation of the service's calls, Chat/Kept
--     adds the other services' writes to the same tables.
--   * Consent/Policy: api/src/services/consent-policy.ts. Consent/Records and Consent/Service:
--     api/src/models/consent-record.ts, api/src/services/consent-service.ts; Consent/Service/Requests
--     is `fulfilDataRequest`.
--   * Visitor: api/src/services/{visitor-pii,visitor-cookie,visitor-session-service,
--     data-retention-service}.ts and api/src/utils/pii-minimize.ts.
--   * Auth: api/src/models/{user,user-session,invitation}.ts,
--     api/src/services/{auth-service,tokens,invitation-service}.ts and the token check of
--     api/src/middlewares/authenticate.ts.
--   * Account: api/src/routes/auth.ts. Authorize: api/src/middlewares/authorize.ts. Admin:
--     api/src/routes/{admin-router,users,tenants,invitations}.ts, api/src/services/user-service.ts and
--     api/src/utils/audit.ts.
--   * Request: api/src/middlewares/{visitor-request,csrf}.ts and api/src/routes/{tenant-resolve,
--     geo-resolve,consent-request}.ts. Origins: api/src/middlewares/{cors,origin-allowed}.ts.
--     TenantService: api/src/services/tenant-service.ts.
--   * Gate: what of api/src/routes/visitor.ts creates or refreshes a session on consent; Gate/Banner:
--     api/src/routes/privacy.ts; Gate/Chats: the remaining handlers of api/src/routes/visitor.ts.
--   * Console: api/src/routes/{chats,visitor-sessions}.ts.
--   * Sockets: api/src/io/{availability,detach,rooms,types,staff-namespace,visitor-namespace}.ts. Io is
--     the state that one socket sees: the tables, Redis, the rooms of the socket and what was sent.
--   * Presence: api/src/services/{presence-service,support-hours}.ts.
--   * Widget: widget/src/{types,state-machine}.ts, with `handlers` as the clauses of `reduce`.
--   * Prelude: tests, lists, tables (find, update), orders, and `Action`, a call that reads and
--     writes the tables and may throw; what was written before a throw stays written.
--
-- Conventions. Instants are natural numbers of milliseconds (seconds for the lifetimes of Redis), ids
-- and tokens are texts, a nullable value is an `Option`. The clock, new ids, tokens and salts are
-- arguments of a call. Rows stand in the order of insertion; where SQL leaves the order of rows with
-- equal keys open, a descending `findOne` takes the last inserted. Every function is total by
-- structural recursion, so there is no fuel. Numbers do not overflow: counters and instants stay far
-- below 2^53.
--
-- Parameters stand for what is not the repository's code: the case conversion and splitting of texts,
-- regular expressions, `Intl`, HMAC, bcrypt, jsonwebtoken, the lookup of a country and the reading of
-- a tenant's schedule out of its settings. Two laws are asked of them: a password matches its own
-- hash, and splitting at a dot takes a signed cookie apart into its id and its hexadecimal signature.
--
-- A call of a service, a request and an event of a socket are one step each: steps that interleave
-- between their awaits are not modelled, and MySQL and Redis do not fail. Not modelled either: the
-- validation of bodies, rate limits, the console's pages, the widget's rendering and its calls of the
-- server, the order of a shutdown, e-mail texts, configuration, migrations and logging.
pub mod Account
pub mod Admin
pub mod ApiError
pub mod Auth
pub mod Authorize
pub mod Chat
pub mod Consent
pub mod Console
pub mod ErrorHandler
pub mod Gate
pub mod Models
pub mod Origins
pub mod Prelude
pub mod Presence
pub mod Request
pub mod Shared
pub mod Sockets
pub mod TenantService
pub mod Visitor
pub mod Widget
