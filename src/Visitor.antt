-- ===== src/Visitor.antt =====
-- Visitors: the signed cookie, the sessions and their lifetimes, the personal data that is kept of
-- them and its disposal (api/src/services/visitor-cookie.ts, visitor-session-service.ts,
-- visitor-pii.ts, data-retention-service.ts and api/src/utils/pii-minimize.ts).
pub mod Cookie
pub mod Minimize
pub mod Pii
pub mod Retention
pub mod Rows
pub mod Session
pub mod Tests
