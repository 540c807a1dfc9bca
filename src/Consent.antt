-- ===== src/Consent.antt =====
-- Visitor consent: the jurisdiction policy (api/src/services/consent-policy.ts) and the records and
-- requests that rest on it (api/src/services/consent-service.ts).
pub mod Policy
pub mod Records
pub mod Service
mod Tests
