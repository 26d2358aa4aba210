-- ===== src/Policy.antt =====
-- internal/domain/policy: who may see and do what. `Types` is policy.go, `RouteClass` the decision
-- table, `Decide` the route gate (layer 1), `Freeze` the freeze exemption, `Redact` the field
-- redaction (layer 4) with the page gate.
pub mod Types
pub mod RouteClass
pub mod Decide
pub mod Freeze
pub mod Redact
pub mod Clock
pub mod Tests
