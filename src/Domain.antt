-- ===== src/Domain.antt =====
-- The set-up of a proxy's own domain: internal/lifecycle, the lifecycle managers of internal/dnsproviders and
-- internal/tlsproviders, and internal/proxymanager/domain.go.
pub mod Lifecycle
pub mod Setup
pub mod Outcome
pub mod Frame
pub mod Removal
pub mod Choice
mod Tests
