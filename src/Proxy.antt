-- ===== src/Proxy.antt =====
-- internal/proxymanager/proxy.go and proxyports.go: the lifecycle of one proxy.
--
-- `opMu` serializes the lifecycle operations; events of the provider come at any moment between their
-- locked parts, so an operation that releases `mtx` takes the events that arrive meanwhile as input.
-- A port's server fails between the operations here.
-- `Start` is one operation here, though it gives `opMu` back before it makes the listeners.
-- The provider's answers are inputs too. Metrics and log lines are left out.
pub mod Defs
pub mod Lifecycle
pub mod Status
pub mod Operations
pub mod Transitions
pub mod Resumption
mod Tests
