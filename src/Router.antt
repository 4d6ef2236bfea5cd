-- ===== src/Router.antt =====
-- The ports that several domains share: internal/proxyproviders/tailscale/port_router.go and
-- virtual_listener.go. A connection is sent to the listener of the host that its first bytes name.
pub mod Sniff
pub mod Replay
pub mod Listeners
pub mod Counting
pub mod Invariant
pub mod Conservation
mod Tests
