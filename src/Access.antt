-- ===== src/Access.antt =====
-- Who may do what: the identity of a request on its way through a proxy port to tsdproxy's own pages.
-- Addresses are in Access/Addresses (internal/model/whois.go and the networks of
-- internal/core/admin.go), the forwarding in Access/Forward (internal/proxymanager/port_http.go), the
-- checks in Access/Admin (internal/core/admin.go).
-- The name of a header is kept in lower case, which stands for net/http's canonical form.
pub mod Addresses
pub mod Headers
pub mod Forward
pub mod Admin
pub mod Networks
pub mod Roles
pub mod Agreement
pub mod Spoofing
mod Tests
