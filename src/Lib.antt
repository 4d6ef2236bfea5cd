-- ===== src/Lib.antt =====
-- tsdproxy makes the services of Docker, Incus and Proxmox hosts, and those of a list, known in a
-- Tailscale network, one proxy per service. This library models the parts of it that decide, and states
-- what they promise.
--
-- The parts, and how they interact:
--   * A target provider turns the labels of a container into ports. Port is internal/model/port.go:
--     `NewPortLongLabel`, `NewPortShortLabel` (Port/Defs), `ExpandPortRangeLabel` and its like
--     (Port/Range), `ApplyPortOptions` and `Ports` (Port/Options).
--   * The manager makes a proxy of a target's configuration and removes it again. Manager is
--     internal/proxymanager/proxymanager.go and events.go, Manager/Registry and Manager/Certificates are
--     providers.go of the same directory. Manager/Watch is the stream of a target provider's events.
--   * A proxy has a status, a history of it and a handler per port. Proxy is
--     internal/proxymanager/proxy.go and proxyports.go, with the statuses of internal/model/status.go.
--   * A health checker probes the first target of a proxy and asks for it to be resolved again. Health is
--     internal/proxymanager/health.go.
--   * The lines that a proxy logs are kept in a ring and sent to the dashboard. LogBuffer is
--     internal/proxymanager/logbuffer.go.
--   * The configuration is checked before anything starts. Config is internal/config/validator.go, and
--     Config/Modes the checks of internal/model/proxyconfig.go.
--   * Who a request comes from is decided by its address, its connection and, for the requests that a proxy
--     forwards to the management server, by headers with a secret. Access is internal/core/admin.go
--     (Access/Admin), `proxyRewrite` of internal/proxymanager/port_http.go (Access/Forward), the addresses
--     of internal/model/whois.go (Access/Addresses) and the names of internal/consts/proxymanager.go
--     (Access/Headers).
--   * The operations on one host name are serialized by a lock for the name. Locks is
--     internal/proxymanager/locks.go, with a specification of it in Locks/Spec.
--   * A proxy with a domain of its own gets a DNS record and a certificate. Domain/Lifecycle is
--     internal/lifecycle and the lifecycle managers of internal/dnsproviders and internal/tlsproviders,
--     Domain/Setup and Domain/Choice are internal/proxymanager/domain.go.
--   * Domains that share a port are told apart by the first bytes of a connection. Router is
--     internal/proxyproviders/tailscale/port_router.go and virtual_listener.go.
--   * Who is behind a Tailscale address is remembered for a while. WhoisCache is
--     internal/proxyproviders/tailscale/whois_cache.go.
--   * A UDP port keeps a session for each client. Udp is internal/proxymanager/port_udp.go.
--   * The requests of each client are limited. RateLimit is internal/proxymanager/ratelimit.go, its table
--     of clients; the limiters are golang.org/x/time/rate's, of a type `L`.
--   * The calls of a DNS provider are retried. Retry is internal/dnsproviders/retry.go.
--   * Common has the shared helpers: tests on numbers, lists, equality as an interface, errors as values
--     (`Result` for a Go function that also returns an error) and Go maps as association lists. Strings
--     has the functions of Go's `strings` and `strconv` that the parts call.
--
-- How the code is read:
--   * A method that changes its receiver is a function from the state to the state, with the results
--     beside it. What runs under a lock is one step; what other goroutines may do in between is a
--     sequence of steps of its own, so the statements on `run` hold of every order of such steps. The calls of
--     `onUpdate`, which `setStatus` makes behind its lock, and the end of a proxy's `Start` are such steps. Locks,
--     Router and Udp have the steps as a relation, and what can come of them as `Reach`.
--   * A `range` over a map goes through the entries in the list's order, which no statement fixes.
--   * Texts are lists of bytes. Letters are compared without case in ASCII only.
--   * An `int` or a `time.Duration` of 64 bits is an integer that wraps around where the code can reach
--     the bounds: `int64` in Health, `atoi` in Strings. Times are numbers of nanoseconds.
--   * The code of other packages is a parameter: `parse_url` for net/url, `struct_ok` for
--     go-playground/validator, `is_positive` for `time.ParseDuration`, `create`, `new_acme` and `solves`
--     for the makers of providers (`create` is `New` of internal/proxyproviders/tailscale/provider.go, whose files
--     and keys are not modelled), `split_host`, `parse_ip`, `parse_host` and `read_request` for the parsers of
--     net, net/url and net/http, `hello_name` for crypto/tls. What a provider, a probe or a listener
--     answers is an argument of the step. In Domain the providers are an interface, `DnsProvider` and
--     `TlsProvider`, with the documented effect of a deletion as the law `Records`.
--   * The names of HTTP headers, which net/http compares in one canonical form, are written in small letters.
--   * A pointer to a mutex, a listener or a socket is a number.
--
-- Bounds and fuel: the loops go through lists or down a number that the source counts up to, so they end
-- without fuel, but `digits` of Strings, the digits of a number, which has the number and one more as
-- fuel, since each round divides by ten, and `http_loop` of Router/Sniff, which has two more than the
-- reads that the connection can give. The ring has the size that it is made with, a status history 5
-- entries, a label's range 1000 ports, the backoff of a health checker 24 hours, that of a retry 30
-- seconds, that of a reconnection 5 minutes, the table of a rate limiter 4096 clients, the sessions of a
-- UDP port 1024, the queue of a listener 64 connections.
--
-- Not modelled: the servers behind the ports but for the headers and sessions above, the dashboard, the API
-- and the web pages, the webhooks, the metrics and the log messages, the clients of Docker, Incus,
-- Proxmox, Tailscale and Cloudflare, and the reading of files: they are input and output, or calls of
-- libraries. The node life cycle of the Tailscale provider is left out.
pub mod Access
pub mod Locks
pub mod Domain
pub mod Router
pub mod Udp
pub mod WhoisCache
pub mod Common
pub mod Config
pub mod Strings
pub mod Port
pub mod LogBuffer
pub mod Manager
pub mod Health
pub mod Proxy
pub mod RateLimit
pub mod Retry
