-- ===== src/Port.antt =====
-- internal/model/port.go: the port labels of a proxy. A label is parsed into a `PortConfig`; a port
-- range is expanded into one `PortConfig` for each port.
--
-- `net/url` is a parameter: `parse_url` is `url.Parse`, and a `Url` has what the sources read of a
-- `*url.URL`. The shared `*targetState` of a `PortConfig` is the field `targets` (`none` is nil).
pub mod Defs
pub mod Range
pub mod Labels
pub mod RoundTrip
pub mod Expansion
pub mod Options
mod Tests
