-- ===== src/Router/Tests.antt =====
-- A request in two chunks, and the theorems applied to it.
use tsdproxy.Common.{◌≡◌, refl, [], ◌∷◌, ◌++◌, Option, none, some, Text}
use tsdproxy.Strings.{codes, has_prefix, trim_space}
use tsdproxy.Router.Sniff.{
  Reader, read_some, round, end_of_headers, index_of, until_eol, http_loop, http_host_header,
  http_host_header_from_bytes, route_http_host, sniff,
}
use tsdproxy.Router.Replay.{IsReplayed, sniff-IsReplayed}
use tsdproxy.Router.Listeners.{
  PortRouter, new_port_router, register, Reach, starts, arrives, moves, registers, handle_conn,
}
use tsdproxy.Router.Invariant.{IsSound}
use tsdproxy.Router.Conservation.{Reach-IsSound}

-- No port in the host, and the host of a request as the scan finds it.
abbrev no_port : Text → Option Text
no_port a = none

abbrev scanned : Text → Option Text
scanned b = some (http_host_header_from_bytes b)

abbrev no_hello : Text → Text
no_hello b = []

abbrev request : Reader
request = record {
  buffered = [];
  chunks =
      (codes "GET /" ++ 13 ∷ 10 ∷ codes "Ho")
      ∷ (codes "st: web" ++ 13 ∷ 10 ∷ 13 ∷ 10 ∷ codes "body")
      ∷ [];
}

finds_host :
    sniff no_port scanned no_hello route_http_host request
    ≡ some (
      codes "web",
      record {
        buffered = codes "GET /" ++ 13 ∷ 10 ∷ codes "Host: web" ++ 13 ∷ 10 ∷ 13 ∷ 10 ∷ codes "body";
        chunks = [];
      },
    )
unfolding sniff http_host_header http_loop read_some round end_of_headers index_of until_eol
    http_host_header_from_bytes has_prefix trim_space
finds_host = refl

sniff-IsReplayed_example :
    IsReplayed no_port scanned no_hello request
      (sniff no_port scanned no_hello route_http_host request)
sniff-IsReplayed_example = sniff-IsReplayed no_port scanned no_hello route_http_host request

abbrev with_web : PortRouter
with_web = (register (codes "web") new_port_router).1

reached :
    Reach no_port scanned no_hello route_http_host
      (7 ∷ [])
      (handle_conn no_port scanned no_hello route_http_host 7 request with_web)
reached =
    arrives [] with_web 7 request
      (moves [] new_port_router with_web starts (registers (codes "web") refl)) refl

Reach-IsSound_example :
    IsSound (7 ∷ []) (handle_conn no_port scanned no_hello route_http_host 7 request with_web)
Reach-IsSound_example =
    Reach-IsSound no_port scanned no_hello route_http_host (7 ∷ [])
      (handle_conn no_port scanned no_hello route_http_host 7 request with_web) reached
