-- ===== src/Router/Sniff.antt =====
-- How the host is read off a connection, and what of it is then still to be read:
-- `clientHelloServerName`, `httpHostHeader` and the sniffing part of `handleConn` of
-- internal/proxyproviders/tailscale/port_router.go.
use tsdproxy.Common.{
  ℕ, zero, suc, ◌+◌, ◌*◌, Bool, true, false, ◌&&◌, ◌||◌, List, [], ◌∷◌, ◌++◌, Option, none, some,
  ltb, leb, ◌==◌, if◌then◌else◌, length, take, drop, Text,
}
use tsdproxy.Strings.{codes, has_prefix, trim_space}

-- A connection behind a `bufio.Reader`: the buffered bytes, and what the next reads will give, until one
-- gives an error.
pub record Reader : Type 0 where
  pub buffered : Text
  pub chunks : List Text

abbrev pub tls_record_buf_size : ℕ
tls_record_buf_size = 16389

abbrev pub http_read_buf_size : ℕ
http_read_buf_size = 256

abbrev pub max_total : ℕ
max_total = 4096

-- `Read` of at most `n` bytes: the bytes, and whether there was an error.
unfoldable pub read_some : ℕ → Text → List Text → (Text × Bool) × Reader
read_some n [] [] = (([], true), record { buffered = []; chunks = [] })
read_some n [] (c ∷ cs) = ((take n c, false), record { buffered = drop n c; chunks = cs })
read_some n (b ∷ bs) cs =
    ((take n (b ∷ bs), false), record { buffered = drop n (b ∷ bs); chunks = cs })

-- What `Peek` of `n` bytes has buffered.
unfoldable pub fill : ℕ → Text → List Text → Reader
fill n b [] = record { buffered = b; chunks = [] }
fill n b (c ∷ cs) =
    let rest = fill n (b ++ c) cs in
    if leb n (length b) then record { buffered = b; chunks = c ∷ cs } else rest

abbrev pub peeked : ℕ → Reader → Option Text
peeked n r =
    if leb n (length r.buffered) && leb n tls_record_buf_size
    then some (take n r.buffered)
    else none

abbrev pub byte_at : Text → ℕ → ℕ
byte_at [] i = 0
byte_at (b ∷ bs) zero = b
byte_at (b ∷ bs) (suc i) = byte_at bs i

abbrev pub strip_with : Text → Option Text → Text
strip_with hostport none = hostport
strip_with hostport (some host) = host

-- `bytes.Index`
unfoldable pub index_of : Text → Text → Option ℕ
unfolding has_prefix
index_of sub [] = if has_prefix sub [] then some 0 else none
index_of sub (c ∷ s) = if has_prefix sub (c ∷ s) then some 0 else next_index (index_of sub s)
  where
    next_index : Option ℕ → Option ℕ
    next_index none = none
    next_index (some i) = some (suc i)

unfoldable pub until_eol : Text → Text
until_eol [] = []
until_eol (b ∷ bs) = if b == 13 || b == 10 || b == 0 then [] else b ∷ until_eol bs

abbrev pub crlf_crlf : Text
crlf_crlf = 13 ∷ 10 ∷ 13 ∷ 10 ∷ []

abbrev pub lf_lf : Text
lf_lf = 10 ∷ 10 ∷ []

abbrev pub upper_host : Text
upper_host = 10 ∷ codes "Host:"

abbrev pub lower_host : Text
lower_host = 10 ∷ codes "host:"

abbrev pub value_behind : ℕ → Text → Option ℕ → Option Text
value_behind n b none = none
value_behind n b (some i) = some (trim_space (until_eol (drop (i + n) b)))

abbrev pub first_of : Option Text → Option Text → Text
first_of (some v) o = v
first_of none (some v) = v
first_of none none = []

unfoldable pub http_host_header_from_bytes : Text → Text
unfolding index_of until_eol
http_host_header_from_bytes b =
    first_of (value_behind 6 b (index_of upper_host b)) (value_behind 6 b (index_of lower_host b))

-- Where the header ends, its delimiter included.
abbrev pub end_behind : Option ℕ → Option ℕ → Option ℕ
end_behind (some i) o = some (i + 4)
end_behind none (some i) = some (i + 2)
end_behind none none = none

unfoldable pub end_of_headers : Text → Option ℕ
unfolding index_of
end_of_headers b = end_behind (index_of crlf_crlf b) (index_of lf_lf b)

abbrev pub is_no_method : Text → Bool
is_no_method [] = false
is_no_method (c ∷ b) = ltb c 65 || ltb 90 c

-- Each read takes a byte or a chunk.
abbrev pub reads_left : Text → List Text → ℕ
reads_left b [] = length b
reads_left b (c ∷ cs) = 1 + (length b + reads_left c cs)

-- The host of `net.SplitHostPort`, none on an error; the host of `http.ReadRequest`, none on an error; and
-- the server name that `crypto/tls` finds in a hello.
module _ (split_host : Text → Option Text) (read_request : Text → Option Text)
    (hello_name : Text → Text) where
  abbrev pub strip_port : Text → Text
  strip_port hostport = strip_with hostport (split_host hostport)

  -- The host and the bytes that are to be replayed.
  abbrev pub of_request : Text → Option Text → Text × Text
  of_request b none = ([], [])
  of_request b (some host) = (strip_port host, b)

  -- What a round of the loop that has read `b` returns, none to go on.
  abbrev pub found_end : Text → Bool → Option ℕ → Option (Text × Text)
  found_end b failed (some n) = some (of_request b (read_request (take n b)))
  found_end b true none = some (strip_port (http_host_header_from_bytes b), b)
  found_end b false none = none

  unfoldable pub round : Text → Bool → Option (Text × Text)
  unfolding end_of_headers http_host_header_from_bytes
  round b failed = if is_no_method b then some ([], []) else found_end b failed (end_of_headers b)

  abbrev pub or_continue :
      Option (Text × Text)
      → Reader
      → Option ((Text × Text) × Reader)
      → Option ((Text × Text) × Reader)
  or_continue (some found) r rest = some (found, r)
  or_continue none r rest = rest

  -- The loop, from what it has read so far; none when the fuel is used up.
  unfoldable pub http_loop : ℕ → Text → Reader → Option ((Text × Text) × Reader)
  unfolding read_some round http_host_header_from_bytes
  http_loop zero acc r = none
  http_loop (suc fuel) acc r =
      let (got, after) = read_some http_read_buf_size r.buffered r.chunks in
      let b = acc ++ got.0 in
      let rest = http_loop fuel b after in
      if leb max_total (length acc)
      then some ((strip_port (http_host_header_from_bytes acc), acc), r)
      else or_continue (round b got.1) after rest

  unfoldable pub http_host_header : Reader → Option ((Text × Text) × Reader)
  unfolding http_loop
  http_host_header r = http_loop (reads_left r.buffered r.chunks + 2) [] r

  abbrev pub named_in : Option Text → Text
  named_in none = []
  named_in (some hello) = hello_name hello

  abbrev pub hello_of : Option Text → Reader → Text × Reader
  hello_of none r = ([], r)
  hello_of (some hdr) r =
      let n = 5 + (byte_at hdr 3 * 256 + byte_at hdr 4) in
      let more = fill n r.buffered r.chunks in
      if byte_at hdr 0 == 22 then (named_in (peeked n more), more) else ([], r)

  unfoldable pub client_hello_server_name : Reader → Text × Reader
  unfolding fill
  client_hello_server_name r =
      let first = fill 5 r.buffered r.chunks in hello_of (peeked 5 first) first

pub data RoutingMode : Type 0 where
  route_sni route_http_host : RoutingMode

module _ (split_host : Text → Option Text) (read_request : Text → Option Text)
    (hello_name : Text → Text) where
  -- The connection that is handed on reads the consumed bytes again, then those still buffered.
  abbrev pub replayed : Option ((Text × Text) × Reader) → Option (Text × Reader)
  replayed none = none
  replayed (some ((host, consumed), r)) =
      some (host, record { buffered = consumed ++ r.buffered; chunks = r.chunks })

  unfoldable pub sniff : RoutingMode → Reader → Option (Text × Reader)
  unfolding http_host_header client_hello_server_name
  sniff route_sni r = some (client_hello_server_name split_host read_request hello_name r)
  sniff route_http_host r = replayed (http_host_header split_host read_request hello_name r)
