-- ===== src/LogBuffer.antt =====
-- internal/proxymanager/logbuffer.go: the ring of a proxy's latest log lines and the channels of those
-- who watch it. Each method runs under the buffer's mutex, so it is one step here; a receiver's reads
-- are steps of their own, between the methods.
--
-- A channel is a number with its buffered lines; the closed ones are listed in the order of closing.
pub mod Snapshot
pub mod FanOut
pub mod Channels
pub mod Bounds
mod Tests
use mathlib.Core.List.{reverse}
use tsdproxy.Common.{
  ℕ, zero, suc, ◌+◌, ◌*◌, ◌%◌, Bool, true, false, List, [], ◌∷◌, ◌++◌, Option, none, some, ltb,
  ◌==◌, if◌then◌else◌, length, set, take, drop, replicate, min, Text, ℕ_eq,
}
use tsdproxy.Common.Maps.{Map, insert, lookup, erase}
use tsdproxy.Strings.{codes, itoa}

-- A subscriber: `chan string` with what it buffers, and its `subscriberState`.
pub record Subscriber : Type 0 where
  pub buffer : List Text
  pub capacity : ℕ
  pub pending_dropped : ℕ

pub record LogRingBuffer : Type 0 where
  pub subscribers : Map ℕ Subscriber
  pub lines : List Text
  pub pos : ℕ
  pub size : ℕ
  pub full : Bool
  -- the number of the next channel, and the channels that are closed
  pub next_channel : ℕ
  pub closed : List ℕ

unfoldable pub new_log_ring_buffer : ℕ → LogRingBuffer
new_log_ring_buffer size = record {
  subscribers = [];
  lines = replicate size [];
  pos = 0;
  size = size;
  full = false;
  next_channel = 0;
  closed = [];
}

abbrev pub newline : ℕ
newline = 10

unfoldable pub trim_newlines : Text → Text
trim_newlines [] = []
trim_newlines (c ∷ s) = if c == newline then trim_newlines s else c ∷ s

-- `strings.TrimRight(string(p), "\n")`
unfoldable pub line_of : Text → Text
unfolding trim_newlines
line_of p = reverse (trim_newlines (reverse p))

unfoldable pub append_locked : Text → LogRingBuffer → LogRingBuffer
append_locked line b =
    let next = (b.pos + 1) % b.size in
    record b {
      lines = set b.lines b.pos line;
      pos = next;
      full = if next == 0 then true else b.full;
    }

unfoldable pub marker : ℕ → Text
marker d = codes "--- " ++ itoa d ++ codes " lines dropped (slow consumer) ---"

-- The marker for what was dropped before, if there is room for it.
unfoldable pub send_marker : ℕ → Subscriber → Subscriber
send_marker size st =
    if ltb 0 st.pending_dropped
    then (if ltb (length st.buffer) st.capacity
        then record st {
          buffer = st.buffer ++ marker (min st.pending_dropped size) ∷ [];
          pending_dropped = 0;
        }
        else record st { pending_dropped = min st.pending_dropped size })
    else st

abbrev pub cap_pending : ℕ → ℕ → ℕ
cap_pending size d = if ltb (size * 2) d then size else d

-- The line; a full channel is drained first, and what it held counts as dropped with one for the
-- failed send.
unfoldable pub send_line : ℕ → Text → Subscriber → Subscriber
send_line size line st =
    if ltb (length st.buffer) st.capacity
    then record st { buffer = st.buffer ++ line ∷ [] }
    else if ltb 0 st.capacity
    then record st {
      buffer = line ∷ [];
      pending_dropped = cap_pending size (st.pending_dropped + (1 + length st.buffer));
    }
    else record st {
      buffer = [];
      pending_dropped = cap_pending size (st.pending_dropped + (2 + length st.buffer));
    }

unfoldable pub fan_out_to : ℕ → Text → Subscriber → Subscriber
unfolding send_marker send_line
fan_out_to size line st = send_line size line (send_marker size st)

unfoldable pub fan_out : ℕ → Text → Map ℕ Subscriber → Map ℕ Subscriber
fan_out size line [] = []
fan_out size line ((ch, st) ∷ subs) = (ch, fan_out_to size line st) ∷ fan_out size line subs

unfoldable pub fan_out_locked : Text → LogRingBuffer → LogRingBuffer
unfolding fan_out
fan_out_locked line b = record b { subscribers = fan_out b.size line b.subscribers }

unfoldable pub write : Text → LogRingBuffer → LogRingBuffer
unfolding fan_out_locked append_locked
write p b = fan_out_locked (line_of p) (append_locked (line_of p) b)

unfoldable pub snapshot_locked : LogRingBuffer → List Text
snapshot_locked b = if b.full then drop b.pos b.lines ++ take b.pos b.lines else take b.pos b.lines

-- The channel holds as many lines as the ring.
unfoldable pub subscribe_with_snapshot : LogRingBuffer → LogRingBuffer × List Text × ℕ
unfolding snapshot_locked
subscribe_with_snapshot b = (
  record b {
    subscribers =
        insert b.next_channel (record { buffer = []; capacity = b.size; pending_dropped = 0 })
          b.subscribers;
    next_channel = b.next_channel + 1;
  },
  snapshot_locked b,
  b.next_channel,
)

unfoldable pub unsubscribe : ℕ → LogRingBuffer → LogRingBuffer
unsubscribe ch b = elim (lookup ch b.subscribers) [
  | none ↦ b
  | some st ↦ record b { subscribers = erase ch b.subscribers; closed = b.closed ++ ch ∷ [] }
]

unfoldable pub channels : Map ℕ Subscriber → List ℕ
channels [] = []
channels ((ch, st) ∷ subs) = ch ∷ channels subs

-- A receive from a channel by who watches it.
unfoldable pub receive_from : ℕ → Map ℕ Subscriber → Map ℕ Subscriber
receive_from ch [] = []
receive_from ch ((c, st) ∷ subs) =
    (c, (if c == ch then record st { buffer = drop 1 st.buffer } else st)) ∷ receive_from ch subs

abbrev pub receive : ℕ → LogRingBuffer → LogRingBuffer
receive ch b = record b { subscribers = receive_from ch b.subscribers }

unfoldable pub close : LogRingBuffer → LogRingBuffer
unfolding channels
close b = record b { subscribers = []; closed = b.closed ++ channels b.subscribers }
