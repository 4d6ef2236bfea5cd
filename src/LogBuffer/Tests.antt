-- ===== src/LogBuffer/Tests.antt =====
-- The log buffer run on short logs, and the theorems applied there.
use tsdproxy.Common.{◌+◌, ◌≤◌, ◌≡◌, refl, List, [], ◌∷◌, map, arith, Text, ℕ_eq}
use tsdproxy.Common.Maps.{Each}
use tsdproxy.Common.Last.{last}
use tsdproxy.Strings.{codes}
use tsdproxy.LogBuffer.{
  new_log_ring_buffer, write, line_of, trim_newlines, append_locked, snapshot_locked, channels,
}
use tsdproxy.LogBuffer.Snapshot.{write_all, snapshot_locked-write_all}
use tsdproxy.LogBuffer.FanOut.{Receives}
use tsdproxy.LogBuffer.Bounds.{write-Receives}
use tsdproxy.LogBuffer.Channels.{
  Call, writes, subscribes, unsubscribes, closes, receives, run, count, run-closes_once,
}

abbrev demo_log : List Text
demo_log = codes "a" ∷ codes "b" ∷ codes "c" ∷ []

-- Two lines are kept of three, the newline of each is trimmed.
two_of_three :
    snapshot_locked (write_all (codes "a\n" ∷ codes "b\n" ∷ codes "c" ∷ []) (new_log_ring_buffer 2))
    ≡ codes "b" ∷ codes "c" ∷ []
unfolding snapshot_locked write_all new_log_ring_buffer write line_of trim_newlines append_locked
two_of_three = refl

snapshot_locked-write_all_example :
    snapshot_locked (write_all demo_log (new_log_ring_buffer 2)) ≡ last 2 (map line_of demo_log)
snapshot_locked-write_all_example = snapshot_locked-write_all 2 demo_log (omega arith)

-- Two subscribers, one of whom reads a line; both lose some.
abbrev demo_reads : List Call
demo_reads =
    subscribes
    ∷ writes (codes "x")
    ∷ subscribes
    ∷ writes (codes "y")
    ∷ receives 0
    ∷ writes (codes "z")
    ∷ []

write-Receives_example :
    Each
      (λ ch. Receives 2 (line_of (codes "w")))
      (write (codes "w") (run demo_reads (new_log_ring_buffer 2))).subscribers
write-Receives_example = write-Receives 2 demo_reads (codes "w") (omega arith)

abbrev demo_calls : List Call
demo_calls =
    subscribes
    ∷ writes (codes "a")
    ∷ unsubscribes 0
    ∷ unsubscribes 0
    ∷ subscribes
    ∷ closes
    ∷ closes
    ∷ []

run-closes_once_example :
    let b = run demo_calls (new_log_ring_buffer 2) in
    (count 0 b.closed ≤ 1) × (count 0 b.closed + count 0 (channels b.subscribers) ≤ 1)
run-closes_once_example = run-closes_once 2 demo_calls 0
