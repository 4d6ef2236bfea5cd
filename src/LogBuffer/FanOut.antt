-- ===== src/LogBuffer/FanOut.antt =====
-- What the subscribers of the ring receive.
use tsdproxy.Common.{
  ℕ, ◌+◌, ◌*◌, ◌≤◌, ◌<◌, ◌≡◌, refl, sym, ◌∙◌, List, [], ◌∷◌, ◌++◌, map, some, arith, ltb, min, inl,
  inr, Bool-cases, length, length-append, Text, append_assoc, append-nil, ℕ_eq,
}
use mathlib.Core.Path.{subst}
use mathlib.Core.Option
use tsdproxy.Common.Maps.{Map, lookup, lookup-insert, Each, beq_refl}
use tsdproxy.LogBuffer.{
  Subscriber, LogRingBuffer, append_locked, write, snapshot_locked, line_of, marker, send_marker,
  send_line, fan_out_to, fan_out, subscribe_with_snapshot,
}
use tsdproxy.LogBuffer.Snapshot.{write_all}

-- The channel keeps within its capacity and the count of dropped lines within twice the ring's size.
pub record IsBounded (size : ℕ) (st : Subscriber) : Type 0 where
  pub room : 0 < st.capacity
  pub fits : length st.buffer ≤ st.capacity
  pub few : st.pending_dropped ≤ size * 2

pub record Receives (size : ℕ) (line : Text) (st : Subscriber) : Type 0 where
  pub bounded : IsBounded size st
  pub newest : (front : List Text) × (st.buffer ≡ front ++ line ∷ [])

send_marker-IsBounded :
    (size : ℕ) (st : Subscriber) → IsBounded size st → IsBounded size (send_marker size st)
unfolding send_marker
send_marker-IsBounded size st v =
    ground (arith, length-append st.buffer (marker (min st.pending_dropped size) ∷ []))

send_line-Receives :
    (size : ℕ) (line : Text) (st : Subscriber)
    → IsBounded size st
    → Receives size line (send_line size line st)
unfolding send_line
send_line-Receives size line st v = elim (Bool-cases (ltb (length st.buffer) st.capacity)) [
  | inl e ↦ record {
    bounded = ground (arith, length-append st.buffer (line ∷ []));
    newest = (st.buffer, ground arith);
  }
  | inr e ↦ record { bounded = ground arith; newest = ([], ground arith) }
]

pub fan_out-Receives :
    (size : ℕ) (line : Text) (subs : Map ℕ Subscriber)
    → Each (λ ch. IsBounded size) subs
    → Each (λ ch. Receives size line) (fan_out size line subs)
unfolding fan_out fan_out_to
fan_out-Receives size line [] h = tt
fan_out-Receives size line ((ch, st) ∷ subs) (v, h) = (
  send_line-Receives size line (send_marker size st) (send_marker-IsBounded size st v),
  fan_out-Receives size line subs h,
)

lookup-fan_out :
    (size : ℕ) (line : Text) (ch : ℕ) (subs : Map ℕ Subscriber)
    → lookup ch (fan_out size line subs) ≡ Option.map (fan_out_to size line) (lookup ch subs)
unfolding lookup fan_out
lookup-fan_out size line ch [] = refl
lookup-fan_out size line ch ((c, st) ∷ subs) = ground (arith, lookup-fan_out size line ch subs)

-- A channel with room, to which nothing was lost.
fan_out_to_room :
    (size : ℕ) (line : Text) (buffer : List Text) (capacity : ℕ)
    → length buffer < capacity
    → fan_out_to size line (record { buffer = buffer; capacity = capacity; pending_dropped = 0 })
      ≡ record { buffer = buffer ++ line ∷ []; capacity = capacity; pending_dropped = 0 }
unfolding fan_out_to
fan_out_to_room size line buffer capacity h = ground arith

write-fills :
    (p : Text) (b : LogRingBuffer) (ch : ℕ) (buffer : List Text)
    → lookup ch b.subscribers
      ≡ some (record { buffer = buffer; capacity = b.size; pending_dropped = 0 })
    → length buffer < b.size
    → lookup ch (write p b).subscribers
      ≡ some (record { buffer = buffer ++ line_of p ∷ []; capacity = b.size; pending_dropped = 0 })
unfolding write append_locked
write-fills p b ch buffer e h = rw (
  lookup-fan_out b.size (line_of p) ch b.subscribers,
  e,
  Option.map,
  fan_out_to_room b.size (line_of p) buffer b.size h,
)

write-size : (p : Text) (b : LogRingBuffer) → (write p b).size ≡ b.size
unfolding write append_locked
write-size p b = refl

write_all-fills :
    (ps : List Text) (n : ℕ) (b : LogRingBuffer) (ch : ℕ) (buffer : List Text)
    → b.size ≡ n
    → lookup ch b.subscribers ≡ some (record { buffer = buffer; capacity = n; pending_dropped = 0 })
    → length buffer + length ps ≤ n
    → lookup ch (write_all ps b).subscribers
      ≡ some (record { buffer = buffer ++ map line_of ps; capacity = n; pending_dropped = 0 })
unfolding write_all
write_all-fills [] n b ch buffer s e h = rw (append-nil buffer) e
write_all-fills (p ∷ ps) n b ch buffer s e h =
    rw (← append_assoc buffer (line_of p ∷ []) (map line_of ps)) (
      write_all-fills ps n (write p b) ch (buffer ++ line_of p ∷ []) (write-size p b ∙ s)
        (subst (λ k. lookup ch (write p b).subscribers ≡ some (filled k)) s
          (write-fills p b ch buffer
            (subst (λ k. lookup ch b.subscribers ≡ some (before k)) (sym s) e) (omega arith)))
        (omega (arith, length-append buffer (line_of p ∷ []))))
  where
    filled : ℕ → Subscriber
    filled k = record { buffer = buffer ++ line_of p ∷ []; capacity = k; pending_dropped = 0 }

    before : ℕ → Subscriber
    before k = record { buffer = buffer; capacity = k; pending_dropped = 0 }

-- A new subscriber misses nothing and sees nothing twice: it is given the snapshot of the moment, and
-- as long as it has read nothing and no more lines are written than the ring holds, its channel holds
-- exactly the lines written since, in order, with none dropped.
pub subscribe_with_snapshot_lem :
    (b : LogRingBuffer) (ps : List Text)
    → length ps ≤ b.size
    → let (b', snapshot, ch) = subscribe_with_snapshot b in
      (snapshot ≡ snapshot_locked b)
      × (lookup ch (write_all ps b').subscribers
          ≡ some (record { buffer = map line_of ps; capacity = b.size; pending_dropped = 0 }))
unfolding subscribe_with_snapshot
subscribe_with_snapshot_lem b ps h = (
  refl,
  write_all-fills ps b.size _ b.next_channel [] refl
      (rw (lookup-insert b.next_channel b.next_channel _ b.subscribers, beq_refl b.next_channel))
      (omega arith),
)
