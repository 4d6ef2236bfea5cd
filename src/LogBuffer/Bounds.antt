-- ===== src/LogBuffer/Bounds.antt =====
-- The channels of the ring's subscribers keep within their bounds.
use tsdproxy.Common.{
  ℕ, ◌≤◌, ◌≡◌, refl, List, [], ◌∷◌, arith, drop, ◌==◌, if_both, inl, inr, Option-cases, length,
  Text, ℕ_eq,
}
use tsdproxy.Common.Maps.{Map, lookup, erase, Each, Each-insert}
use tsdproxy.LogBuffer.{
  Subscriber, LogRingBuffer, new_log_ring_buffer, append_locked, write, line_of,
  subscribe_with_snapshot, unsubscribe, close, receive_from,
}
use tsdproxy.LogBuffer.FanOut.{IsBounded, Receives, fan_out-Receives}
use tsdproxy.LogBuffer.Channels.{
  Call, writes, subscribes, unsubscribes, closes, receives, step, run,
}

length-drop_one : (xs : List Text) → length (drop 1 xs) ≤ length xs
length-drop_one [] = omega arith
length-drop_one (x ∷ xs) = omega arith

-- What holds between the calls.
record AreBounded (n : ℕ) (b : LogRingBuffer) : Type 0 where
  size : b.size ≡ n
  each : Each (λ ch. IsBounded n) b.subscribers

Receives-IsBounded :
    (size : ℕ) (line : Text) (subs : Map ℕ Subscriber)
    → Each (λ ch. Receives size line) subs
    → Each (λ ch. IsBounded size) subs
Receives-IsBounded size line [] h = tt
Receives-IsBounded size line ((ch, st) ∷ subs) (r, h) =
    (r.bounded, Receives-IsBounded size line subs h)

write-AreReceiving :
    (n : ℕ) (p : Text) (b : LogRingBuffer)
    → AreBounded n b
    → Each (λ ch. Receives n (line_of p)) (write p b).subscribers
unfolding write append_locked
write-AreReceiving n p b v = rw v.size (fan_out-Receives n (line_of p) b.subscribers v.each)

erase-AreBounded :
    (n ch : ℕ) (subs : Map ℕ Subscriber)
    → Each (λ c. IsBounded n) subs
    → Each (λ c. IsBounded n) (erase ch subs)
unfolding erase
erase-AreBounded n ch [] h = tt
erase-AreBounded n ch ((c, st) ∷ subs) (v, h) =
    if_both (Each (λ c. IsBounded n)) (c == ch) (λ _. erase-AreBounded n ch subs h)
      (λ _. (v, erase-AreBounded n ch subs h))

receive_from-AreBounded :
    (n ch : ℕ) (subs : Map ℕ Subscriber)
    → Each (λ c. IsBounded n) subs
    → Each (λ c. IsBounded n) (receive_from ch subs)
unfolding receive_from
receive_from-AreBounded n ch [] h = tt
receive_from-AreBounded n ch ((c, st) ∷ subs) (v, h) = (
  if_both (IsBounded n) (c == ch)
      (λ _. record {
        room = v.room;
        fits = omega (arith, v.fits, length-drop_one st.buffer);
        few = v.few;
      })
      (λ _. v),
  receive_from-AreBounded n ch subs h,
)

unsubscribe-AreBounded :
    (n ch : ℕ) (b : LogRingBuffer) → AreBounded n b → AreBounded n (unsubscribe ch b)
unfolding unsubscribe
unsubscribe-AreBounded n ch b v = elim (Option-cases (lookup ch b.subscribers)) [
  | inl e ↦ rw (e, unsubscribe) v
  | inr (st, e) ↦
      rw (e, unsubscribe)
        (record { size = v.size; each = erase-AreBounded n ch b.subscribers v.each })
]

step-AreBounded :
    (n : ℕ) (c : Call) (b : LogRingBuffer) → 1 ≤ n → AreBounded n b → AreBounded n (step c b)
unfolding subscribe_with_snapshot close
step-AreBounded n (writes p) b h v = record {
  size = unfold write append_locked in v.size;
  each = Receives-IsBounded n (line_of p) _ (write-AreReceiving n p b v);
}
step-AreBounded n subscribes b h v = record {
  size = v.size;
  each =
      Each-insert (λ c. IsBounded n) b.next_channel _ b.subscribers
        (record { room = omega (arith, h, v.size); fits = omega arith; few = omega arith }) v.each;
}
step-AreBounded n (unsubscribes ch) b h v = unsubscribe-AreBounded n ch b v
step-AreBounded n closes b h v = record { size = v.size; each = tt }
step-AreBounded n (receives ch) b h v = record {
  size = v.size;
  each = receive_from-AreBounded n ch b.subscribers v.each;
}

run-AreBounded :
    (n : ℕ) (cs : List Call) (b : LogRingBuffer) → 1 ≤ n → AreBounded n b → AreBounded n (run cs b)
unfolding run
run-AreBounded n [] b h v = v
run-AreBounded n (c ∷ cs) b h v = run-AreBounded n cs (step c b) h (step-AreBounded n c b h v)

-- After any calls of a new buffer's methods, for a ring of at least one line, and any reads by its
-- subscribers, a write leaves every subscriber, however slow, with the written line as the last one of its
-- channel; no channel exceeds its capacity, and no count of dropped lines exceeds twice the size of the ring.
pub write-Receives :
    (n : ℕ) (cs : List Call) (p : Text)
    → 1 ≤ n
    → Each (λ ch. Receives n (line_of p)) (write p (run cs (new_log_ring_buffer n))).subscribers
write-Receives n cs p h = write-AreReceiving n p (run cs (new_log_ring_buffer n)) (
    run-AreBounded n cs (new_log_ring_buffer n) h
      (unfold new_log_ring_buffer in record { size = refl; each = tt }))
