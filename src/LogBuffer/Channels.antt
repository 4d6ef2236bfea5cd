-- ===== src/LogBuffer/Channels.antt =====
-- Go panics when a channel is closed twice. The ring closes each of its channels once at most,
-- whatever its methods are called with and in whatever order.
use tsdproxy.Common.{
  ℕ, ◌+◌, ◌≤◌, ◌≡◌, refl, List, [], ◌∷◌, ◌++◌, some, arith, ◌==◌, if◌then◌else◌, Text, ℕ_eq, inl,
  inr, Option-cases,
}
use tsdproxy.Common.Maps.{Map, insert, lookup, erase}
use tsdproxy.LogBuffer.{
  Subscriber, LogRingBuffer, new_log_ring_buffer, append_locked, write, fan_out,
  subscribe_with_snapshot, unsubscribe, channels, close, receive, receive_from,
}

abbrev pub count : ℕ → List ℕ → ℕ
count c [] = 0
count c (x ∷ xs) = (if x == c then 1 else 0) + count c xs

count-append : (c : ℕ) (xs ys : List ℕ) → count c (xs ++ ys) ≡ count c xs + count c ys
count-append c [] ys = omega arith
count-append c (x ∷ xs) ys = omega (arith, count-append c xs ys)

-- A call of one of the methods, or a read.
pub data Call : Type 0 where
  writes : Text → Call
  subscribes : Call
  unsubscribes : ℕ → Call
  closes : Call
  -- not a method: the subscriber reads a line
  receives : ℕ → Call

abbrev pub step : Call → LogRingBuffer → LogRingBuffer
step (writes p) b = write p b
step subscribes b = (subscribe_with_snapshot b).0
step (unsubscribes ch) b = unsubscribe ch b
step closes b = close b
step (receives ch) b = receive ch b

unfoldable pub run : List Call → LogRingBuffer → LogRingBuffer
run [] b = b
run (c ∷ cs) b = run cs (step c b)

-- How often a channel stands among the closed and the open ones.
abbrev pub uses : ℕ → LogRingBuffer → ℕ
uses c b = count c b.closed + count c (channels b.subscribers)

-- Every channel is used once at most, and one that is still to be made is not used.
pub record AreChannels (b : LogRingBuffer) : Type 0 where
  pub once : (c : ℕ) → uses c b ≤ 1
  pub fresh : (c : ℕ) → b.next_channel ≤ c → uses c b ≡ 0

channels-fan_out :
    (size : ℕ) (line : Text) (subs : Map ℕ Subscriber)
    → channels (fan_out size line subs) ≡ channels subs
unfolding channels fan_out
channels-fan_out size line [] = refl
channels-fan_out size line ((ch, st) ∷ subs) = rw (channels-fan_out size line subs)

channels-receive_from :
    (ch : ℕ) (subs : Map ℕ Subscriber) → channels (receive_from ch subs) ≡ channels subs
unfolding channels receive_from
channels-receive_from ch [] = refl
channels-receive_from ch ((c, st) ∷ subs) = rw (channels-receive_from ch subs)

count-insert :
    (c ch : ℕ) (st : Subscriber) (subs : Map ℕ Subscriber)
    → count ch (channels subs) ≡ 0
    → count c (channels (insert ch st subs)) ≡ count c (channels subs) + (if ch == c then 1 else 0)
unfolding channels insert
count-insert c ch st [] h = ground arith
count-insert c ch st ((k, s) ∷ subs) h = ground (arith, count-insert c ch st subs)

count-erase :
    (c ch : ℕ) (subs : Map ℕ Subscriber)
    → count c (channels (erase ch subs)) ≡ (if ch == c then 0 else count c (channels subs))
unfolding channels erase
count-erase c ch [] = ground arith
count-erase c ch ((k, s) ∷ subs) = ground (arith, count-erase c ch subs)

count-lookup :
    (ch : ℕ) (st : Subscriber) (subs : Map ℕ Subscriber)
    → lookup ch subs ≡ some st
    → 1 ≤ count ch (channels subs)
unfolding channels lookup
count-lookup ch st [] h = cc
count-lookup ch st ((k, s) ∷ subs) h = ground (arith, count-lookup ch st subs)

uses-write : (c : ℕ) (p : Text) (b : LogRingBuffer) → uses c (write p b) ≡ uses c b
unfolding write append_locked
uses-write c p b = rw (channels-fan_out b.size _ b.subscribers)

uses-subscribe :
    (c : ℕ) (b : LogRingBuffer)
    → uses b.next_channel b ≡ 0
    → uses c (subscribe_with_snapshot b).0 ≡ uses c b + (if b.next_channel == c then 1 else 0)
unfolding subscribe_with_snapshot
uses-subscribe c b h = omega (
  arith,
  count-insert c b.next_channel (record { buffer = []; capacity = b.size; pending_dropped = 0 })
      b.subscribers (omega arith),
)

uses-unsubscribe :
    (c ch : ℕ) (b : LogRingBuffer) → uses ch b ≤ 1 → uses c (unsubscribe ch b) ≤ uses c b
unfolding unsubscribe
uses-unsubscribe c ch b h = elim (Option-cases (lookup ch b.subscribers)) [
  | inl e ↦ rw (e, unsubscribe) (omega arith)
  | inr (st, e) ↦
      rw (e, unsubscribe)
        (ground (
          arith,
          count-append c b.closed (ch ∷ []),
          count-erase c ch b.subscribers,
          count-lookup ch st b.subscribers e,
        ))
]

uses-close : (c : ℕ) (b : LogRingBuffer) → uses c (close b) ≡ uses c b
unfolding close channels
uses-close c b = omega (arith, count-append c b.closed (channels b.subscribers))

next-unsubscribe : (ch : ℕ) (b : LogRingBuffer) → (unsubscribe ch b).next_channel ≡ b.next_channel
unfolding unsubscribe
next-unsubscribe ch b = ground arith

step-AreChannels : (c : Call) (b : LogRingBuffer) → AreChannels b → AreChannels (step c b)
step-AreChannels (writes p) b v = record {
  once = λ c. omega (arith, uses-write c p b, v.once c);
  fresh = λ c h. unfold write append_locked in omega (arith, uses-write c p b, v.fresh c h);
}
step-AreChannels subscribes b v = record {
  once = λ c.
      ground
        (arith, uses-subscribe c b (v.fresh b.next_channel (omega arith)), v.once c, v.fresh c);
  fresh = λ c h.
      unfold subscribe_with_snapshot in
      ground (arith, uses-subscribe c b (v.fresh b.next_channel (omega arith)), v.fresh c);
}
step-AreChannels (unsubscribes ch) b v = record {
  once = λ c. omega (arith, uses-unsubscribe c ch b (v.once ch), v.once c);
  fresh = λ c h. omega (
    arith,
    uses-unsubscribe c ch b (v.once ch),
    v.fresh c (omega (arith, next-unsubscribe ch b)),
  );
}
step-AreChannels (receives ch) b v = record {
  once = λ c. rw (channels-receive_from ch b.subscribers) (v.once c);
  fresh = λ c h. rw (channels-receive_from ch b.subscribers) (v.fresh c h);
}
step-AreChannels closes b v = record {
  once = λ c. omega (arith, uses-close c b, v.once c);
  fresh = λ c h. omega (arith, uses-close c b, v.fresh c (unfold close in h));
}

run-AreChannels : (cs : List Call) (b : LogRingBuffer) → AreChannels b → AreChannels (run cs b)
unfolding run
run-AreChannels [] b v = v
run-AreChannels (c ∷ cs) b v = run-AreChannels cs (step c b) (step-AreChannels c b v)

new-AreChannels : (n : ℕ) → AreChannels (new_log_ring_buffer n)
unfolding new_log_ring_buffer channels
new-AreChannels n = record { once = λ c. omega arith; fresh = λ c h. refl }

-- After any calls of a new buffer's methods, repeated and stale calls of `Unsubscribe` and of `Close`
-- included, every channel has been closed once at most, and none is both closed and subscribed.
pub run-closes_once :
    (n : ℕ) (cs : List Call) (c : ℕ)
    → let b = run cs (new_log_ring_buffer n) in
      (count c b.closed ≤ 1) × (count c b.closed + count c (channels b.subscribers) ≤ 1)
run-closes_once n cs c =
    let v = run-AreChannels cs (new_log_ring_buffer n) (new-AreChannels n) in
    (omega (arith, v.once c), v.once c)
