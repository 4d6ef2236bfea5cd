-- ===== src/LogBuffer/Snapshot.antt =====
-- The ring shows the latest lines: it refines the list of all lines written, cut to its size.
use tsdproxy.Common.{
  dec_lt, ℕ, suc, ◌+◌, ◌%◌, ◌≤◌, ◌<◌, ◌≡◌, refl, ◌∙◌, Bool, true, false, List, [], ◌∷◌, ◌++◌, map,
  arith, ◌==◌, if◌then◌else◌, ◌⊎◌, inl, inr, length, length-append, length-set, length-drop,
  length-replicate, set, take, drop, Text, append_assoc, append-nil,
}
use mathlib.Core.Path.{subst}
use native.Mathlib.Nat.{mod-eq_of_lt}
use native.Mathlib.Numerals.{add-one}
use tsdproxy.Common.Last.{
  last, set-split, drop-append_le, drop-suc, drop-length, take-suc-set, drop-suc-set,
  last-append_few, last-append_many,
}
use tsdproxy.LogBuffer.{
  LogRingBuffer, new_log_ring_buffer, append_locked, write, snapshot_locked, line_of,
}

-- The ring `b` after the lines `h`.
pub record IsRing (b : LogRingBuffer) (h : List Text) : Type 0 where
  pub length_lines : length b.lines ≡ b.size
  pub pos_lt : b.pos < b.size
  pub shown : snapshot_locked b ≡ last b.size h
  pub filling : b.full ≡ false → length h ≡ b.pos
  pub filled : b.full ≡ true → b.size ≤ length h

-- The oldest line of a full ring leaves.
drop-oldest :
    (xs : List Text) (pos : ℕ)
    → pos < length xs
    → drop 1 (drop pos xs ++ take pos xs) ≡ drop (suc pos) xs ++ take pos xs
drop-oldest xs pos lt = rw (
  drop-append_le 1 (drop pos xs) (take pos xs) (omega (arith, length-drop pos xs)),
  ← drop-suc pos xs,
)

-- The snapshot after one more line, inside the ring and at its end.
next_inside :
    (xs : List Text) (pos : ℕ) (full : Bool) (x : Text)
    → pos < length xs
    → (if full
        then drop (suc pos) (set xs pos x) ++ take (suc pos) (set xs pos x)
        else take (suc pos) (set xs pos x))
      ≡ (if full then drop 1 (drop pos xs ++ take pos xs) ++ x ∷ [] else take pos xs ++ x ∷ [])
next_inside xs pos true x lt =
    rw (drop-suc-set xs pos x, take-suc-set xs pos x lt, drop-oldest xs pos lt, append_assoc)
next_inside xs pos false x lt = take-suc-set xs pos x lt

next_at_end :
    (xs : List Text) (pos : ℕ) (full : Bool) (x : Text)
    → suc pos ≡ length xs
    → set xs pos x ++ []
      ≡ (if full then drop 1 (drop pos xs ++ take pos xs) ++ x ∷ [] else take pos xs ++ x ∷ [])
next_at_end xs pos full x e =
    let none_left : drop (suc pos) xs ≡ [] = rw e (drop-length xs) in
    let all : set xs pos x ++ [] ≡ take pos xs ++ x ∷ [] =
      rw (append-nil (set xs pos x), set-split xs pos x (omega arith), none_left) in
    ground (arith, all, drop-oldest xs pos (omega arith), none_left)

next_pos :
    (pos size : ℕ)
    → pos < size
    → ((suc pos < size) × ((pos + 1) % size ≡ suc pos))
      ⊎ ((suc pos ≡ size) × ((pos + 1) % size ≡ 0))
next_pos pos size h = elim (dec_lt (suc pos) size) [
  | yes inner ↦ inl (inner, rw add-one (mod-eq_of_lt inner))
  | no outer ↦ inr (omega arith, grind arith)
]

last-grows :
    (size : ℕ) (full : Bool) (pos : ℕ) (h : List Text) (x : Text)
    → pos < size
    → (full ≡ false → length h ≡ pos)
    → (full ≡ true → size ≤ length h)
    → last size (h ++ x ∷ [])
      ≡ (if full then drop 1 (last size h) ++ x ∷ [] else last size h ++ x ∷ [])
last-grows size true pos h x lt filling filled =
    last-append_many size h x (omega arith) (filled refl)
last-grows size false pos h x lt filling filled =
    last-append_few size h x (omega (arith, filling refl))

-- The two branches of `snapshotLocked` are the two that a further line makes.
shown_next :
    (xs : List Text) (pos : ℕ) (full : Bool) (x : Text) (now : List Text)
    → (if full then drop pos xs ++ take pos xs else take pos xs) ≡ now
    → (if full then drop 1 (drop pos xs ++ take pos xs) ++ x ∷ [] else take pos xs ++ x ∷ [])
      ≡ (if full then drop 1 now ++ x ∷ [] else now ++ x ∷ [])
shown_next xs pos true x now e = rw e
shown_next xs pos false x now e = rw e

suc-eq-zero : (n : ℕ) → (suc n == 0) ≡ false
suc-eq-zero n = ground arith

append_shown :
    (x : Text) (b : LogRingBuffer) (h : List Text)
    → IsRing b h
    → snapshot_locked (append_locked x b) ≡ last b.size (h ++ x ∷ [])
unfolding append_locked snapshot_locked
append_shown x b h v = elim (next_pos b.pos b.size v.pos_lt) [
  | inl (lt, e) ↦
      rw (e, suc-eq-zero b.pos, last-grows b.size b.full b.pos h x v.pos_lt v.filling v.filled)
        (next_inside b.lines b.pos b.full x (omega (arith, v.length_lines))
          ∙ shown_next b.lines b.pos b.full x (last b.size h) v.shown)
  | inr (at_end, e) ↦
      rw (e, last-grows b.size b.full b.pos h x v.pos_lt v.filling v.filled)
        (next_at_end b.lines b.pos b.full x (omega (arith, v.length_lines))
          ∙ shown_next b.lines b.pos b.full x (last b.size h) v.shown)
]

append_locked-IsRing :
    (x : Text) (b : LogRingBuffer) (h : List Text)
    → IsRing b h
    → IsRing (append_locked x b) (h ++ x ∷ [])
unfolding append_locked
append_locked-IsRing x b h v = record {
  length_lines = length-set b.lines b.pos x ∙ v.length_lines;
  pos_lt = ground (arith, next_pos b.pos b.size v.pos_lt);
  shown = append_shown x b h v;
  filling =
      λ e. ground (arith, next_pos b.pos b.size v.pos_lt, length-append h (x ∷ []), v.filling);
  filled = λ e.
      ground (arith, next_pos b.pos b.size v.pos_lt, length-append h (x ∷ []), v.filling, v.filled);
}

write-IsRing :
    (p : Text) (b : LogRingBuffer) (h : List Text)
    → IsRing b h
    → IsRing (write p b) (h ++ line_of p ∷ [])
unfolding write snapshot_locked
write-IsRing p b h v =
    let w = append_locked-IsRing (line_of p) b h v in
    record {
      length_lines = w.length_lines;
      pos_lt = w.pos_lt;
      shown = w.shown;
      filling = w.filling;
      filled = w.filled;
    }

new-IsRing : (n : ℕ) → 0 < n → IsRing (new_log_ring_buffer n) []
unfolding new_log_ring_buffer snapshot_locked last
new-IsRing n h = record {
  length_lines = length-replicate n [];
  pos_lt = h;
  shown = ground arith;
  filling = λ _. refl;
  filled = λ e. cc;
}

-- Any sequence of calls of `Write`.
unfoldable pub write_all : List Text → LogRingBuffer → LogRingBuffer
write_all [] b = b
write_all (p ∷ ps) b = write_all ps (write p b)

write_all-IsRing :
    (ps : List Text) (b : LogRingBuffer) (h : List Text)
    → IsRing b h
    → IsRing (write_all ps b) (h ++ map line_of ps)
unfolding write_all
write_all-IsRing [] b h v = rw (append-nil h) v
write_all-IsRing (p ∷ ps) b h v =
    rw (← append_assoc h (line_of p ∷ []) (map line_of ps))
      (write_all-IsRing ps (write p b) (h ++ line_of p ∷ []) (write-IsRing p b h v))

write_all-size : (ps : List Text) (b : LogRingBuffer) → (write_all ps b).size ≡ b.size
unfolding write_all write
write_all-size [] b = refl
write_all-size (p ∷ ps) b = write_all-size ps (write p b)

-- Whatever is written to a new buffer of positive size, a snapshot shows exactly the latest lines, as
-- many as the buffer holds, oldest first, without their trailing newlines.
pub snapshot_locked-write_all :
    (n : ℕ) (ps : List Text)
    → 0 < n
    → snapshot_locked (write_all ps (new_log_ring_buffer n)) ≡ last n (map line_of ps)
snapshot_locked-write_all n ps h =
    let same : (write_all ps (new_log_ring_buffer n)).size ≡ n =
      unfold new_log_ring_buffer in write_all-size ps (new_log_ring_buffer n) in
    subst (λ k. snapshot_locked (write_all ps (new_log_ring_buffer n)) ≡ last k (map line_of ps))
      same (write_all-IsRing ps (new_log_ring_buffer n) [] (new-IsRing n h)).shown
