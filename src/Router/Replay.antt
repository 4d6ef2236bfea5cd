-- ===== src/Router/Replay.antt =====
-- Reading the host off a connection ends, and takes nothing away from who is handed the connection.
use tsdproxy.Common.{
  ℕ, zero, suc, ◌+◌, ◌*◌, ◌==◌, ◌≤◌, ◌<◌, ◌≡◌, ◌⊎◌, inl, inr, refl, sym, ap, ◌∙◌, Bool, true, false,
  List, [], ◌∷◌, ◌++◌, append_assoc, Option, none, some, arith, leb, if_both, length, take, drop,
  take-append-drop, length-drop, Text,
}
use tsdproxy.Router.Sniff.{
  Reader, read_some, fill, peeked, http_read_buf_size, max_total, of_request, found_end, round,
  or_continue, http_loop, reads_left, http_host_header, byte_at, hello_of, client_hello_server_name,
  RoutingMode, route_sni, route_http_host, replayed, sniff, end_of_headers, is_no_method,
}

-- Everything that is still to be read.
abbrev pub concat : List Text → Text
concat [] = []
concat (c ∷ cs) = c ++ concat cs

abbrev pub stream : Reader → Text
stream r = r.buffered ++ concat r.chunks

read-stream :
    (n : ℕ) (b : Text) (cs : List Text)
    → (read_some n b cs).0.0 ++ stream (read_some n b cs).1 ≡ b ++ concat cs
unfolding read_some
read-stream n [] [] = refl
read-stream n [] (c ∷ cs) =
    sym (append_assoc (take n c) (drop n c) (concat cs))
    ∙ ap (λ l. l ++ concat cs) (take-append-drop n c)
read-stream n (b ∷ bs) cs =
    sym (append_assoc (take n (b ∷ bs)) (drop n (b ∷ bs)) (concat cs))
    ∙ ap (λ l. l ++ concat cs) (take-append-drop n (b ∷ bs))

fill-stream : (n : ℕ) (b : Text) (cs : List Text) → stream (fill n b cs) ≡ b ++ concat cs
unfolding fill
fill-stream n b [] = refl
fill-stream n b (c ∷ cs) =
    if_both {A = Reader} (λ r. stream r ≡ b ++ concat (c ∷ cs)) (leb n (length b)) (λ e. refl)
      (λ e. fill-stream n (b ++ c) cs ∙ append_assoc b c (concat cs))

reads_left-drop : (n : ℕ) (b : Text) (cs : List Text) → reads_left (drop n b) cs ≤ reads_left b cs
reads_left-drop n b [] = omega (arith, length-drop n b)
reads_left-drop n b (c ∷ cs) = omega (arith, length-drop n b)

reads_left-cons :
    (n x : ℕ) (b : Text) (cs : List Text)
    → reads_left (drop (suc n) (x ∷ b)) cs < reads_left (x ∷ b) cs
reads_left-cons n x b [] = omega (arith, length-drop n b)
reads_left-cons n x b (c ∷ cs) = omega (arith, length-drop n b)

read-fewer :
    (b : Text) (cs : List Text)
    → ((read_some http_read_buf_size b cs).0.1 ≡ true)
      ⊎ (reads_left
            (read_some http_read_buf_size b cs).1.buffered
            (read_some http_read_buf_size b cs).1.chunks
          < reads_left b cs)
unfolding read_some
read-fewer [] [] = inl refl
read-fewer [] (c ∷ cs) = inr (omega (arith, reads_left-drop http_read_buf_size c cs))
read-fewer (x ∷ b) cs = inr (reads_left-cons 255 x b cs)

some_is_some : {A : Type 0} {o : Option A} → (p : A) × (o ≡ some p) → o ≡ none → ⊥
some_is_some (p, e) f = cc (sym e ∙ f)

module _ (split_host : Text → Option Text) (read_request : Text → Option Text)
    (hello_name : Text → Text) where
  -- A round that returns gives all that it has read, or no host.
  abbrev Given : Text → Option (Text × Text) → Type 0
  Given b none = Unit
  Given b (some (host, consumed)) = (host ≡ []) ⊎ (consumed ≡ b)

  of_request-Given :
      (b : Text) (o : Option Text)
      → Given b (some (of_request split_host read_request hello_name b o))
  of_request-Given b none = inl refl
  of_request-Given b (some host) = inr refl

  found_end-Given :
      (b : Text) (failed : Bool) (o : Option ℕ)
      → Given b (found_end split_host read_request hello_name b failed o)
  found_end-Given b failed (some n) = of_request-Given b (read_request (take n b))
  found_end-Given b true none = inr refl
  found_end-Given b false none = tt

  round-Given :
      (b : Text) (failed : Bool) → Given b (round split_host read_request hello_name b failed)
  unfolding round
  round-Given b failed =
      if_both {A = Option (Text × Text)} (Given b) (is_no_method b) (λ e. inl refl)
        (λ e. found_end-Given b failed (end_of_headers b))

  found_end-fails :
      (b : Text) (o : Option ℕ)
      → (p : Text × Text) × (found_end split_host read_request hello_name b true o ≡ some p)
  found_end-fails b (some n) = (_, refl)
  found_end-fails b none = (_, refl)

  round-fails :
      (b : Text) → (p : Text × Text) × (round split_host read_request hello_name b true ≡ some p)
  unfolding round
  round-fails b =
      if_both {A = Option (Text × Text)} (λ o. (p : Text × Text) × (o ≡ some p)) (is_no_method b)
        (λ e. (_, refl)) (λ e. found_end-fails b (end_of_headers b))

  -- A result that loses nothing of `all`.
  abbrev Kept : Text → Option ((Text × Text) × Reader) → Type 0
  Kept all none = ⊥
  Kept all (some ((host, consumed), r)) = (host ≡ []) ⊎ (consumed ++ stream r ≡ all)

  continue-Kept :
      (all b : Text) (failed : Bool) (o : Option (Text × Text)) (r : Reader)
      (rest : Option ((Text × Text) × Reader))
      → Given b o
      → b ++ stream r ≡ all
      → (o ≡ none → Kept all rest)
      → Kept all (or_continue split_host read_request hello_name o r rest)
  continue-Kept all b failed none r rest g e k = k refl
  continue-Kept all b failed (some (host, consumed)) r rest (inl none_named) e k = inl none_named
  continue-Kept all b failed (some (host, consumed)) r rest (inr same) e k =
      inr (ap (λ c. c ++ stream r) same ∙ e)

  http_loop-Kept :
      (fuel : ℕ) (all acc : Text) (r : Reader)
      → reads_left r.buffered r.chunks < fuel
      → acc ++ stream r ≡ all
      → Kept all (http_loop split_host read_request hello_name fuel acc r)
  unfolding http_loop
  http_loop-Kept zero all acc r h e = absurd (omega (arith, h))
  http_loop-Kept (suc fuel) all acc r h e =
      let got = (read_some http_read_buf_size r.buffered r.chunks).0 in
      let after = (read_some http_read_buf_size r.buffered r.chunks).1 in
      let b = acc ++ got.0 in
      let same =
        append_assoc acc got.0 (stream after)
        ∙ ap (λ l. acc ++ l) (read-stream http_read_buf_size r.buffered r.chunks)
        ∙ e in
      if_both {A = Option ((Text × Text) × Reader)} (Kept all) (leb max_total (length acc))
        (λ full. inr e)
        (λ more.
          continue-Kept all b got.1 (round split_host read_request hello_name b got.1) after
            (http_loop split_host read_request hello_name fuel b after) (round-Given b got.1) same
            (λ open_. elim (read-fewer r.buffered r.chunks) [
              | inl failed ↦ absurd (
                  some_is_some (round-fails b)
                    (ap (round split_host read_request hello_name b) (sym failed) ∙ open_))
              | inr fewer ↦ http_loop-Kept fuel all b after (omega (arith, fewer, h)) same
            ]))

  http_host_header-Kept :
      (r : Reader) → Kept (stream r) (http_host_header split_host read_request hello_name r)
  unfolding http_host_header
  http_host_header-Kept r =
      http_loop-Kept (reads_left r.buffered r.chunks + 2) (stream r) [] r (omega arith) refl

  hello_of-stream :
      (o : Option Text) (r : Reader)
      → stream (hello_of split_host read_request hello_name o r).1 ≡ stream r
  hello_of-stream none r = refl
  hello_of-stream (some hdr) r =
      if_both {A = Text × Reader} (λ x. stream x.1 ≡ stream r) (byte_at hdr 0 == 22)
        (λ e. fill-stream (5 + (byte_at hdr 3 * 256 + byte_at hdr 4)) r.buffered r.chunks)
        (λ e. refl)

  client_hello-stream :
      (r : Reader)
      → stream (client_hello_server_name split_host read_request hello_name r).1 ≡ stream r
  unfolding client_hello_server_name
  client_hello-stream r =
      let first = fill 5 r.buffered r.chunks in
      hello_of-stream (peeked 5 first) first ∙ fill-stream 5 r.buffered r.chunks

  abbrev pub IsReplayed : Reader → Option (Text × Reader) → Type 0
  IsReplayed r o =
      (host : Text) × (after : Reader) × (o ≡ some (host, after))
      × ((host ≡ []) ⊎ (stream after ≡ stream r))

  replayed-IsReplayed :
      (r : Reader) (o : Option ((Text × Text) × Reader))
      → Kept (stream r) o
      → IsReplayed r (replayed split_host read_request hello_name o)
  replayed-IsReplayed r none h = absurd h
  replayed-IsReplayed r (some ((host, consumed), after)) (inl e) = (host, _, refl, inl e)
  replayed-IsReplayed r (some ((host, consumed), after)) (inr e) =
      (host, _, refl, inr (append_assoc consumed after.buffered (concat after.chunks) ∙ e))

  -- In both modes the search for the host ends, whatever the connection sends, and unless no host is found, the
  -- connection that is handed on reads exactly the bytes that the first one would have read.
  pub sniff-IsReplayed :
      (mode : RoutingMode) (r : Reader)
      → IsReplayed r (sniff split_host read_request hello_name mode r)
  unfolding sniff
  sniff-IsReplayed route_sni r = (_, _, refl, inr (client_hello-stream r))
  sniff-IsReplayed route_http_host r =
      replayed-IsReplayed r (http_host_header split_host read_request hello_name r)
        (http_host_header-Kept r)
