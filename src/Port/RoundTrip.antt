-- ===== src/Port/RoundTrip.antt =====
-- A configuration of an expanded range is the one that its own name, read as a label, stands for.
use tsdproxy.Common.{
  ℕ, ◌≤◌, ◌<◌, ◌≡◌, ◌≢◌, ◌⊎◌, inl, inr, true, [], ◌∷◌, ◌++◌, append_assoc, Option, some, arith,
  Text, text_eq_iff, ok, All-append, All-map, >>=-eq-ok, ok-injective,
}
use mathlib.Core.Path.{subst}
use tsdproxy.Strings.{split, itoa}
use tsdproxy.Strings.Splits.{Lacks, split_of_Lacks, split-append, contains_of_Lacks}
use tsdproxy.Strings.Decimals.{itoa-IsDigit, atoi-itoa}
use tsdproxy.Port.Defs.{
  Url, PortConfig, proto_https, proto_http, proto_tcp, proto_udp, proxy_separator, parse_port,
  default_port_config, is_protocol, proxy_parts, parse_proxy_segment, detect_separator, target_url,
  target_with, target_parts, parse_target_segment, long_label_parts, new_port_long_label,
}
use tsdproxy.Port.Range.{expanded_name, expanded_config}

pub parse_port-itoa : (n : ℕ) → 1 ≤ n → n ≤ 65535 → parse_port (itoa n) ≡ ok n
unfolding parse_port
parse_port-itoa n h k = ground (arith, atoi-itoa n (omega arith))

pub itoa-Lacks : (n b : ℕ) → (b < b'0') ⊎ (b'9' < b) → Lacks b (itoa n)
itoa-Lacks n b h = All-map (λ c d. omega arith) (itoa n) (itoa-IsDigit n)

-- The texts that may stand between the separators of a label.
pub record IsPlain (s : Text) : Type 0 where
  pub no_dash : Lacks b'-' s
  pub no_slash : Lacks b'/' s
  pub no_colon : Lacks b':' s

pub is_protocol_cases :
    (p : Text)
    → is_protocol p ≡ true
    → (p ≡ proto_https) ⊎ ((p ≡ proto_http) ⊎ ((p ≡ proto_tcp) ⊎ (p ≡ proto_udp)))
unfolding is_protocol
is_protocol_cases p h = ground (
  arith,
  text_eq_iff p proto_https,
  text_eq_iff p proto_http,
  text_eq_iff p proto_tcp,
  text_eq_iff p proto_udp,
)

literal_IsPlain : IsPlain proto_https × IsPlain proto_http × IsPlain proto_tcp × IsPlain proto_udp
literal_IsPlain = omega arith

pub protocol-IsPlain : (p : Text) → is_protocol p ≡ true → IsPlain p
protocol-IsPlain p h = elim (is_protocol_cases p h) [
  | inl e ↦ rw e literal_IsPlain.0
  | inr (inl e) ↦ rw e literal_IsPlain.1
  | inr (inr (inl e)) ↦ rw e literal_IsPlain.2
  | inr (inr (inr e)) ↦ rw e literal_IsPlain.3
]

segment-Lacks :
    (n b : ℕ) (p : Text) → (b < b'/') ⊎ (b'9' < b) → Lacks b p → Lacks b (itoa n ++ b'/' ∷ p)
segment-Lacks n b p h k =
    All-append (λ c. c ≢ b) (itoa n) (b'/' ∷ p) (itoa-Lacks n b (omega arith)) (omega arith, k)

name_split :
    (p t : ℕ) (pp tp : Text)
    → expanded_name p pp t tp ≡ (itoa p ++ b'/' ∷ pp) ++ b':' ∷ (itoa t ++ b'/' ∷ tp)
unfolding expanded_name
name_split p t pp tp = rw append_assoc

name-Lacks :
    (p t : ℕ) (pp tp : Text) → IsPlain pp → IsPlain tp → Lacks b'-' (expanded_name p pp t tp)
name-Lacks p t pp tp v w =
    let front = segment-Lacks p b'-' pp (inl (omega arith)) v.no_dash in
    let back : Lacks b'-' (b':' ∷ (itoa t ++ b'/' ∷ tp)) =
      (omega arith, segment-Lacks t b'-' tp (inl (omega arith)) w.no_dash) in
    rw (name_split p t pp tp)
      (All-append (λ c. c ≢ b'-') (itoa p ++ b'/' ∷ pp) (b':' ∷ (itoa t ++ b'/' ∷ tp)) front back)

name_separator :
    (p t : ℕ) (pp tp : Text)
    → IsPlain pp
    → IsPlain tp
    → detect_separator (expanded_name p pp t tp) ≡ proxy_separator
unfolding detect_separator
name_separator p t pp tp v w = rw (contains_of_Lacks b'-' (b'>' ∷ []) _ (name-Lacks p t pp tp v w))

name_parts :
    (p t : ℕ) (pp tp : Text)
    → IsPlain pp
    → IsPlain tp
    → split (expanded_name p pp t tp) proxy_separator
      ≡ (itoa p ++ b'/' ∷ pp) ∷ (itoa t ++ b'/' ∷ tp) ∷ []
name_parts p t pp tp v w = rw (
  name_split,
  split-append b':' (itoa p ++ b'/' ∷ pp) _
      (segment-Lacks p b':' pp (inr (omega arith)) v.no_colon),
  split_of_Lacks b':' _ (segment-Lacks t b':' tp (inr (omega arith)) w.no_colon),
)

segment_parts :
    (n : ℕ) (p : Text) → Lacks b'/' p → split (itoa n ++ b'/' ∷ p) (b'/' ∷ []) ≡ itoa n ∷ p ∷ []
segment_parts n p h =
    rw (
      split-append b'/' (itoa n) p (itoa-Lacks n b'/' (inl (omega arith))),
      split_of_Lacks b'/' p h,
    )

module _ (parse_url : Text → Option Url) where
  -- Two segments, each of a port and a protocol.
  parse_segments :
      (s a b port_a port_b pp tp : Text) (p t : ℕ) (u : Url)
      → split a (b'/' ∷ []) ≡ port_a ∷ pp ∷ []
      → split b (b'/' ∷ []) ≡ port_b ∷ tp ∷ []
      → parse_port port_a ≡ ok p
      → parse_port port_b ≡ ok t
      → is_protocol pp ≡ true
      → target_url parse_url tp port_b ≡ ok u
      → long_label_parts parse_url proxy_separator (a ∷ b ∷ []) (default_port_config s)
        ≡ ok (record (default_port_config s) {
          targets = some (u ∷ []);
          proxy_port = p;
          proxy_protocol = pp;
        })
  unfolding long_label_parts parse_proxy_segment parse_target_segment target_parts target_with
  parse_segments s a b port_a port_b pp tp p t u ea eb pa pb known found =
      rw (ea, pa, known, eb, proxy_parts, pb, found)

  parse_name :
      (p t : ℕ) (pp tp : Text) (u : Url)
      → 1 ≤ p
      → p ≤ 65535
      → 1 ≤ t
      → t ≤ 65535
      → is_protocol pp ≡ true
      → IsPlain tp
      → target_url parse_url tp (itoa t) ≡ ok u
      → let s = expanded_name p pp t tp in
        new_port_long_label parse_url s
        ≡ ok (record (default_port_config s) {
          targets = some (u ∷ []);
          proxy_port = p;
          proxy_protocol = pp;
        })
  unfolding new_port_long_label
  parse_name p t pp tp u p1 p2 t1 t2 known w found =
      let v = protocol-IsPlain pp known in
      rw (name_separator p t pp tp v w, name_parts p t pp tp v w)
        (parse_segments (expanded_name p pp t tp) _ _ _ _ pp tp p t u
          (segment_parts p pp v.no_slash) (segment_parts t tp w.no_slash) (parse_port-itoa p p1 p2)
          (parse_port-itoa t t1 t2) known found)

  -- A configuration that a range label yields for one port is also what the long label that it is
  -- named by stands for, for valid ports, one of the four proxy protocols and a target protocol
  -- without the separators.
  pub new_port_long_label-expanded :
      (p t : ℕ) (pp tp : Text) (c : PortConfig)
      → 1 ≤ p
      → p ≤ 65535
      → 1 ≤ t
      → t ≤ 65535
      → is_protocol pp ≡ true
      → IsPlain tp
      → expanded_config parse_url p pp t tp ≡ ok c
      → new_port_long_label parse_url c.name ≡ ok c
  unfolding expanded_config default_port_config
  new_port_long_label-expanded p t pp tp c p1 p2 t1 t2 known w e =
      let (u, found, same) = >>=-eq-ok (target_url parse_url tp (itoa t)) _ e in
      subst (λ r. new_port_long_label parse_url r.name ≡ ok r) (ok-injective same)
        (parse_name p t pp tp u p1 p2 t1 t2 known w found)
