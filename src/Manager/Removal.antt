-- ===== src/Manager/Removal.antt =====
-- What holds of the manager's maps, and that removing and registering a proxy keep it.
use tsdproxy.Common.{
  ◌<◌, ◌≡◌, ◌≢◌, sym, ap, ◌∙◌, Bool, Option, none, some, arith, Text, text_Eq, text_eq_iff, All,
  ◌⊎◌, Option-cases, inl, inr, if_both,
}
use tsdproxy.Common.Maps.{Map, lookup, insert, erase, lookup-insert, lookup-erase}
use tsdproxy.Manager.{
  Registered, ProxyManager, or_empty, forget_target, teardown, remove_found, remove_and_teardown,
  register_proxy,
}

-- `h` has the proxy `p`.
abbrev pub Has : ProxyManager → Text → Registered → Type 0
Has m h p = lookup h m.proxies ≡ some p

-- Every proxy stands under its host name, the index leads to a proxy of the target, and no registered
-- proxy was torn down or stands twice.
pub record IsConsistent (m : ProxyManager) : Type 0 where
  pub named : (h : Text) (p : Registered) → Has m h p → p.config.hostname ≡ h
  pub indexed :
      (t h : Text)
      → lookup t m.target_index ≡ some h
      → (p : Registered) × Has m h p × (p.config.target_id ≡ t)
  pub fresh : (h : Text) (p : Registered) → Has m h p → p.id < m.next_id
  pub past : All (λ i. i < m.next_id) m.torn_down
  pub alive : (h : Text) (p : Registered) → Has m h p → All (λ i. i ≢ p.id) m.torn_down
  pub unique : (h k : Text) (p q : Registered) → Has m h p → Has m k q → p.id ≡ q.id → h ≡ k

Has-erase :
    (h k : Text) (p : Registered) (m : Map Text Registered)
    → lookup k (erase h m) ≡ some p
    → (h ≢ k) × (lookup k m ≡ some p)
Has-erase h k p m e = ground (arith, lookup-erase h k m, text_eq_iff h k)

pub erase-Has :
    (h k : Text) (p : Registered) (m : Map Text Registered)
    → h ≢ k
    → lookup k m ≡ some p
    → lookup k (erase h m) ≡ some p
erase-Has h k p m e f = ground (arith, lookup-erase h k m, text_eq_iff h k)

pub Has-same :
    (h k : Text) (p q : Registered) (m : ProxyManager) → Has m h p → Has m k q → h ≡ k → p ≡ q
Has-same h k p q m e f g = ground (arith, e, f, g)

forget_target_lem :
    (t u h g : Text) (m : Map Text Text)
    → lookup u (forget_target t h m) ≡ some g
    → (lookup u m ≡ some g) × (t ≡ u → g ≢ h)
unfolding forget_target
forget_target_lem t u h g m e =
    ground (arith, lookup-erase t u m, text_eq_iff t u, text_eq_iff (or_empty (lookup t m)) h)

pub teardown-IsConsistent :
    (h : Text) (p : Registered) (m : ProxyManager)
    → Has m h p
    → IsConsistent m
    → IsConsistent (teardown h p m)
unfolding teardown
teardown-IsConsistent h p m here v = record {
  named = λ k q e. v.named k q (Has-erase h k q m.proxies e).1;
  indexed = λ t k e.
      let (before, differs) = forget_target_lem p.config.target_id t h k m.target_index e in
      let (q, has, same) = v.indexed t k before in
      let other = λ (g : h ≡ k).
        differs (ap (λ r. r.config.target_id) (Has-same h k p q m here has g) ∙ same) (sym g) in
      (q, erase-Has h k q m.proxies other has, same);
  fresh = λ k q e. v.fresh k q (Has-erase h k q m.proxies e).1;
  past = (v.fresh h p here, v.past);
  alive = λ k q e.
      let (differs, has) = Has-erase h k q m.proxies e in
      ((λ same. differs (v.unique h k p q here has same)), v.alive k q has);
  unique = λ k l q r e f same.
      v.unique k l q r (Has-erase h k q m.proxies e).1 (Has-erase h l r m.proxies f).1 same;
}

pub remove_and_teardown-IsConsistent :
    (h : Text) (identity : Registered → Bool) (m : ProxyManager)
    → IsConsistent m
    → IsConsistent (remove_and_teardown h identity m).0
unfolding remove_and_teardown remove_found
remove_and_teardown-IsConsistent h identity m v = elim (Option-cases (lookup h m.proxies)) [
  | inl e ↦ rw e v
  | inr (p, e) ↦ rw e (
      if_both {A = ProxyManager × Option Registered} (λ r. IsConsistent r.0) (identity p)
        (λ yes. teardown-IsConsistent h p m e v) (λ no. v))
]

lookup-insert-cases {ℓ} :
    {V : Type ℓ} (h k : Text) (p q : V) (m : Map Text V)
    → lookup k (insert h p m) ≡ some q
    → ((h ≡ k) × (p ≡ q)) ⊎ ((h ≢ k) × (lookup k m ≡ some q))
lookup-insert-cases h k p q m e = ground (arith, lookup-insert h k p m, text_eq_iff h k)

insert_other :
    (h k : Text) (p q : Registered) (m : Map Text Registered)
    → lookup h m ≡ none
    → lookup k m ≡ some q
    → lookup k (insert h p m) ≡ some q
insert_other h k p q m free e = ground (arith, lookup-insert h k p m, text_eq_iff h k)

insert_self :
    (h k : Text) (p : Registered) (m : Map Text Registered)
    → h ≡ k
    → lookup k (insert h p m) ≡ some p
insert_self h k p m e = ground (arith, lookup-insert h k p m, text_eq_iff h k)

-- A new proxy may be registered under a free host name.
pub register_proxy-IsConsistent :
    (p : Registered) (m : ProxyManager)
    → lookup p.config.hostname m.proxies ≡ none
    → p.id < m.next_id
    → ((k : Text) (q : Registered) → Has m k q → q.id ≢ p.id)
    → All (λ i. i ≢ p.id) m.torn_down
    → IsConsistent m
    → IsConsistent (register_proxy p p.config m).0
unfolding register_proxy
register_proxy-IsConsistent p m free small other gone v =
    if_both {A = ProxyManager × Bool} (λ r. IsConsistent r.0) m.stopping (λ _. v)
      (λ _. record {
        named = λ k q e. elim (lookup-insert-cases p.config.hostname k p q m.proxies e) [
          | inl (h, s) ↦ ap (λ r. r.config.hostname) (sym s) ∙ h
          | inr (h, f) ↦ v.named k q f
        ];
        indexed = λ t k e.
            elim (lookup-insert-cases p.config.target_id t p.config.hostname k m.target_index e) [
              | inl (same, h) ↦ (p, insert_self p.config.hostname k p m.proxies h, same)
              | inr (differs, f) ↦
                  let (q, has, same) = v.indexed t k f in
                  (q, insert_other p.config.hostname k p q m.proxies free has, same)
            ];
        fresh = λ k q e. elim (lookup-insert-cases p.config.hostname k p q m.proxies e) [
          | inl (h, s) ↦ rw⁻¹ s small
          | inr (h, f) ↦ v.fresh k q f
        ];
        past = v.past;
        alive = λ k q e. elim (lookup-insert-cases p.config.hostname k p q m.proxies e) [
          | inl (h, s) ↦ rw⁻¹ s gone
          | inr (h, f) ↦ v.alive k q f
        ];
        unique = λ k l q r e f same.
            elim (lookup-insert-cases p.config.hostname k p q m.proxies e) [
              | inl (h, s) ↦ elim (lookup-insert-cases p.config.hostname l p r m.proxies f) [
                | inl (i, u) ↦ sym h ∙ i
                | inr (i, g) ↦ absurd (other l r g (sym same ∙ ap (λ x. x.id) (sym s)))
              ]
              | inr (h, g) ↦ elim (lookup-insert-cases p.config.hostname l p r m.proxies f) [
                | inl (i, u) ↦ absurd (other k q g (same ∙ ap (λ x. x.id) (sym u)))
                | inr (i, u) ↦ v.unique k l q r g u same
              ]
            ];
      })
