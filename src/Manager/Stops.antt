-- ===== src/Manager/Stops.antt =====
-- What a stop event removes, and what a shutdown leaves.
use tsdproxy.Common.{
  ◌≡◌, ◌≢◌, refl, sym, ap, ◌∙◌, Bool, true, false, ◌||◌, List, [], ◌∷◌, Option, none, some, arith,
  if◌then◌else◌, Text, text_eq, text_Eq, text_eq_iff, inl, inr, if_both, err, ◌⊎◌,
}
use tsdproxy.Common.Maps.{Map, lookup, lookup-erase}
use tsdproxy.Manager.{
  TargetConfig, Registered, ProxyManager, Answers, or_empty, teardown, remove_found, forget_target,
  remove_and_teardown, remove_proxy, event_stop, remove_all, stop_all_proxies, hostnames,
  shutting_down, new_proxy,
}
use tsdproxy.Manager.Removal.{Has, Has-same, erase-Has, IsConsistent}

event_stop_removes :
    (m : ProxyManager) (id h : Text) (p : Registered)
    → lookup id m.target_index ≡ some h
    → h ≢ []
    → Has m h p
    → p.config.target_id ≡ id
    → event_stop id m ≡ teardown h p m
unfolding event_stop remove_and_teardown remove_found
event_stop_removes m id h p e some_name has same =
    let named : text_eq h [] ≡ false = ground (arith, text_eq_iff h [], some_name) in
    let this : text_eq p.config.target_id id ≡ true = (text_eq_iff p.config.target_id id).1 same in
    rw (e, named, has, this) refl

-- A stop event for a target that the index knows removes the proxy under the target's host name and its
-- index entry, and tears that proxy down and no other; every other host name keeps its proxy.
pub event_stop_known :
    (m : ProxyManager) (id h : Text)
    → IsConsistent m
    → lookup id m.target_index ≡ some h
    → h ≢ []
    → (p : Registered) × Has m h p
      × (p.config.target_id ≡ id)
      × (lookup h (event_stop id m).proxies ≡ none)
      × (lookup id (event_stop id m).target_index ≡ none)
      × ((event_stop id m).torn_down ≡ p.id ∷ m.torn_down)
      × ((k : Text) → k ≢ h → lookup k (event_stop id m).proxies ≡ lookup k m.proxies)
unfolding teardown forget_target
event_stop_known m id h v e some_name =
    let (p, has, same) = v.indexed id h e in
    let eq = event_stop_removes m id h p e some_name has same in
    (
      p,
      has,
      same,
      rw eq (ground (arith, lookup-erase h h m.proxies, text_eq_iff h h)),
      rw (eq, same, e)
          (ground (arith, lookup-erase id id m.target_index, text_eq_iff id id, text_eq_iff h h)),
      rw eq refl,
      λ k other. rw eq (ground (arith, lookup-erase h k m.proxies, text_eq_iff h k)),
    )

remove_found_other :
    (m : ProxyManager) (id h k : Text) (o : Option Registered) (q : Registered)
    → lookup h m.proxies ≡ o
    → Has m k q
    → q.config.target_id ≢ id
    → Has (remove_found h (λ p. text_eq p.config.target_id id) o m).0 k q
unfolding remove_found teardown
remove_found_other m id h k none q e has differs = has
remove_found_other m id h k (some p) q e has differs =
    if_both {A = ProxyManager × Option Registered} (λ r. Has r.0 k q)
      (text_eq p.config.target_id id)
      (λ same.
        let t = (text_eq_iff p.config.target_id id).0 same in
        let other = λ (g : h ≡ k).
          differs (sym (ap (λ r. r.config.target_id) (Has-same h k p q m e has g)) ∙ t) in
        erase-Has h k q m.proxies other has)
      (λ _. has)

-- A stop event never removes a proxy of another target: if a host name was taken over by a second
-- target, a late stop of the first one leaves the second one's proxy in place.
pub event_stop_other :
    (m : ProxyManager) (id k : Text) (q : Registered)
    → Has m k q
    → q.config.target_id ≢ id
    → Has (event_stop id m) k q
unfolding event_stop remove_and_teardown
event_stop_other m id k q has differs =
    let h = or_empty (lookup id m.target_index) in
    if_both (λ n. Has n k q) (text_eq h []) (λ _. has)
      (λ _. remove_found_other m id h k (lookup h m.proxies) q refl has differs)

remove_proxy_lem :
    (h k : Text) (o : Option Registered) (m : ProxyManager)
    → lookup h m.proxies ≡ o
    → lookup k (remove_found h (λ p. true) o m).0.proxies
      ≡ (if text_eq h k then none else lookup k m.proxies)
unfolding remove_found teardown
remove_proxy_lem h k none m e = ground (arith, text_eq_iff h k, e)
remove_proxy_lem h k (some p) m e = lookup-erase h k m.proxies

listed : Text → List Text → Bool
listed k [] = false
listed k (h ∷ hs) = text_eq h k || listed k hs

listed-hostnames :
    (k : Text) (m : Map Text Registered) → (listed k (hostnames m) ≡ true) ⊎ (lookup k m ≡ none)
unfolding listed lookup
listed-hostnames k [] = inr refl
listed-hostnames k ((h, p) ∷ m) = ground (arith, listed-hostnames k m)

remove_all_lem :
    (hs : List Text) (k : Text) (m : ProxyManager)
    → (listed k hs ≡ true) ⊎ (lookup k m.proxies ≡ none)
    → lookup k (remove_all hs m).proxies ≡ none
unfolding remove_all listed remove_proxy remove_and_teardown
remove_all_lem [] k m (inl h) = cc
remove_all_lem [] k m (inr h) = h
remove_all_lem (g ∷ hs) k m h =
    let e = remove_proxy_lem g k (lookup g m.proxies) m refl in
    remove_all_lem hs k (remove_proxy g m) (ground (arith, e, h))

remove_found-stopping :
    (h : Text) (o : Option Registered) (m : ProxyManager)
    → (remove_found h (λ p. true) o m).0.stopping ≡ m.stopping
unfolding remove_found teardown
remove_found-stopping h none m = refl
remove_found-stopping h (some p) m = refl

remove_all-stopping : (hs : List Text) (m : ProxyManager) → (remove_all hs m).stopping ≡ m.stopping
unfolding remove_all remove_proxy remove_and_teardown
remove_all-stopping [] m = refl
remove_all-stopping (h ∷ hs) m =
    remove_all-stopping hs (remove_proxy h m) ∙ remove_found-stopping h (lookup h m.proxies) m

new_proxy_stopping :
    (answers : Answers) (config : TargetConfig) (m : ProxyManager)
    → m.stopping ≡ true
    → new_proxy answers config m ≡ (m, err shutting_down)
unfolding new_proxy
new_proxy_stopping answers config m h = rw h refl

-- A shutdown leaves no proxy under any host name, and no proxy can be made after it.
pub stop_all_proxies_lem :
    (m : ProxyManager) (k : Text) (answers : Answers) (config : TargetConfig)
    → let stopped = stop_all_proxies m in
      (lookup k stopped.proxies ≡ none)
      × (new_proxy answers config stopped ≡ (stopped, err shutting_down))
unfolding stop_all_proxies
stop_all_proxies_lem m k answers config = (
  remove_all_lem (hostnames m.proxies) k (record m { stopping = true })
      (listed-hostnames k m.proxies),
  new_proxy_stopping answers config (stop_all_proxies m)
      (remove_all-stopping (hostnames m.proxies) _),
)
