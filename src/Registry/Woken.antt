-- ===== src/Registry/Woken.antt =====
-- A wait of `GetPredecessorIdp` that ends too early
-- (libcor/src/cor/services/resource_manager.cpp).
use pla_co_r.Base.{
  ℕ, ◌≡◌, refl, ◌∙◌, ap, Option, none, some, lookup, put_new, lookup-put_new, put_new-some,
}
use pla_co_r.Page.Manager.{meta_domain}
use pla_co_r.Registry.State.{
  Registry, ended, waiting, pred, piece, default, get_predecessor_idp, known_predecessor,
  woken_predecessor, predecessor_found,
}

unknown :
    (idp : ℕ) (r : Registry) (o cached : Option ℕ)
    → o ≡ none
    → cached ≡ none
    → (known_predecessor idp r o cached).outcome ≡ waiting (pred idp)
unfolding known_predecessor piece
unknown idp r none none e h = refl
unknown idp r none (some c) e h = cc
unknown idp r (some c) cached e h = cc

cached_predecessor :
    (idp c : ℕ) (r : Registry) (o cached : Option ℕ)
    → o ≡ none
    → cached ≡ some c
    → (known_predecessor idp r o cached).outcome ≡ ended c
unfolding known_predecessor piece
cached_predecessor idp c r none none e h = cc
cached_predecessor idp c r none (some d) e h = cc
cached_predecessor idp c r (some d) cached e h = cc

-- A thread that waits for the predecessor of a resource of another pod, and wakes up before the
-- reply, returns MetaDomain; the reply is then dropped, and every later call returns MetaDomain.
pub woken_early :
    (idp p : ℕ) (r r2 : Registry)
    → lookup r.predecessors idp ≡ none
    → lookup r.cache_preds idp ≡ none
    → r2 ≡ (predecessor_found idp p (woken_predecessor idp r).registry).registry
    → ((get_predecessor_idp idp r).outcome ≡ waiting (pred idp))
      × (((woken_predecessor idp r).outcome ≡ ended meta_domain)
          × ((get_predecessor_idp idp r2).outcome ≡ ended meta_domain))
unfolding get_predecessor_idp woken_predecessor predecessor_found piece
woken_early idp p r r2 e f g = (
  unknown idp r _ _ e f,
  (
    ap (λ c. ended (default 0 c)) f,
    cached_predecessor idp meta_domain r2 _ _ (ap (λ x. lookup x.predecessors idp) g ∙ e) (
        ap (λ x. lookup x.cache_preds idp) g
        ∙ ap (λ x. lookup x idp)
            (put_new-some (put_new r.cache_preds idp 0) idp p 0
              (lookup-put_new r.cache_preds idp 0 f))
        ∙ lookup-put_new r.cache_preds idp 0 f),
  ),
)
