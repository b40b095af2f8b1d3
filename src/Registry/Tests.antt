-- ===== src/Registry/Tests.antt =====
-- A first pod with MetaDomain, a group 300 in it and a reference 301 to that group; and three pods
-- that are asked for the resource 300.
use mathlib.Core.Bool.{true≢false}
use mathlib.Core.List.{cons-ne-nil}
use pla_co_r.Base.{
  ℕ, suc, ◌≡◌, ◌≢◌, refl, sym, ◌∙◌, ap, subst, Bool, true, false, Option, none, some, none-ne-some,
  some-injective, List, [], ◌∷◌, All, ◌==◌, Bool-cases, inl, inr, arith, Dict, lookup, put_new,
  lookup-yes, lookup-no,
}
use pla_co_r.Text.Bytes.{codes}
use pla_co_r.Consistency.Object.{ConsistencyObject, consistency_object}
use pla_co_r.Consistency.Requests.{set_resource}
use pla_co_r.Organizer.Members.{no_members}
use pla_co_r.Registry.State
use pla_co_r.Registry.State.{
  Resource, with_dynamic_organizer, without_organizer, Registry, SearchVars, resource_manager,
  ended, waiting, pred,
}
use pla_co_r.Registry.Allocate.{allocate_resource, create_meta_domain, create_reference}
use pla_co_r.Registry.Domain.{Fresh, Found, get_domain_idp}
use pla_co_r.Registry.History.{at_start, next, apply, creates_meta_domain, allocates, domain-Found}
use pla_co_r.Registry.Search.{search_resource, search_turn}
use pla_co_r.Registry.Owner.{heard, answers, found, Pods, search_answered}
use pla_co_r.Registry.Entries.{Entered, allocate-Entered}

lookup-All : (p : Dict ℕ) (k : ℕ) → All (λ x. x.1 ≢ k) p → (j c : ℕ) → lookup p j ≡ some c → c ≢ k
unfolding lookup
lookup-All [] k h j c e = cc
lookup-All (x ∷ p) k h j c e = elim (Bool-cases (x.0 == j)) [
  | inl f ↦ subst (λ y. y ≢ k) (some-injective _ _ (sym (lookup-yes x p j f) ∙ e)) h.0
  | inr f ↦ lookup-All p k h.1 j c (sym (lookup-no x p j f) ∙ e)
]

abbrev group : Resource
group = with_dynamic_organizer (record { idp = 300; module_name = []; members = no_members })

abbrev first_pod : Registry
first_pod = (create_meta_domain "C1" (resource_manager true)).registry

abbrev with_group : Registry
with_group = (allocate_resource 300 0 (codes "g") group "C1" first_pod).registry

allocate_test : (allocate_resource 300 0 (codes "g") group "C1" first_pod).outcome ≡ ended tt
unfolding allocate_resource State.get_consistency_object State.resource_of lookup create_meta_domain
    put_new resource_manager pla_co_r.Base.place set_resource pla_co_r.Registry.Allocate.attach
    pla_co_r.Organizer.Dynamic.join pla_co_r.Organizer.Members.join pla_co_r.Organizer.Members.find
    pla_co_r.Organizer.Members.find_if no_members pla_co_r.Organizer.Members.insert
    pla_co_r.Organizer.Members.emplace pla_co_r.Organizer.Members.member_name
    pla_co_r.Registry.Allocate.allocated
allocate_test = refl

first_pod-Fresh : Fresh first_pod.predecessors 300
unfolding lookup create_meta_domain put_new resource_manager pla_co_r.Base.place
first_pod-Fresh = (refl, lookup-All ((0, 0) ∷ []) 300 ((λ e. absurd (omega (arith, e))), tt))

domain-Found_example :
    Found
      (apply
        (allocates 300 0 (codes "g") group "C1")
        (apply (creates_meta_domain "C1") (resource_manager true))).predecessors
      300
      (get_domain_idp 3
        (apply
          (allocates 300 0 (codes "g") group "C1")
          (apply (creates_meta_domain "C1") (resource_manager true)))
        300)
unfolding apply
domain-Found_example =
    domain-Found 2 _ 3 300
      (next (allocates 300 0 (codes "g") group "C1")
        (first_pod-Fresh, (λ e. absurd (omega (arith, e))))
        (next (creates_meta_domain "C1") tt (at_start true)))
      (omega arith)

allocate-Entered_example :
    Entered 300 0 (set_resource group (consistency_object 300 true "C1")) first_pod with_group
unfolding lookup create_meta_domain resource_manager put_new pla_co_r.Base.place
allocate-Entered_example =
    allocate-Entered 300 0 (codes "g") group "C1" first_pod first_pod-Fresh
      (λ e. absurd (omega (arith, e))) refl refl allocate_test

abbrev group_object : ConsistencyObject Resource
group_object = set_resource group (consistency_object 300 true "C1")

abbrev meta_object : ConsistencyObject Resource
meta_object =
    set_resource
      (with_dynamic_organizer (record { idp = 0; module_name = []; members = no_members }))
      (consistency_object 0 true "C1")

abbrev stored : Registry
stored = record first_pod {
  cst_objs = (0, meta_object) ∷ ((300, group_object) ∷ []);
  predecessors = (0, 0) ∷ ((300, 0) ∷ []);
  alias = [];
}

stored-Fresh : Fresh stored.predecessors 301
unfolding lookup
stored-Fresh = (
  refl,
  lookup-All ((0, 0) ∷ ((300, 0) ∷ [])) 301
      ((λ e. absurd (omega (arith, e))), ((λ e. absurd (omega (arith, e))), tt)),
)

reference_test : (create_reference 301 300 0 (codes "r") stored).outcome ≡ ended tt
unfolding create_reference State.get_consistency_object lookup set_resource
    pla_co_r.Registry.Allocate.attach_reference pla_co_r.Organizer.Dynamic.join
    pla_co_r.Organizer.Members.join pla_co_r.Organizer.Members.find
    pla_co_r.Organizer.Members.find_if no_members pla_co_r.Registry.Allocate.referenced
reference_test = refl

abbrev pods : Pods
pods = (codes "C2", resource_manager false) ∷ ((codes "C1", with_group) ∷ [])

search_answered_example :
    let s = search_resource 300 2 (resource_manager false) in
    (s.effects ≡ State.send_search_resource_request 300 ∷ [])
    × ((search_turn 300 (heard 300 (answers 300 pods) s.registry)).outcome
        ≡ found 300 (codes "C1") 2 pods)
unfolding lookup resource_manager
search_answered_example =
    search_answered 300 (codes "C1") (resource_manager false) 2 pods refl (λ e. cons-ne-nil _ _ e)
      (omega arith) ((λ e. absurd (true≢false (sym e))), ((λ e. refl), tt))
