-- ===== src/Registry/Entries.antt =====
-- What `AllocateResource`, `CreateReference` and `GetPredecessorIdp`
-- (libcor/include/cor/services/resource_manager.tpp,
-- libcor/src/cor/services/resource_manager.cpp) leave for later calls.
use Prim.Native.String.{String}
use pla_co_r.Base.{
  ℕ, zero, suc, ◌≡◌, ◌≢◌, refl, sym, ◌∙◌, ap, true, false, Option, none, some, none-ne-some, List,
  if◌then◌else◌, ◌==◌, Dict, lookup, put_new, lookup-put_ne, lookup-put_new, lookup-put_new_ne,
}
use pla_co_r.Text.Bytes.{Bytes}
use pla_co_r.Page.Manager.{meta_domain}
use pla_co_r.Consistency.Object.{ConsistencyObject, consistency_object}
use pla_co_r.Consistency.Requests.{set_resource}
use pla_co_r.Organizer.Members.{Act}
use pla_co_r.Registry.State.{
  Resource, Registry, Outcome, ended, raised, waiting, Piece, piece, default, resolve_idp,
  get_consistency_object, contains_resource, get_predecessor_idp, known_predecessor,
}
use pla_co_r.Registry.Allocate.{
  Attached, with_resource, after_join, join_context, attach, attach_reference, allocated,
  allocate_resource, referenced, create_reference,
}
use pla_co_r.Registry.Domain.{Climb, reached, looked, climb, get_domain_idp, Fresh}

-- A join that returned leaves the entries, and the object of another resource, alone.
module _ (j ctx : ℕ) (v : Option (ConsistencyObject Resource)) (Q : Registry → Type 0)
    (next_piece : Registry → Piece Unit) (r : Registry) (same : lookup r.cst_objs j ≡ v)
    (other : (o : ConsistencyObject Resource)
      → get_consistency_object r ctx ≡ some o
      → resolve_idp r ctx ≢ j)
    (k : (r2 : Registry)
      → r2.predecessors ≡ r.predecessors
      → r2.alias ≡ r.alias
      → lookup r2.cst_objs j ≡ v
      → Q (next_piece r2).registry) where
  with_resource-same :
      (o : ConsistencyObject Resource) (rsc : Resource)
      → get_consistency_object r ctx ≡ some o
      → lookup (with_resource ctx o rsc r).cst_objs j ≡ v
  unfolding with_resource
  with_resource-same o rsc e = lookup-put_ne r.cst_objs (resolve_idp r ctx) j _ (other o e) ∙ same

  attached-ended :
      (o : ConsistencyObject Resource) (acts : List Act) (rsc : Resource) (out : Outcome Unit)
      → get_consistency_object r ctx ≡ some o
      → let p =
          after_join ctx o (record { acts = acts; resource = rsc; outcome = out }) next_piece r in
        p.outcome ≡ ended tt → Q p.registry
  unfolding after_join piece with_resource
  attached-ended o acts rsc (ended u) e h =
      k (with_resource ctx o rsc r) refl refl (with_resource-same o rsc e)
  attached-ended o acts rsc (raised f) e h = cc
  attached-ended o acts rsc (waiting s) e h = cc

  join_context-ended :
      (att : Resource → Attached) (o : Option (ConsistencyObject Resource)) (rsc : Option Resource)
      → get_consistency_object r ctx ≡ o
      → (join_context ctx att next_piece r o rsc).outcome ≡ ended tt
      → Q (join_context ctx att next_piece r o rsc).registry
  unfolding join_context piece
  join_context-ended att none rsc e h = cc
  join_context-ended att (some o) none e h = cc
  join_context-ended att (some o) (some rsc) e h =
      attached-ended o (att rsc).acts (att rsc).resource (att rsc).outcome e h

known_here :
    (idp c : ℕ) (r : Registry) (o cached : Option ℕ)
    → o ≡ some c
    → (known_predecessor idp r o cached).outcome ≡ ended c
unfolding known_predecessor piece
known_here idp c r none cached e = cc
known_here idp c r (some d) cached e = cc

looked-cong :
    (i : ℕ) (f g : ℕ → Climb) (o : Option ℕ)
    → ((ctx : ℕ) → o ≡ some ctx → f ctx ≡ g ctx)
    → looked i f o ≡ looked i g o
unfolding looked
looked-cong i f g none h = refl
looked-cong i f g (some ctx) h = ap (λ c. if ctx == meta_domain then reached i else c) (h ctx refl)

climb-put_new :
    (p : Dict ℕ) (k c n i : ℕ) → Fresh p k → k ≢ i → climb n (put_new p k c) i ≡ climb n p i
unfolding climb
climb-put_new p k c zero i f d = refl
climb-put_new p k c (suc n) i f d =
    ap (looked i (climb n (put_new p k c))) (lookup-put_new_ne p k i c d)
    ∙ looked-cong i (climb n (put_new p k c)) (climb n p) (lookup p i)
        (λ ctx e. climb-put_new p k c n ctx f (λ g. f.1 i ctx e (sym g)))

climb-new :
    (p : Dict ℕ) (k c n : ℕ)
    → Fresh p k
    → k ≢ c
    → climb (suc n) (put_new p k c) k ≡ (if c == meta_domain then reached k else climb n p c)
unfolding climb looked
climb-new p k c n f d =
    ap (looked k (climb n (put_new p k c))) (lookup-put_new p k c f.0)
    ∙ ap (λ x. if c == meta_domain then reached k else x) (climb-put_new p k c n c f d)

-- What a resource, or a reference to one, finds under its new identifier.
abbrev pub Entered : ℕ → ℕ → ConsistencyObject Resource → Registry → Registry → Type 0
Entered new ctx o r r2 =
    (get_consistency_object r2 new ≡ some o)
    × ((contains_resource r2 new ≡ true)
        × (((get_predecessor_idp new r2).outcome ≡ ended ctx)
            × ((n : ℕ)
                → get_domain_idp (suc n) r2 new
                  ≡ (if ctx == meta_domain then reached new else get_domain_idp n r ctx))))

module _ (new ctx : ℕ) (r r2 : Registry) (f : Fresh r.predecessors new) (d : new ≢ ctx) where
  entered :
      (o : ConsistencyObject Resource)
      → r2.predecessors ≡ put_new r.predecessors new ctx
      → get_consistency_object r2 new ≡ some o
      → Entered new ctx o r r2
  unfolding contains_resource get_predecessor_idp get_domain_idp
  entered o e h =
      let at = ap (λ p. lookup p new) e ∙ lookup-put_new r.predecessors new ctx f.0 in
      (
        h,
        (
          ap (λ x. elim x [ none ↦ false | some c ↦ true ]) at,
          (
            known_here new ctx r2 _ _ at,
            (λ n. ap (λ p. climb (suc n) p new) e ∙ climb-new r.predecessors new ctx n f d),
          ),
        ),
      )

-- An `AllocateResource` that returned has entered the resource: its consistency object is there and
-- has the resource, its predecessor is the context, and its domain is itself right below
-- MetaDomain, and else the domain of the context. The identifier is new to the registry.
pub allocate-Entered :
    (idp ctx : ℕ) (name : Bytes) (rsc : Resource) (ctrl : String) (r : Registry)
    → Fresh r.predecessors idp
    → idp ≢ ctx
    → lookup r.alias idp ≡ none
    → lookup r.cst_objs idp ≡ none
    → (allocate_resource idp ctx name rsc ctrl r).outcome ≡ ended tt
    → Entered idp ctx
        (set_resource rsc (consistency_object idp true ctrl))
        r
        (allocate_resource idp ctx name rsc ctrl r).registry
unfolding allocate_resource allocated piece get_consistency_object resolve_idp
allocate-Entered idp ctx name rsc ctrl r f d a e h =
    let o = set_resource rsc (consistency_object idp true ctrl) in
    join_context-ended idp ctx none (Entered idp ctx o r) (allocated idp ctx rsc ctrl) r e
      (λ c g k. none-ne-some c (sym e ∙ ap (lookup r.cst_objs) (sym k) ∙ g))
      (λ r2 p q absent.
        entered idp ctx r (allocated idp ctx rsc ctrl r2).registry f d o
          (ap (λ x. put_new x idp ctx) p)
          (ap (λ x. lookup (put_new r2.cst_objs idp o) (default idp (lookup x idp))) q
            ∙ ap (λ x. lookup (put_new r2.cst_objs idp o) (default idp x)) a
            ∙ lookup-put_new r2.cst_objs idp o absent))
      (attach ctx idp name) (get_consistency_object r ctx) _ refl h

-- A `CreateReference` that returned has entered the new identifier: it leads to the consistency
-- object of the resource that it stands for, and its predecessor and domain are those of a resource
-- of the context. The identifier is new, and the resource is there under its own identifier and is
-- not the context.
pub reference-Entered :
    (new idp ctx : ℕ) (name : Bytes) (o : ConsistencyObject Resource) (r : Registry)
    → Fresh r.predecessors new
    → new ≢ ctx
    → lookup r.alias new ≡ none
    → lookup r.cst_objs idp ≡ some o
    → resolve_idp r ctx ≢ idp
    → (create_reference new idp ctx name r).outcome ≡ ended tt
    → Entered new ctx o r (create_reference new idp ctx name r).registry
unfolding create_reference referenced piece get_consistency_object resolve_idp
reference-Entered new idp ctx name o r f d a e n h =
    join_context-ended idp ctx (some o) (Entered new ctx o r) (referenced new idp ctx) r e
      (λ c g k. n k)
      (λ r2 p q same.
        entered new ctx r (referenced new idp ctx r2).registry f d o (ap (λ x. put_new x new ctx) p)
          (ap (λ x. lookup r2.cst_objs (default new x))
              (lookup-put_new r2.alias new idp (ap (λ x. lookup x new) q ∙ a))
            ∙ same))
      (attach_reference ctx new name) (get_consistency_object r ctx) _ refl h
