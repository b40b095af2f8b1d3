-- ===== src/Registry/Owner.antt =====
-- What `SearchResource` (libcor/src/cor/services/resource_manager.cpp) returns, from what the pods
-- answer.
use pla_co_r.Base.{
  ℕ, suc, ◌+◌, ◌%◌, ◌^◌, ◌<◌, ◌≡◌, ◌≢◌, refl, ◌∙◌, ap, Bool, true, false, ◌||◌, Option, none, some,
  List, [], ◌∷◌, map, length, All, if◌then◌else◌, ◌==◌, Bool-cases, ==_iff, inl, inr, arith, lookup,
  put_new, lookup-put, lookup-put_new, put_new-some,
}
use pla_co_r.Text.Bytes.{Bytes}
use pla_co_r.Consistency.Object.{ConsistencyObject}
use pla_co_r.Consistency.Requests.{is_owner}
use pla_co_r.Registry.State.{
  Resource, Registry, SearchVars, Outcome, ended, raised, waiting, nowhere, search,
  send_search_resource_request, piece, default,
}
use pla_co_r.Registry.Search.{
  new_vars, vars_at, with_vars, owner_or_fault, search_turn, search_resource, search_request,
  search_info, info_or, counted, handle_search_resource_info,
}

-- The replies, in the order in which they come.
unfoldable pub heard : ℕ → List Bytes → Registry → Registry
heard idp [] r = r
heard idp (i ∷ is) r = heard idp is (handle_search_resource_info idp i r).registry

-- The pods with their names, in the order in which they answer.
abbrev pub Pods : Type 0
Pods = List (Bytes × Registry)

unfoldable pub answers : ℕ → Pods → List Bytes
answers idp pods = map (λ p. search_info p.0 (lookup p.1.cst_objs idp)) pods

abbrev pub owns : Option (ConsistencyObject Resource) → Bool
owns none = false
owns (some o) = is_owner o

unfoldable pub some_owns : ℕ → Pods → Bool
some_owns idp [] = false
some_owns idp (p ∷ ps) = owns (lookup p.1.cst_objs idp) || some_owns idp ps

-- The entry of a search.
unfoldable pub counted_all : List Bytes → SearchVars → SearchVars
counted_all [] v = v
counted_all (i ∷ is) v = counted_all is (counted i v)

vars_at-with_vars : (idp : ℕ) (v : SearchVars) (r : Registry) → vars_at (with_vars idp v r) idp ≡ v
unfolding vars_at with_vars
vars_at-with_vars idp v r = ap (default (new_vars 0)) (lookup-put r.sr_vars idp v)

hear-vars :
    (idp : ℕ) (i : Bytes) (r : Registry)
    → vars_at (handle_search_resource_info idp i r).registry idp ≡ counted i (vars_at r idp)
unfolding handle_search_resource_info piece
hear-vars idp i r = vars_at-with_vars idp (counted i (vars_at r idp)) r

heard-vars :
    (idp : ℕ) (is : List Bytes) (r : Registry)
    → vars_at (heard idp is r) idp ≡ counted_all is (vars_at r idp)
unfolding heard counted_all
heard-vars idp [] r = refl
heard-vars idp (i ∷ is) r =
    heard-vars idp is (handle_search_resource_info idp i r).registry
    ∙ ap (counted_all is) (hear-vars idp i r)

started-vars :
    (idp n : ℕ) (r : Registry)
    → lookup r.sr_vars idp ≡ none
    → vars_at (search_resource idp n r).registry idp ≡ new_vars n
unfolding search_resource search_turn piece vars_at
started-vars idp n r e =
    let r2 = record r { sr_vars = put_new r.sr_vars idp (new_vars n) } in
    vars_at-with_vars idp (vars_at r2 idp) r2
    ∙ ap (default (new_vars 0)) (lookup-put_new r.sr_vars idp (new_vars n) e)

-- A look, by the entry.
unfoldable pub looked_at : ℕ → SearchVars → Outcome Bytes
looked_at idp v =
    if v.replies == v.total_pods then owner_or_fault idp v.owner else waiting (search idp)

ended_look :
    (idp : ℕ) (v : SearchVars)
    → v.replies ≡ v.total_pods
    → looked_at idp v ≡ owner_or_fault idp v.owner
unfolding looked_at
ended_look idp v h = rw ((==_iff v.replies v.total_pods).1 h) refl

search_turn-vars :
    (idp : ℕ) (r : Registry) (v : SearchVars)
    → vars_at r idp ≡ v
    → (search_turn idp r).outcome ≡ looked_at idp v
unfolding search_turn piece looked_at
search_turn-vars idp r v e = ap (looked_at idp) e

counts_up : (a b : ℕ) → a + suc b < 2 ^ 32 → (a + 1) % 2 ^ 32 ≡ suc a
counts_up a b l = omega arith

-- The answers of pods of which only one name may own the resource.
module _ (idp : ℕ) (w : Bytes) where
  abbrev pub OneOwner : Pods → Type 0
  OneOwner = All (λ p. owns (lookup p.1.cst_objs idp) ≡ true → p.0 ≡ w)

  abbrev named : Bool → Bytes → Bytes
  named b s = if b then w else s

  info_or-same : (s t : Bytes) → t ≢ [] → info_or s t ≡ t
  unfolding info_or
  info_or-same s [] n = absurd (n refl)
  info_or-same s (c ∷ t) n = refl

  info_or-owns :
      (name s : Bytes) (o : Option (ConsistencyObject Resource))
      → w ≢ []
      → (owns o ≡ true → name ≡ w)
      → info_or s (search_info name o) ≡ named (owns o) s
  unfolding info_or search_info is_owner
  info_or-owns name s none n h = refl
  info_or-owns name s (some o) n h = elim (Bool-cases o.owner) [
    | inl e ↦ rw e (ap (info_or s) (h e) ∙ info_or-same s w n)
    | inr e ↦ rw e refl
  ]

  named-named : (a b : Bool) (s : Bytes) → named b (named a s) ≡ named (a || b) s
  named-named true true s = refl
  named-named true false s = refl
  named-named false b s = refl

  abbrev entry : ℕ → ℕ → Bytes → SearchVars
  entry q t s = record { replies = q; total_pods = t; owner = s }

  counted_all-answers :
      (ps : Pods) (q t : ℕ) (s : Bytes)
      → w ≢ []
      → q + length ps < 2 ^ 32
      → OneOwner ps
      → counted_all (answers idp ps) (entry q t s)
        ≡ entry (q + length ps) t (named (some_owns idp ps) s)
  unfolding counted_all answers counted some_owns
  counted_all-answers [] q t s n l h = ap (λ k. entry k t s) (omega arith)
  counted_all-answers (p ∷ ps) q t s n l h =
      let o = lookup p.1.cst_objs idp in
      ap (λ u. counted_all (answers idp ps) (entry ((q + 1) % 2 ^ 32) t u))
        (info_or-owns p.0 s o n h.0)
      ∙ ap (λ k. counted_all (answers idp ps) (entry k t (named (owns o) s)))
          (counts_up q (length ps) l)
      ∙ counted_all-answers ps (suc q) t (named (owns o) s) n (omega (arith, l)) h.1
      ∙ ap (λ k. entry k t (named (some_owns idp ps) (named (owns o) s))) (omega arith)
      ∙ ap (entry (q + length (p ∷ ps)) t) (named-named (owns o) (some_owns idp ps) s)

  -- What the searching thread finds at a look, of `total` pods of which `ps` have answered.
  abbrev pub found : ℕ → Pods → Outcome Bytes
  found total ps =
      if length ps == total
      then (if some_owns idp ps then ended w else raised (nowhere idp))
      else waiting (search idp)

  owner_or_fault-same : (t : Bytes) → t ≢ [] → owner_or_fault idp t ≡ ended t
  unfolding owner_or_fault
  owner_or_fault-same [] n = absurd (n refl)
  owner_or_fault-same (c ∷ t) n = refl

  owner_or_fault-named :
      (b : Bool)
      → w ≢ []
      → owner_or_fault idp (named b []) ≡ (if b then ended w else raised (nowhere idp))
  unfolding owner_or_fault
  owner_or_fault-named true n = owner_or_fault-same w n
  owner_or_fault-named false n = refl

  looked_at-found :
      (total : ℕ) (b : Bool) (k : ℕ)
      → w ≢ []
      → looked_at idp (entry k total (named b [])) ≡ (
          if k == total
          then (if b then ended w else raised (nowhere idp))
          else waiting (search idp))
  unfolding looked_at
  looked_at-found total b k n =
      ap (λ x. if k == total then x else waiting (search idp)) (owner_or_fault-named b n)

  -- A pod that has not searched for a resource asks all pods for it, and once it has heard the
  -- answers of some of them, in any order, its thread waits if a pod is missing; if none is, it
  -- returns the name of the owner if there is one, and throws otherwise. At most one name may own
  -- the resource, it is not empty, and there are fewer than 2^32 pods.
  pub search_answered :
      (r : Registry) (total : ℕ) (ps : Pods)
      → lookup r.sr_vars idp ≡ none
      → w ≢ []
      → length ps < 2 ^ 32
      → OneOwner ps
      → let s = search_resource idp total r in
        (s.effects ≡ send_search_resource_request idp ∷ [])
        × ((search_turn idp (heard idp (answers idp ps) s.registry)).outcome ≡ found total ps)
  unfolding search_resource search_request new_vars
  search_answered r total ps e n l h = (
    ap (search_request idp) e,
    search_turn-vars idp (heard idp (answers idp ps) (search_resource idp total r).registry) _ (
          heard-vars idp (answers idp ps) (search_resource idp total r).registry
          ∙ ap (counted_all (answers idp ps)) (started-vars idp total r e)
          ∙ counted_all-answers ps 0 total [] n (omega (arith, l)) h)
        ∙ looked_at-found total (some_owns idp ps) (0 + length ps) n
        ∙ ap
            (λ k.
              if k == total
              then (if some_owns idp ps then ended w else raised (nowhere idp))
              else waiting (search idp))
            (omega arith),
  )

-- A search of a resource whose entry has all its answers asks no pod, ends by the owner of that
-- entry, and leaves the entry.
searched_again :
    (idp : ℕ) (r : Registry) (v : SearchVars) (total : ℕ)
    → lookup r.sr_vars idp ≡ some v
    → v.replies ≡ v.total_pods
    → let s = search_resource idp total r in
      (s.effects ≡ [])
      × ((s.outcome ≡ owner_or_fault idp v.owner) × (lookup s.registry.sr_vars idp ≡ some v))
unfolding search_resource search_request search_turn vars_at with_vars piece looked_at
searched_again idp r v total e h =
    let same = put_new-some r.sr_vars idp (new_vars total) v e in
    let at = ap (λ d. default (new_vars 0) (lookup d idp)) same ∙ ap (default (new_vars 0)) e in
    (
      ap (search_request idp) e,
      (
        ap (looked_at idp) at ∙ ended_look idp v h,
        lookup-put (put_new r.sr_vars idp (new_vars total)) idp _ ∙ ap some at,
      ),
    )
