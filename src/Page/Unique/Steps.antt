-- ===== src/Page/Unique/Steps.antt =====
-- A step of the cluster keeps the invariant, and so does a run.
use pla_co_r.Base.{
  ℕ, ◌+◌, ◌^◌, ◌≤◌, ◌<◌, ◌≡◌, refl, ◌≢◌, sym, subst, ◌⊎◌, inl, inr, true, false, Option, none, some,
  List, [], ◌∷◌, ◌++◌, All, All-imp, ◌∙◌, Distinct, get_elem?, arith,
}
use pla_co_r.Page.Manager.{
  PageManager, sub_u32, meta_domain, page_manager, create_initial_context, refill, take_idp,
  generate_idp, generate_page, returns, waits,
}
use pla_co_r.Page.Cluster.{
  Cluster, start, place, Action, generate, serve, deliver, after_generate, refilled,
  handle_page_request, handle_page_reply, step, run,
}
use pla_co_r.Page.Unique.Inv.{IsLive, Letter, Issued, Inv}
use pla_co_r.Page.Unique.Moves.{take-Inv, refill-Inv, gave-Inv, deliver-Inv, pages-le}

-- What `GenerateIdp` comes to, for a manager with the page size of the initial context.
generate_cases :
    (m : PageManager)
    → m.page_size ≡ 0x100
    → (IsLive m × (generate_idp m ≡ returns (take_idp m).0 (take_idp m).1))
      ⊎ ((m.is_main_mgr ≡ true)
          × (generate_idp m ≡ returns (take_idp (refill m)).0 (take_idp (refill m)).1))
      ⊎ (generate_idp m ≡ waits false m)
      ⊎ (generate_idp m ≡ waits true (record m { page_requested = true }))
unfolding generate_idp
generate_cases m h = ground arith

-- The invariant reads all fields of a manager but `page_requested`.
abbrev Same : PageManager → PageManager → Type 0
Same m m' =
    (m'.is_main_mgr ≡ m.is_main_mgr)
    × (m'.next_page ≡ m.next_page)
    × (m'.current_page ≡ m.current_page)
    × (m'.page_size ≡ m.page_size)
    × (m'.ids_counter ≡ m.ids_counter)

module _ (c : Cluster) (inv : Inv c) (pods : ℕ → PageManager)
    (e : (i : ℕ) → Same (c.pods i) (pods i)) where
  same-Letter :
      (l : ℕ × ℕ)
      → Letter (c.pods 0).next_page c.pods c.issued l
      → Letter (pods 0).next_page pods c.issued l
  same-Letter (d, p) h = (ground (arith, e 0, h.0), h.1, λ j l. ground (arith, e j, h.2 j), h.3)

  same-Issued : (x : ℕ) → Issued (c.pods 0).next_page c.pods x → Issued (pods 0).next_page pods x
  same-Issued x h = (ground (arith, e 0, h.0), h.1, λ j l. ground (arith, e j, h.2 j))

  same-Inv : (r : List ℕ) → Inv (record c { pods = pods; requests = r })
  same-Inv r = record {
    shape = λ j. (e j).3 ∙ inv.shape j;
    main = λ j. (e j).0 ∙ inv.main j;
    next = ground (arith, inv.next, e 0);
    held = λ j l. ground (arith, inv.held j, e j, e 0);
    apart = λ j k n l o. ground (arith, inv.apart j k, e j, e k);
    letters = All-imp _ _ same-Letter c.replies inv.letters;
    spread = inv.spread;
    ids = All-imp _ _ same-Issued c.issued inv.ids;
    distinct = inv.distinct;
  }

refilled_lem :
    (c : Cluster)
    → Inv c
    → (refilled (c.pods 0) (take_idp (refill (c.pods 0))).1 ≡ 1)
      × (refilled (refill (c.pods 0)) (take_idp (refill (c.pods 0))).1 ≡ 0)
unfolding refilled refill take_idp
refilled_lem c inv = ground (arith, inv.next, inv.shape 0)

-- The main manager goes to its next page and returns its first identifier.
module _ (c : Cluster) (inv : Inv c) (room : c.pages < 0xfffffe) where
  abbrev next : PageManager
  next = refill (c.pods 0)

  abbrev paged : Cluster
  paged = record c { pods = place c.pods 0 next; pages = c.pages + 1 }

  abbrev paged_then : ℕ → Cluster
  paged_then n = record c {
    pods = place (place c.pods 0 next) 0 (take_idp next).1;
    issued = (take_idp next).0 ∷ c.issued;
    pages = n;
  }

  paged_then-Inv : Inv (paged_then (c.pages + 1))
  unfolding after_generate
  paged_then-Inv =
      subst (λ n. Inv (paged_then n)) (omega (arith, (refilled_lem c inv).1))
        (take-Inv paged (refill-Inv c inv room) 0 (unfold refill in (omega arith)))

  main-Inv : Inv (after_generate c 0 (returns (take_idp next).0 (take_idp next).1))
  unfolding after_generate
  main-Inv = rw (refilled_lem c inv).0 (
      same-Inv (paged_then (c.pages + 1)) paged_then-Inv (place c.pods 0 (take_idp next).1)
        (λ j. ground arith) c.requests)

abbrev main_after : Cluster → ℕ → Cluster
main_after c i =
    after_generate c i (returns (take_idp (refill (c.pods i))).0 (take_idp (refill (c.pods i))).1)

first-Inv :
    (c : Cluster)
    → Inv c
    → (i : ℕ) → i ≡ 0
    → (main_after c i).pages ≤ 0xfffffe
    → Inv (main_after c i)
unfolding after_generate
first-Inv c inv i e =
    subst (λ k. (main_after c k).pages ≤ 0xfffffe → Inv (main_after c k)) (sym e)
      (λ room. main-Inv c inv (omega (arith, room, (refilled_lem c inv).0)))

generate-Inv :
    (c : Cluster)
    → Inv c
    → (i : ℕ) → (step (generate i) c).pages ≤ 0xfffffe
    → Inv (step (generate i) c)
unfolding step after_generate
generate-Inv c inv i room = elim (generate_cases (c.pods i) (inv.shape i)) [
  | inl (live, e) ↦ rw e (take-Inv c inv i live)
  | inr (inl (first, e)) ↦ rw e (
      first-Inv c inv i (ground (arith, inv.main i))
        (subst (λ o. (after_generate c i o).pages ≤ 0xfffffe) e room))
  | inr (inr (inl e)) ↦
      rw e (same-Inv c inv (place c.pods i (c.pods i)) (λ j. ground arith) c.requests)
  | inr (inr (inr e)) ↦ rw e (
      same-Inv c inv (place c.pods i (record (c.pods i) { page_requested = true }))
        (λ j. ground arith) (c.requests ++ i ∷ []))
]

generate_page_lem :
    (m : PageManager)
    → m.is_main_mgr ≡ true
    → generate_page m ≡ some (m.next_page, record m { next_page = sub_u32 m.next_page m.page_size })
unfolding generate_page
generate_page_lem m h = ground arith

serve-Inv :
    (c : Cluster) (rs : List ℕ)
    → Inv c
    → (handle_page_request c rs).pages ≤ 0xfffffe
    → Inv (handle_page_request c rs)
unfolding handle_page_request
serve-Inv c [] inv room = inv
serve-Inv c (d ∷ rest) inv room =
    let e = generate_page_lem (c.pods 0) (inv.main 0) in
    rw (e, handle_page_request)
      (gave-Inv c inv (omega (arith, (rw (e, handle_page_request) at room))) d rest)

reply-Inv :
    (c : Cluster) (k : ℕ) (o : Option (ℕ × ℕ))
    → get_elem? c.replies k ≡ o
    → Inv c
    → Inv (handle_page_reply c k o)
unfolding handle_page_reply
reply-Inv c k none e inv = inv
reply-Inv c k (some (d, p)) e inv = deliver-Inv c inv k d p e

pub step-Inv : (a : Action) (c : Cluster) → Inv c → (step a c).pages ≤ 0xfffffe → Inv (step a c)
unfolding step
step-Inv (generate i) c inv room = generate-Inv c inv i room
step-Inv serve c inv room = serve-Inv c c.requests inv room
step-Inv (deliver k) c inv room = reply-Inv c k (get_elem? c.replies k) refl inv

pages-run-le : (acts : List Action) (c : Cluster) → c.pages ≤ (run acts c).pages
unfolding run
pages-run-le [] c = omega arith
pages-run-le (a ∷ rest) c = omega (arith, pages-le a c, pages-run-le rest (step a c))

run-Inv :
    (acts : List Action) (c : Cluster) → Inv c → (run acts c).pages ≤ 0xfffffe → Inv (run acts c)
unfolding run
run-Inv [] c inv room = inv
run-Inv (a ∷ rest) c inv room =
    run-Inv rest (step a c) (step-Inv a c inv (omega (arith, room, pages-run-le rest (step a c))))
      room

start-Inv : (junk : ℕ) → Inv (start junk)
unfolding start create_initial_context page_manager
start-Inv junk = record {
  shape = λ j. ground arith;
  main = λ j. ground arith;
  next = omega arith;
  held = λ j l. ground arith;
  apart = λ j k n l o. ground arith;
  letters = tt;
  spread = tt;
  ids = tt;
  distinct = tt;
}

-- Whatever the pods do and in whatever order the pages arrive, no identifier is returned twice by
-- `GenerateIdp`, in one pod or in two, and none is `MetaDomain` or wider than 32 bits, as long as
-- at most 2^24 - 2 pages have been handed out after the first.
pub run-Distinct :
    (junk : ℕ) (acts : List Action)
    → (run acts (start junk)).pages ≤ 0xfffffe
    → Distinct (run acts (start junk)).issued
      × All (λ x. (x ≢ meta_domain) × (x < 2 ^ 32)) (run acts (start junk)).issued
run-Distinct junk acts room =
    let inv = run-Inv acts (start junk) (start-Inv junk) room in
    (
      inv.distinct,
      All-imp _ _ (λ x h. (ground (arith, h.0), h.1)) (run acts (start junk)).issued inv.ids,
    )
