-- ===== src/Page/Starvation.antt =====
-- How many identifiers a pod other than the main one returns: `_page_requested` of
-- libcor/src/cor/services/page_manager.cpp is never cleared.
use native.Mathlib.Decide.{ℕ_discrete}
use pla_co_r.Base.{
  ℕ, ◌+◌, ◌≤◌, ◌<◌, ◌≡◌, refl, ◌≢◌, sym, ap, subst, true, false, Option, none, some, List, [], ◌∷◌,
  total, total-append, total-without, without, get_elem?, Option-cases, inl, inr, Bool-cases, ltb,
  ◌==◌, ◌^◌, ◌%◌, ◌-◌, if◌then◌else◌, arith,
}
use pla_co_r.Page.Manager.{
  PageManager, page_manager, create_initial_context, generate_idp, generate_page, update_page,
  Outcome, returns, waits, spins,
}
use pla_co_r.Page.Cluster.{
  place, Cluster, start, Action, generate, serve, deliver, after_generate, handle_page_request,
  handle_page_reply, step,
}

abbrev is_return : Outcome → ℕ
is_return (returns id m) = 1
is_return _ = 0

-- Does pod `i` return an identifier in this action?
abbrev pub returns_in : ℕ → Action → Cluster → ℕ
returns_in i (generate j) c = if j == i then is_return (generate_idp (c.pods j)) else 0
returns_in i _ c = 0

-- How many identifiers pod `i` returns.
unfoldable pub returned_by : ℕ → List Action → Cluster → ℕ
returned_by i [] c = 0
returned_by i (a ∷ acts) c = returns_in i a c + returned_by i acts (step a c)

abbrev is : ℕ → ℕ → ℕ
is i j = if j == i then 1 else 0

abbrev to : ℕ → ℕ × ℕ → ℕ
to i l = is i l.0

-- The page messages of pod `i` that are under way.
abbrev under_way : ℕ → Cluster → ℕ
under_way i c = total (is i) c.requests + total (to i) c.replies

-- What a pod has, with `k` messages under way and `n` identifiers returned.
data Has (m : PageManager) (k n : ℕ) : Type 0 where
  fresh : m.page_requested ≡ false → m.ids_counter ≡ 256 → k ≡ 0 → n ≡ 0 → Has m k n
  asked : m.page_requested ≡ true → m.ids_counter ≡ 256 → k ≡ 1 → n ≡ 0 → Has m k n
  got : m.page_requested ≡ true → m.ids_counter ≤ 256 → k ≡ 0 → n ≡ m.ids_counter → Has m k n

record Paged (i n : ℕ) (c : Cluster) : Type 0 where
  follower : (c.pods i).is_main_mgr ≡ false
  size : (c.pods i).page_size ≡ 256
  has : Has (c.pods i) (under_way i c) n

move-Has : {m m2 : PageManager} {k k2 n : ℕ} → m2 ≡ m → k2 ≡ k → Has m k n → Has m2 k2 n
move-Has {m} {m2} {k} {k2} {n} e f h =
    subst (λ x. Has x k2 n) (sym e) (subst (λ x. Has m x n) (sym f) h)

-- Whether a pod has a page depends on its manager and its messages only.
same-Paged :
    (i n : ℕ) (c d : Cluster)
    → d.pods i ≡ c.pods i
    → under_way i d ≡ under_way i c
    → Paged i n c
    → Paged i n d
same-Paged i n c d e f s = record {
  follower = ground (arith, e, s.follower);
  size = ground (arith, e, s.size);
  has = move-Has e f s.has;
}

-- A pod whose page is used up, or that has none.
asks :
    (m : PageManager)
    → m.is_main_mgr ≡ false
    → m.page_size ≤ m.ids_counter
    → m.page_requested ≡ false
    → generate_idp m ≡ waits true (record m { page_requested = true })
unfolding generate_idp
asks m f l r = ground (arith, f, l, r)

still_waits :
    (m : PageManager)
    → m.is_main_mgr ≡ false
    → m.page_size ≤ m.ids_counter
    → m.page_requested ≡ true
    → generate_idp m ≡ waits false m
unfolding generate_idp
still_waits m f l r = ground (arith, f, l, r)

takes :
    (m : PageManager)
    → m.ids_counter < m.page_size
    → m.page_size ≡ 256
    → (id : ℕ) × (generate_idp m ≡ returns id (record m { ids_counter = m.ids_counter + 1 }))
unfolding generate_idp
takes m l e = ((m.current_page + 2 ^ 32 - m.ids_counter) % 2 ^ 32, ground (arith, l, e))

self : (i : ℕ) (m : PageManager) (f : ℕ → PageManager) → place f i m i ≡ m
self i m f = ground arith

-- A call of the pod itself.
module _ (i n : ℕ) (c : Cluster) (s : Paged i n c) where
  abbrev After : ℕ → Outcome → Type 0
  After k o = Paged i k (after_generate c i o)

  fresh_call :
      (c.pods i).page_requested ≡ false
      → (c.pods i).ids_counter ≡ 256
      → under_way i c ≡ 0
      → n ≡ 0
      → After n (waits true (record (c.pods i) { page_requested = true }))
  unfolding after_generate total
  fresh_call r e k z = record {
    follower = ground (arith, s.follower);
    size = ground (arith, s.size);
    has =
        asked (ground arith) (ground (arith, e))
          (omega (arith, total-append (is i) c.requests (i ∷ []), own, k)) z;
  }
    where
      own : is i i ≡ 1
      own = ground arith

  waiting_call : Has (c.pods i) (under_way i c) n → After n (waits false (c.pods i))
  unfolding after_generate
  waiting_call h = record {
    follower = ground (arith, s.follower);
    size = ground (arith, s.size);
    has = subst (λ m. Has m (under_way i c) n) (sym (self i (c.pods i) c.pods)) h;
  }

  taking_call :
      (id : ℕ)
      → (c.pods i).page_requested ≡ true
      → (c.pods i).ids_counter < 256
      → under_way i c ≡ 0
      → n ≡ (c.pods i).ids_counter
      → After (1 + n) (returns id (record (c.pods i) { ids_counter = (c.pods i).ids_counter + 1 }))
  unfolding after_generate
  taking_call id r l k z = record {
    follower = ground (arith, s.follower);
    size = ground (arith, s.size);
    has =
        subst (λ m. Has m (under_way i c) (1 + n))
          (sym (self i (record (c.pods i) { ids_counter = (c.pods i).ids_counter + 1 }) c.pods))
          (got r (omega (arith, l)) k (omega (arith, z)));
  }

  call :
      Has (c.pods i) (under_way i c) n
      → After (is_return (generate_idp (c.pods i)) + n) (generate_idp (c.pods i))
  call (fresh r e k z) =
      let o = asks (c.pods i) s.follower (omega (arith, s.size, e)) r in
      rw o (
        subst (λ m. After m (waits true (record (c.pods i) { page_requested = true })))
          (omega arith) (fresh_call r e k z))
  call (asked r e k z) =
      let o = still_waits (c.pods i) s.follower (omega (arith, s.size, e)) r in
      rw o
        (subst (λ m. After m (waits false (c.pods i))) (omega arith) (waiting_call (asked r e k z)))
  call (got r l k z) = elim (Bool-cases (ltb (c.pods i).ids_counter 256)) [
    | inl b ↦
        let (id, o) = takes (c.pods i) (ground (arith, b, s.size)) s.size in
        rw o (taking_call id r (ground (arith, b)) k z)
    | inr b ↦
        let o = still_waits (c.pods i) s.follower (ground (arith, s.size, b)) r in
        rw o
          (subst (λ m. After m (waits false (c.pods i))) (omega arith) (waiting_call (got r l k z)))
  ]

elsewhere : (i j : ℕ) (f : ℕ → PageManager) (m : PageManager) → j ≢ i → place f j m i ≡ f i
elsewhere i j f m h = ground (arith, h)

is_other : (i j : ℕ) → j ≢ i → is i j ≡ 0
is_other i j h = ground (arith, h)

-- A call of another pod.
other-Paged :
    (i n : ℕ) (c : Cluster) (j : ℕ) (o : Outcome)
    → j ≢ i
    → Paged i n c
    → Paged i n (after_generate c j o)
unfolding after_generate total
other-Paged i n c j (returns id m) h s = same-Paged i n c _ (elsewhere i j c.pods m h) refl s
other-Paged i n c j (waits false m) h s = same-Paged i n c _ (elsewhere i j c.pods m h) refl s
other-Paged i n c j (waits true m) h s =
    same-Paged i n c _ (elsewhere i j c.pods m h)
      (omega (arith, total-append (is i) c.requests (j ∷ []), is_other i j h)) s
other-Paged i n c j spins h s = s

serve-Paged :
    (i n : ℕ) (c : Cluster) (rs : List ℕ)
    → c.requests ≡ rs
    → i ≢ 0
    → Paged i n c
    → Paged i n (handle_page_request c rs)
unfolding handle_page_request total
serve-Paged i n c [] e h s = s
serve-Paged i n c (d ∷ rest) e h s = elim (Option-cases (generate_page (c.pods 0))) [
  | inl f ↦ rw (f, handle_page_request) s
  | inr ((page, m), f) ↦
      rw (f, handle_page_request)
        (same-Paged i n c _ (elsewhere i 0 c.pods m (λ z. h (sym z)))
          (omega (arith, total-append (to i) c.replies ((d, page) ∷ []), ap (total (is i)) e)) s)
]

-- The reply to the pod itself: it was the one message under way.
own_reply :
    (i n : ℕ) (c : Cluster) (k page : ℕ)
    → get_elem? c.replies k ≡ some (i, page)
    → Paged i n c
    → Paged i n (handle_page_reply c k (some (i, page)))
unfolding handle_page_reply update_page
own_reply i n c k page e s = record {
  follower = ground (arith, s.follower);
  size = ground (arith, s.size);
  has =
      subst (λ m. Has m (total (is i) c.requests + total (to i) (without c.replies k)) n)
        (sym (self i (update_page page (c.pods i)) c.pods)) (replied s.has);
}
  where
    less : total (to i) (without c.replies k) + 1 ≡ total (to i) c.replies
    less = omega (arith, total-without (to i) c.replies k (i, page) e, self_is)
      where
        self_is : is i i ≡ 1
        self_is = ground arith

    replied :
        Has (c.pods i) (under_way i c) n
        → Has
            (update_page page (c.pods i))
            (total (is i) c.requests + total (to i) (without c.replies k))
            n
    replied (fresh r f u z) = absurd (omega (arith, less, u))
    replied (asked r f u z) = got r (omega arith) (omega (arith, less, u)) z
    replied (got r f u z) = absurd (omega (arith, less, u))

reply-Paged :
    (i n : ℕ) (c : Cluster) (k : ℕ) (o : Option (ℕ × ℕ))
    → get_elem? c.replies k ≡ o
    → Paged i n c
    → Paged i n (handle_page_reply c k o)
unfolding handle_page_reply
reply-Paged i n c k none e s = s
reply-Paged i n c k (some (d, page)) e s = elim (ℕ_discrete d i) [
  | yes h ↦
      subst (λ j. Paged i n (handle_page_reply c k (some (j, page)))) (sym h)
        (own_reply i n c k page (subst (λ j. get_elem? c.replies k ≡ some (j, page)) h e) s)
  | no h ↦
      same-Paged i n c _ (elsewhere i d c.pods (update_page page (c.pods d)) h)
        (omega (arith, total-without (to i) c.replies k (d, page) e, is_other i d h)) s
]

step-Paged :
    (i n : ℕ) (a : Action) (c : Cluster)
    → i ≢ 0
    → Paged i n c
    → Paged i (returns_in i a c + n) (step a c)
unfolding step
step-Paged i n (generate j) c h s = elim (ℕ_discrete j i) [
  | yes e ↦
      subst
        (λ k.
          Paged i (returns_in i (generate k) c + n) (after_generate c k (generate_idp (c.pods k))))
        (sym e)
        (subst (λ k. Paged i k (after_generate c i (generate_idp (c.pods i)))) (ground arith)
          (call i n c s s.has))
  | no e ↦
      subst (λ k. Paged i k (after_generate c j (generate_idp (c.pods j)))) (ground (arith, e))
        (other-Paged i n c j (generate_idp (c.pods j)) e s)
]
step-Paged i n serve c h s =
    subst (λ k. Paged i k (handle_page_request c c.requests)) (omega arith)
      (serve-Paged i n c c.requests refl h s)
step-Paged i n (deliver k) c h s =
    subst (λ x. Paged i x (handle_page_reply c k (get_elem? c.replies k))) (omega arith)
      (reply-Paged i n c k (get_elem? c.replies k) refl s)

Paged-bound : (i n : ℕ) (c : Cluster) → Paged i n c → n ≤ 256
Paged-bound i n c s = go s.has
  where
    go : Has (c.pods i) (under_way i c) n → n ≤ 256
    go (fresh r e k z) = omega (arith, z)
    go (asked r e k z) = omega (arith, z)
    go (got r l k z) = omega (arith, z, l)

returned_by-bound :
    (i n : ℕ) (acts : List Action) (c : Cluster)
    → i ≢ 0
    → Paged i n c
    → returned_by i acts c + n ≤ 256
unfolding returned_by
returned_by-bound i n [] c h s = omega (arith, Paged-bound i n c s)
returned_by-bound i n (a ∷ acts) c h s =
    omega
      (arith, returned_by-bound i (returns_in i a c + n) acts (step a c) h (step-Paged i n a c h s))

start-Paged : (i junk : ℕ) → i ≢ 0 → Paged i 0 (start junk)
unfolding start page_manager create_initial_context total
start-Paged i junk h = record {
  follower = ground (arith, h);
  size = ground (arith, h);
  has = fresh (ground (arith, h)) (ground (arith, h)) refl refl;
}

-- A pod other than the main one returns at most 256 identifiers: it asks for one page in its life,
-- whatever the pods do and in whatever order the messages arrive.
pub one_page : (i junk : ℕ) (acts : List Action) → i ≢ 0 → returned_by i acts (start junk) ≤ 256
one_page i junk acts h =
    omega (arith, returned_by-bound i 0 acts (start junk) h (start-Paged i junk h))
