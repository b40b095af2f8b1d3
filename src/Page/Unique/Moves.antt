-- ===== src/Page/Unique/Moves.antt =====
-- Each action keeps the invariant.
use pla_co_r.Base.{
  ℕ, ◌+◌, ◌-◌, ◌^◌, ◌≤◌, ◌<◌, ◌≡◌, ◌≢◌, sym, subst, inl, inr, true, some, List, [], ◌∷◌, ◌++◌, ◌==◌,
  All, All-append, All-imp, All-zip, All-without, All-get, without, get_elem?, arith,
}
use pla_co_r.Page.Manager.{
  PageManager, sub_u32, refill, take_idp, generate_idp, generate_page, update_page, returns,
}
use pla_co_r.Page.Cluster.{
  Cluster, place, Action, generate, serve, deliver, after_generate, refilled, handle_page_request,
  handle_page_reply, step,
}
use pla_co_r.Page.Unique.Inv.{
  IsLive, Apart, Clear, Letter, Issued, Inv, Spread-append, Spread-without, Spread-get,
}

-- Pod `i` returns an identifier from its own page.
module _ (c : Cluster) (inv : Inv c) (i : ℕ) (live : IsLive (c.pods i)) where
  open inv use {held, apart, ids, letters}

  abbrev m' : PageManager
  m' = (take_idp (c.pods i)).1

  abbrev id : ℕ
  id = (take_idp (c.pods i)).0

  take_idp_lem :
      (id + (c.pods i).ids_counter ≡ (c.pods i).current_page)
      × (m'.ids_counter ≡ (c.pods i).ids_counter + 1)
      × (m'.current_page ≡ (c.pods i).current_page)
      × (m'.next_page ≡ (c.pods i).next_page)
  unfolding take_idp
  take_idp_lem = ground (arith, held i live)

  take_idp-Issued : Issued (c.pods 0).next_page (place c.pods i m') id
  take_idp-Issued = (
    ground (arith, take_idp_lem, held i live),
    ground (arith, take_idp_lem, held i live),
    λ j h. ground (arith, take_idp_lem, held i live, held j, apart i j),
  )

  take-old :
      (x : ℕ)
      → Issued (c.pods 0).next_page c.pods x
      → Issued (c.pods 0).next_page (place c.pods i m') x
  take-old x h = (h.0, h.1, λ j l. ground (arith, take_idp_lem, h.2 j, h.2 i live))

  take-new : (x : ℕ) → Issued (c.pods 0).next_page c.pods x → x ≢ id
  take-new x h = λ e. ground (arith, take_idp_lem, held i live, h.2 i live)

  take-Letter :
      (l : ℕ × ℕ)
      → Letter (c.pods 0).next_page c.pods c.issued l
      → Letter (c.pods 0).next_page (place c.pods i m') (id ∷ c.issued) l
  take-Letter (d, p) h = (
    h.0,
    h.1,
    λ j l. ground (arith, take_idp_lem, h.2 j, h.2 i live),
    (ground (arith, take_idp_lem, held i live, h.2 i live), h.3),
  )

  take-next : (place c.pods i m' 0).next_page ≡ (c.pods 0).next_page
  take-next = ground (arith, take_idp_lem)

  take-refilled : refilled (c.pods i) m' ≡ 0
  unfolding refilled
  take-refilled = ground (arith, take_idp_lem)

  take-shape :
      (j : ℕ)
      → ((place c.pods i m' j).page_size ≡ 0x100) × ((place c.pods i m' j).is_main_mgr ≡ (j == 0))
  unfolding take_idp
  take-shape j = ground (arith, inv.shape j, inv.main j)

  pub take-Inv : Inv (after_generate c i (returns id m'))
  unfolding after_generate
  take-Inv = rw take-refilled (record {
    shape = λ j. (take-shape j).0;
    main = λ j. (take-shape j).1;
    next = omega (arith, take-next, inv.next);
    held = λ j l. ground (arith, take_idp_lem, held j, take-next);
    apart = λ j k n l o. ground (arith, take_idp_lem, apart j k);
    letters =
        subst (λ n. All (Letter n (place c.pods i m') (id ∷ c.issued)) c.replies) (sym take-next)
          (All-imp _ _ take-Letter c.replies letters);
    spread = inv.spread;
    ids =
        subst (λ n. All (Issued n (place c.pods i m')) (id ∷ c.issued)) (sym take-next)
          (take_idp-Issued, All-imp _ _ take-old c.issued ids);
    distinct = (All-imp _ _ take-new c.issued ids, inv.distinct);
  })

-- A fresh page goes to a manager or into a message; `m'` is what pod `i` becomes, on that page.
module _ (c : Cluster) (inv : Inv c) (room : c.pages < 0xfffffe) where
  open inv use {held, apart, ids, letters}

  abbrev main : PageManager
  main = c.pods 0

  next_lem :
      (0x100 ≤ main.next_page)
      × (main.next_page < 2 ^ 32)
      × (main.next_page ≢ main.next_page - 0x100)
  next_lem = omega (arith, inv.next)

  -- The main manager with its next page.
  abbrev fresh : PageManager
  fresh = refill main

  refill_lem :
      (fresh.current_page ≡ main.next_page)
      × (fresh.next_page + 0x100 ≡ main.next_page)
      × (fresh.ids_counter ≡ 0)
      × (fresh.page_size ≡ 0x100)
      × (fresh.is_main_mgr ≡ true)
  unfolding refill
  refill_lem = ground (arith, next_lem, inv.shape 0, inv.main 0)

  refill-Letter :
      (l : ℕ × ℕ)
      → Letter main.next_page c.pods c.issued l
      → Letter fresh.next_page (place c.pods 0 fresh) c.issued l
  refill-Letter (d, p) h =
      (omega (arith, h.0, refill_lem), h.1, λ j l. ground (arith, refill_lem, h.0, h.2 j), h.3)

  refill-Issued :
      (x : ℕ) → Issued main.next_page c.pods x → Issued fresh.next_page (place c.pods 0 fresh) x
  refill-Issued x h =
      (omega (arith, h.0, refill_lem), h.1, λ j l. ground (arith, refill_lem, h.0, h.2 j))

  -- The state of the cluster between the refill and the identifier that follows.
  pub refill-Inv : Inv (record c { pods = place c.pods 0 fresh; pages = c.pages + 1 })
  refill-Inv = record {
    shape = λ j. ground (arith, refill_lem, inv.shape j);
    main = λ j. ground (arith, refill_lem, inv.main j);
    next = omega (arith, inv.next, refill_lem);
    held = λ j l. ground (arith, refill_lem, held j, next_lem);
    apart = λ j k n l o. ground (arith, refill_lem, apart j k, held j, held k);
    letters = All-imp _ _ refill-Letter c.replies letters;
    spread = inv.spread;
    ids = All-imp _ _ refill-Issued c.issued ids;
    distinct = inv.distinct;
  }

  -- The main manager after `GeneratePage`.
  abbrev gave : PageManager
  gave = record main { next_page = sub_u32 main.next_page main.page_size }

  gave_lem : gave.next_page + 0x100 ≡ main.next_page
  gave_lem = ground (arith, next_lem, inv.shape 0)

  gave-Letter :
      (l : ℕ × ℕ)
      → Letter main.next_page c.pods c.issued l
      → Letter gave.next_page (place c.pods 0 gave) c.issued l
  gave-Letter (d, p) h = (omega (arith, h.0, gave_lem), h.1, λ j l. ground (arith, h.2 j), h.3)

  gave-Issued :
      (x : ℕ) → Issued main.next_page c.pods x → Issued gave.next_page (place c.pods 0 gave) x
  gave-Issued x h = (omega (arith, h.0, gave_lem), h.1, λ j l. ground (arith, h.2 j))

  new-Letter : (d : ℕ) → Letter gave.next_page (place c.pods 0 gave) c.issued (d, main.next_page)
  new-Letter d = (
    omega (arith, gave_lem),
    next_lem.1,
    λ j l. ground (arith, held j),
    All-imp _ _ (λ x h. inl (omega (arith, h.0))) c.issued ids,
  )

  pub gave-Inv :
      (d : ℕ) (rest : List ℕ)
      → Inv (record c {
        pods = place c.pods 0 gave;
        requests = rest;
        replies = c.replies ++ (d, main.next_page) ∷ [];
        pages = c.pages + 1;
      })
  gave-Inv d rest = record {
    shape = λ j. ground (arith, inv.shape j, inv.shape 0);
    main = λ j. ground (arith, inv.main j, inv.main 0);
    next = omega (arith, inv.next, gave_lem);
    held = λ j l. ground (arith, gave_lem, held j);
    apart = λ j k n l o. ground (arith, apart j k);
    letters =
        All-append _ c.replies ((d, main.next_page) ∷ [])
          (All-imp _ _ gave-Letter c.replies letters) (new-Letter d, tt);
    spread =
        Spread-append c.replies d main.next_page inv.spread
          (All-imp _ _ (λ l h. inr h.0) c.replies letters);
    ids = All-imp _ _ gave-Issued c.issued ids;
    distinct = inv.distinct;
  }

-- A page arrives at pod `d`.
module _ (c : Cluster) (inv : Inv c) (k d p : ℕ) (e : get_elem? c.replies k ≡ some (d, p)) where
  open inv use {held, apart, ids, letters}

  abbrev got : ℕ → PageManager
  got = place c.pods d (update_page p (c.pods d))

  arrived : Letter (c.pods 0).next_page c.pods c.issued (d, p)
  arrived = All-get _ c.replies k (d, p) letters e

  got-next : (got 0).next_page ≡ (c.pods 0).next_page
  unfolding update_page
  got-next = ground arith

  got-Letter :
      (l : ℕ × ℕ)
      → Letter (c.pods 0).next_page c.pods c.issued l × Apart p l.1
      → Letter (c.pods 0).next_page got c.issued l
  unfolding update_page
  got-Letter (b, q) h = (h.0.0, h.0.1, λ j l. ground (arith, h.1, h.0.2 j), h.0.3)

  got-Issued :
      (x : ℕ)
      → Issued (c.pods 0).next_page c.pods x × Clear p 0 x
      → Issued (c.pods 0).next_page got x
  unfolding update_page
  got-Issued x h = (h.0.0, h.0.1, λ j l. ground (arith, h.1, h.0.2 j))

  pub deliver-Inv : Inv (record c { pods = got; replies = without c.replies k })
  unfolding update_page
  deliver-Inv = record {
    shape = λ j. ground (arith, inv.shape j, inv.shape d);
    main = λ j. ground (arith, inv.main j, inv.main d);
    next = omega (arith, inv.next, got-next);
    held = λ j l. ground (arith, arrived.0, arrived.1, held j, got-next);
    apart = λ i j n l o. ground (arith, apart i j, arrived.2 i, arrived.2 j);
    letters =
        subst (λ n. All (Letter n got c.issued) (without c.replies k)) (sym got-next)
          (All-imp _ _ got-Letter (without c.replies k) (
            All-zip _ _ (without c.replies k) (All-without _ c.replies k letters)
              (Spread-get c.replies k d p inv.spread e)));
    spread = Spread-without c.replies k inv.spread;
    ids =
        subst (λ n. All (Issued n got) c.issued) (sym got-next)
          (All-imp _ _ got-Issued c.issued (All-zip _ _ c.issued ids arrived.3));
    distinct = inv.distinct;
  }

-- The pages handed out never become fewer.
pub pages-le : (a : Action) (c : Cluster) → c.pages ≤ (step a c).pages
unfolding step after_generate generate_idp handle_page_request handle_page_reply generate_page
pages-le (generate i) c = ground arith
pages-le serve c = ground arith
pages-le (deliver k) c = ground arith
