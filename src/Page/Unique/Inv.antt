-- ===== src/Page/Unique/Inv.antt =====
-- What holds between the pages that the managers use, the pages in messages and the identifiers.
use pla_co_r.Base.{
  ℕ, zero, suc, ◌+◌, ◌*◌, ◌^◌, ◌≤◌, ◌<◌, ◌≡◌, ◌≢◌, ◌⊎◌, List, [], ◌∷◌, ◌++◌, ◌==◌, All, All-append,
  Distinct, All-without, All-get, without, get_elem?, some, ap, arith,
}
use mathlib.Core.Option.{some-injective}
use pla_co_r.Page.Manager.{PageManager}
use pla_co_r.Page.Cluster.{Cluster}

-- A manager that can return an identifier from its page.
abbrev pub IsLive : PageManager → Type 0
IsLive m = m.ids_counter < 0x100

-- Page `p` holds the identifiers from `p` down to `p - 255`.
abbrev pub Apart : ℕ → ℕ → Type 0
Apart p q = (p + 0x100 ≤ q) ⊎ (q + 0x100 ≤ p)

-- `x` is not among the identifiers that are left on the page, or in use already.
abbrev pub Clear : ℕ → ℕ → ℕ → Type 0
Clear page counter x = (page < x + counter) ⊎ (x + 0x100 ≤ page)

-- Two pages in messages never overlap.
abbrev pub Spread : List (ℕ × ℕ) → Type 0
Spread [] = Unit
Spread ((d, p) ∷ ls) = All (λ l. Apart p l.1) ls × Spread ls

abbrev pub Letter : ℕ → (ℕ → PageManager) → List ℕ → ℕ × ℕ → Type 0
Letter next pods issued (d, p) =
    (next + 0x100 ≤ p)
    × (p < 2 ^ 32)
    × ((i : ℕ) → IsLive (pods i) → Apart p (pods i).current_page)
    × All (Clear p 0) issued

abbrev pub Issued : ℕ → (ℕ → PageManager) → ℕ → Type 0
Issued next pods x =
    (next < x)
    × (x < 2 ^ 32)
    × ((i : ℕ) → IsLive (pods i) → Clear (pods i).current_page (pods i).ids_counter x)

pub record Inv (c : Cluster) : Type 0 where
  pub shape : (i : ℕ) → (c.pods i).page_size ≡ 0x100
  pub main : (i : ℕ) → (c.pods i).is_main_mgr ≡ (i == 0)
  pub next : (c.pods 0).next_page + 0x100 * c.pages ≡ 0xfffffe00
  pub held :
      (i : ℕ)
      → IsLive (c.pods i)
      → ((c.pods 0).next_page + 0x100 ≤ (c.pods i).current_page)
        × ((c.pods i).current_page < 2 ^ 32)
  pub apart :
      (i j : ℕ)
      → i ≢ j
      → IsLive (c.pods i)
      → IsLive (c.pods j)
      → Apart (c.pods i).current_page (c.pods j).current_page
  pub letters : All (Letter (c.pods 0).next_page c.pods c.issued) c.replies
  pub spread : Spread c.replies
  pub ids : All (Issued (c.pods 0).next_page c.pods) c.issued
  pub distinct : Distinct c.issued

pub Spread-append :
    (ls : List (ℕ × ℕ)) (d p : ℕ)
    → Spread ls
    → All (λ l. Apart l.1 p) ls
    → Spread (ls ++ (d, p) ∷ [])
Spread-append [] d p s a = (tt, tt)
Spread-append ((e, q) ∷ ls) d p s a =
    (All-append (λ l. Apart q l.1) ls ((d, p) ∷ []) s.0 (a.0, tt), Spread-append ls d p s.1 a.1)

pub Spread-without : (ls : List (ℕ × ℕ)) (k : ℕ) → Spread ls → Spread (without ls k)
Spread-without [] k s = tt
Spread-without ((d, p) ∷ ls) zero s = s.1
Spread-without ((d, p) ∷ ls) (suc k) s =
    (All-without (λ l. Apart p l.1) ls k s.0, Spread-without ls k s.1)

pub Spread-get :
    (ls : List (ℕ × ℕ)) (k : ℕ) (d p : ℕ)
    → Spread ls
    → get_elem? ls k ≡ some (d, p)
    → All (λ l. Apart p l.1) (without ls k)
Spread-get [] k d p s e = cc
Spread-get ((c, q) ∷ ls) zero d p s e = rw (ap (λ l. l.1) (some-injective _ _ e)) at s.0
Spread-get ((c, q) ∷ ls) (suc k) d p s e =
    let h = All-get (λ l. Apart q l.1) ls k (d, p) s.0 e in
    (ground (arith, h), Spread-get ls k d p s.1 e)
