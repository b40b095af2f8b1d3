-- ===== src/Collective/Tests.antt =====
-- Three pods, `a`, `b` and `c`.
use pla_co_r.Base.{ℕ, ◌≡◌, ◌≢◌, true, some, List, [], ◌∷◌, arith}
use pla_co_r.Text.Bytes.{Bytes, codes}
use pla_co_r.Collective.Init.{init_create_collective, handle_all}
use pla_co_r.Collective.First.{member, two_firsts}

differ : (c d : ℕ) → c ≢ d → (s t : Bytes) → (c ∷ s) ≢ (d ∷ t)
differ c d h s t e = h (ground (arith, e))

abbrev earlier : List (Bytes × Bytes)
earlier = (codes "a", codes "1") ∷ []

abbrev later : List (Bytes × Bytes)
later = (codes "c", codes "3") ∷ []

two_firsts_example :
    (handle_all
        (codes "a")
        ((codes "a", codes "1") ∷ ((codes "b", codes "2") ∷ []))
        (init_create_collective (codes "1") 2)
      ≡ some (member (codes "a") (codes "1") 2 2 (some true)))
    × (handle_all
          (codes "b")
          ((codes "b", codes "2") ∷ ((codes "a", codes "1") ∷ []))
          (init_create_collective (codes "2") 2)
        ≡ some (member (codes "b") (codes "2") 2 2 (some true)))
two_firsts_example =
    two_firsts (codes "a") (codes "b") (codes "1") (codes "2") 2
      (differ b'a' b'b' (λ e. omega (arith, e)) [] [])
