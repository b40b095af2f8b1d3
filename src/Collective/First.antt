-- ===== src/Collective/First.antt =====
-- Who is told that it is the first.
use pla_co_r.Base.{
  ℕ, suc, ◌+◌, ◌%◌, ◌^◌, ◌<◌, ◌≡◌, ◌≢◌, sym, ◌∙◌, ap, Bool, true, false, Option, none, some, List,
  [], ◌∷◌, ◌++◌, All, length, ◌==◌, ◌>>=◌, Bool-cases, inl, inr, arith,
}
use pla_co_r.Text.Bytes.{Bytes, bytes_eq, bytes_eq_self, bytes_eq_iff}
use pla_co_r.Collective.Init.{
  Collective, init_create_collective, fulfil, set_value, handle_init, handle_all,
}

bytes_eq_ne : (s t : Bytes) → s ≢ t → bytes_eq s t ≡ false
bytes_eq_ne s t n = elim (Bool-cases (bytes_eq s t)) [
  | inl e ↦ absurd (n (bytes_eq_iff s t e))
  | inr e ↦ e
]

abbrev pub is_nil : List (Bytes × Bytes) → Bool
is_nil [] = true
is_nil (m ∷ ms) = false

abbrev pub Others : Bytes → List (Bytes × Bytes) → Type 0
Others name = All (λ m. m.0 ≢ name)

counted : (a b : ℕ) → suc a + b < 2 ^ 32 → (a + 1) % 2 ^ 32 ≡ suc a
counted a b l = omega arith

-- A message of another pod is only counted.
pub handle_init-other :
    (tid : Bytes) (c : Collective)
    → c.count + 1 < 2 ^ 32
    → handle_init tid false c ≡ some (record c { count = suc c.count })
unfolding handle_init
handle_init-other tid c l = ap (λ n. some (record c { count = n })) (omega (arith, l))

other_step :
    (name : Bytes) (m : Bytes × Bytes) (ms : List (Bytes × Bytes)) (c : Collective)
    → m.0 ≢ name
    → c.count + 1 < 2 ^ 32
    → handle_all name (m ∷ ms) c ≡ handle_all name ms (record c { count = suc c.count })
unfolding handle_all
other_step name m ms c n l =
    ap (λ b. handle_init m.1 b c >>= λ d. handle_all name ms d) (bytes_eq_ne m.0 name n)
    ∙ ap (λ o. o >>= λ d. handle_all name ms d) (handle_init-other m.1 c l)

handle_all-Others :
    (name : Bytes) (ms : List (Bytes × Bytes)) (c : Collective)
    → Others name ms
    → c.count + length ms < 2 ^ 32
    → handle_all name ms c ≡ some (record c { count = c.count + length ms })
unfolding handle_all
handle_all-Others name [] c h l = ap (λ n. some (record c { count = n })) (omega arith)
handle_all-Others name (m ∷ ms) c h l =
    other_step name m ms c h.0 (omega (arith, l))
    ∙ handle_all-Others name ms (record c { count = suc c.count }) h.1 (omega (arith, l))
    ∙ ap (λ n. some (record c { count = n })) (omega arith)

module _ (name tid : Bytes) (n : ℕ) where
  -- The pod with its member, once `k` messages are counted and the promise has the value `v`.
  abbrev pub member : ℕ → Option Bool → Collective
  member k v = record {
    count = k;
    total_members = n;
    cc_first = record { tid = tid; value = v } ∷ [];
  }

  pub own_step :
      (k : ℕ)
      → k + 1 < 2 ^ 32
      → handle_init tid true (member k none) ≡ some (member (suc k) (some (suc k == 1)))
  unfolding handle_init set_value fulfil
  own_step k l =
      rw (bytes_eq_self tid) (ap (λ j. some (member j (some (j == 1)))) (omega (arith, l)))

  own_first :
      (after : List (Bytes × Bytes)) (k : ℕ)
      → Others name after
      → k + suc (length after) < 2 ^ 32
      → handle_all name ((name, tid) ∷ after) (member k none)
        ≡ some (member (suc k + length after) (some (suc k == 1)))
  unfolding handle_all
  own_first after k h l =
      ap (λ b. handle_init tid b (member k none) >>= λ d. handle_all name after d)
        (bytes_eq_self name)
      ∙ ap (λ o. o >>= λ d. handle_all name after d) (own_step k (omega (arith, l)))
      ∙ handle_all-Others name after (member (suc k) (some (suc k == 1))) h (omega (arith, l))

  tells :
      (before after : List (Bytes × Bytes)) (k : ℕ)
      → Others name before
      → Others name after
      → k + length before + suc (length after) < 2 ^ 32
      → handle_all name (before ++ ((name, tid) ∷ after)) (member k none)
        ≡ some
            (member (suc (k + length before) + length after) (some (suc (k + length before) == 1)))
  tells [] after k h a l =
      own_first after k a (omega (arith, l))
      ∙ ap (λ j. some (member (suc j + length after) (some (suc j == 1)))) (omega arith)
  tells (m ∷ before) after k h a l =
      other_step name m (before ++ ((name, tid) ∷ after)) (member k none) h.0 (omega (arith, l))
      ∙ tells before after (suc k) h.1 a (omega (arith, l))
      ∙ ap (λ j. some (member (suc j + length after) (some (suc j == 1)))) (omega arith)

is_first : (ms : List (Bytes × Bytes)) → (suc (0 + length ms) == 1) ≡ is_nil ms
is_first [] = ground arith
is_first (m ∷ ms) = ground arith

-- In a pod with one member, all messages of the members are counted, whatever their order, and
-- its member is told that it is the first just if the pod handles its message before all others,
-- if there are fewer than 2^32 messages, and no other from the pod.
pub told_first :
    (name tid : Bytes) (n : ℕ) (before after : List (Bytes × Bytes))
    → Others name before
    → Others name after
    → length before + suc (length after) < 2 ^ 32
    → handle_all name (before ++ ((name, tid) ∷ after)) (init_create_collective tid n)
      ≡ some (member name tid n (suc (length before + length after)) (some (is_nil before)))
unfolding init_create_collective
told_first name tid n before after h a l =
    tells name tid n before after 0 h a (omega (arith, l))
    ∙ ap (λ b. some (member name tid n (suc (0 + length before) + length after) (some b)))
        (is_first before)
    ∙ ap (λ k. some (member name tid n k (some (is_nil before)))) (omega arith)

-- Each message is handled in a thread of its own, and two pods may handle two messages in
-- different orders: then the members of both are told that they are the first.
pub two_firsts :
    (a b ta tb : Bytes) (n : ℕ)
    → a ≢ b
    → (handle_all a ((a, ta) ∷ ((b, tb) ∷ [])) (init_create_collective ta n)
        ≡ some (member a ta n 2 (some true)))
      × (handle_all b ((b, tb) ∷ ((a, ta) ∷ [])) (init_create_collective tb n)
          ≡ some (member b tb n 2 (some true)))
two_firsts a b ta tb n h = (
  told_first a ta n [] ((b, tb) ∷ []) tt ((λ e. h (sym e)), tt) (omega arith),
  told_first b tb n [] ((a, ta) ∷ []) tt (h, tt) (omega arith),
)
