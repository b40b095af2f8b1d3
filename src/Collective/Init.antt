-- ===== src/Collective/Init.antt =====
-- `_cc_vars[context]` and `_cc_first` of one context in one pod, and `HandleInitCreateCollective`
-- (libcor/src/cor/services/controller.cpp).
use pla_co_r.Base.{
  ℕ, ◌+◌, ◌%◌, ◌^◌, Bool, Option, none, some, List, [], ◌∷◌, ◌==◌, ◌>>=◌, if◌then◌else◌,
}
use pla_co_r.Text.Bytes.{Bytes, bytes_eq}

-- The promise of a thread, and its value once it is set.
pub record Promise : Type 0 where
  pub tid : Bytes
  pub value : Option Bool

pub record Collective : Type 0 where
  pub count : ℕ
  pub total_members : ℕ
  pub cc_first : List Promise

-- `InitCreateCollective` before it sends its message, of the first thread of the pod that calls it.
unfoldable pub init_create_collective : Bytes → ℕ → Collective
init_create_collective tid total_members = record {
  count = 0;
  total_members = total_members;
  cc_first = record { tid = tid; value = none } ∷ [];
}

unfoldable pub fulfil : Promise → Bool → Option Promise
fulfil p v = elim p.value [ none ↦ some (record p { value = some v }) | some w ↦ none ]

-- `_cc_first.at({context, tid}).set_value(v)`; `none` is an exception: there is no promise, or it
-- has a value.
unfoldable pub set_value : List Promise → Bytes → Bool → Option (List Promise)
unfolding fulfil
set_value [] tid v = none
set_value (p ∷ ps) tid v =
    let rest = set_value ps tid v >>= λ qs. some (p ∷ qs) in
    if bytes_eq p.tid tid then (fulfil p v >>= λ q. some (q ∷ ps)) else rest

-- Behind the wait for the entry of the context; an exception ends the program.
unfoldable pub handle_init : Bytes → Bool → Collective → Option Collective
unfolding set_value
handle_init tid local c =
    let told = set_value c.cc_first tid ((c.count + 1) % 2 ^ 32 == 1) >>= λ ps.
    some (record c { count = (c.count + 1) % 2 ^ 32; cc_first = ps }) in
    if local then told else some (record c { count = (c.count + 1) % 2 ^ 32 })

-- The threads that the pod `name` starts for the messages, in the order in which they take the
-- lock. A message is its sender and the thread that it names.
unfoldable pub handle_all : Bytes → List (Bytes × Bytes) → Collective → Option Collective
unfolding handle_init
handle_all name [] c = some c
handle_all name (m ∷ ms) c = handle_init m.1 (bytes_eq m.0 name) c >>= λ d. handle_all name ms d
