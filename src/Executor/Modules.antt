-- ===== src/Executor/Modules.antt =====
-- `LoadModule` (libcor/src/cor/system/pod.cpp).
use pla_co_r.Base.{◌≡◌, refl, sym, ◌∙◌, ap, true, false, Option, none, some, none-ne-some, List}
use pla_co_r.Text.Bytes.{Bytes, bytes_eq}
use pla_co_r.Text.Filename.{get_filename}
use pla_co_r.Executor.Pod.{Pod, find_module, emplace_module, load_at, load_module}

emplaced :
    (ms : List (Bytes × Bytes)) (key path dylib : Bytes) (o : Option Bytes)
    → find_module ms path ≡ none
    → bytes_eq key path ≡ false
    → find_module (emplace_module ms key dylib o) path ≡ none
unfolding emplace_module find_module
emplaced ms key path dylib none e n = rw n e
emplaced ms key path dylib (some d) e n = e

fresh : (path : Bytes) (p : Pod) (o : Option Bytes) → o ≡ none → (load_at path p o).1 ≡ true
unfolding load_at
fresh path p none e = refl
fresh path p (some d) e = absurd (none-ne-some d (sym e))

-- A module is looked for under its path and entered under its file name: where these differ, it is
-- loaded again by every call.
pub load_module-load_module :
    (path : Bytes) (p : Pod)
    → find_module p.modules path ≡ none
    → bytes_eq (get_filename path true b'/') path ≡ false
    → ((load_module path p).1 ≡ true) × ((load_module path (load_module path p).0).1 ≡ true)
unfolding load_module load_at
load_module-load_module path p e n = (
  fresh path p _ e,
  fresh path _ _ (
      ap (λ o. find_module (load_at path p o).0.modules path) e
      ∙ emplaced p.modules (get_filename path true b'/') path path _ e n),
)
