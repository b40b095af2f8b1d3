-- ===== src/Page/Manager.antt =====
-- libcor/include/cor/services/page_manager.hpp and libcor/src/cor/services/page_manager.cpp: the
-- service that hands out resource identifiers. Identifiers and pages are 32-bit words.

use Prim.Native.Nat.{ℕ}
use pla_co_r.Base.{◌+◌, ◌-◌, ◌%◌, ◌^◌, Bool, true, false, Option, none, some, leb, if◌then◌else◌}

abbrev pub u32 : ℕ → ℕ
u32 n = n % 2 ^ 32

-- `a - b` on 32-bit words.
abbrev pub sub_u32 : ℕ → ℕ → ℕ
sub_u32 a b = (a + 2 ^ 32 - b) % 2 ^ 32

abbrev pub meta_domain : ℕ
meta_domain = 0

abbrev pub master_domain : ℕ
master_domain = 4294967040

-- The fields of the class; the mutex and the condition variable are the atomicity of the
-- operations below.
pub record PageManager : Type 0 where
  pub is_main_mgr : Bool
  pub next_page : ℕ
  pub current_page : ℕ
  pub page_size : ℕ
  pub ids_counter : ℕ
  pub page_requested : Bool

-- The constructor. The four words start undefined: `junk`.
unfoldable pub page_manager : Bool → ℕ → PageManager
page_manager first junk = record {
  is_main_mgr = first;
  next_page = junk;
  current_page = junk;
  page_size = junk;
  ids_counter = junk;
  page_requested = false;
}

unfoldable pub create_initial_context : PageManager → PageManager
create_initial_context m =
    if m.is_main_mgr
    then record m {
      page_size = 0x100;
      current_page = 0xffffff00;
      next_page = 0xfffffe00;
      ids_counter = 0;
    }
    else record m { page_size = 0x100; ids_counter = 0x100 }

-- The loop of `GenerateIdp` in the main manager: a used up page is replaced by the next one.
unfoldable pub refill : PageManager → PageManager
refill m = record m {
  current_page = m.next_page;
  next_page = sub_u32 m.next_page m.page_size;
  ids_counter = 0;
}

-- The end of `GenerateIdp`.
unfoldable pub take_idp : PageManager → ℕ × PageManager
take_idp m =
    (sub_u32 m.current_page m.ids_counter, record m { ids_counter = u32 (m.ids_counter + 1) })

-- What a call of `GenerateIdp`, or a wake-up of a waiting call, comes to: it returns, or it waits
-- on the condition variable, having asked the controller for a page or not. The loop of the main
-- manager does not end where a fresh page holds no identifier.
pub data Outcome : Type 0 where
  returns : ℕ → PageManager → Outcome
  waits : (requests : Bool) → PageManager → Outcome
  spins : Outcome

unfoldable pub generated : ℕ × PageManager → Outcome
generated (id, m) = returns id m

unfoldable pub generate_idp : PageManager → Outcome
unfolding generated refill take_idp
generate_idp m =
    if leb m.page_size m.ids_counter
    then if m.is_main_mgr
      then if leb m.page_size 0 then spins else generated (take_idp (refill m))
      else if m.page_requested
      then waits false m
      else waits true (record m { page_requested = true })
    else generated (take_idp m)

-- `GeneratePage`, which a debug build runs on the main manager only.
unfoldable pub generate_page : PageManager → Option (ℕ × PageManager)
generate_page m =
    if m.is_main_mgr
    then some (m.next_page, record m { next_page = sub_u32 m.next_page m.page_size })
    else none

unfoldable pub update_page : ℕ → PageManager → PageManager
update_page page m = record m { current_page = page; ids_counter = 0 }
