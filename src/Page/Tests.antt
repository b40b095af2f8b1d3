-- ===== src/Page/Tests.antt =====
-- Concrete runs of the page managers.
use pla_co_r.Base.{ℕ, zero, suc, ◌≡◌, refl, ◌≢◌, List, [], ◌∷◌, All, Distinct, ◌^◌, ◌<◌, ◌≤◌, arith}
use pla_co_r.Page.Manager.{
  meta_domain, master_domain, generate_idp, generate_page, page_manager, create_initial_context,
  update_page,
}
use pla_co_r.Page.Cluster.{
  start, Action, generate, serve, deliver, run, step, after_generate, handle_page_request,
  handle_page_reply,
}
use pla_co_r.Page.Unique.Steps.{run-Distinct}
use pla_co_r.Page.Starvation.{returned_by, one_page}

abbrev both_pods : List Action
both_pods = generate 0 ∷ generate 1 ∷ serve ∷ deliver 0 ∷ generate 1 ∷ generate 0 ∷ []

both_pods_issued : (run both_pods (start 7)).issued ≡ 0xfffffeff ∷ 0xfffffe00 ∷ master_domain ∷ []
unfolding run step start after_generate generate_idp generate_page handle_page_request
    handle_page_reply update_page create_initial_context page_manager
both_pods_issued = refl

run-Distinct_example :
    Distinct (run both_pods (start 7)).issued
    × All (λ x. (x ≢ meta_domain) × (x < 2 ^ 32)) (run both_pods (start 7)).issued
unfolding run step start after_generate generate_idp generate_page handle_page_request
    handle_page_reply update_page create_initial_context page_manager
run-Distinct_example = run-Distinct 7 both_pods (omega arith)

abbrev many : ℕ → List Action
many zero = []
many (suc n) = generate 1 ∷ many n

-- Pod 1 gets its page, and tries to generate 300 identifiers.
abbrev used_up : List Action
used_up = generate 1 ∷ serve ∷ deliver 0 ∷ many 300

used_up-returned : returned_by 1 used_up (start 7) ≡ 256
unfolding returned_by run step start after_generate generate_idp generate_page handle_page_request
    handle_page_reply update_page create_initial_context page_manager
used_up-returned = refl

one_page_example : returned_by 1 used_up (start 7) ≤ 256
one_page_example = one_page 1 7 used_up (omega arith)
