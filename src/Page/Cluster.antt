-- ===== src/Page/Cluster.antt =====
-- The page managers of all pods with the messages between them: `RequestPage`, `HandlePageRequest`
-- and `HandlePageReply` of libcor/src/cor/services/controller.cpp. Pod 0 joined the application
-- group first, so its manager is the main one.
use pla_co_r.Base.{
  ℕ, ◌+◌, true, false, Option, none, some, List, [], ◌∷◌, ◌++◌, get_elem?, without, ◌==◌,
  if◌then◌else◌,
}
use pla_co_r.Page.Manager.{
  PageManager, page_manager, create_initial_context, Outcome, returns, waits, spins, generate_idp,
  generate_page, update_page,
}

abbrev pub place {ℓ} : {A : Type ℓ} → (ℕ → A) → ℕ → A → ℕ → A
place f i a j = if i == j then a else f j

-- `issued` and `pages` record what happened: the identifiers returned, and the number of pages
-- handed out after the first.
pub record Cluster : Type 0 where
  pub pods : ℕ → PageManager
  pub requests : List ℕ
  pub replies : List (ℕ × ℕ)
  pub issued : List ℕ
  pub pages : ℕ

unfoldable pub start : ℕ → Cluster
start junk = record {
  pods = λ i. create_initial_context (page_manager (i == 0) junk);
  requests = [];
  replies = [];
  issued = [];
  pages = 0;
}

-- A thread of pod `i` calls `GenerateIdp`, or wakes up in it; the main controller handles the
-- first request; some reply arrives.
pub data Action : Type 0 where
  generate : ℕ → Action
  serve : Action
  deliver : ℕ → Action

-- The counter of handed out pages moves where the main manager goes to its next page.
unfoldable pub refilled : PageManager → PageManager → ℕ
refilled m m' = if m.next_page == m'.next_page then 0 else 1

unfoldable pub after_generate : Cluster → ℕ → Outcome → Cluster
unfolding refilled
after_generate c i (returns id m) = record c {
  pods = place c.pods i m;
  issued = id ∷ c.issued;
  pages = c.pages + refilled (c.pods i) m;
}
after_generate c i (waits true m) = record c {
  pods = place c.pods i m;
  requests = c.requests ++ i ∷ [];
}
after_generate c i (waits false m) = record c { pods = place c.pods i m }
after_generate c i spins = c

unfoldable pub handle_page_request : Cluster → List ℕ → Cluster
handle_page_request c [] = c
handle_page_request c (sender ∷ rest) = elim (generate_page (c.pods 0)) [
  | none ↦ c
  | some (page, m) ↦ record c {
    pods = place c.pods 0 m;
    requests = rest;
    replies = c.replies ++ (sender, page) ∷ [];
    pages = c.pages + 1;
  }
]

unfoldable pub handle_page_reply : Cluster → ℕ → Option (ℕ × ℕ) → Cluster
handle_page_reply c k none = c
handle_page_reply c k (some (dest, page)) = record c {
  pods = place c.pods dest (update_page page (c.pods dest));
  replies = without c.replies k;
}

unfoldable pub step : Action → Cluster → Cluster
step (generate i) c = after_generate c i (generate_idp (c.pods i))
step serve c = handle_page_request c c.requests
step (deliver k) c = handle_page_reply c k (get_elem? c.replies k)

unfoldable pub run : List Action → Cluster → Cluster
run [] c = c
run (a ∷ rest) c = run rest (step a c)
