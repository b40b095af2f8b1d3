-- ===== src/Registry/Search.antt =====
-- `SearchResource` (libcor/src/cor/services/resource_manager.cpp): every pod is asked for a
-- resource, and every pod answers.
use pla_co_r.Base.{
  ℕ, ◌+◌, ◌%◌, ◌^◌, Option, none, some, List, [], ◌∷◌, if◌then◌else◌, ◌==◌, lookup, put, put_new,
}
use pla_co_r.Text.Bytes.{Bytes}
use pla_co_r.Consistency.Object.{ConsistencyObject}
use pla_co_r.Consistency.Requests.{is_owner}
use pla_co_r.Registry.State.{
  Resource, Registry, SearchVars, Effect, send_search_resource_request, send_search_resource_reply,
  notify_all, search, Outcome, ended, raised, waiting, nowhere, Piece, piece, default,
}

unfoldable pub new_vars : ℕ → SearchVars
new_vars n = record { replies = 0; total_pods = n; owner = [] }

-- `_sr_vars[idp]`, which makes an entry of zeros where there is none.
unfoldable pub vars_at : Registry → ℕ → SearchVars
unfolding new_vars
vars_at r idp = default (new_vars 0) (lookup r.sr_vars idp)

unfoldable pub with_vars : ℕ → SearchVars → Registry → Registry
with_vars idp v r = record r { sr_vars = put r.sr_vars idp v }

-- The end of `SearchResource`; `raised` is the exception `does not exists`.
unfoldable pub owner_or_fault : ℕ → Bytes → Outcome Bytes
owner_or_fault idp [] = raised (nowhere idp)
owner_or_fault idp (c ∷ s) = ended (c ∷ s)

-- A look at the condition of the loop.
unfoldable pub search_turn : ℕ → Registry → Piece Bytes
unfolding piece with_vars vars_at owner_or_fault
search_turn idp r =
    let v = vars_at r idp in
    piece [] (with_vars idp v r)
      (if v.replies == v.total_pods then owner_or_fault idp v.owner else waiting (search idp))

unfoldable pub search_request : ℕ → Option SearchVars → List Effect
search_request idp none = send_search_resource_request idp ∷ []
search_request idp (some v) = []

-- `SearchResource` with the pods that `GetTotalPods` has counted, up to its first wait or its end.
unfoldable pub search_resource : ℕ → ℕ → Registry → Piece Bytes
unfolding search_turn search_request new_vars
search_resource idp total_pods r =
    let p = search_turn idp (record r { sr_vars = put_new r.sr_vars idp (new_vars total_pods) }) in
    record p { effects = search_request idp (lookup r.sr_vars idp) }

-- What a pod answers: its name if it owns the resource.
unfoldable pub search_info : Bytes → Option (ConsistencyObject Resource) → Bytes
unfolding is_owner
search_info name none = []
search_info name (some o) = if is_owner o then name else []

unfoldable pub handle_search_resource : Bytes → ℕ → Bytes → Registry → Piece Unit
unfolding piece search_info
handle_search_resource name idp ctrl r =
    piece (send_search_resource_reply idp (search_info name (lookup r.cst_objs idp)) ctrl ∷ []) r
      (ended tt)

unfoldable pub info_or : Bytes → Bytes → Bytes
info_or old [] = old
info_or old (c ∷ s) = c ∷ s

unfoldable pub counted : Bytes → SearchVars → SearchVars
unfolding info_or
counted info v = record v { replies = (v.replies + 1) % 2 ^ 32; owner = info_or v.owner info }

unfoldable pub handle_search_resource_info : ℕ → Bytes → Registry → Piece Unit
unfolding piece counted vars_at with_vars
handle_search_resource_info idp info r =
    let v = counted info (vars_at r idp) in
    piece (if v.replies == v.total_pods then notify_all (search idp) ∷ [] else [])
      (with_vars idp v r) (ended tt)
