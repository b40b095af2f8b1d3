-- ===== src/Names/Tests.antt =====
-- The names of an application `app`.
use pla_co_r.Base.{◌≡◌, some, [], ◌∷◌, ltb, if◌then◌else◌, arith}
use pla_co_r.Text.Bytes.{Bytes, codes, Lacks}
use pla_co_r.Names.Groups.{
  get_context_group, get_resource_group, initialize, initialize_context, check_replica, handle_join,
}
use pla_co_r.Names.RoundTrip.{joins_told_apart}

abbrev app : Bytes
app = codes "app"

app-at : Lacks b'@' app
app-at = ((λ e. ground arith), ((λ e. ground arith), ((λ e. ground arith), tt)))

app-dollar : Lacks b'$' app
app-dollar = ((λ e. ground arith), ((λ e. ground arith), ((λ e. ground arith), tt)))

joins_told_apart_example :
    (handle_join app app 2 (codes "pod") ≡ initialize ∷ [])
    × (handle_join app (get_context_group app app) 2 (codes "pod") ≡ initialize_context ∷ [])
    × (handle_join app (get_resource_group app 258) 2 (codes "pod")
        ≡ (if ltb 1 2 then check_replica (some 258) 2 (codes "pod") ∷ [] else []))
joins_told_apart_example =
    joins_told_apart app app (codes "pod") 258 2 app-at app-dollar app-at (omega arith)
