-- ===== src/Executor/Pod.antt =====
-- libcor/src/cor/system/pod.cpp, libcor/include/cor/system/pod.tpp and
-- libcor/include/cor/elements/executor.tpp. A thread is told by its identifier, a number.
use pla_co_r.Base.{
  ℕ, Bool, true, false, Option, none, some, List, [], ◌∷◌, if◌then◌else◌, Dict, lookup, put,
  put_new, remove,
}
use pla_co_r.Text.Bytes.{Bytes, bytes_eq}
use pla_co_r.Text.Filename.{get_filename}

-- `_active_rscs` and `_modules`, whose libraries are told by the paths that they were loaded from.
pub record Pod : Type 0 where
  pub active_rscs : Dict ℕ
  pub modules : List (Bytes × Bytes)

unfoldable pub no_threads : Pod
no_threads = record { active_rscs = []; modules = [] }

unfoldable pub insert_active_resource : ℕ → ℕ → Pod → Pod
insert_active_resource tid idp p = record p { active_rscs = put_new p.active_rscs tid idp }

unfoldable pub remove_active_resource : ℕ → Pod → Pod
remove_active_resource tid p = record p { active_rscs = remove p.active_rscs tid }

-- `none` is the exception of `at`.
unfoldable pub change_at : ℕ → ℕ → Pod → Option ℕ → Option Pod
change_at tid idp p none = none
change_at tid idp p (some old) = some (record p { active_rscs = put p.active_rscs tid idp })

unfoldable pub change_active_resource : ℕ → ℕ → Pod → Option Pod
unfolding change_at
change_active_resource tid idp p = change_at tid idp p (lookup p.active_rscs tid)

unfoldable pub get_current_active_resource : ℕ → Pod → Option ℕ
get_current_active_resource tid p = lookup p.active_rscs tid

unfoldable pub find_module : List (Bytes × Bytes) → Bytes → Option Bytes
find_module [] key = none
find_module (m ∷ ms) key =
    let rest = find_module ms key in if bytes_eq m.0 key then some m.1 else rest

-- `emplace` into `_modules`, by what is there under the key.
unfoldable pub emplace_module :
    List (Bytes × Bytes) → Bytes → Bytes → Option Bytes → List (Bytes × Bytes)
emplace_module ms key dylib none = (key, dylib) ∷ ms
emplace_module ms key dylib (some d) = ms

-- `LoadModule`, by what is there under the path, and whether the library is loaded.
unfoldable pub load_at : Bytes → Pod → Option Bytes → Pod × Bool
unfolding find_module emplace_module
load_at path p none =
    let key = get_filename path true b'/' in
    (record p { modules = emplace_module p.modules key path (find_module p.modules key) }, true)
load_at path p (some d) = (p, false)

unfoldable pub load_module : Bytes → Pod → Pod × Bool
unfolding load_at
load_module path p = load_at path p (find_module p.modules path)

-- `_modules.at(module)` in `LoadFunction`.
unfoldable pub load_function : Bytes → Pod → Option Bytes
unfolding find_module
load_function name p = find_module p.modules name

-- `Executor::Run` starts a thread for the resource `idp`; its task inserts the resource, runs the
-- function, and removes the resource if the function returned.
pub data Op : Type 0 where
  task_starts : (tid idp : ℕ) → Op
  task_returns task_throws : (tid : ℕ) → Op
  -- `ChangeIdp`, and `ResumeIdp` of the executor of `idp`; an exception leaves the pod as it is.
  change_idp resume_idp : (tid idp : ℕ) → Op

abbrev pub or_same : Pod → Option Pod → Pod
or_same p none = p
or_same p (some q) = q

unfoldable pub apply : Op → Pod → Pod
unfolding insert_active_resource remove_active_resource change_active_resource
apply (task_starts tid idp) p = insert_active_resource tid idp p
apply (task_returns tid) p = remove_active_resource tid p
apply (task_throws tid) p = p
apply (change_idp tid idp) p = or_same p (change_active_resource tid idp p)
apply (resume_idp tid idp) p = or_same p (change_active_resource tid idp p)

unfoldable pub run : List Op → Pod → Pod
unfolding apply
run [] p = p
run (o ∷ os) p = run os (apply o p)
