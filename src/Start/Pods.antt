-- ===== src/Start/Pods.antt =====
-- `Initialize`, `InitializeContext`, `FinalizeContext`, `Finalize` and their handlers
-- (libcor/src/cor/services/controller.cpp) in all pods of an application. The communication system
-- delivers the messages and the joins of a group to all its members in one order; each member
-- handles them in a thread of its own, from a queue.
use pla_co_r.Base.{
  ℕ, ◌+◌, ◌%◌, ◌^◌, Bool, true, false, ◌&&◌, Option, none, some, List, [], ◌∷◌, ◌++◌, map,
  get_elem?, set, total, if◌then◌else◌, ltb, ◌==◌,
}

-- Where the main thread of a pod stands.
pub data Phase : Type 0 where
  outside : Phase
  joined_app : Phase  -- in `Initialize`, at `_fsync.get()`
  in_initialize_context : Phase  -- at its wait
  running : Phase
  in_finalize_context : Phase  -- at its wait
  in_finalize : Phase  -- at its wait
  left_app : Phase

pub data Notice : Type 0 where
  -- A join, with the pod that joined and the size of the group behind it.
  app_join : (changed_member size : ℕ) → Notice
  context_join : (size : ℕ) → Notice
  context_finalize app_finalize : Notice

-- The fields of a controller that the methods use. `psync` is the promise, once it is set.
pub record Pod : Type 0 where
  pub name : ℕ
  pub context : ℕ
  pub npods : ℕ
  pub phase : Phase
  pub psync : Option Bool
  pub is_main_ctrl : Bool
  pub init_total_npods : ℕ
  pub final_total_npods : ℕ
  pub init_ctx_npods : ℕ
  pub final_ctx_npods : ℕ
  pub inbox : List Notice

unfoldable pub controller : (name context npods : ℕ) → Pod
controller name context npods = record {
  name = name;
  context = context;
  npods = npods;
  phase = outside;
  psync = none;
  is_main_ctrl = false;
  init_total_npods = 0;
  final_total_npods = 0;
  init_ctx_npods = 0;
  final_ctx_npods = 0;
  inbox = [];
}

unfoldable pub handle_initialize : ℕ → ℕ → Pod → Pod
handle_initialize changed_member size p = record p {
  psync = if p.name == changed_member then some (size == 1) else p.psync;
  init_total_npods = size;
}

unfoldable pub handle_initialize_context : ℕ → Pod → Pod
handle_initialize_context size p = record p { init_ctx_npods = size }

unfoldable pub handle_finalize_context : Pod → Pod
handle_finalize_context p = record p { final_ctx_npods = (p.final_ctx_npods + 1) % 2 ^ 32 }

unfoldable pub handle_finalize : Pod → Pod
handle_finalize p = record p { final_total_npods = (p.final_total_npods + 1) % 2 ^ 32 }

unfoldable pub handle : Notice → Pod → Pod
unfolding handle_initialize handle_initialize_context handle_finalize_context handle_finalize
handle (app_join changed_member size) p = handle_initialize changed_member size p
handle (context_join size) p = handle_initialize_context size p
handle context_finalize p = handle_finalize_context p
handle app_finalize p = handle_finalize p

-- The members of the groups.
abbrev pub in_app : Phase → Bool
in_app outside = false
in_app left_app = false
in_app _ = true

abbrev pub in_context : Phase → Bool
in_context in_initialize_context = true
in_context running = true
in_context in_finalize_context = true
in_context _ = false

abbrev pub one : Bool → ℕ
one true = 1
one false = 0

abbrev pub is_app_member : Pod → Bool
is_app_member p = in_app p.phase

abbrev pub is_context_member : ℕ → Pod → Bool
is_context_member c p = in_context p.phase && p.context == c

unfoldable pub post : (Pod → Bool) → Notice → Pod → Pod
post f m p = if f p then record p { inbox = p.inbox ++ m ∷ [] } else p

-- The pod `k` stands at another phase, and a notice goes to a group, a leaving pod not among it.
unfoldable pub broadcast : (Pod → Bool) → Notice → List Pod → List Pod
unfolding post
broadcast f m pods = map (post f m) pods

-- The next step of the main thread of the pod `p`, number `k`; at a wait it looks at the condition.
unfoldable pub main_step : ℕ → List Pod → Pod → List Pod
unfolding broadcast
main_step k pods p = elim p.phase [
  | outside ↦
      broadcast is_app_member (app_join p.name (total (λ q. one (is_app_member q)) pods + 1))
        (set pods k (record p { phase = joined_app }))
  | joined_app ↦ elim p.psync [
    | none ↦ pods
    | some first ↦
        broadcast (is_context_member p.context)
          (context_join (total (λ q. one (is_context_member p.context q)) pods + 1))
          (set pods k (record p { phase = in_initialize_context; is_main_ctrl = first }))
  ]
  | in_initialize_context ↦
      if ltb p.init_ctx_npods p.npods then pods else set pods k (record p { phase = running })
  | running ↦
      broadcast (is_context_member p.context) context_finalize
        (set pods k (record p { phase = in_finalize_context }))
  | in_finalize_context ↦
      if ltb p.final_ctx_npods p.init_ctx_npods
      then pods
      else broadcast is_app_member app_finalize (set pods k (record p { phase = in_finalize }))
  | in_finalize ↦
      if ltb p.final_total_npods p.init_total_npods
      then pods
      else set pods k (record p { phase = left_app })
  | left_app ↦ pods
]

-- The next step of the service thread.
unfoldable pub service_step : ℕ → List Pod → Pod → List Pod
unfolding handle
service_step k pods p = elim p.inbox [
  | [] ↦ pods
  | m ∷ ms ↦ set pods k (handle m (record p { inbox = ms }))
]

pub data Event : Type 0 where
  main service : (k : ℕ) → Event

unfoldable pub at_pod : (List Pod → Pod → List Pod) → List Pod → Option Pod → List Pod
at_pod f pods none = pods
at_pod f pods (some p) = f pods p

unfoldable pub step : Event → List Pod → List Pod
unfolding at_pod main_step service_step
step (main k) pods = at_pod (main_step k) pods (get_elem? pods k)
step (service k) pods = at_pod (service_step k) pods (get_elem? pods k)

unfoldable pub run : List Event → List Pod → List Pod
unfolding step
run [] pods = pods
run (e ∷ es) pods = run es (step e pods)
