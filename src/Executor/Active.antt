-- ===== src/Executor/Active.antt =====
-- What a thread sees of the active resources (libcor/src/cor/system/pod.cpp).
use mathlib.Core.Path.{fun_ext}
use mathlib.Core.Bool.{true≢false}
use pla_co_r.Base.{
  ℕ, ◌≡◌, ◌≢◌, refl, sym, ◌∙◌, ap, subst, Option, none, some, List, [], ◌∷◌, if◌then◌else◌, ◌==◌,
  ==_iff, Bool-cases, inl, inr, Dict, lookup, put_new, remove, lookup-put, lookup-put_ne,
  lookup-put_new, lookup-put_new_ne, put_new-some, lookup-remove, lookup-remove_ne,
}
use pla_co_r.Executor.Pod.{
  Pod, insert_active_resource, remove_active_resource, change_active_resource,
  get_current_active_resource, change_at, Op, task_starts, task_returns, task_throws, change_idp,
  resume_idp, or_same, apply, run,
}

-- The specification: each thread has an active resource or none, and its own operations alone tell
-- which.
abbrev pub Threads : Type 0
Threads = ℕ → Option ℕ

abbrev pub thread_of : Op → ℕ
thread_of (task_starts tid idp) = tid
thread_of (task_returns tid) = tid
thread_of (task_throws tid) = tid
thread_of (change_idp tid idp) = tid
thread_of (resume_idp tid idp) = tid

-- A task that starts in a thread that has a resource leaves it the one it has.
abbrev pub own : Op → Option ℕ → Option ℕ
own (task_starts tid idp) none = some idp
own (task_starts tid idp) (some old) = some old
own (task_returns tid) a = none
own (task_throws tid) a = a
own (change_idp tid idp) none = none
own (change_idp tid idp) (some old) = some idp
own (resume_idp tid idp) none = none
own (resume_idp tid idp) (some old) = some idp

unfoldable pub replay : List Op → Threads → Threads
replay [] a = a
replay (o ∷ os) a = replay os (λ t. if thread_of o == t then own o (a t) else a t)

-- The view of a pod.
abbrev pub active : Pod → Threads
active p t = get_current_active_resource t p

-- A map that differs from another one at a key alone.
at_key :
    (d e : Dict ℕ) (k : ℕ) (f : Option ℕ → Option ℕ)
    → lookup e k ≡ f (lookup d k)
    → ((t : ℕ) → k ≢ t → lookup e t ≡ lookup d t)
    → (t : ℕ) → lookup e t ≡ (if k == t then f (lookup d t) else lookup d t)
at_key d e k f h g t = elim (Bool-cases (k == t)) [
  | inl i ↦ rw i (subst (λ j. lookup e j ≡ f (lookup d j)) ((==_iff k t).0 i) h)
  | inr i ↦ rw i (g t (λ j. true≢false (sym ((==_iff k t).1 j) ∙ i)))
]

started :
    (tid idp : ℕ) (d : Dict ℕ) (o : Option ℕ)
    → lookup d tid ≡ o
    → lookup (put_new d tid idp) tid ≡ own (task_starts tid idp) o
started tid idp d none e = lookup-put_new d tid idp e
started tid idp d (some old) e = ap (λ x. lookup x tid) (put_new-some d tid idp old e) ∙ e

changed_own :
    (tid idp : ℕ) (p : Pod) (o : Option ℕ)
    → lookup p.active_rscs tid ≡ o
    → lookup (or_same p (change_at tid idp p o)).active_rscs tid ≡ own (change_idp tid idp) o
unfolding change_at
changed_own tid idp p none e = e
changed_own tid idp p (some old) e = lookup-put p.active_rscs tid idp

changed_other :
    (tid idp : ℕ) (p : Pod) (o : Option ℕ) (t : ℕ)
    → tid ≢ t
    → lookup (or_same p (change_at tid idp p o)).active_rscs t ≡ lookup p.active_rscs t
unfolding change_at
changed_other tid idp p none t n = refl
changed_other tid idp p (some old) t n = lookup-put_ne p.active_rscs tid t idp n

changed :
    (tid idp : ℕ) (p : Pod) (t : ℕ)
    → lookup (or_same p (change_active_resource tid idp p)).active_rscs t ≡ (
        if tid == t
        then own (change_idp tid idp) (lookup p.active_rscs t)
        else lookup p.active_rscs t)
unfolding change_active_resource
changed tid idp p =
    at_key p.active_rscs _ tid (own (change_idp tid idp))
      (changed_own tid idp p (lookup p.active_rscs tid) refl)
      (λ t n. changed_other tid idp p (lookup p.active_rscs tid) t n)

resumes_as_change :
    (tid idp : ℕ) (o : Option ℕ) → own (change_idp tid idp) o ≡ own (resume_idp tid idp) o
resumes_as_change tid idp none = refl
resumes_as_change tid idp (some old) = refl

apply-active :
    (o : Op) (p : Pod) (t : ℕ)
    → active (apply o p) t ≡ (if thread_of o == t then own o (active p t) else active p t)
unfolding apply insert_active_resource remove_active_resource get_current_active_resource
apply-active (task_starts tid idp) p t =
    at_key p.active_rscs (put_new p.active_rscs tid idp) tid (own (task_starts tid idp))
      (started tid idp p.active_rscs _ refl) (λ u n. lookup-put_new_ne p.active_rscs tid u idp n) t
apply-active (task_returns tid) p t =
    at_key p.active_rscs (remove p.active_rscs tid) tid (λ a. none)
      (lookup-remove p.active_rscs tid) (λ u n. lookup-remove_ne p.active_rscs tid u n) t
apply-active (task_throws tid) p t =
    at_key p.active_rscs p.active_rscs tid (λ a. a) refl (λ u n. refl) t
apply-active (change_idp tid idp) p t = changed tid idp p t
apply-active (resume_idp tid idp) p t =
    changed tid idp p t
    ∙ ap (λ x. if tid == t then x else lookup p.active_rscs t)
        (resumes_as_change tid idp (lookup p.active_rscs t))

-- The active resources of a pod implement the specification: over any operations of its threads and
-- executors, in any order, the resource that each thread finds is the one that its own operations
-- lead to from the one that it had.
pub active-replay : (os : List Op) (p : Pod) → active (run os p) ≡ replay os (active p)
unfolding run replay
active-replay [] p = refl
active-replay (o ∷ os) p =
    active-replay os (apply o p) ∙ ap (replay os) (fun_ext (λ t. apply-active o p t))

-- The exception of a task leaves its resource behind: a later task for another resource in a thread
-- with the same identifier runs as the resource of the first one.
pub left_behind :
    (tid a b : ℕ) (p : Pod)
    → get_current_active_resource tid p ≡ none
    → get_current_active_resource tid
        (run (task_starts tid a ∷ task_throws tid ∷ task_starts tid b ∷ []) p)
      ≡ some a
unfolding run lookup get_current_active_resource
left_behind tid a b p e =
    ap (λ d. lookup d tid) (put_new-some (put_new p.active_rscs tid a) tid b a here) ∙ here
  where
    here : lookup (put_new p.active_rscs tid a) tid ≡ some a
    here = lookup-put_new p.active_rscs tid a e
