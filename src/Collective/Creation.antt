-- ===== src/Collective/Creation.antt =====
-- A collective creation over all pods of a context, with one member in each: `CreateCollective`
-- (libcor/include/cor/services/controller.tpp) and what it calls
-- (libcor/src/cor/services/controller.cpp), cut at its waits.
--
-- A wait that is not in a loop may be left early, by a spurious wake-up: then `at` throws.
use pla_co_r.Base.{
  ℕ, suc, Bool, true, false, Option, none, some, List, [], ◌∷◌, ◌++◌, ◌≡◌, ◌≢◌, ◌==◌, ◌||◌, ◌>>=◌,
  ◌&&◌, get_elem?, if◌then◌else◌,
}
use pla_co_r.Text.Bytes.{Bytes, bytes_eq}
use pla_co_r.Collective.Init.{Promise, Collective, init_create_collective, handle_init}

-- The pointer that a member gets: to its own resource, to one of its pod, or to a reference.
pub data Pointer : Type 0 where
  created found referenced : (idp : ℕ) → Pointer

-- Where the member is: before its call, in the loop of `InitCreateCollective`, before the value of
-- its promise, before the wait of `GetCreateCollectiveIdp`, or behind the call.
pub data Stage : Type 0 where
  outside counting asking getting : Stage
  -- Did a wait end early?
  threw : (early : Bool) → Stage
  returned : Pointer → Stage

pub record CollectivePod : Type 0 where
  -- `_cc_vars[context]` and `_cc_first`, `none` before there is an entry.
  pub collective : Option Collective
  -- The pods whose messages have been counted, in that order.
  pub counted : List ℕ
  -- `_cc_idp[context]`.
  pub cc_idp : Option ℕ
  pub phase : Stage

-- The monitor of `InitCreateCollective`, and its message is sent.
unfoldable pub enter : Bytes → ℕ → CollectivePod → CollectivePod
unfolding init_create_collective
enter tid total_members d = record d {
  collective = some (init_create_collective tid total_members);
  phase = counting;
}

-- The end of a handler's thread: what it counted, or an exception.
unfoldable pub handled : ℕ → CollectivePod → Option Collective → CollectivePod
handled sender d none = record d { phase = threw false }
handled sender d (some c) = record d { collective = some c; counted = d.counted ++ sender ∷ [] }

-- Behind the wait of `HandleInitCreateCollective`; `none` has no entry.
abbrev pub counted_in : Bytes → Bool → ℕ → CollectivePod → Option Collective → Option CollectivePod
counted_in tid local sender d o = o >>= λ c. some (handled sender d (handle_init tid local c))

-- A wait without a loop whose entry is not there: it goes on, or ends early and `at` throws.
unfoldable pub or_early : Bool → CollectivePod → Option CollectivePod → Option CollectivePod
or_early early d (some e) = some e
or_early early d none = if early then some (record d { phase = threw true }) else none

-- `HandleInitCreateCollective` for the message of a pod; `none` waits for the entry.
unfoldable pub handle_init_create_collective :
    Bytes → Bool → ℕ → Bool → CollectivePod → Option CollectivePod
unfolding handle_init handled or_early
handle_init_create_collective tid local sender early d =
    or_early early d (counted_in tid local sender d d.collective)

-- A look at the condition of the loop of `InitCreateCollective`; `none` waits.
unfoldable pub passed_init : Stage → Collective → CollectivePod → Option CollectivePod
passed_init counting c d =
    if c.count == c.total_members then some (record d { phase = asking }) else none
passed_init _ c d = none

unfoldable pub pass_init : CollectivePod → Option CollectivePod
unfolding passed_init
pass_init d = d.collective >>= λ c. passed_init d.phase c d

-- `_cc_first.at({context, tid})` and the value of its future: `none` is an exception, `some none`
-- waits.
unfoldable pub get_create_collective_first : List Promise → Bytes → Option (Option Bool)
get_create_collective_first [] tid = none
get_create_collective_first (p ∷ ps) tid =
    let rest = get_create_collective_first ps tid in
    if bytes_eq p.tid tid then some p.value else rest

-- `CreateCollective` behind `GetCreateCollectiveFirst`, with the identifier that `CreateLocal`
-- generates for the first member, and the identifiers that are sent.
unfoldable pub branch : ℕ → CollectivePod → Option (Option Bool) → Option (CollectivePod × List ℕ)
branch idp d none = some (record d { phase = threw false }, [])
branch idp d (some none) = none
branch idp d (some (some true)) = some (record d { phase = returned (created idp) }, idp ∷ [])
branch idp d (some (some false)) = some (record d { phase = getting }, [])

unfoldable pub asked_first :
    Stage → Bytes → ℕ → Collective → CollectivePod → Option (CollectivePod × List ℕ)
unfolding branch get_create_collective_first
asked_first asking tid idp c d = branch idp d (get_create_collective_first c.cc_first tid)
asked_first _ tid idp c d = none

unfoldable pub ask : Bytes → ℕ → CollectivePod → Option (CollectivePod × List ℕ)
unfolding asked_first
ask tid idp d = d.collective >>= λ c. asked_first d.phase tid idp c d

unfoldable pub handle_create_collective_idp : ℕ → CollectivePod → CollectivePod
handle_create_collective_idp idp d = record d { cc_idp = some idp }

-- `GetCreateCollectiveIdp`, and the rest of `CreateCollective`; `contains` is what
-- `ContainsResource` finds. `none` waits.
unfoldable pub got_idp : Stage → Bool → ℕ → CollectivePod → Option CollectivePod
got_idp getting contains idp d =
    some (record d { phase = returned (if contains then found idp else referenced idp) })
got_idp _ contains idp d = none

-- With the identifier, if it is there.
abbrev pub got_known : Bool → CollectivePod → Option CollectivePod
got_known contains d = d.cc_idp >>= λ idp. got_idp d.phase contains idp d

-- Is the member before the wait?
abbrev pub is_getting : Stage → Bool
is_getting getting = true
is_getting _ = false

unfoldable pub get_create_collective_idp : Bool → Bool → CollectivePod → Option CollectivePod
unfolding got_idp or_early
get_create_collective_idp contains early d =
    or_early (early && is_getting d.phase) d (got_known contains d)

-- All pods, and the identifiers that were sent.
pub record World : Type 0 where
  pub pods : ℕ → CollectivePod
  pub sent : List ℕ

unfoldable pub put : World → ℕ → CollectivePod → List ℕ → World
put w p d messages = record {
  pods = λ q. if q == p then d else w.pods q;
  sent = w.sent ++ messages;
}

unfoldable pub quiet : World
quiet = record {
  pods = λ p. record { collective = none; counted = []; cc_idp = none; phase = outside };
  sent = [];
}

abbrev pub occurs : ℕ → List ℕ → Bool
occurs k [] = false
occurs k (x ∷ xs) = x == k || occurs k xs

-- `tid` is the text of the identifier of the thread of each pod's member.
module _ (tid : ℕ → Bytes) (total : ℕ) where
  -- The handlers count the messages of the members in any order, each once.
  pub data Step (w : World) : World → Type 0 where
    calls :
        (p : ℕ) → (w.pods p).phase ≡ outside → Step w (put w p (enter (tid p) total (w.pods p)) [])
    counts :
        (p k : ℕ) (early : Bool) (d : CollectivePod)
        → (w.pods k).collective ≢ none
        → occurs k (w.pods p).counted ≡ false
        → handle_init_create_collective (tid k) (k == p) k early (w.pods p) ≡ some d
        → Step w (put w p d [])
    passes : (p : ℕ) (d : CollectivePod) → pass_init (w.pods p) ≡ some d → Step w (put w p d [])
    asks :
        (p idp : ℕ) (r : CollectivePod × List ℕ)
        → ask (tid p) idp (w.pods p) ≡ some r
        → Step w (put w p r.0 r.1)
    hears :
        (p k idp : ℕ)
        → get_elem? w.sent k ≡ some idp
        → Step w (put w p (handle_create_collective_idp idp (w.pods p)) [])
    gets :
        (p : ℕ) (contains early : Bool) (d : CollectivePod)
        → get_create_collective_idp contains early (w.pods p) ≡ some d
        → Step w (put w p d [])

  -- What the pods may come to in a number of steps.
  pub data Run : ℕ → World → Type 0 where
    starts : Run 0 quiet
    then_steps : {n : ℕ} {w v : World} → Run n w → Step w v → Run (suc n) v
