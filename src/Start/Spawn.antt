-- ===== src/Start/Spawn.antt =====
-- `Spawn` (libcor/src/cor/services/controller.cpp): the command for the new pods, and the sessions
-- in which it runs, up to the wait for the message of the new closure.
use native.Mathlib.Nat.{mod-lt}
use pla_co_r.Base.{
  ℕ, zero, suc, ◌+◌, ◌%◌, ◌<◌, ◌≡◌, refl, ap, ◌∙◌, Option, some, List, [], ◌∷◌, ◌++◌, length,
  get_elem?, ◌>>=◌, arith,
}
use pla_co_r.Text.Bytes.{Bytes, codes}
use pla_co_r.Text.Decimal.{to_string}

-- The arguments of `CreateRemoteSession`.
pub record Session : Type 0 where
  pub host : Bytes
  pub port : Bytes
  pub cmd : Bytes

abbrev pub session : Bytes → Bytes → Session
session host cmd = record { host = host; port = codes "22"; cmd = cmd }

-- Each argument behind a space.
unfoldable pub append_args : List Bytes → Bytes → Bytes
append_args [] cmd = cmd
append_args (a ∷ args) cmd = append_args args (cmd ++ codes " " ++ a)

unfoldable pub command : Bytes → Bytes → ℕ → ℕ → Bytes → List Bytes → Bytes
unfolding append_args to_string
command app_group context npods parent rsc_module args = append_args args (
    codes "corx"
    ++ codes " "
    ++ app_group
    ++ codes " "
    ++ context
    ++ codes " "
    ++ to_string npods
    ++ codes " "
    ++ to_string parent
    ++ codes " "
    ++ rsc_module)

module _ {A : Type 0} (create : A → Session) where
  -- The rounds of the loop from `i` on. `none` is a division by 0, where there is no host.
  unfoldable pub open_sessions : ℕ → ℕ → List A → Option (List Session)
  open_sessions zero i hosts = some []
  open_sessions (suc rounds) i hosts = get_elem? hosts (i % length hosts) >>= λ host.
      open_sessions rounds (suc i) hosts >>= λ sessions. some (create host ∷ sessions)

unfoldable pub spawn :
    Bytes → Bytes → ℕ → ℕ → Bytes → List Bytes → List Bytes → Option (List Session)
unfolding open_sessions command
spawn app_group context npods parent rsc_module args hosts =
    let cmd = command app_group context npods parent rsc_module args in
    open_sessions (λ host. session host cmd) npods 0 hosts

elem_at {ℓ} :
    {A : Type ℓ} (xs : List A) (k : ℕ) → k < length xs → (x : A) × (get_elem? xs k ≡ some x)
elem_at [] k h = absurd (omega (arith, h))
elem_at (x ∷ xs) zero h = (x, refl)
elem_at (x ∷ xs) (suc k) h = elem_at xs k (omega (arith, h))

module _ {A : Type 0} (create : A → Session) where
  -- The session of each round is on the next host, from the first again behind the last.
  abbrev pub Round : List Session → ℕ → List A → ℕ → Type 0
  Round sessions i hosts k =
      (host : A) × (get_elem? hosts ((i + k) % length hosts) ≡ some host)
      × (get_elem? sessions k ≡ some (create host))

  abbrev pub Opened : ℕ → ℕ → List A → Type 0
  Opened rounds i hosts =
      (sessions : List Session) × (open_sessions create rounds i hosts ≡ some sessions)
      × (length sessions ≡ rounds)
      × ((k : ℕ) → k < rounds → Round sessions i hosts k)

  pub open_sessions-Opened :
      (rounds i : ℕ) (hosts : List A) → 0 < length hosts → Opened rounds i hosts
  unfolding open_sessions
  open_sessions-Opened zero i hosts l = ([], refl, refl, λ k h. absurd (omega (arith, h)))
  open_sessions-Opened (suc rounds) i hosts l =
      let (host, e) = elem_at hosts (i % length hosts) (mod-lt i l) in
      let (sessions, f, n, rest) = open_sessions-Opened rounds (suc i) hosts l in
      (create host ∷ sessions, rw (e, f) refl, ap suc n, each host e sessions rest)
    where
      each :
          (host : A)
          → get_elem? hosts (i % length hosts) ≡ some host
          → (sessions : List Session) → ((k : ℕ) → k < rounds → Round sessions (suc i) hosts k)
          → (k : ℕ) → k < suc rounds
          → Round (create host ∷ sessions) i hosts k
      each host e sessions rest zero h =
          (host, ap (λ j. get_elem? hosts (j % length hosts)) {x = i + 0} (omega arith) ∙ e, refl)
      each host e sessions rest (suc k) h =
          let (x, g, y) = rest k (omega (arith, h)) in
          (x, ap (λ j. get_elem? hosts (j % length hosts)) {x = i + suc k} (omega arith) ∙ g, y)

  -- From the first round on.
  pub open_sessions-Round :
      (rounds : ℕ) (hosts : List A)
      → 0 < length hosts
      → (sessions : List Session) × (open_sessions create rounds 0 hosts ≡ some sessions)
        × (length sessions ≡ rounds)
        × ((k : ℕ)
            → k < rounds
            → (host : A) × (get_elem? hosts (k % length hosts) ≡ some host)
              × (get_elem? sessions k ≡ some (create host)))
  open_sessions-Round rounds hosts l =
      let (sessions, e, n, each) = open_sessions-Opened rounds 0 hosts l in
      (
        sessions,
        e,
        n,
        λ k h.
            let (host, g, y) = each k h in
            (host, ap (λ j. get_elem? hosts (j % length hosts)) {x = k} (omega arith) ∙ g, y),
      )

-- With a host, `Spawn` opens one session for each pod, all with the same command; the one of pod
-- `k` is on host `k` modulo the number of hosts.
pub spawn-Opened :
    (app_group context : Bytes) (npods parent : ℕ) (rsc_module : Bytes) (args hosts : List Bytes)
    → 0 < length hosts
    → (sessions : List Session) × (spawn app_group context npods parent rsc_module args hosts
        ≡ some sessions)
      × (length sessions ≡ npods)
      × ((k : ℕ)
          → k < npods
          → (host : Bytes) × (get_elem? hosts (k % length hosts) ≡ some host)
            × (get_elem? sessions k
                ≡ some (record {
                  host = host;
                  port = codes "22";
                  cmd = command app_group context npods parent rsc_module args;
                })))
unfolding spawn
spawn-Opened app_group context npods parent rsc_module args hosts l =
    open_sessions-Round
      (λ host. session host (command app_group context npods parent rsc_module args)) npods hosts l
