-- ===== src/Consistency/Token/Net.antt =====
-- The objects of one resource in all pods, with the token replies under way: `SendTokenUpdateReply`
-- and `HandleTokenUpdateReply` of libcor/src/cor/services/controller.cpp between the methods of
-- libcor/src/cor/services/consistency_object.cpp. All other messages may arrive at any time.
use Prim.Native.String.{String}
use text.Mathlib.Text.{◌==◌ as str_eq}
use mathlib.Core.Option
use pla_co_r.Base.{
  ℕ, suc, true, false, Option, none, some, List, [], ◌∷◌, ◌++◌, get_elem?, set, without,
  if◌then◌else◌,
}
use pla_co_r.Consistency.Object.{Call, reply_token_update}
use pla_co_r.Consistency.Threads.{Pod, Event, gets_token, step}
use pla_co_r.Consistency.Exclusion.{fresh}

-- `replier` is the sender of the message, `to` its destination.
pub record TokenReply (R : Type 0) : Type 0 where
  pub replier : String
  pub to : String
  pub rsc : Option R

pub record Net (R : Type 0) : Type 0 where
  pub pods : List (Pod R)
  pub replies : List (TokenReply R)

-- An event in pod `i`, or the arrival of the token reply at a place of the list.
pub data Action (R : Type 0) : Type 0 where
  happens : ℕ → Event R → Action R
  delivers : ℕ → Action R

module _ {R : Type 0} where
  -- The token replies among the calls of a method.
  unfoldable pub replies_in : String → List (Call R) → List (TokenReply R)
  replies_in from [] = []
  replies_in from (reply_token_update idp rsc to ∷ calls) =
      record { replier = from; to = to; rsc = rsc } ∷ replies_in from calls
  replies_in from (other ∷ calls) = replies_in from calls

  -- A token arrives by `delivers` alone.
  unfoldable pub local_step : Event R → Pod R → Pod R
  local_step (gets_token rsc replier) p = p
  local_step e p = step e p

  unfoldable pub happen : Net R → ℕ → Event R → Option (Pod R) → Net R
  happen s i e none = s
  happen s i e (some p) =
      let p' = local_step e (record p { calls = [] }) in
      record { pods = set s.pods i p'; replies = s.replies ++ replies_in p.obj.ctrl p'.calls }

  -- The pod with this private group.
  unfoldable pub address : String → List (Pod R) → Option ℕ
  address to [] = none
  address to (p ∷ pods) = if str_eq p.obj.ctrl to then some 0 else Option.map suc (address to pods)

  -- A reply that carries no content, or that nobody receives, stays where it is.
  unfoldable pub arrive : Net R → ℕ → TokenReply R → Option R → Option ℕ → Net R
  arrive s k l (some rsc) (some j) = elim (get_elem? s.pods j) [
    | none ↦ s
    | some p ↦ record {
      pods = set s.pods j (step (gets_token rsc l.replier) (record p { calls = [] }));
      replies = without s.replies k;
    }
  ]
  arrive s k l _ _ = s

  unfoldable pub deliver : Net R → ℕ → Option (TokenReply R) → Net R
  deliver s k none = s
  deliver s k (some l) = arrive s k l l.rsc (address l.to s.pods)

  unfoldable pub net_step : Action R → Net R → Net R
  net_step (happens i e) s = happen s i e (get_elem? s.pods i)
  net_step (delivers k) s = deliver s k (get_elem? s.replies k)

  unfoldable pub net_run : List (Action R) → Net R → Net R
  net_run [] s = s
  net_run (a ∷ rest) s = net_run rest (net_step a s)

  -- The pods that refer to the resource, each with a number of threads.
  unfoldable pub guests : ℕ → ℕ → List String → List (Pod R)
  guests idp threads [] = []
  guests idp threads (name ∷ names) = fresh idp false name threads ∷ guests idp threads names

  -- The owner, which created the resource, and the others.
  unfoldable pub net_start : ℕ → ℕ → String → List String → Net R
  unfolding guests
  net_start idp threads owner names = record {
    pods = fresh idp true owner threads ∷ guests idp threads names;
    replies = [];
  }
