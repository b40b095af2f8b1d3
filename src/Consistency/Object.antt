-- ===== src/Consistency/Object.antt =====
-- libcor/include/cor/services/consistency_object.hpp and
-- libcor/src/cor/services/consistency_object.cpp. A method that waits is cut at its waits: each
-- piece runs under `_mtx`, and ends where its thread stands next, `Pc`. `R` is the content of a
-- resource, so a replica and a reply are values of `R`.
use Prim.Native.String.{String}
use pla_co_r.Base.{
  ℕ, ◌+◌, ◌-◌, ◌%◌, ◌^◌, Bool, true, false, not, ◌&&◌, ◌||◌, Option, none, some, List, [], ◌∷◌,
  ◌++◌, ltb, ◌==◌, if◌then◌else◌,
}

abbrev pub u16 : ℕ → ℕ
u16 n = n % 2 ^ 16

abbrev pub u64 : ℕ → ℕ
u64 n = n % 2 ^ 64

-- The fields of the class but the mutex, the condition variables and `_update_func`.
pub record ConsistencyObject (R : Type 0) : Type 0 where
  pub idp : ℕ
  pub ctrl : String
  pub rsc : Option R
  pub local_ref_cntr : ℕ
  pub global_ref_cntr : ℕ
  pub owner : Bool
  pub token : Bool
  pub validity : Bool
  pub total_req : ℕ
  pub next_req : ℕ
  pub reading : ℕ
  pub writing : ℕ
  pub wwriters : ℕ
  pub wreplica : Bool
  pub wtoken : Bool
  pub wtoken_ack : Bool
  pub wupdate : Bool

-- The condition variables.
pub data Queue : Type 0 where
  wfree wwq rwq reqwq : Queue

-- What a method does besides its fields: notifications, and calls of the resource manager.
pub data Call (R : Type 0) : Type 0 where
  notify_one notify_all : Queue → Call R
  request_update request_token_update request_invalidate : (idp : ℕ) → Call R
  send_replica reply_update reply_token_update : (idp : ℕ) → Option R → (to : String) → Call R
  send_token_ack : (idp : ℕ) → (to : String) → Call R
  leave_resource_group deallocate_resource request_release_replica : (idp : ℕ) → Call R

-- The requests of other controllers, and of this one, that are served in turn: `CheckReplica`,
-- `CheckUpdate` and `CheckTokenUpdate`.
pub data Request : Type 0 where
  for_replica : (size : ℕ) → Request
  for_update for_token : Request

-- Where a thread stands: outside, at a wait, or between an acquire and its release.
pub data Pc : Type 0 where
  outside : Pc
  read_wait : Pc  -- the loop of `AcquireRead`
  update_wait : Pc  -- its wait for an update, after `++_reading`
  in_read : Pc
  write_wait : Pc  -- the loop of `AcquireWrite`
  token_wait : Pc  -- its wait for the token
  in_write : Pc
  request_wait : Request → (requester : String) → (req_no : ℕ) → Pc

pub record Turn (R : Type 0) : Type 0 where
  pub obj : ConsistencyObject R
  pub calls : List (Call R)
  pub pc : Pc

module _ {R : Type 0} where
  unfoldable pub consistency_object : ℕ → Bool → String → ConsistencyObject R
  consistency_object idp is_owner ctrl = record {
    idp = idp;
    ctrl = ctrl;
    rsc = none;
    local_ref_cntr = 0;
    global_ref_cntr = 1;
    owner = is_owner;
    token = if is_owner then true else false;
    validity = if is_owner then true else false;
    total_req = 0;
    next_req = 0;
    reading = 0;
    writing = 0;
    wwriters = 0;
    wreplica = false;
    wtoken = false;
    wtoken_ack = false;
    wupdate = false;
  }

  -- `_update_func`: the content is replaced in place. On a null pointer, where the program's
  -- behaviour is undefined, there is nothing to write into.
  unfoldable pub update_func : Option R → R → Option R
  update_func none new = none
  update_func (some old) new = some new

  -- `AcquireRead` after its loop.
  unfoldable pub begin_read : ConsistencyObject R → Turn R
  begin_read o =
      if o.validity
      then record { obj = o; calls = notify_all reqwq ∷ []; pc = in_read }
      else record { obj = o; calls = request_update o.idp ∷ []; pc = update_wait }

  -- `AcquireRead` from its start, or from a wake-up in its loop.
  unfoldable pub acquire_read : ConsistencyObject R → Turn R
  unfolding begin_read
  acquire_read o =
      if ltb 0 o.writing || ltb 0 o.wwriters || (not o.validity && o.reading == 1)
      then record { obj = o; calls = []; pc = read_wait }
      else begin_read (record o { reading = o.reading + 1 })

  -- A wake-up in the wait for an update.
  unfoldable pub read_updated : ConsistencyObject R → Turn R
  read_updated o =
      if o.validity
      then record {
        obj = record o { wupdate = false };
        calls = notify_all rwq ∷ notify_all reqwq ∷ [];
        pc = in_read;
      }
      else record { obj = o; calls = []; pc = update_wait }

  unfoldable pub release_read : ConsistencyObject R → Turn R
  release_read o =
      let left = o.reading - 1 in
      record {
        obj = record o { reading = left };
        calls =
            (if left == 0 && ltb 0 o.wwriters then notify_one wwq ∷ [] else [])
            ++ notify_all reqwq ∷ [];
        pc = outside;
      }

  -- The end of `AcquireWrite`.
  unfoldable pub start_writing : ConsistencyObject R → Turn R
  start_writing o = record {
    obj = record o { wwriters = o.wwriters - 1; writing = o.writing + 1 };
    calls = notify_all reqwq ∷ [];
    pc = in_write;
  }

  -- The loop of `AcquireWrite` and what follows it.
  unfoldable pub write_turn : ConsistencyObject R → Turn R
  unfolding start_writing
  write_turn o =
      if ltb 0 o.reading || ltb 0 o.writing
      then record { obj = o; calls = []; pc = write_wait }
      else if o.token
      then start_writing o
      else record { obj = o; calls = request_token_update o.idp ∷ []; pc = token_wait }

  unfoldable pub acquire_write : ConsistencyObject R → Turn R
  unfolding write_turn
  acquire_write o = write_turn (record o { wwriters = o.wwriters + 1 })

  -- A wake-up in the wait for the token.
  unfoldable pub token_turn : ConsistencyObject R → Turn R
  unfolding start_writing
  token_turn o =
      if o.token && o.validity
      then start_writing (record o { wtoken = false })
      else record { obj = o; calls = []; pc = token_wait }

  unfoldable pub release_write : ConsistencyObject R → Turn R
  release_write o = record {
    obj = record o { writing = o.writing - 1 };
    calls =
        request_invalidate o.idp
        ∷ (if ltb 0 o.wwriters then notify_one wwq else notify_all rwq)
        ∷ notify_all reqwq
        ∷ [];
    pc = outside;
  }
