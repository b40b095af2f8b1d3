-- ===== src/Consistency/Token/Tests.antt =====
-- The token of one resource between two pods.
use pla_co_r.Base.{ℕ, ◌+◌, ◌≡◌, true, false, some, List, [], ◌∷◌, length, total}
use pla_co_r.Consistency.Object.{in_write, outside, notify_all, reqwq, for_token}
use pla_co_r.Consistency.Threads.{Pod, calls_method, wakes, acquires_write, requests, sets_resource}
use pla_co_r.Consistency.Token.Net.{Net, Action, happens, delivers, net_run, net_start}
use pla_co_r.Consistency.Token.Unique.{tokens, one_token}

-- Pod 1 wants to write: its request reaches both pods, and the owner's reply reaches pod 1.
abbrev handover : List (Action ℕ)
handover =
    happens 0 (sets_resource 5)
    ∷ happens 1 (sets_resource 0)
    ∷ happens 1 (calls_method 0 acquires_write)
    ∷ happens 1 (calls_method 1 (requests for_token "#C2#n"))
    ∷ happens 0 (calls_method 0 (requests for_token "#C2#n"))
    ∷ delivers 0
    ∷ happens 1 (wakes 0)
    ∷ []

abbrev two_pods : Net ℕ
two_pods = net_start 7 2 "#C1#n" ("#C2#n" ∷ [])

abbrev writer : Pod ℕ
writer = record {
  obj = record {
    idp = 7;
    ctrl = "#C2#n";
    rsc = some 5;
    local_ref_cntr = 0;
    global_ref_cntr = 1;
    owner = false;
    token = true;
    validity = true;
    total_req = 1;
    next_req = 1;
    reading = 0;
    writing = 1;
    wwriters = 0;
    wreplica = false;
    wtoken = false;
    wtoken_ack = false;
    wupdate = false;
  };
  threads = in_write ∷ outside ∷ [];
  calls = notify_all reqwq ∷ [];
}

one_token_example :
    total tokens (net_run handover two_pods).pods + length (net_run handover two_pods).replies ≡ 1
one_token_example = one_token 7 2 "#C1#n" ("#C2#n" ∷ []) handover
