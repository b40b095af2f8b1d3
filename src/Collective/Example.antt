-- ===== src/Collective/Example.antt =====
-- Two pods: the first counts its own message first, the second too; it refers to the resource.
use pla_co_r.Base.{ℕ, ◌≡◌, refl, true, false, none, some, [], ◌∷◌, ◌==◌, arith}
use pla_co_r.Text.Bytes.{Bytes}
use pla_co_r.Collective.Init.{init_create_collective}
use pla_co_r.Collective.First.{member}
use pla_co_r.Collective.Creation.{
  created, referenced, counting, asking, getting, returned, CollectivePod, World, put, quiet, enter,
  handle_init_create_collective, pass_init, ask, handle_create_collective_idp,
  get_create_collective_idp, calls, counts, passes, asks, hears, gets, Run, starts, then_steps,
}
use pla_co_r.Collective.Origin.{at_pods}
use pla_co_r.Collective.Agree.{FirstIs, agreed, GoesOn, goes_on}

abbrev tids : ℕ → Bytes
tids p = p ∷ []

abbrev d1 : CollectivePod
d1 = record {
  collective = some (member [] (0 ∷ []) 2 0 none);
  counted = [];
  cc_idp = none;
  phase = counting;
}

abbrev w1 : World
w1 = put quiet 0 d1 []

abbrev d2 : CollectivePod
d2 = record {
  collective = some (member [] (1 ∷ []) 2 0 none);
  counted = [];
  cc_idp = none;
  phase = counting;
}

abbrev w2 : World
w2 = put w1 1 d2 []

abbrev d3 : CollectivePod
d3 = record {
  collective = some (member [] (0 ∷ []) 2 1 (some true));
  counted = 0 ∷ [];
  cc_idp = none;
  phase = counting;
}

abbrev w3 : World
w3 = put w2 0 d3 []

abbrev d4 : CollectivePod
d4 = record {
  collective = some (member [] (0 ∷ []) 2 2 (some true));
  counted = 0 ∷ 1 ∷ [];
  cc_idp = none;
  phase = counting;
}

abbrev w4 : World
w4 = put w3 0 d4 []

abbrev d5 : CollectivePod
d5 = record {
  collective = some (member [] (0 ∷ []) 2 2 (some true));
  counted = 0 ∷ 1 ∷ [];
  cc_idp = none;
  phase = asking;
}

abbrev w5 : World
w5 = put w4 0 d5 []

abbrev d6 : CollectivePod
d6 = record {
  collective = some (member [] (0 ∷ []) 2 2 (some true));
  counted = 0 ∷ 1 ∷ [];
  cc_idp = none;
  phase = returned (created 9);
}

abbrev w6 : World
w6 = put w5 0 d6 (9 ∷ [])

abbrev d7 : CollectivePod
d7 = record {
  collective = some (member [] (1 ∷ []) 2 1 none);
  counted = 0 ∷ [];
  cc_idp = none;
  phase = counting;
}

abbrev w7 : World
w7 = put w6 1 d7 []

abbrev d8 : CollectivePod
d8 = record {
  collective = some (member [] (1 ∷ []) 2 2 (some false));
  counted = 0 ∷ 1 ∷ [];
  cc_idp = none;
  phase = counting;
}

abbrev w8 : World
w8 = put w7 1 d8 []

abbrev d9 : CollectivePod
d9 = record {
  collective = some (member [] (1 ∷ []) 2 2 (some false));
  counted = 0 ∷ 1 ∷ [];
  cc_idp = none;
  phase = asking;
}

abbrev w9 : World
w9 = put w8 1 d9 []

abbrev d10 : CollectivePod
d10 = record {
  collective = some (member [] (1 ∷ []) 2 2 (some false));
  counted = 0 ∷ 1 ∷ [];
  cc_idp = none;
  phase = getting;
}

abbrev w10 : World
w10 = put w9 1 d10 []

abbrev d11 : CollectivePod
d11 = record {
  collective = some (member [] (1 ∷ []) 2 2 (some false));
  counted = 0 ∷ 1 ∷ [];
  cc_idp = some 9;
  phase = getting;
}

abbrev w11 : World
w11 = put w10 1 d11 []

abbrev d12 : CollectivePod
d12 = record {
  collective = some (member [] (1 ∷ []) 2 2 (some false));
  counted = 0 ∷ 1 ∷ [];
  cc_idp = some 9;
  phase = returned (referenced 9);
}

abbrev w12 : World
w12 = put w11 1 d12 []

r1 : Run tids 2 1 w1
unfolding put quiet enter init_create_collective handle_init_create_collective pass_init ask
    handle_create_collective_idp get_create_collective_idp
r1 = then_steps starts (calls 0 refl)

r2 : Run tids 2 2 w2
unfolding put quiet enter init_create_collective handle_init_create_collective pass_init ask
    handle_create_collective_idp get_create_collective_idp
r2 = then_steps r1 (calls 1 refl)

r3 : Run tids 2 3 w3
unfolding put quiet enter init_create_collective handle_init_create_collective pass_init ask
    handle_create_collective_idp get_create_collective_idp
r3 = then_steps r2 (counts 0 0 false d3 (λ h. cc) refl refl)

r4 : Run tids 2 4 w4
unfolding put quiet enter init_create_collective handle_init_create_collective pass_init ask
    handle_create_collective_idp get_create_collective_idp
r4 = then_steps r3 (counts 0 1 false d4 (λ h. cc) refl refl)

r5 : Run tids 2 5 w5
unfolding put quiet enter init_create_collective handle_init_create_collective pass_init ask
    handle_create_collective_idp get_create_collective_idp
r5 = then_steps r4 (passes 0 d5 refl)

r6 : Run tids 2 6 w6
unfolding put quiet enter init_create_collective handle_init_create_collective pass_init ask
    handle_create_collective_idp get_create_collective_idp
r6 = then_steps r5 (asks 0 9 (d6, 9 ∷ []) refl)

r7 : Run tids 2 7 w7
unfolding put quiet enter init_create_collective handle_init_create_collective pass_init ask
    handle_create_collective_idp get_create_collective_idp
r7 = then_steps r6 (counts 1 0 false d7 (λ h. cc) refl refl)

r8 : Run tids 2 8 w8
unfolding put quiet enter init_create_collective handle_init_create_collective pass_init ask
    handle_create_collective_idp get_create_collective_idp
r8 = then_steps r7 (counts 1 1 false d8 (λ h. cc) refl refl)

r9 : Run tids 2 9 w9
unfolding put quiet enter init_create_collective handle_init_create_collective pass_init ask
    handle_create_collective_idp get_create_collective_idp
r9 = then_steps r8 (passes 1 d9 refl)

r10 : Run tids 2 10 w10
unfolding put quiet enter init_create_collective handle_init_create_collective pass_init ask
    handle_create_collective_idp get_create_collective_idp
r10 = then_steps r9 (asks 1 8 (d10, []) refl)

r11 : Run tids 2 11 w11
unfolding put quiet enter init_create_collective handle_init_create_collective pass_init ask
    handle_create_collective_idp get_create_collective_idp
r11 = then_steps r10 (hears 1 0 9 refl)

r12 : Run tids 2 12 w12
unfolding put quiet enter init_create_collective handle_init_create_collective pass_init ask
    handle_create_collective_idp get_create_collective_idp
r12 = then_steps r11 (gets 1 false false d12 refl)

f1 : (q : ℕ) → FirstIs 0 (w1.pods q).counted
unfolding quiet
f1 = at_pods quiet 0 d1 [] (λ q c. FirstIs 0 c.counted) (λ q. tt) tt

f2 : (q : ℕ) → FirstIs 0 (w2.pods q).counted
f2 = at_pods w1 1 d2 [] (λ q c. FirstIs 0 c.counted) f1 tt

f3 : (q : ℕ) → FirstIs 0 (w3.pods q).counted
f3 = at_pods w2 0 d3 [] (λ q c. FirstIs 0 c.counted) f2 refl

f4 : (q : ℕ) → FirstIs 0 (w4.pods q).counted
f4 = at_pods w3 0 d4 [] (λ q c. FirstIs 0 c.counted) f3 refl

f5 : (q : ℕ) → FirstIs 0 (w5.pods q).counted
f5 = at_pods w4 0 d5 [] (λ q c. FirstIs 0 c.counted) f4 refl

f6 : (q : ℕ) → FirstIs 0 (w6.pods q).counted
f6 = at_pods w5 0 d6 (9 ∷ []) (λ q c. FirstIs 0 c.counted) f5 refl

f7 : (q : ℕ) → FirstIs 0 (w7.pods q).counted
f7 = at_pods w6 1 d7 [] (λ q c. FirstIs 0 c.counted) f6 refl

f8 : (q : ℕ) → FirstIs 0 (w8.pods q).counted
f8 = at_pods w7 1 d8 [] (λ q c. FirstIs 0 c.counted) f7 refl

f9 : (q : ℕ) → FirstIs 0 (w9.pods q).counted
f9 = at_pods w8 1 d9 [] (λ q c. FirstIs 0 c.counted) f8 refl

f10 : (q : ℕ) → FirstIs 0 (w10.pods q).counted
f10 = at_pods w9 1 d10 [] (λ q c. FirstIs 0 c.counted) f9 refl

f11 : (q : ℕ) → FirstIs 0 (w11.pods q).counted
f11 = at_pods w10 1 d11 [] (λ q c. FirstIs 0 c.counted) f10 refl

f12 : (q : ℕ) → FirstIs 0 (w12.pods q).counted
f12 = at_pods w11 1 d12 [] (λ q c. FirstIs 0 c.counted) f11 refl

agreed_example : ((w12.pods 0).phase ≡ returned (created 9)) × (false ≡ (1 == 0))
unfolding put
agreed_example = agreed tids 2 12 w12 0 1 (referenced 9) r12 (omega arith) f12 refl

goes_on_example : GoesOn (tids 1) 1 8 false (w8.pods 1) (w8.pods 1).phase
unfolding put
goes_on_example = goes_on tids 2 8 w8 1 8 false r8 (omega arith) refl refl
