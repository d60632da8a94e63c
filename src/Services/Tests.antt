-- ===== src/Services/Tests.antt =====
-- The functions of src/system/system.c at concrete inputs, and the theorem there.
use grt.Base.{ℕ, ◌≡◌, refl, none, some, List, length, arith}
use grt.Base.Run.{ok, wild}
use grt.HandleMap.Count.{pos, negsuc}
use grt.Services.{service_socket, service_max, srv_table, lget, lset}
use grt.Services.Shared.{lget-lset}

unset : lget srv_table (pos service_socket) ≡ ok none
unfolding lget
unset = refl

-- An index that Lua may pass is outside the array.
behind : lset srv_table (pos service_max) (pos 9) ≡ wild
unfolding lset
behind = refl

before : lget srv_table (negsuc 0) ≡ wild
unfolding lget
before = refl

lget-lset_example :
    (u : List ℕ) × (lset srv_table (pos 1) (pos 9) ≡ ok u)
    × (length u ≡ 2)
    × (lget u (pos 1) ≡ ok (some 9))
lget-lset_example = lget-lset srv_table 1 1 (pos 9) refl (omega arith)
