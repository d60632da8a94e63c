-- ===== src/Services.antt =====
-- src/system/system.c: the array by which the Lua states share the channels of the services. It has
-- static storage, so it begins as zeros; the index is not checked.
pub mod Shared
mod Tests
use grt.Base.{
  ℕ, zero, suc, ◌-◌, ◌%◌, ◌^◌, Option, none, some, List, [], ◌∷◌, ◌==◌, if◌then◌else◌, replicate,
}
use grt.Base.Run.{Run, ok, wild, ◌>>=◌, load, store}
use grt.HandleMap.Count.{ℤ, pos, negsuc}

abbrev pub service_socket : ℕ
service_socket = 1

abbrev pub service_max : ℕ
service_max = 2

abbrev pub srv_table : List ℕ
srv_table = replicate service_max 0

-- A lua_Integer as an unsigned int.
abbrev pub to_channelid : ℤ → ℕ
to_channelid (pos n) = n % 2 ^ 32
to_channelid (negsuc n) = 2 ^ 32 - 1 - n % 2 ^ 32

-- `none` is nil.
unfoldable pub lget : List ℕ → ℤ → Run (Option ℕ)
lget table (pos srv_id) = load table srv_id >>= λ c. if c == 0 then ok none else ok (some c)
lget table (negsuc n) = wild

unfoldable pub lset : List ℕ → ℤ → ℤ → Run (List ℕ)
lset table (pos srv_id) ch_id = store table srv_id (to_channelid ch_id)
lset table (negsuc n) ch_id = wild
