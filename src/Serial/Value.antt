-- ===== src/Serial/Value.antt =====
-- The Lua values that src/ltask/serialize.c meets, as the Lua API shows them.
use grt.Base.{ℕ, suc, Bool, List}
use grt.Serial.Bytes.{Byte}

-- `integer` holds the 64-bit pattern of a lua_Integer, `real` the bytes of a lua_Number that is no
-- integer, `userdata` those of a light userdata. `other` is a function, a thread or a full userdata.
-- A table has the values at 1 .. lua_rawlen and its other entries in the order of lua_next.
mutual
  pub data LuaValue : Type 0 where
    nil : LuaValue
    boolean : Bool → LuaValue
    integer : ℕ → LuaValue
    real : ℕ → LuaValue
    userdata : ℕ → LuaValue
    str : List Byte → LuaValue
    table : Values → Pairs → LuaValue
    other : LuaValue

  pub data Values : Type 0 where
    no_values : Values
    value : LuaValue → Values → Values

  pub data Pairs : Type 0 where
    no_pairs : Pairs
    pair : LuaValue → LuaValue → Pairs → Pairs

-- lua_rawlen
abbrev pub rawlen : Values → ℕ
rawlen no_values = 0
rawlen (value v vs) = suc (rawlen vs)
