-- ===== src/Lua/Stack.antt =====
-- The arguments of a C function that a script calls, and what it hands back.
use profi_lua.Base.{
  ℕ, ◌-◌, Option, none, some, List, [], ◌∷◌, ℤ, pos, Cmd, pure, raise, ◌>>=◌, get_elem?,
}
use profi_lua.Lua.{Value, Lua, as_number, Number}

-- A value on the stack, or a table made for the reply: its keys and values, in the order in which
-- they were set.
pub data Pushed : Type 0 where
  value : Value → Pushed
  new_table : List (Value × Value) → Pushed

-- What a C function pushes, and the number that it returns to Lua.
pub record Reply : Type 0 where
  pub pushed : List Pushed
  pub count : ℤ

abbrev pub one : Value → Reply
one v = record { pushed = value v ∷ []; count = pos 1 }

abbrev pub arg_number : Lua → Option Value → Option Number
arg_number lua none = none
arg_number lua (some v) = as_number lua v

abbrev pub checked : {S : Type 0} → Option Number → Cmd S Number
checked none = raise
checked (some n) = pure n

module _ {S : Type 0} (lua : Lua) where
  -- `luaL_checknumber` and `luaL_checkinteger` raise an error at what is no number.
  abbrev pub check_number : ℕ → List Value → Cmd S Number
  check_number i args = checked (arg_number lua (get_elem? args (i - 1)))

  abbrev pub check_integer : ℕ → List Value → Cmd S ℤ
  check_integer i args = do n ← check_number i args; pure (lua.number_to_integer n)
