-- ===== src/Sim/Vm.antt =====
-- The operations of the Lua stack that src/profilua.c uses. Reading or removing a value that is not
-- there is undefined.
use profi_lua.Base.{ℕ, Bool, true, false, Option, none, some, List, [], ◌∷◌, Cmd, ok, raised, fault}
use profi_lua.Lua.{Lua, Value, Number, as_number}
use profi_lua.Lua.Stack.{Pushed, value, new_table}
use profi_lua.Sim.State.{Name, Script, Vm}

abbrev pub is_nil : Pushed → Bool
is_nil (value Value.nil) = true
is_nil _ = false

abbrev pub is_function : Pushed → Bool
is_function (value (Value.function f)) = true
is_function _ = false

abbrev pub is_table : Pushed → Bool
is_table (value (Value.table t)) = true
is_table (new_table _) = true
is_table _ = false

module _ (lua : Lua) where
  -- `lua_isnumber` and `lua_tonumber`
  abbrev pub number_of : Pushed → Option Number
  number_of (value v) = as_number lua v
  number_of (new_table _) = none

  -- `lua_isstring` and `lua_tostring`
  abbrev pub string_of : Pushed → Option (List ℕ)
  string_of (value (Value.string s)) = some s
  string_of (value (Value.number n)) = some (lua.number_to_str n)
  string_of _ = none

module _ {W : Type 0} where
  abbrev pub push : Pushed → Cmd (Vm W) (Unit {0})
  push v vm = ok tt (record vm { stack = v ∷ vm.stack })

  abbrev pub top_of : List Pushed → Cmd (Vm W) Pushed
  top_of [] vm = fault
  top_of (v ∷ vs) vm = ok v vm

  -- The value at the index -1.
  abbrev pub top : Cmd (Vm W) Pushed
  top vm = top_of vm.stack vm

  abbrev pub popped : List Pushed → Cmd (Vm W) (Unit {0})
  popped [] vm = fault
  popped (v ∷ vs) vm = ok tt (record vm { stack = vs })

  -- `lua_pop(L, 1)`
  abbrev pub pop : Cmd (Vm W) (Unit {0})
  pop vm = popped vm.stack vm

  module _ (script : Script W) where
    -- lua_pushstring(L, name); lua_gettable(L, LUA_GLOBALSINDEX);
    abbrev pub push_global : Name → Cmd (Vm W) (Unit {0})
    push_global name vm = push (value (script.global name vm.world)) vm

    -- A string has a metatable, and gives nil; other values raise an error.
    abbrev pub entry_of : List Pushed → ℕ → Cmd (Vm W) (Unit {0})
    entry_of [] i vm = fault
    entry_of (value (Value.table t) ∷ vs) i vm = push (value (script.entry t i vm.world)) vm
    entry_of (value (Value.string s) ∷ vs) i vm = push (value Value.nil) vm
    entry_of (_ ∷ vs) i vm = raised vm

    -- lua_pushnumber(L, i); lua_gettable(L, -2);
    abbrev pub push_entry : ℕ → Cmd (Vm W) (Unit {0})
    push_entry i vm = entry_of vm.stack i vm

    abbrev pub returned : List Pushed → Option (Value × W) → Cmd (Vm W) (Unit {0})
    returned vs none vm = raised vm
    returned vs (some (v, w)) vm = ok tt (record { stack = value v ∷ vs; world = w })

    abbrev pub called : List Pushed → Cmd (Vm W) (Unit {0})
    called (arg ∷ value (Value.function f) ∷ vs) vm = returned vs (script.call f arg vm.world) vm
    called (arg ∷ f ∷ vs) vm = raised vm
    called _ vm = fault

    -- `lua_call(L, 1, 1)`: the argument is on top, and the function below it.
    abbrev pub call_one : Cmd (Vm W) (Unit {0})
    call_one vm = called vm.stack vm
