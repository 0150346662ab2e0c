-- ===== src/Sim/Pins.antt =====
-- The counts of pins that the simulator asks for before it starts.
use profi_lua.Base.{ℕ, ◌+◌, ◌%◌, ◌≡◌, none, some, ok, u8_of}
use profi_lua.Lua.{Lua, Value, Number, truncate}
use profi_lua.Sim.State.{Name, Script, Sim}
use profi_lua.Sim.Script.{open_lua_script, close_lua_script, c_num_inputs_ex, c_num_outputs_ex}

module _ {W : Type 0} (lua : Lua) (script : Script W) (user : ℕ → Number) (s : Sim W) (w₀ : W)
    (x y : Number) where
  abbrev pub file : ℕ
  file = u8_of (truncate (user 100))

  -- The world after the script with the number `PUser[100]` has run in a new Lua state.
  abbrev pub ran : W
  ran = (script.run_file file w₀).1

  -- `CNumInputsEx` and `CNumOutputsEx`, called with no script open, run the script whose number
  -- stands in `PUser[100]` in a new Lua state, return one pin more than the number that it gives
  -- (modulo 256), remember that count, and leave no script open. The script gives a number for
  -- both, and there is memory for a Lua state.
  pub c_num_ex-counts :
      s.lua ≡ none
      → script.open_lua s.idle ≡ some w₀
      → script.global Name.num_inputs ran ≡ Value.number x
      → script.global Name.num_outputs ran ≡ Value.number y
      → (c_num_inputs_ex lua script user s
          ≡ ok ((u8_of (truncate x) + 1) % 256) (record s {
            file_num = file;
            num_inputs = (u8_of (truncate x) + 1) % 256;
            idle = script.close_lua ran;
          }))
        × (c_num_outputs_ex lua script user s
            ≡ ok ((u8_of (truncate y) + 1) % 256) (record s {
              file_num = file;
              num_outputs = (u8_of (truncate y) + 1) % 256;
              idle = script.close_lua ran;
            }))
  unfolding c_num_inputs_ex c_num_outputs_ex open_lua_script close_lua_script
  c_num_ex-counts no_lua memory ins outs = (rw (no_lua, memory, ins), rw (no_lua, memory, outs))
