-- ===== src/Sim/Failures.antt =====
-- Orders of calls, and answers of a script, that src/profilua.c does not handle.
use profi_lua.Base.{
  ℕ, suc, ◌≡◌, ◌<◌, true, false, none, some, List, [], ◌∷◌, ltb, ◌==◌, length, arith, fault, ◌>>◌,
  Bool-cases, inl, inr, pos,
}
use profi_lua.Lua.{Lua, Value, Number, int}
use profi_lua.Lua.Stack.{value}
use profi_lua.Sim.State.{Name, Script, Vm, Sim}
use profi_lua.Sim.Vm.{number_of, string_of}
use profi_lua.Sim.Script.{
  get_input_name, script_name, open_lua_script, close_lua_script, c_string, is_marked, error_name,
}
use profi_lua.Sim.Outputs.{read_outputs}
use profi_lua.Sim.Calculate.{step, c_sim_start, c_sim_stop, stop_script}

module _ {W : Type 0} (lua : Lua) (script : Script W) where
  -- If an output with no string marker gets what is no number, and is not the last one, then the
  -- loop of `CCalculateEx` removes the table of results with it, and the next round reads from an
  -- empty stack. The table stands alone on the stack, as it does when running the script's file
  -- left nothing there.
  pub read_outputs-underflow :
      (s : Sim W) (count i t : ℕ) (w : W)
      → s.lua ≡ some (record { stack = value (Value.table t) ∷ []; world = w })
      → i < 100
      → s.out_marker i ≡ false
      → number_of lua (value (script.entry t i w)) ≡ none
      → read_outputs lua script (suc (suc count)) i s ≡ fault
  unfolding read_outputs
  read_outputs-underflow s count i t w is_open few no_mark no_number =
      let lt : ltb i 100 ≡ true = ground arith in rw (is_open, lt, no_mark, no_number)

  -- A simulation that is stopped before its first step, with no error set and no script open, uses
  -- the Lua state NULL.
  pub c_sim_start-c_sim_stop :
      (input : ℕ → Number) (s : Sim W)
      → s.error ≡ false
      → s.lua ≡ none
      → (c_sim_start lua script >> c_sim_stop lua script input) s ≡ fault
  unfolding c_sim_start c_sim_stop stop_script
  c_sim_start-c_sim_stop input s no_error no_lua = rw (no_error, no_lua)

  -- When the simulator asks for the name of an input while the simulation runs, the script is
  -- closed afterwards, and the next step uses the Lua state NULL. The script names the input by a
  -- string that fits into the buffer, and no error is set. (A buffer without room for "!ERROR!"
  -- overflows before that.)
  pub get_input_name-step :
      (input : ℕ → Number) (s : Sim W) (vm : Vm W) (channel room f : ℕ) (v : Value) (w : W)
      (str : List ℕ)
      → s.error ≡ false
      → s.lua ≡ some vm
      → (channel == 0) ≡ false
      → channel < 100
      → script.global Name.input_name (script.run_file s.file_num vm.world).1 ≡ Value.function f
      → script.call f (value (int (pos channel))) (script.run_file s.file_num vm.world).1
        ≡ some (v, w)
      → string_of lua (value v) ≡ some str
      → length (c_string str) < room
      → (get_input_name lua script channel room >> step lua script input) s ≡ fault
  unfolding get_input_name script_name open_lua_script close_lua_script step
  get_input_name-step input s vm channel room f v w str no_error is_open named few is_function
        answer text fits =
      let lt : ltb channel 100 ≡ true = ground arith in
      let short : ltb (length (c_string str)) room ≡ true = ground arith in
      elim (Bool-cases (ltb (length error_name) room)) [
        | inl roomy ↦
            rw (roomy, named, is_open, is_function, answer, text, short)
              (elim (Bool-cases (is_marked (c_string str))) [
                | inl m ↦ rw (m, lt, no_error)
                | inr m ↦ rw (m, no_error)
              ])
        | inr narrow ↦ rw narrow
      ]
