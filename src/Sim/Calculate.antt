-- ===== src/Sim/Calculate.antt =====
-- The entry points that the simulator calls: CCalculateEx, CSimStart and CSimStop.
use profi_lua.Base.{
  ℕ, zero, suc, ◌-◌, ◌+◌, ◌%◌, Bool, true, false, not, ◌&&◌, List, [], ◌∷◌, ◌==◌, if◌then◌else◌,
  Cmd, ok, pure, get, modify, ◌>>=◌, ◌>>◌, pos,
}
use profi_lua.Lua.{Lua, Value, Number, integer, int, above_halves}
use profi_lua.Sim.State.{Name, Script, Sim, ConsoleCall, on_vm}
use profi_lua.Sim.Vm.{is_function, is_table, top, pop, push_global, call_one}
use profi_lua.Sim.Script.{
  open_lua_script, close_lua_script, get_input_name, get_output_name, change,
}
use profi_lua.Sim.Outputs.{push_inputs, read_outputs, read_numbers, read_user}

-- 5.0 and 0
abbrev pub pl_error : Number
pl_error = integer (pos 5)

abbrev pub pl_ok : Number
pl_ok = integer (pos 0)

-- PInput[0] > 2.5
abbrev pub wants_console : (ℕ → Number) → Bool
wants_console input = above_halves 5 (input 0)

-- The values of a `double` array from the index `i` on.
abbrev pub values_from : (ℕ → Number) → (count i : ℕ) → List Number
values_from a zero i = []
values_from a (suc count) i = a i ∷ values_from a count (suc i)

module _ {W : Type 0} where
  abbrev pub window : ConsoleCall → Cmd (Sim W) (Unit {0})
  window c = modify λ s. record s { windows = c ∷ s.windows }

  abbrev pub set_error : Bool → Cmd (Sim W) (Unit {0})
  set_error b = modify λ s. record s { error = b }

  abbrev pub set_output : ℕ → Number → Cmd (Sim W) (Unit {0})
  set_output i n = modify λ s. record s { output = change s.output i n }

  -- for(i=0;i<count;i++) name(i, dummy), with a buffer of 100 bytes
  unfoldable pub each_name : (ℕ → Cmd (Sim W) (List ℕ)) → (count i : ℕ) → Cmd (Sim W) (Unit {0})
  each_name name zero i = pure tt
  each_name name (suc count) i = do name i; each_name name count (suc i)

  -- The part of CCalculateEx that shows the console.
  unfoldable pub show_console : (input : ℕ → Number) → Cmd (Sim W) (Unit {0})
  show_console input = do
    s ← get
    if wants_console input && not s.console
        then (do
          window ConsoleCall.turned_on
          modify λ s. record s { console = true; console_top = 0 }
          window ConsoleCall.topped)
        else pure tt
    t ← get
    if t.console && (t.console_top == 0)
        then (do
          window ConsoleCall.topped
          modify λ s. record s { console_top = (s.console_top + 1) % 256 })
        else pure tt

  module _ (lua : Lua) (script : Script W) where
    -- What follows the call of gSimStart.
    unfoldable pub start_results : Cmd (Sim W) (Unit {0})
    unfolding read_numbers
    start_results = do
      v ← on_vm top
      if is_table v
          then (do s ← get; read_numbers lua script (s.num_outputs - 1) 1; on_vm pop)
          else set_error true
      set_output 0 pl_ok
      set_error false

    -- The part of CSimStartFlaw that follows the console: names, and the script's start.
    unfoldable pub start_script : (input : ℕ → Number) → Cmd (Sim W) (Unit {0})
    unfolding start_results each_name
    start_script input = do
      modify λ s. record s { in_marker = λ _. false; out_marker = λ _. false }
      s ← get
      each_name (λ i. get_input_name lua script i 100) s.num_inputs 0
      s ← get
      each_name (λ i. get_output_name lua script i 100) s.num_outputs 0
      is_open ← open_lua_script lua script
      if is_open
          then (do
            s ← get
            on_vm (λ vm.
                ok tt (record vm { world = script.set_user (values_from s.user 101 0) vm.world }))
            on_vm (push_global script Name.sim_start)
            f ← on_vm top
            if is_function f
                then (do
                  push_inputs (λ i. int (pos 0)) input
                  on_vm (call_one script)
                  start_results)
                else pure tt)
          else pure tt

    unfoldable pub c_sim_start_flaw : (input : ℕ → Number) → Cmd (Sim W) (Unit {0})
    unfolding start_script
    c_sim_start_flaw input = do
      set_error true
      set_output 0 pl_error
      if wants_console input
          then (do
            window ConsoleCall.turned_on
            window ConsoleCall.topped
            modify λ s. record s { console = true; console_top = 0 })
          else pure tt
      start_script input

    -- What follows the call of gCalculate.
    unfoldable pub calculate_results : Cmd (Sim W) (Unit {0})
    unfolding read_outputs
    calculate_results = do
      v ← on_vm top
      if is_table v
          then (do s ← get; read_outputs lua script (s.num_outputs - 1) 1; on_vm pop)
          else set_error true

    -- What follows the console: the script's step.
    unfoldable pub step : (input : ℕ → Number) → Cmd (Sim W) (Unit {0})
    unfolding calculate_results push_inputs
    step input = do
      s ← get
      if s.error then set_output 0 pl_error else do
        on_vm (push_global script Name.calculate)
        f ← on_vm top
        if is_function f
            then (do
              push_inputs (λ i. Value.string (s.strings i)) input
              on_vm (call_one script)
              calculate_results)
            else set_error true

    unfoldable pub c_calculate_ex : (input : ℕ → Number) → Cmd (Sim W) (Unit {0})
    unfolding c_sim_start_flaw show_console step
    c_calculate_ex input = do
      s ← get
      if s.override
          then (c_sim_start_flaw input >> modify λ s. record s { override = false })
          else pure tt
      show_console input
      step input

    unfoldable pub c_sim_start : Cmd (Sim W) (Unit {0})
    c_sim_start = modify λ s. record s { override = true }

    -- The part of CSimStop that runs without an error: gSimStop, and gPUser read back.
    unfoldable pub stop_script : (input : ℕ → Number) → Cmd (Sim W) (Unit {0})
    unfolding read_user push_inputs
    stop_script input = do
      on_vm (push_global script Name.sim_stop)
      f ← on_vm top
      if is_function f
          then (do push_inputs (λ i. int (pos 0)) input; on_vm (call_one script); on_vm pop)
          else set_error true
      on_vm (push_global script Name.user_table)
      v ← on_vm top
      if is_table v then read_user lua script 100 0 >> on_vm pop else pure tt

    unfoldable pub c_sim_stop : (input : ℕ → Number) → Cmd (Sim W) (Unit {0})
    unfolding stop_script
    c_sim_stop input = do
      s ← get
      if s.error then pure tt else stop_script input
      close_lua_script lua script
      t ← get
      if t.console
          then (do
            window ConsoleCall.turned_off
            modify λ s. record s { console = false; console_top = 0 })
          else pure tt
