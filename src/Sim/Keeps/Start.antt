-- ===== src/Sim/Keeps/Start.antt =====
-- The start of a simulation, after its first lines, and the console.
use profi_lua.Base.{
  ℕ, zero, suc, ◌-◌, refl, true, false, Option, none, some, List, ltb, length, Cmd, Bool-cases, inl,
  inr, pos, ◌==◌,
}
use profi_lua.Lua.{Lua, int}
use profi_lua.Lua.Stack.{value}
use profi_lua.Sim.State.{Name, Script, Sim}
use profi_lua.Sim.Worlds.{
  here, push-Moves, top-Moves, pop-Moves, push_global-Moves, push_entry-Moves, call_one-Moves,
}
use profi_lua.Sim.Vm.{is_function, is_table, string_of, number_of}
use profi_lua.Sim.Script.{
  get_input_name, get_output_name, script_name, c_string, is_marked, mark_in, mark_out, copied,
  error_name, console_name, error_pin_name,
}
use profi_lua.Sim.Outputs.{read_numbers}
use profi_lua.Sim.Calculate.{start_results, each_name, pl_ok}
use profi_lua.Sim.Keeps.{
  Keeps, bind-Keeps, if-Keeps, on_vm-Keeps, get-Keeps, pure-Keeps, open_lua_script-Keeps,
  close_lua_script-Keeps, out_marked-Keeps, set_error-Keeps, set_output-Keeps, store_number-Keeps,
}

module _ {W : Type 0} (lua : Lua) (script : Script W) where
  mark_in-Keeps : (i : ℕ) → Keeps script (mark_in lua script i)
  mark_in-Keeps i = record {
    same = λ s. elim (Bool-cases (ltb i 100)) [ inl t ↦ rw t (refl, refl, here) | inr f ↦ rw f tt ];
  }

  mark_out-Keeps : (i : ℕ) → Keeps script (mark_out lua script i)
  mark_out-Keeps i = record {
    same = λ s. elim (Bool-cases (ltb i 100)) [ inl t ↦ rw t (refl, refl, here) | inr f ↦ rw f tt ];
  }

  copied-Keeps :
      (room : ℕ) (mark : Cmd (Sim W) (Unit {0})) (o : Option (List ℕ))
      → Keeps script mark
      → Keeps script (copied lua script room mark o)
  copied-Keeps room mark none m = pure-Keeps error_name
  copied-Keeps room mark (some str) m =
      if-Keeps (ltb (length (c_string str)) room)
        (if-Keeps (is_marked (c_string str)) (bind-Keeps m λ _. pure-Keeps (c_string str))
          (pure-Keeps (c_string str)))
        (record { same = λ s. tt })

  script_name-Keeps :
      (name : Name) (mark : Cmd (Sim W) (Unit {0})) (channel room : ℕ)
      → Keeps script mark
      → Keeps script (script_name lua script name mark channel room)
  unfolding script_name
  script_name-Keeps name mark channel room m =
      bind-Keeps (open_lua_script-Keeps lua script) λ is_open.
        if-Keeps is_open
          (bind-Keeps (on_vm-Keeps (push_global-Moves script name)) λ _.
            bind-Keeps (on_vm-Keeps (top-Moves script)) λ f.
              bind-Keeps
                (if-Keeps (is_function f)
                  (bind-Keeps (on_vm-Keeps (push-Moves script (value (int (pos channel))))) λ _.
                    bind-Keeps (on_vm-Keeps (call_one-Moves script)) λ _.
                      bind-Keeps (on_vm-Keeps (top-Moves script)) λ v.
                        bind-Keeps (copied-Keeps room mark (string_of lua v) m)
                          λ str. bind-Keeps (on_vm-Keeps (pop-Moves script)) λ _. pure-Keeps str)
                  (pure-Keeps error_name))
                λ result. bind-Keeps (close_lua_script-Keeps lua script) λ _. pure-Keeps result)
          (pure-Keeps error_name)

  pub get_input_name-Keeps :
      (channel room : ℕ) → Keeps script (get_input_name lua script channel room)
  unfolding get_input_name
  get_input_name-Keeps channel room =
      if-Keeps (ltb (length error_name) room)
        (if-Keeps (channel == 0) (pure-Keeps console_name) (
          script_name-Keeps Name.input_name (mark_in lua script channel) channel room
            (mark_in-Keeps channel)))
        (record { same = λ s. tt })

  pub get_output_name-Keeps :
      (channel room : ℕ) → Keeps script (get_output_name lua script channel room)
  unfolding get_output_name
  get_output_name-Keeps channel room =
      if-Keeps (ltb (length error_name) room)
        (if-Keeps (channel == 0) (pure-Keeps error_pin_name) (
          script_name-Keeps Name.output_name (mark_out lua script channel) channel room
            (mark_out-Keeps channel)))
        (record { same = λ s. tt })

  pub each_name-Keeps :
      (name : ℕ → Cmd (Sim W) (List ℕ)) (count i : ℕ)
      → ((j : ℕ) → Keeps script (name j))
      → Keeps script (each_name name count i)
  unfolding each_name
  each_name-Keeps name zero i all = pure-Keeps tt
  each_name-Keeps name (suc count) i all =
      bind-Keeps (all i) λ _. each_name-Keeps name count (suc i) all

  read_numbers-Keeps : (count i : ℕ) → Keeps script (read_numbers lua script count i)
  unfolding read_numbers
  read_numbers-Keeps zero i = pure-Keeps tt
  read_numbers-Keeps (suc count) i = bind-Keeps (on_vm-Keeps (push_entry-Moves script i)) λ _.
      bind-Keeps (out_marked-Keeps lua script i) λ m.
        bind-Keeps (on_vm-Keeps (top-Moves script)) λ v.
          bind-Keeps
            (if-Keeps m (pure-Keeps tt) (store_number-Keeps lua script i (number_of lua v)))
            λ _. bind-Keeps (on_vm-Keeps (pop-Moves script)) λ _. read_numbers-Keeps count (suc i)

  pub start_results-Keeps : Keeps script (start_results lua script)
  unfolding start_results
  start_results-Keeps = bind-Keeps (on_vm-Keeps (top-Moves script)) λ v.
      bind-Keeps
        (if-Keeps (is_table v)
          (bind-Keeps get-Keeps λ s.
            bind-Keeps (read_numbers-Keeps (s.num_outputs - 1) 1)
              λ _. on_vm-Keeps (pop-Moves script))
          (set_error-Keeps lua script true))
        λ _. bind-Keeps (set_output-Keeps lua script 0 pl_ok) λ _. set_error-Keeps lua script false
