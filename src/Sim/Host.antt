-- ===== src/Sim/Host.antt =====
-- Sequences of calls by the simulator.
use profi_lua.Base.{ℕ, refl, true, List, [], ◌∷◌, Cmd, pure, modify, ◌>>◌, After, u8_of}
use profi_lua.Lua.{Lua, Number, truncate}
use profi_lua.Sim.State.{Name, Script, Sim}
use profi_lua.Sim.Worlds.{Runs, world_of, here, top-Moves, push_global-Moves}
use profi_lua.Sim.Vm.{is_nil}
use profi_lua.Sim.Script.{c_num_inputs_ex, c_num_outputs_ex, get_input_name, get_output_name, pins}
use profi_lua.Sim.Calculate.{c_calculate_ex, c_sim_start, c_sim_stop}
use profi_lua.Sim.Keeps.{
  Keeps, bind-Keeps, if-Keeps, on_vm-Keeps, get-Keeps, pure-Keeps, open_lua_script-Keeps,
  close_lua_script-Keeps, set_error-Keeps,
}
use profi_lua.Sim.Keeps.Start.{get_input_name-Keeps, get_output_name-Keeps}
use profi_lua.Sim.Console.{
  Agrees, Maintains, Keeps-Maintains, bind-Maintains, c_calculate_ex-Maintains,
  c_sim_stop-Maintains,
}

-- The arrays PInput and PString that a step is called with.
pub record Arrays : Type 0 where
  pub input : ℕ → Number
  pub texts : ℕ → List ℕ

-- The functions that the DLL exports, with their arguments. POutput and PUser are the simulator's
-- arrays that the state has, and PString is handed over with each step.
pub data Call : Type 0 where
  num_inputs num_outputs : (user : ℕ → Number) → Call
  input_name output_name : (channel room : ℕ) → Call
  calculate : Arrays → Call
  stop : (input : ℕ → Number) → Call
  start : Call

module _ {W : Type 0} (lua : Lua) (script : Script W) where
  unfoldable pub serve : Call → Cmd (Sim W) (Unit {0})
  serve (num_inputs user) = c_num_inputs_ex lua script user >> pure tt
  serve (num_outputs user) = c_num_outputs_ex lua script user >> pure tt
  serve (input_name channel room) = get_input_name lua script channel room >> pure tt
  serve (output_name channel room) = get_output_name lua script channel room >> pure tt
  serve (calculate a) =
      modify (λ s. record s { strings = a.texts }) >> c_calculate_ex lua script a.input
  serve (stop input) = c_sim_stop lua script input
  serve start = c_sim_start lua script

  unfoldable pub host : List Call → Cmd (Sim W) (Unit {0})
  host [] = pure tt
  host (c ∷ cs) = serve c >> host cs

  number-Keeps :
      (user : ℕ → Number)
      → Keeps script (modify λ s. record s { file_num = u8_of (truncate (user 100)) })
  number-Keeps user = record { same = λ s. (refl, refl, here) }

  set_inputs-Keeps : (n : ℕ) → Keeps script (modify λ s. record s { num_inputs = n })
  set_inputs-Keeps n = record { same = λ s. (refl, refl, here) }

  set_outputs-Keeps : (n : ℕ) → Keeps script (modify λ s. record s { num_outputs = n })
  set_outputs-Keeps n = record { same = λ s. (refl, refl, here) }

  set_strings-Keeps : (texts : ℕ → List ℕ) → Keeps script (modify λ s. record s { strings = texts })
  set_strings-Keeps texts = record { same = λ s. (refl, refl, here) }

  c_num_inputs_ex-Keeps : (user : ℕ → Number) → Keeps script (c_num_inputs_ex lua script user)
  unfolding c_num_inputs_ex
  c_num_inputs_ex-Keeps user = bind-Keeps (number-Keeps user) λ _.
      bind-Keeps (open_lua_script-Keeps lua script) λ is_open.
        bind-Keeps
          (if-Keeps is_open
            (bind-Keeps (on_vm-Keeps (push_global-Moves script Name.num_inputs)) λ _.
              bind-Keeps (on_vm-Keeps (top-Moves script)) λ v.
                bind-Keeps
                  (if-Keeps (is_nil v) (pure-Keeps tt) (set_inputs-Keeps (pins lua script v)))
                  λ _. close_lua_script-Keeps lua script)
            (set_error-Keeps lua script true))
          λ _. bind-Keeps get-Keeps λ s. pure-Keeps s.num_inputs

  c_num_outputs_ex-Keeps : (user : ℕ → Number) → Keeps script (c_num_outputs_ex lua script user)
  unfolding c_num_outputs_ex
  c_num_outputs_ex-Keeps user = bind-Keeps (number-Keeps user) λ _.
      bind-Keeps (open_lua_script-Keeps lua script) λ is_open.
        bind-Keeps
          (if-Keeps is_open
            (bind-Keeps (on_vm-Keeps (push_global-Moves script Name.num_outputs)) λ _.
              bind-Keeps (on_vm-Keeps (top-Moves script)) λ v.
                bind-Keeps
                  (if-Keeps (is_nil v) (pure-Keeps tt) (set_outputs-Keeps (pins lua script v)))
                  λ _. close_lua_script-Keeps lua script)
            (set_error-Keeps lua script true))
          λ _. bind-Keeps get-Keeps λ s. pure-Keeps s.num_outputs

  c_sim_start-Keeps : Keeps script (c_sim_start lua script)
  unfolding c_sim_start
  c_sim_start-Keeps = record { same = λ s. (refl, refl, here) }

  ignored : {A : Type 0} {m : Cmd (Sim W) A} → Keeps script m → Maintains script (m >> pure tt)
  ignored p = Keeps-Maintains (bind-Keeps p λ _. pure-Keeps tt)

  serve-Maintains : (c : Call) → Maintains script (serve c)
  unfolding serve
  serve-Maintains (num_inputs user) = ignored (c_num_inputs_ex-Keeps user)
  serve-Maintains (num_outputs user) = ignored (c_num_outputs_ex-Keeps user)
  serve-Maintains (input_name channel room) = ignored (get_input_name-Keeps lua script channel room)
  serve-Maintains (output_name channel room) =
      ignored (get_output_name-Keeps lua script channel room)
  serve-Maintains (calculate a) =
      bind-Maintains (Keeps-Maintains (set_strings-Keeps a.texts))
        λ _. c_calculate_ex-Maintains lua script a.input
  serve-Maintains (stop input) = c_sim_stop-Maintains lua script input
  serve-Maintains start = Keeps-Maintains c_sim_start-Keeps

  host-Maintains : (cs : List Call) → Maintains script (host cs)
  unfolding host
  host-Maintains [] = Keeps-Maintains (pure-Keeps tt)
  host-Maintains (c ∷ cs) = bind-Maintains (serve-Maintains c) λ _. host-Maintains cs

  -- Through any sequence of calls by the simulator, with any script, `gConsole` says whether the
  -- debug console is open, and the console is closed only when it is open. This holds of every
  -- state in which a sequence ends, also by an error of the script, if it holds at first.
  pub host-Agrees : (cs : List Call) (s : Sim W) → Agrees s → After Agrees (host cs s)
  host-Agrees cs s = (host-Maintains cs).agrees s

  -- Through any sequence of calls by the simulator, the world of the script, which is that of the Lua
  -- state that is open or what the last one has left, is changed only by the Lua library.
  pub host-Runs :
      (cs : List Call) (s : Sim W) → After (λ t. Runs script (world_of s) (world_of t)) (host cs s)
  host-Runs cs s = (host-Maintains cs).runs s
