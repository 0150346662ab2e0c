-- ===== src/Sim/State.antt =====
-- The globals of src/profilua.c, the arrays that the simulator passes, and what a script does.
use profi_lua.Base.{ℕ, Option, List, Bool, Cmd, Run, fault, put_back, none, some}
use profi_lua.Lua.{Value, Number}
use profi_lua.Lua.Stack.{Pushed}

-- The global names of a script that the host asks for.
pub data Name : Type 0 where
  num_inputs num_outputs input_name output_name calculate sim_start sim_stop user_table : Name

-- The Lua library with a script, on a state `W`: a Lua heap, and what the libraries keep in C
-- globals, which outlive it. `open_lua` has no result when there is no memory. `run_file` loads and runs the script with a number, and gives what this
-- leaves on the stack, the top first. `call` has no result when the function raises an error.
-- Tables are read without metamethods.
pub record Script (W : Type 0) : Type 0 where
  pub open_lua : W → Option W
  pub close_lua : W → W
  pub run_file : ℕ → W → List Pushed × W
  pub global : Name → W → Value
  pub set_user : List Number → W → W
  pub call : ℕ → Pushed → W → Option (Value × W)
  pub entry : ℕ → ℕ → W → Value

-- What `L` points to. The top of the stack stands first.
pub record Vm (W : Type 0) : Type 0 where
  pub stack : List Pushed
  pub world : W

pub data ConsoleCall : Type 0 where
  turned_on topped turned_off : ConsoleCall

-- `lua` is `L`, and `idle` is what the last Lua state has left. `in_marker` and `out_marker` are gInStrMarker and gOutStrMarker, `override` is
-- gCSimStartOverride. `output`, `user` and `strings` are the arrays POutput, PUser and PString of
-- the simulator, which are long enough for every index used, and `windows` the calls of the
-- console, the last first.
pub record Sim (W : Type 0) : Type 0 where
  pub lua : Option (Vm W)
  pub idle : W
  pub num_inputs : ℕ
  pub num_outputs : ℕ
  pub error : Bool
  pub file_num : ℕ
  pub console : Bool
  pub console_top : ℕ
  pub in_marker : ℕ → Bool
  pub out_marker : ℕ → Bool
  pub override : Bool
  pub output : ℕ → Number
  pub user : ℕ → Number
  pub strings : ℕ → List ℕ
  pub windows : List ConsoleCall

-- A command on `*L`, which is undefined when `L` is NULL.
abbrev pub on_vm : {W A : Type 0} → Cmd (Vm W) A → Cmd (Sim W) A
on_vm {W} {A} m s = at s.lua
  where
    at : Option (Vm W) → Run (Sim W) A
    at none = fault
    at (some vm) = put_back (λ v. record s { lua = some v }) (m vm)
