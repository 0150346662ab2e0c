-- ===== src/Sim/Whole.antt =====
-- Whole simulations with a script that keeps its promises: CSimStart, steps and CSimStop.
pub mod Shown
pub mod Live
pub mod Complete
pub mod Lifecycle
mod Examples
use profi_lua.Base.{ℕ, ◌-◌, ◌+◌, ◌≤◌, ◌<◌, ◌≡◌, some, List, Bool, false}
use profi_lua.Lua.{Lua, Value, Number}
use profi_lua.Lua.Stack.{value, new_table}
use profi_lua.Sim.State.{Name, Script}
use profi_lua.Sim.Vm.{number_of}
use profi_lua.Sim.Results.{Fits}
use profi_lua.Sim.Stop.{user_entry}
use profi_lua.Sim.Names.{Names, marks}

module _ {W : Type 0} (lua : Lua) (script : Script W) where
  -- `gSimStart` is a function that, called in the state `w`, returns a table with a number for each
  -- output that has no mark.
  pub record StartsIn (P : W → Type 0) (marked : ℕ → Bool) (count : ℕ) (w : W)
      (entries : List (Value × Value)) : Type 0 where
    pub function : ℕ
    pub table : ℕ
    pub world : W
    pub defined : script.global Name.sim_start w ≡ Value.function function
    pub answer : script.call function (new_table entries) w ≡ some (Value.table table, world)
    pub keeps : P world
    pub numbers :
        (m : ℕ)
        → 1 ≤ m
        → m < 1 + (count - 1)
        → marked m ≡ false
        → (n : Number) × (number_of lua (value (script.entry table m world)) ≡ some n)

  -- The same of `gCalculate`, with a string for each output that has a mark.
  pub record StepsIn (P : W → Type 0) (marked : ℕ → Bool) (count : ℕ) (w : W)
      (entries : List (Value × Value)) : Type 0 where
    pub function : ℕ
    pub table : ℕ
    pub world : W
    pub defined : script.global Name.calculate w ≡ Value.function function
    pub answer : script.call function (new_table entries) w ≡ some (Value.table table, world)
    pub keeps : P world
    pub fits : (m : ℕ) → 1 ≤ m → m < 1 + (count - 1) → Fits lua script table world (marked m) m

  -- `gSimStop` is a function, after it `gPUser` is a table of numbers, and what is left when the
  -- script is closed has `I`.
  pub record StopsIn (I : W → Type 0) (w : W) (entries : List (Value × Value)) : Type 0 where
    pub function : ℕ
    pub result : Value
    pub world : W
    pub table : ℕ
    pub defined : script.global Name.sim_stop w ≡ Value.function function
    pub answer : script.call function (new_table entries) w ≡ some (result, world)
    pub leaves : I (script.close_lua world)
    pub user_table : script.global Name.user_table world ≡ Value.table table
    pub numbers :
        (i : ℕ)
        → i < 100
        → (n : Number) × (number_of lua (user_entry lua script table world i) ≡ some n)

  -- The promises of a script, for any inputs: opened after anything with `I`, it names its pins and
  -- starts properly, and its functions answer properly in every state with `P`, which they keep.
  -- What is left when it is closed, after a name or the stop, has `I`.
  pub record Proper (I P : W → Type 0) (file num_inputs num_outputs : ℕ) : Type 0 where
    pub in_text : ℕ → List ℕ
    pub out_text : ℕ → List ℕ
    pub in_names : Names lua script I Name.input_name file num_inputs in_text
    pub out_names : Names lua script I Name.output_name file num_outputs out_text
    pub starts :
        (user : List Number) (entries : List (Value × Value)) (idle : W)
        → I idle
        → (opened : W) × (script.open_lua idle ≡ some opened)
          × StartsIn P
              (marks out_text num_outputs)
              num_outputs
              (script.set_user user (script.run_file file opened).1)
              entries
    pub steps :
        (w : W) (entries : List (Value × Value))
        → P w
        → StepsIn P (marks out_text num_outputs) num_outputs w entries
    pub stops : (w : W) (entries : List (Value × Value)) → P w → StopsIn I w entries
