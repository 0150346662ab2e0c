-- ===== src/Sim/Step.antt =====
-- A step of the simulation with a script that answers properly.
use profi_lua.Base.{
  ℕ, zero, suc, ◌-◌, ◌+◌, ◌≤◌, ◌<◌, ◌≡◌, ◌∙◌, refl, Bool, true, false, not, ◌&&◌, some, List, [],
  ◌∷◌, ltb, ◌==◌, if◌then◌else◌, arith, ok, pos,
}
use profi_lua.Lua.{Lua, Value, Number, int}
use profi_lua.Lua.Stack.{Pushed, value, new_table}
use profi_lua.Sim.State.{Name, Script, Vm, Sim}
use profi_lua.Sim.Outputs.{input_entries, push_inputs}
use profi_lua.Sim.Calculate.{step, show_console, c_calculate_ex, calculate_results, wants_console}
use profi_lua.Sim.Results.{Fits, new_outputs, new_strings, read_outputs-read_back}

-- The keys and values of the table that a script gets: texts for the inputs whose name is marked,
-- and numbers for the others.
abbrev pub inputs_of :
    (marker : ℕ → Bool) (text : ℕ → Value) (input : ℕ → Number) (count i : ℕ) → List (Value × Value)
inputs_of marker text input zero i = []
inputs_of marker text input (suc count) i =
    (int (pos i), if marker i then text i else Value.number (input i))
    ∷ inputs_of marker text input count (suc i)

module _ {W : Type 0} where
  input_entries-inputs_of :
      (text : ℕ → Value) (input : ℕ → Number) (count i : ℕ) (s : Sim W)
      → i + count ≤ 100
      → input_entries text input count i s ≡ ok (inputs_of s.in_marker text input count i) s
  unfolding input_entries
  input_entries-inputs_of text input zero i s bound = refl
  input_entries-inputs_of text input (suc count) i s bound =
      let lt : ltb i 100 ≡ true = ground arith in
      rw (lt, input_entries-inputs_of text input count (suc i) s (omega arith))

  pub push_inputs-inputs_of :
      (text : ℕ → Value) (input : ℕ → Number) (s : Sim W) (vm : Vm W)
      → s.lua ≡ some vm
      → 1 ≤ s.num_inputs
      → s.num_inputs ≤ 100
      → push_inputs text input s
        ≡ ok tt (record s {
          lua = some (record vm {
            stack = new_table (inputs_of s.in_marker text input (s.num_inputs - 1) 1) ∷ vm.stack;
          });
        })
  unfolding push_inputs
  push_inputs-inputs_of text input s vm is_open some_in few_in =
      let ne : (s.num_inputs == 0) ≡ false = ground arith in
      rw (ne, input_entries-inputs_of text input (s.num_inputs - 1) 1 s (omega arith), is_open)

  abbrev pub in_step : (s : Sim W) (input : ℕ → Number) → Pushed
  in_step s input =
      new_table (inputs_of s.in_marker (λ i. Value.string (s.strings i)) input (s.num_inputs - 1) 1)

  -- A proper answer of a script in the state `w`: `gCalculate` is a function that takes the inputs
  -- and returns the table `t`, which has a value of its kind for each output.
  pub record Answers (lua : Lua) (script : Script W) (s : Sim W) (input : ℕ → Number) (w : W)
      (t : ℕ) (w' : W) : Type 0 where
    pub function : ℕ
    pub defined : script.global Name.calculate w ≡ Value.function function
    pub answer : script.call function (in_step s input) w ≡ some (Value.table t, w')
    pub fits :
        (m : ℕ) → 1 ≤ m → m < 1 + (s.num_outputs - 1) → Fits lua script t w' (s.out_marker m) m

  -- The state after a proper step.
  abbrev pub stepped : Lua → Script W → Sim W → List Pushed → ℕ → W → Sim W
  stepped lua script s stack t w' = record s {
    lua = some (record { stack = stack; world = w' });
    output = new_outputs lua script t w' 1 (s.num_outputs - 1) s;
    strings = new_strings lua script t w' 1 (s.num_outputs - 1) s;
  }

  module _ (lua : Lua) (script : Script W) (s : Sim W) (input : ℕ → Number) (stack : List Pushed)
      (w w' : W) (t : ℕ) where
    pub step-stepped :
        s.error ≡ false
        → s.lua ≡ some (record { stack = stack; world = w })
        → 1 ≤ s.num_inputs
        → s.num_inputs ≤ 100
        → s.num_outputs ≤ 100
        → Answers lua script s input w t w'
        → step lua script input s ≡ ok tt (stepped lua script s stack t w')
    unfolding step push_inputs calculate_results
    step-stepped no_error is_open some_in few_in few_out a = rw (
      no_error,
      is_open,
      a.defined,
      push_inputs-inputs_of (λ i. Value.string (s.strings i)) input
          (record s {
            lua = some (record { stack = value (Value.function a.function) ∷ stack; world = w });
            error = false;
          })
          (record { stack = value (Value.function a.function) ∷ stack; world = w }) refl some_in
          few_in,
      a.answer,
      read_outputs-read_back lua script t w' (s.num_outputs - 1) 1
          (record s {
            lua = some (record { stack = value (Value.table t) ∷ stack; world = w' });
            error = false;
          })
          stack refl (ground arith) a.fits,
    )

    only_step :
        s.override ≡ false
        → wants_console input && not s.console ≡ false
        → s.console && (s.console_top == 0) ≡ false
        → c_calculate_ex lua script input s ≡ step lua script input s
    unfolding c_calculate_ex show_console
    only_step started no_console no_top = rw (started, no_console, no_top)

    -- `CCalculateEx` in a simulation that has started, with no change of the console, when the
    -- script's `gCalculate` is a function that takes the table of inputs and returns a table with a
    -- number for each output, or a string for one whose name is marked: every output gets its
    -- entry, no error is set, and the Lua stack is as before the step. There are at most 100 pins
    -- of each kind, and at least the console input.
    pub c_calculate_ex-stepped :
        s.error ≡ false
        → s.override ≡ false
        → wants_console input && not s.console ≡ false
        → s.console && (s.console_top == 0) ≡ false
        → s.lua ≡ some (record { stack = stack; world = w })
        → 1 ≤ s.num_inputs
        → s.num_inputs ≤ 100
        → s.num_outputs ≤ 100
        → Answers lua script s input w t w'
        → c_calculate_ex lua script input s ≡ ok tt (stepped lua script s stack t w')
    c_calculate_ex-stepped no_error started no_console no_top is_open some_in few_in few_out a =
        only_step started no_console no_top ∙ step-stepped no_error is_open some_in few_in few_out a
