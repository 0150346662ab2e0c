-- ===== src/Sim/Start.antt =====
-- The start of a simulation with a script that names its pins and answers properly.
use profi_lua.Base.{
  ℕ, zero, suc, ◌-◌, ◌+◌, ◌≤◌, ◌<◌, ◌≡◌, ◌∙◌, refl, ap, true, false, not, none, some, List, [], ◌∷◌,
  ◌++◌, ltb, arith, ok, Bool-cases, inl, inr, pos,
}
use profi_lua.Lua.{Lua, Value, Number, int}
use profi_lua.Lua.Stack.{Pushed, value, new_table}
use profi_lua.Sim.State.{Name, Script, Sim}
use profi_lua.Sim.Vm.{number_of}
use profi_lua.Sim.Script.{change, open_lua_script}
use profi_lua.Sim.Outputs.{read_numbers}
use profi_lua.Sim.Calculate.{start_script, start_results, values_from, pl_ok}
use profi_lua.Sim.Results.{updated, updated-zero, updated-hit, updated-miss, result, same_state, vm}
use profi_lua.Sim.Step.{inputs_of, push_inputs-inputs_of}
use profi_lua.Sim.Names.{Names, marks}
use profi_lua.Sim.Names.Inputs.{each_name-in}
use profi_lua.Sim.Names.Outputs.{each_name-out}

module _ {W : Type 0} (lua : Lua) (script : Script W) (t : ℕ) (w : W) where
  -- The outputs without a mark get the numbers of the table.
  abbrev pub new_numbers : (i count : ℕ) → Sim W → ℕ → Number
  new_numbers i count s =
      updated (λ n. n) (λ m. not (s.out_marker m)) (λ m. number_of lua (result lua script t w m)) i
        count s.output

  read_numbers-new_numbers :
      (count i : ℕ) (s : Sim W) (rest : List Pushed)
      → s.lua ≡ vm lua script t w rest
      → i + count ≤ 100
      → ((m : ℕ)
          → i ≤ m
          → m < i + count
          → s.out_marker m ≡ false
          → (n : Number) × (number_of lua (result lua script t w m) ≡ some n))
      → read_numbers lua script count i s ≡ ok tt (record s { output = new_numbers i count s })
  unfolding read_numbers
  read_numbers-new_numbers zero i s rest is_open bound fits =
      same_state lua script t w s s.lua s.lua refl
        (updated-zero (λ n. n) (λ m. not (s.out_marker m))
          (λ m. number_of lua (result lua script t w m)) i s.output)
        (λ m. refl)
  read_numbers-new_numbers (suc count) i s rest is_open bound fits =
      let lt : ltb i 100 ≡ true = ground arith in
      let later =
        λ (m : ℕ) (from : suc i ≤ m) (to : m < suc i + count). fits m (omega arith) (omega arith) in
      elim (Bool-cases (s.out_marker i)) [
        | inl is ↦
            rw (is_open, lt, is)
              (read_numbers-new_numbers count (suc i) (record s { lua = vm lua script t w rest })
                  rest refl (omega arith) later
                ∙ same_state lua script t w s (vm lua script t w rest) (vm lua script t w rest) refl
                    (λ m.
                      updated-miss (λ n. n) (λ m. not (s.out_marker m))
                        (λ m. number_of lua (result lua script t w m)) i count s.output m
                        (ap not is))
                    (λ m. refl))
        | inr is_not ↦
            let (n, f) = fits i (omega arith) (omega arith) is_not in
            rw (is_open, lt, is_not, f)
              (read_numbers-new_numbers count (suc i)
                  (record s { lua = vm lua script t w rest; output = change s.output i n }) rest
                  refl (omega arith) later
                ∙ same_state lua script t w s (vm lua script t w rest) (vm lua script t w rest) refl
                    (λ m.
                      updated-hit (λ n. n) (λ m. not (s.out_marker m))
                        (λ m. number_of lua (result lua script t w m)) i count s.output n m
                        (ap not is_not) f)
                    (λ m. refl))
      ]

module _ {W : Type 0} where
  -- In a Lua state that is opened after `idle` and has run its file, `gSimStart` is a function that
  -- takes the inputs and returns a table with a number for each output whose name has no mark.
  pub record StartsAfter (lua : Lua) (script : Script W) (s : Sim W) (input : ℕ → Number)
      (in_text out_text : ℕ → List ℕ) (idle : W) : Type 0 where
    pub opened : W
    pub memory : script.open_lua idle ≡ some opened
    pub function : ℕ
    pub table : ℕ
    pub world : W
    pub defined :
        script.global Name.sim_start
          (script.set_user (values_from s.user 101 0) (script.run_file s.file_num opened).1)
        ≡ Value.function function
    pub answer :
        script.call function
          (new_table
            (inputs_of (marks in_text s.num_inputs) (λ i. int (pos 0)) input (s.num_inputs - 1) 1))
          (script.set_user (values_from s.user 101 0) (script.run_file s.file_num opened).1)
        ≡ some (Value.table table, world)
    pub numbers :
        (m : ℕ)
        → 1 ≤ m
        → m < 1 + (s.num_outputs - 1)
        → marks out_text s.num_outputs m ≡ false
        → (n : Number) × (number_of lua (result lua script table world m) ≡ some n)

  -- A script that starts properly, and names its pins, after anything with `I`.
  pub record Starts (lua : Lua) (script : Script W) (I : W → Type 0) (s : Sim W)
      (input : ℕ → Number) : Type 0 where
    pub in_text : ℕ → List ℕ
    pub out_text : ℕ → List ℕ
    pub in_names : Names lua script I Name.input_name s.file_num s.num_inputs in_text
    pub out_names : Names lua script I Name.output_name s.file_num s.num_outputs out_text
    pub starts : (idle : W) → I idle → StartsAfter lua script s input in_text out_text idle

  module _ (lua : Lua) (script : Script W) (I : W → Type 0) (s : Sim W) (input : ℕ → Number)
      (a : Starts lua script I s input) where
    -- The marks are set, the outputs read, and the script stays open.
    abbrev pub started :
        (idle : W) → StartsAfter lua script s input a.in_text a.out_text idle → Sim W
    started idle b = record s {
      lua =
          some (record { stack = (script.run_file s.file_num b.opened).0 ++ []; world = b.world });
      idle = idle;
      error = false;
      in_marker = marks a.in_text s.num_inputs;
      out_marker = marks a.out_text s.num_outputs;
      output =
          change
            (updated (λ n. n) (λ m. not (marks a.out_text s.num_outputs m))
              (λ m. number_of lua (result lua script b.table b.world m)) 1 (s.num_outputs - 1)
              s.output)
            0 pl_ok;
    }

    pub start_script-started :
        s.lua ≡ none
        → I s.idle
        → 1 ≤ s.num_inputs
        → s.num_inputs ≤ 100
        → s.num_outputs ≤ 100
        → (idle : W) × (left : I idle) × (start_script lua script input s
            ≡ ok tt (started idle (a.starts idle left)))
    unfolding start_script open_lua_script start_results
    start_script-started no_lua left some_in few_in few_out =
        let s₀ : Sim W = record s { in_marker = λ _. false; out_marker = λ _. false } in
        let (u, e, left') = each_name-in lua script I s₀ few_in a.in_names no_lua refl left in
        let s₁ : Sim W = record s₀ {
          lua = none;
          idle = u;
          in_marker = marks a.in_text s.num_inputs;
        } in
        let (idle, e', left'') =
          each_name-out lua script I s₁ few_out a.out_names refl refl left' in
        let s₂ : Sim W = record s₁ { idle = idle; out_marker = marks a.out_text s.num_outputs } in
        let b = a.starts idle left'' in
        let w =
          script.set_user (values_from s.user 101 0) (script.run_file s.file_num b.opened).1 in
        let stack = (script.run_file s.file_num b.opened).0 ++ [] in
        let s₃ : Sim W = record s₂ {
          lua = some (record { stack = value (Value.function b.function) ∷ stack; world = w });
        } in
        let s₄ : Sim W = record s₂ {
          lua = some (record { stack = value (Value.table b.table) ∷ stack; world = b.world });
        } in
        (
          idle,
          left'',
          rw (
            e,
            e',
            b.memory,
            b.defined,
            push_inputs-inputs_of (λ i. int (pos 0)) input s₃
                (record { stack = value (Value.function b.function) ∷ stack; world = w }) refl
                some_in few_in,
            b.answer,
            read_numbers-new_numbers lua script b.table b.world (s.num_outputs - 1) 1 s₄ stack refl
                (ground arith) b.numbers,
          ),
        )
