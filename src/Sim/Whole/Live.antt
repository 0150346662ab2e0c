-- ===== src/Sim/Whole/Live.antt =====
-- The states of a simulation that runs, and the calls between its start and its stop.
use profi_lua.Base.{
  ◌<◌, ◌+◌, arith, ℕ, ◌-◌, ◌≤◌, ◌≡◌, refl, Bool, true, false, none, some, List, [], ◌∷◌, ◌++◌, ok,
  pos, Bool-cases, inl, inr,
}
use profi_lua.Lua.{Lua, Value, Number, int}
use profi_lua.Lua.Stack.{Pushed, new_table}
use profi_lua.Sim.State.{Name, Script, Sim, ConsoleCall}
use profi_lua.Sim.Script.{change, c_string}
use profi_lua.Sim.Calculate.{
  c_calculate_ex, c_sim_start_flaw, start_script, values_from, wants_console, step, pl_ok, pl_error,
}
use profi_lua.Sim.Vm.{number_of, string_of}
use profi_lua.Sim.Results.{Fits, result, within, new_outputs, new_strings}
use profi_lua.Sim.Step.{inputs_of, step-stepped}
use profi_lua.Sim.Names.{marks}
use profi_lua.Sim.Start.{Starts, started, start_script-started}
use profi_lua.Sim.Whole.{Proper, StepsIn}
use profi_lua.Sim.Whole.Shown.{show_console-Shown}

-- What changes from one step to the next.
pub record Live (W : Type 0) : Type 0 where
  pub stack : List Pushed
  pub idle : W
  pub world : W
  pub console : Bool
  pub console_top : ℕ
  pub windows : List ConsoleCall
  pub output : ℕ → Number
  pub strings : ℕ → List ℕ

module _ {W : Type 0} (lua : Lua) (script : Script W) (I P : W → Type 0) (s : Sim W)
    (p : Proper lua script I P s.file_num s.num_inputs s.num_outputs) where
  -- The simulation runs without an error.
  abbrev pub live : Live W → Sim W
  live x = record s {
    lua = some (record { stack = x.stack; world = x.world });
    idle = x.idle;
    error = false;
    override = false;
    console = x.console;
    console_top = x.console_top;
    windows = x.windows;
    in_marker = marks p.in_text s.num_inputs;
    out_marker = marks p.out_text s.num_outputs;
    output = x.output;
    strings = x.strings;
  }

  -- The script is in a state in which it answers properly, and the output of the error pin is OK.
  abbrev pub Sound : Live W → Type 0
  Sound x = P x.world × (x.output 0 ≡ pl_ok)

  -- The script is in the state after a call of `gCalculate`, and the outputs are those of the table
  -- that this call has returned, each by its kind.
  pub record Answered (x : Live W) : Type 0 where
    pub before : W
    pub entries : List (Value × Value)
    pub function : ℕ
    pub table : ℕ
    pub defined : script.global Name.calculate before ≡ Value.function function
    pub answer : script.call function (new_table entries) before ≡ some (Value.table table, x.world)
    pub numbers :
        (m : ℕ)
        → 1 ≤ m
        → m < 1 + (s.num_outputs - 1)
        → marks p.out_text s.num_outputs m ≡ false
        → number_of lua (result lua script table x.world m) ≡ some (x.output m)
    pub texts :
        (m : ℕ)
        → 1 ≤ m
        → m < 1 + (s.num_outputs - 1)
        → marks p.out_text s.num_outputs m ≡ true
        → (str : List ℕ) × (string_of lua (result lua script table x.world m) ≡ some str)
          × (x.strings m ≡ c_string str)

  -- The state after a call of `gCalculate`.
  abbrev answered_by :
      Live W
      → (before : W) (entries : List (Value × Value))
      → StepsIn lua script P (marks p.out_text s.num_outputs) s.num_outputs before entries
      → Live W
  answered_by x before entries a = record x {
    world = a.world;
    output = new_outputs lua script a.table a.world 1 (s.num_outputs - 1) (live x);
    strings = new_strings lua script a.table a.world 1 (s.num_outputs - 1) (live x);
  }

  answered_by-Answered :
      (x : Live W) (before : W) (entries : List (Value × Value))
      (a : StepsIn lua script P (marks p.out_text s.num_outputs) s.num_outputs before entries)
      → Answered (answered_by x before entries a)
  answered_by-Answered x before entries a = record {
    before = before;
    entries = entries;
    function = a.function;
    table = a.table;
    defined = a.defined;
    answer = a.answer;
    numbers = λ m from to no_mark.
        let (n, f) : Fits lua script a.table a.world false m = rw no_mark at (a.fits m from to) in
        let inside : within 1 (s.num_outputs - 1) m ≡ true = ground arith in
        rw (inside, no_mark, f);
    texts = λ m from to mark.
        let (str, f) : Fits lua script a.table a.world true m = rw mark at (a.fits m from to) in
        let inside : within 1 (s.num_outputs - 1) m ≡ true = ground arith in
        (str, f, rw (inside, mark, f));
  }

  abbrev pub Stepped : Live W → Type 0
  Stepped x = Sound x × Answered x

  module _ (some_in : 1 ≤ s.num_inputs) (few_in : s.num_inputs ≤ 100)
      (few_out : s.num_outputs ≤ 100) where
    pub step-live :
        (x : Live W) (input : ℕ → Number)
        → Sound x
        → (y : Live W) × (step lua script input (live x) ≡ ok tt (live y)) × Stepped y
    step-live x input (holds, is_ok) =
        let entries =
          inputs_of (marks p.in_text s.num_inputs) (λ i. Value.string (x.strings i)) input
            (s.num_inputs - 1) 1 in
        let a = p.steps x.world entries holds in
        (
          answered_by x x.world entries a,
          step-stepped lua script (live x) input x.stack x.world a.world a.table refl refl some_in
              few_in few_out
              (record {
                function = a.function;
                defined = a.defined;
                answer = a.answer;
                fits = a.fits;
              }),
          ((a.keeps, is_ok), answered_by-Answered x x.world entries a),
        )

    -- A further call of CCalculateEx.
    pub c_calculate_ex-live :
        (x : Live W) (input : ℕ → Number)
        → Sound x
        → (y : Live W) × (c_calculate_ex lua script input (live x) ≡ ok tt (live y)) × Stepped y
    unfolding c_calculate_ex
    c_calculate_ex-live x input sound =
        let shown = show_console-Shown (live x) input in
        let x' : Live W = record x {
          console = shown.console;
          console_top = shown.console_top;
          windows = shown.windows;
        } in
        rw shown.result (step-live x' input sound)

    -- The state before the script's start in CSimStartFlaw.
    abbrev asked : (console : Bool) (console_top : ℕ) (windows : List ConsoleCall) → Sim W
    asked console console_top windows = record s {
      override = true;
      error = true;
      output = change s.output 0 pl_error;
      console = console;
      console_top = console_top;
      windows = windows;
    }

    start_script-live :
        (input : ℕ → Number) (console : Bool) (console_top : ℕ) (windows : List ConsoleCall)
        → s.lua ≡ none
        → I s.idle
        → (y : Live W) × (start_script lua script input (asked console console_top windows)
            ≡ ok tt (record (live y) { override = true }))
          × Sound y
    start_script-live input console console_top windows no_lua left =
        let z = asked console console_top windows in
        let entries =
          inputs_of (marks p.in_text s.num_inputs) (λ i. int (pos 0)) input (s.num_inputs - 1) 1 in
        let user = values_from s.user 101 0 in
        let b : Starts lua script I z input = record {
          in_text = p.in_text;
          out_text = p.out_text;
          in_names = p.in_names;
          out_names = p.out_names;
          starts = λ idle left.
              let (opened, memory, a) = p.starts user entries idle left in
              record {
                opened = opened;
                memory = memory;
                function = a.function;
                table = a.table;
                world = a.world;
                defined = a.defined;
                answer = a.answer;
                numbers = a.numbers;
              };
        } in
        let (idle, left', e) =
          start_script-started lua script I z input b no_lua left some_in few_in few_out in
        let (opened, memory, a) = p.starts user entries idle left' in
        (
          record {
            stack = (script.run_file s.file_num opened).0 ++ [];
            idle = idle;
            world = a.world;
            console = console;
            console_top = console_top;
            windows = windows;
            output = (started lua script I z input b idle (b.starts idle left')).output;
            strings = s.strings;
          },
          e,
          (a.keeps, refl),
        )

    c_sim_start_flaw-live :
        (input : ℕ → Number)
        → s.lua ≡ none
        → I s.idle
        → (y : Live W) × (c_sim_start_flaw lua script input (record s { override = true })
            ≡ ok tt (record (live y) { override = true }))
          × Sound y
    unfolding c_sim_start_flaw
    c_sim_start_flaw-live input no_lua left = elim (Bool-cases (wants_console input)) [
      | inl t ↦ rw t (
          start_script-live input true 0 (ConsoleCall.topped ∷ ConsoleCall.turned_on ∷ s.windows)
            no_lua left)
      | inr f ↦ rw f (start_script-live input s.console s.console_top s.windows no_lua left)
    ]

    -- The first call of CCalculateEx after CSimStart.
    pub c_calculate_ex-started :
        (input : ℕ → Number)
        → s.lua ≡ none
        → I s.idle
        → (y : Live W) × (c_calculate_ex lua script input (record s { override = true })
            ≡ ok tt (live y))
          × Stepped y
    unfolding c_calculate_ex
    c_calculate_ex-started input no_lua left =
        let (x, e, sound) = c_sim_start_flaw-live input no_lua left in
        let shown = show_console-Shown (live x) input in
        let x' : Live W = record x {
          console = shown.console;
          console_top = shown.console_top;
          windows = shown.windows;
        } in
        rw (e, shown.result) (step-live x' input sound)
