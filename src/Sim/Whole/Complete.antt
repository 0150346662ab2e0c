-- ===== src/Sim/Whole/Complete.antt =====
-- Whole simulations, from CSimStart to CSimStop.
use profi_lua.Base.{
  ℕ, ◌-◌, ◌≤◌, ◌<◌, ◌≡◌, refl, false, none, some, List, [], ◌∷◌, ◌++◌, map, pos, Returns, returns,
  Returns-bind,
}
use profi_lua.Lua.{Lua, Value, Number, int}
use profi_lua.Lua.Stack.{new_table}
use profi_lua.Sim.State.{Name, Script, Sim}
use profi_lua.Sim.Vm.{number_of}
use profi_lua.Sim.Calculate.{c_sim_start, c_sim_stop, pl_ok}
use profi_lua.Sim.Step.{inputs_of}
use profi_lua.Sim.Names.{marks}
use profi_lua.Sim.Stop.{
  Stops, c_sim_stop-closed, closed-IsClosed, new_user, user_entry, new_user-number,
}
use profi_lua.Sim.Host.{Arrays, Call, host, serve}
use profi_lua.Sim.Whole.{Proper}
use profi_lua.Sim.Whole.Live.{
  Live, live, Stepped, Answered, c_calculate_ex-live, c_calculate_ex-started,
}

module _ {W : Type 0} (lua : Lua) (script : Script W) (I P : W → Type 0) (s : Sim W)
    (p : Proper lua script I P s.file_num s.num_inputs s.num_outputs) where
  -- The simulation has ended without an error: the script and the console are closed, the outputs
  -- are those of the script's last answer, and PUser has the numbers of its last table.
  pub record Completed (z : Sim W) : Type 0 where
    pub no_error : z.error ≡ false
    pub is_ok : z.output 0 ≡ pl_ok
    pub closed_lua : z.lua ≡ none
    pub left : I z.idle
    pub file_num : z.file_num ≡ s.file_num
    pub num_inputs : z.num_inputs ≡ s.num_inputs
    pub num_outputs : z.num_outputs ≡ s.num_outputs
    pub closed_console : z.console ≡ false
    pub started : z.override ≡ false
    pub last : Live W
    pub answered : Answered lua script I P s p last
    pub outputs : z.output ≡ last.output
    pub strings : z.strings ≡ last.strings
    pub function : ℕ
    pub entries : List (Value × Value)
    pub value : Value
    pub world : W
    pub defined : script.global Name.sim_stop last.world ≡ Value.function function
    pub answer : script.call function (new_table entries) last.world ≡ some (value, world)
    pub table : ℕ
    pub user_table : script.global Name.user_table world ≡ Value.table table
    pub user :
        (i : ℕ) → i < 100 → number_of lua (user_entry lua script table world i) ≡ some (z.user i)

  module _ (some_in : 1 ≤ s.num_inputs) (few_in : s.num_inputs ≤ 100)
      (few_out : s.num_outputs ≤ 100) where
    -- The last call.
    stop-Completed :
        (x : Live W) (input : ℕ → Number)
        → Stepped lua script I P s p x
        → Returns (λ _ z. Completed z) (c_sim_stop lua script input (live lua script I P s p x))
    stop-Completed x input ((holds, is_ok), answered) =
        let entries =
          inputs_of (marks p.in_text s.num_inputs) (λ i. int (pos 0)) input (s.num_inputs - 1) 1 in
        let a = p.stops x.world entries holds in
        let b : Stops lua script (live lua script I P s p x) input x.world = record {
          function = a.function;
          result = a.result;
          world = a.world;
          table = a.table;
          defined = a.defined;
          answer = a.answer;
          user_table = a.user_table;
          numbers = a.numbers;
        } in
        let z = closed-IsClosed (record (live lua script I P s p x) {
          lua = none;
          idle = script.close_lua a.world;
          user = new_user lua script a.table a.world 0 100 s.user;
        }) in
        rw
          (c_sim_stop-closed lua script (live lua script I P s p x) input x.stack x.world refl refl
            some_in few_in b)
          (rw z.state (
            returns (record {
              no_error = refl;
              is_ok = is_ok;
              closed_lua = refl;
              left = a.leaves;
              file_num = refl;
              num_inputs = refl;
              num_outputs = refl;
              closed_console = refl;
              started = refl;
              last = x;
              answered = answered;
              outputs = refl;
              strings = refl;
              function = a.function;
              entries = entries;
              value = a.result;
              world = a.world;
              defined = a.defined;
              answer = a.answer;
              table = a.table;
              user_table = a.user_table;
              user =
                  λ i to. new_user-number lua script a.table a.world s.user i to (a.numbers i to);
            })))

    -- Any number of steps, and the stop.
    steps-Completed :
        (inputs : List Arrays) (last : ℕ → Number) (x : Live W)
        → Stepped lua script I P s p x
        → Returns
            (λ _ z. Completed z)
            (host lua script
              (map Call.calculate inputs ++ Call.stop last ∷ [])
              (live lua script I P s p x))
    unfolding host serve
    steps-Completed [] last x stepped =
        Returns-bind (stop-Completed x last stepped) (λ _ z c. returns c)
    steps-Completed (a ∷ inputs) last x (sound, answered) =
        let (y, e, stepped) =
          c_calculate_ex-live lua script I P s p some_in few_in few_out
            (record x { strings = a.texts }) a.input sound in
        rw e (steps-Completed inputs last y stepped)

    -- A simulation runs to its end: `CSimStart`, at least one `CCalculateEx` and `CSimStop` return,
    -- for any inputs and any texts in PString, new ones for each step, when the script keeps the
    -- promises of `Proper`, no Lua state is open before, what the last one has left has `I`, and
    -- there are at most 100 pins of each kind, the console input among them. In the end `I` holds
    -- again of what is left, no error is set and POutput[0] is OK, the other outputs have the numbers
    -- and texts of a table that `gCalculate` has returned, each by its kind, `gSimStop` was called in
    -- the state after that call, the script and the console are closed, and PUser[0] to PUser[99]
    -- have the numbers of the table `gPUser` after `gSimStop`.
    pub host-Completed :
        (first : Arrays) (inputs : List Arrays) (last : ℕ → Number)
        → s.lua ≡ none
        → I s.idle
        → Returns
            (λ _ z. Completed z)
            (host lua script
              (Call.start ∷ Call.calculate first ∷ map Call.calculate inputs ++ Call.stop last ∷ [])
              s)
    unfolding host serve c_sim_start
    host-Completed first inputs last no_lua left =
        let (y, e, (sound, a)) =
          c_calculate_ex-started lua script I P (record s { strings = first.texts }) p some_in
            few_in few_out first.input no_lua left in
        let answered : Answered lua script I P s p y = record {
          before = a.before;
          entries = a.entries;
          function = a.function;
          table = a.table;
          defined = a.defined;
          answer = a.answer;
          numbers = a.numbers;
          texts = a.texts;
        } in
        rw e (steps-Completed inputs last y (sound, answered))
