-- ===== src/Sim/Examples.antt =====
-- The host with a small script: two inputs and two outputs, of which the second is a text.
use profi_lua.Base.{
  ℕ, suc, ◌≡◌, refl, false, none, some, [], ◌∷◌, ◌==◌, ok, fault, arith, pos, if◌then◌else◌, ◌>>◌,
  After, ◌≤◌, ◌<◌, ◌⊎◌, inl, inr,
}
use profi_lua.Lua.{Lua, Value, Number, int, integer, truncate}
use profi_lua.Lua.Stack.{value}
use profi_lua.Sim.State.{Name, Script, Sim}
use profi_lua.Sim.Script.{get_input_name, c_num_inputs_ex, c_num_outputs_ex}
use profi_lua.Sim.Outputs.{read_outputs}
use profi_lua.Sim.Calculate.{step, c_sim_start, c_sim_stop, c_calculate_ex}
use profi_lua.Sim.Results.{Fits}
use profi_lua.Sim.Step.{c_calculate_ex-stepped, stepped, Answers}
use profi_lua.Sim.Pins.{c_num_ex-counts}
use profi_lua.Sim.Console.{Agrees}
use profi_lua.Sim.Host.{Arrays, Call, host, host-Agrees}
use profi_lua.Sim.Failures.{read_outputs-underflow, c_sim_start-c_sim_stop, get_input_name-step}

abbrev lua : Lua
lua = record {
  str_to_number = λ _. none;
  number_to_str = λ _. [];
  number_to_integer = truncate;
  number_out_of_range = truncate;
}

-- The state counts the steps. Output 1 is the number of steps, and output 2 the text "B".
abbrev script : Script ℕ
script = record {
  open_lua = λ w. some w;
  close_lua = λ w. w;
  run_file = λ file w. ([], w);
  global = λ name w. elim name [
    | Name.num_inputs ↦ int (pos 2)
    | Name.num_outputs ↦ int (pos 2)
    | Name.input_name ↦ Value.function 2
    | Name.calculate ↦ Value.function 1
    | _ ↦ Value.nil
  ];
  set_user = λ _ w. w;
  call =
      λ f arg w. if f == 1 then some (Value.table 5, suc w) else some (Value.string (65 ∷ []), w);
  entry = λ t i w. if i == 1 then int (pos w) else Value.string (66 ∷ []);
}

-- Both counts are one more than the script gives.
abbrev sim : Sim ℕ
sim = record {
  lua = some (record { stack = []; world = 7 });
  idle = 0;
  num_inputs = 3;
  num_outputs = 3;
  error = false;
  file_num = 1;
  console = false;
  console_top = 0;
  in_marker = λ _. false;
  out_marker = λ i. i == 2;
  override = false;
  output = λ _. integer (pos 0);
  user = λ _. integer (pos 1);
  strings = λ _. [];
  windows = [];
}

abbrev unmarked : Sim ℕ
unmarked = record sim {
  lua = some (record { stack = value (Value.table 5) ∷ []; world = 8 });
  out_marker = λ _. false;
}

abbrev no_input : ℕ → Number
no_input i = integer (pos 0)

fits : (m : ℕ) → 1 ≤ m → m < 3 → Fits lua script 5 8 (m == 2) m
fits m from to = elim (one_or_two m from to) [
  | inl e ↦ rw e (integer (pos 8), refl)
  | inr e ↦ rw e (66 ∷ [], refl)
]
  where
    one_or_two : (m : ℕ) → 1 ≤ m → m < 3 → (m ≡ 1) ⊎ (m ≡ 2)
    one_or_two m from to = ground arith

answers : Answers lua script sim no_input 7 5 8
answers = record {
  function = 1;
  defined = refl;
  answer = refl;
  fits = λ m from to. fits m from (omega arith);
}

c_calculate_ex-stepped_example :
    c_calculate_ex lua script no_input sim ≡ ok tt (stepped lua script sim [] 5 8)
c_calculate_ex-stepped_example =
    c_calculate_ex-stepped lua script sim no_input [] 7 8 5 refl refl refl refl refl (omega arith)
      (omega arith) (omega arith) answers

counted_twice :
    (c_num_inputs_ex lua script (λ _. integer (pos 4)) (record sim { lua = none })
      ≡ ok 3 (record sim { lua = none; file_num = 4; num_inputs = 3; idle = 0 }))
    × (c_num_outputs_ex lua script (λ _. integer (pos 4)) (record sim { lua = none })
        ≡ ok 3 (record sim { lua = none; file_num = 4; num_outputs = 3; idle = 0 }))
counted_twice =
    c_num_ex-counts lua script (λ _. integer (pos 4)) (record sim { lua = none }) 0
      (integer (pos 2)) (integer (pos 2)) refl refl refl refl

-- Output 2 is not marked, and gets a text.
read_outputs-underflow_example : read_outputs lua script 2 2 unmarked ≡ fault
read_outputs-underflow_example =
    read_outputs-underflow lua script unmarked 0 2 5 8 refl (omega arith) refl refl

stopped_before_step :
    (c_sim_start lua script >> c_sim_stop lua script no_input) (record sim { lua = none }) ≡ fault
stopped_before_step =
    c_sim_start-c_sim_stop lua script no_input (record sim { lua = none }) refl refl

get_input_name-step_example :
    (get_input_name lua script 1 100 >> step lua script no_input) sim ≡ fault
get_input_name-step_example =
    get_input_name-step lua script no_input sim (record { stack = []; world = 7 }) 1 100 2
      (Value.string (65 ∷ [])) 7 (65 ∷ []) refl refl refl (omega arith) refl refl refl (omega arith)

-- A start with the console wanted, two steps, and the stop.
abbrev high : ℕ → Number
high i = integer (pos 5)

abbrev highs : Arrays
highs = record { input = high; texts = λ i. [] }

host-Agrees_example : After Agrees (
    host lua script
      (Call.start ∷ Call.calculate highs ∷ Call.calculate highs ∷ Call.stop high ∷ [])
      (record sim { lua = none }))
host-Agrees_example =
    host-Agrees lua script
      (Call.start ∷ Call.calculate highs ∷ Call.calculate highs ∷ Call.stop high ∷ [])
      (record sim { lua = none }) (record { flag = refl; closes = tt })
