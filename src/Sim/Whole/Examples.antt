-- ===== src/Sim/Whole/Examples.antt =====
-- A script with two inputs and two outputs, that counts its calls. Its second output is a text.
use profi_lua.Base.{
  ℕ, suc, ◌≡◌, ◌≤◌, ◌<◌, ◌⊎◌, inl, inr, refl, Bool, true, false, none, some, List, [], ◌∷◌, ◌==◌,
  ok, arith, pos, if◌then◌else◌, Returns,
}
use profi_lua.Lua.{Lua, Value, Number, int, integer, truncate, above_halves}
use profi_lua.Lua.Stack.{Pushed, value}
use profi_lua.Sim.State.{Name, Script, Sim}
use profi_lua.Sim.Names.{Names}
use profi_lua.Sim.Calculate.{c_sim_stop}
use profi_lua.Sim.Stop.{Stops, new_user, closed, c_sim_stop-closed}
use profi_lua.Sim.Host.{Arrays, Call, host}
use profi_lua.Sim.Latch.{Abandoned, host-Abandoned}
use profi_lua.Sim.Whole.{Proper}
use profi_lua.Sim.Whole.Lifecycle.{Inputs, CountsAfter, Completes, counted, host-counts-Completes}
use profi_lua.Sim.Whole.Complete.{Completed, host-Completed}

abbrev lua : Lua
lua = record {
  str_to_number = λ _. none;
  number_to_str = λ _. [];
  number_to_integer = truncate;
  number_out_of_range = truncate;
}

-- "A", and "$T", which marks a text.
abbrev plain : List ℕ
plain = b'A' ∷ []

abbrev marked : List ℕ
marked = b'$' ∷ b'T' ∷ []

abbrev is_two : Pushed → Bool
is_two (value (Value.number n)) = above_halves 3 n
is_two _ = false

abbrev script : Script ℕ
script = record {
  open_lua = λ w. some w;
  close_lua = λ w. w;
  run_file = λ file w. (value Value.nil ∷ [], w);
  global = λ name w. elim name [
    | Name.num_inputs ↦ int (pos 2)
    | Name.num_outputs ↦ int (pos 2)
    | Name.input_name ↦ Value.function 2
    | Name.output_name ↦ Value.function 3
    | Name.user_table ↦ Value.table 7
    | _ ↦ Value.function 1
  ];
  set_user = λ _ w. w;
  call = λ f arg w.
      if f == 1
      then some (Value.table 5, suc w)
      else if f == 2
      then some (Value.string plain, w)
      else some (Value.string (if is_two arg then marked else plain), w);
  entry =
      λ t i w. if t == 7 then int (pos i) else if i == 2 then Value.string plain else int (pos w);
}

abbrev out_text : ℕ → List ℕ
out_text i = if i == 2 then marked else plain

abbrev sim : Sim ℕ
sim = record {
  lua = none;
  idle = 0;
  num_inputs = 3;
  num_outputs = 3;
  error = false;
  file_num = 1;
  console = false;
  console_top = 0;
  in_marker = λ _. false;
  out_marker = λ _. false;
  override = false;
  output = λ _. integer (pos 0);
  user = λ _. integer (pos 1);
  strings = λ _. [];
  windows = [];
}

one_or_two : {m : ℕ} → 1 ≤ m → m < 3 → (m ≡ 1) ⊎ (m ≡ 2)
one_or_two from to = ground arith

-- Nothing is asked of what a closed script leaves.
abbrev Any : ℕ → Type 0
Any w = Unit {0}

in-Names : Names lua script Any Name.input_name 1 3 (λ _. plain)
in-Names idle left = record {
  world = idle;
  memory = refl;
  function = 2;
  defined = refl;
  names = λ i from to. (Value.string plain, idle, refl, refl, omega arith, tt);
}

out-Names : Names lua script Any Name.output_name 1 3 out_text
out-Names idle left = record {
  world = idle;
  memory = refl;
  function = 3;
  defined = refl;
  names = λ i from to. elim (one_or_two from to) [
    | inl e ↦ rw e (Value.string plain, idle, refl, refl, omega arith, tt)
    | inr e ↦ rw e (Value.string marked, idle, refl, refl, omega arith, tt)
  ];
}

proper : Proper lua script Any (λ w. 1 ≤ w) 1 3 3
proper = record {
  in_text = λ _. plain;
  out_text = out_text;
  in_names = in-Names;
  out_names = out-Names;
  starts = λ user entries idle left. (
    idle,
    refl,
    record {
      function = 1;
      table = 5;
      world = suc idle;
      defined = refl;
      answer = refl;
      keeps = omega arith;
      numbers = λ m from to no_mark. elim (one_or_two from to) [
        | inl e ↦ rw e (integer (pos (suc idle)), refl)
        | inr e ↦ let absurd : true ≡ false = rw e at no_mark in (integer (pos 0), ground arith)
      ];
    },
  );
  steps = λ w entries holds. record {
    function = 1;
    table = 5;
    world = suc w;
    defined = refl;
    answer = refl;
    keeps = omega arith;
    fits = λ m from to. elim (one_or_two from to) [
      | inl e ↦ rw e (integer (pos (suc w)), refl)
      | inr e ↦ rw e (plain, refl)
    ];
  };
  stops = λ w entries holds. record {
    function = 1;
    result = Value.table 5;
    world = suc w;
    table = 7;
    defined = refl;
    answer = refl;
    leaves = tt;
    user_table = refl;
    numbers = λ i to. (integer (pos (suc i)), refl);
  };
}

abbrev high : ℕ → Number
high i = integer (pos 5)

abbrev any_texts : ℕ → List ℕ
any_texts i = i ∷ []

abbrev low : ℕ → Number
low i = integer (pos 0)

abbrev highs : Arrays
highs = record { input = high; texts = any_texts }

abbrev lows : Arrays
lows = record { input = low; texts = λ i. [] }

host-Completed_example :
    Returns
      (λ _ z. Completed lua script Any (λ w. 1 ≤ w) sim proper z)
      (host lua script
        (Call.start ∷ Call.calculate lows ∷ Call.calculate highs ∷ Call.stop low ∷ [])
        sim)
host-Completed_example =
    host-Completed lua script Any (λ w. 1 ≤ w) sim proper (omega arith) (omega arith) (omega arith)
      lows (highs ∷ []) low refl tt

abbrev running : Sim ℕ
running = record sim { lua = some (record { stack = []; world = 4 }); console = true }

abbrev stops : Stops lua script running low 4
stops = record {
  function = 1;
  result = Value.table 5;
  world = 5;
  table = 7;
  defined = refl;
  answer = refl;
  user_table = refl;
  numbers = λ i to. (integer (pos (suc i)), refl);
}

c_sim_stop-closed_example :
    c_sim_stop lua script low running
    ≡ ok tt (
        closed (record running {
          lua = none;
          idle = 5;
          user = new_user lua script 7 5 0 100 (λ _. integer (pos 1));
        }))
c_sim_stop-closed_example =
    c_sim_stop-closed lua script running low [] 4 refl refl (omega arith) (omega arith) stops

-- A run with an error goes on to its end.
host-Abandoned_example :
    Returns
      (λ _ z. Abandoned (record running { error = true; strings = lows.texts }) z)
      (host lua script
        (Call.calculate highs ∷ Call.calculate lows ∷ Call.stop low ∷ [])
        (record running { error = true }))
host-Abandoned_example =
    host-Abandoned lua script (record running { error = true }) highs (lows ∷ []) low refl refl

-- Before the simulator has asked for anything. PUser[100] is 1.
abbrev loaded : Sim ℕ
loaded = record sim { num_inputs = 0; num_outputs = 0; file_num = 0 }

abbrev one : ℕ → Number
one i = integer (pos 1)

counts :
    (idle : ℕ) → Any idle → CountsAfter lua script Any 1 (integer (pos 2)) (integer (pos 2)) idle
counts idle left = record {
  world = idle;
  memory = refl;
  inputs = refl;
  outputs = refl;
  leaves = tt;
}

-- Two simulations, of two steps and of one.
abbrev runs : List Inputs
runs =
    record { first = lows; others = highs ∷ []; last = low }
    ∷ record { first = highs; others = []; last = high }
    ∷ []

host-counts-Completes_example :
    (idle : ℕ) × (host lua script (Call.num_inputs one ∷ Call.num_outputs one ∷ []) loaded
      ≡ ok tt
          (counted lua script Any (λ w. 1 ≤ w) one loaded (integer (pos 2)) (integer (pos 2)) idle))
    × Completes lua script Any
        (λ w. 1 ≤ w)
        runs
        (counted lua script Any (λ w. 1 ≤ w) one loaded (integer (pos 2)) (integer (pos 2)) idle)
        proper
host-counts-Completes_example =
    host-counts-Completes lua script Any (λ w. 1 ≤ w) one loaded (integer (pos 2)) (integer (pos 2))
      proper runs refl tt counts (omega arith) (omega arith) (omega arith)
