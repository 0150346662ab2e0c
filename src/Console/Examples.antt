-- ===== src/Console/Examples.antt =====
-- A simulation that has failed and shows its console, and a stack of three values.
use profi_lua.Base.{ℕ, ◌≡◌, refl, true, false, none, [], ◌∷◌, ◌++◌, ok, pos, After, Returns}
use profi_lua.Lua.{Lua, Value, Number, integer, truncate}
use profi_lua.Lua.Stack.{value}
use profi_lua.Sim.State.{Script, Sim}
use profi_lua.Sim.Host.{Arrays, Call, host}
use profi_lua.Console.{Console}
use profi_lua.Console.Replay.{Shows, replay, host-Shows}
use profi_lua.Console.Stack.{debug_lua_stack, all_lines, title, debug_lua_stack-all_lines}

abbrev lua : Lua
lua = record {
  str_to_number = λ _. none;
  number_to_str = λ _. [];
  number_to_integer = truncate;
  number_out_of_range = truncate;
}

abbrev script : Script ℕ
script = record {
  open_lua = λ w. none;
  close_lua = λ w. w;
  run_file = λ file w. ([], w);
  global = λ name w. Value.nil;
  set_user = λ _ w. w;
  call = λ f arg w. none;
  entry = λ t i w. Value.nil;
}

abbrev failed : Sim ℕ
failed = record {
  lua = none;
  idle = 0;
  num_inputs = 1;
  num_outputs = 1;
  error = true;
  file_num = 1;
  console = false;
  console_top = 0;
  in_marker = λ _. false;
  out_marker = λ _. false;
  override = false;
  output = λ _. integer (pos 0);
  user = λ _. integer (pos 1);
  strings = λ _. [];
  windows = [];
}

abbrev hidden : Console
hidden = record { fin = none; fout = none; ferr = none; is_open = λ _. false; console = false }

abbrev high : ℕ → Number
high i = integer (pos 5)

abbrev highs : Arrays
highs = record { input = high; texts = λ i. [] }

host-Shows_example :
    After
      (λ z. Returns (λ _. Shows z.console) (replay (λ _. true) z.windows hidden))
      (host lua script
        (Call.calculate highs ∷ Call.calculate highs ∷ Call.stop high ∷ Call.calculate highs ∷ [])
        failed)
host-Shows_example =
    host-Shows (λ _. true) (λ f. refl) lua script
      (Call.calculate highs ∷ Call.calculate highs ∷ Call.stop high ∷ Call.calculate highs ∷ [])
      failed hidden refl refl (refl, refl, refl, refl, λ f. refl)

debug_lua_stack-all_lines_example :
    debug_lua_stack
      (λ _. b'x' ∷ [])
      (λ n. b'5' ∷ [])
      (value (Value.number (integer (pos 5))) ∷ value (Value.boolean true) ∷ value Value.nil ∷ [])
      []
    ≡ ok tt (
        []
        ++ (title
            ++ all_lines
                (λ _. b'x' ∷ [])
                (λ n. b'5' ∷ [])
                (value (Value.number (integer (pos 5)))
                  ∷ value (Value.boolean true)
                  ∷ value Value.nil
                  ∷ [])
            ++ 10 ∷ []))
debug_lua_stack-all_lines_example =
    debug_lua_stack-all_lines (λ _. b'x' ∷ []) (λ n. b'5' ∷ [])
      (value (Value.number (integer (pos 5))) ∷ value (Value.boolean true) ∷ value Value.nil ∷ [])
      []
