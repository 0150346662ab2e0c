-- ===== src/Libraries/Examples.antt =====
-- Globals as functions of their names, in a Lua state with no library of its own.
mod Messages
use profi_lua.Base.{
  zero, suc, List, ◌++◌, length, raise, Returns, ℕ, ◌≡◌, refl, ◌↔◌, true, false, Option, none, [],
  ◌∷◌, if◌then◌else◌, ok, ℤ, pos, negsuc, ap, arith,
}
use profi_lua.Lua.{Lua, Value, Number, int, integer, truncate}
use profi_lua.Lua.Stack.{one}
use profi_lua.Midi.State.{Midi, Winmm}
use profi_lua.Midi.Api.{pl_count_devices}
use profi_lua.Midi.Wire.{is_kept}
use profi_lua.Sim.Calculate.{wants_console}
use profi_lua.Libraries.{Registry, Function, entry}
use profi_lua.Libraries.Open.{
  open_libs, luaopen_profilua, luaopen_profibit, luaopen_profimidi, luaopen_profiserial, logic_high,
  logic_low, logic_high_thres,
}
use profi_lua.Libraries.Loopback.{Loopback, run, reads, bytes_then, send-read}
use profi_lua.Libraries.Loopback.Bytes.{low_byte}
use profi_lua.Serial.Ports.{Ports}
use profi_lua.Libraries.Constants.{midi_globals_agree, IsNamed, wants_console-global, greater}
use Prim.Native.String.{String}
use text.Mathlib.Text.{◌==◌}

-- The values of the globals, and the functions of their tables.
pub record Globals : Type 0 where
  pub values : String → Value
  pub fields : String → String → Option Function

abbrev pub registry : Registry Globals Function
registry = record {
  register = λ n fs g. record g {
    fields = λ m key. if n == m then entry key fs (g.fields m key) else g.fields m key;
  };
  set_global = λ n v g. record g { values = λ m. if n == m then v else g.values m };
  global = λ m g. g.values m;
  field = λ m key g. g.fields m key;
  global-set_global = λ n m v g. refl;
  global-register = λ n m fs g other. refl;
  field-register = λ n m key fs g. refl;
  field-set_global = λ n m key v g other. refl;
}

abbrev pub empty : Globals
empty = record { values = λ m. Value.nil; fields = λ m key. none }

abbrev pub no_library : Globals → Globals
no_library g = g

abbrev pub lua : Lua
lua = record {
  str_to_number = λ _. none;
  number_to_str = λ _. [];
  number_to_integer = truncate;
  number_out_of_range = truncate;
}

exact : (z : ℤ) → truncate (integer z) ≡ z
exact (pos n) = ap pos (omega arith)
exact (negsuc n) = ground arith

-- Two inputs and one output.
abbrev pub driver : Winmm ℕ
driver = record {
  out_open = λ num d. (none, d);
  out_reset = λ hd d. d;
  out_close = λ hd d. d;
  out_short_msg = λ hd msg d. d;
  out_num_devs = λ d. 1;
  out_name = λ num d. none;
  in_open = λ num d. (none, d);
  in_start = λ hd d. d;
  in_reset = λ hd d. d;
  in_close = λ hd d. d;
  in_num_devs = λ d. 2;
  in_name = λ num d. none;
}

abbrev midi : Midi ℕ
midi = record {
  outs = record { head = 0; heap = λ a. none };
  ins = record { head = 0; heap = λ a. none };
  events = λ a. none;
  driver = 0;
}

midi_globals_agree_example :
    ((c : ℕ) → (is_kept c ≡ true) ↔ IsNamed registry no_library empty c)
    × (pl_count_devices lua driver
          (registry.global "MIDIIN" (open_libs registry no_library empty) ∷ [])
          midi
        ≡ ok (one (int (pos 2))) midi)
    × (pl_count_devices lua driver
          (registry.global "MIDIOUT" (open_libs registry no_library empty) ∷ [])
          midi
        ≡ ok (one (int (pos 1))) midi)
midi_globals_agree_example = midi_globals_agree registry no_library empty lua driver midi exact

wants_console-global_example :
    ((input : ℕ → Number) → wants_console input ≡ greater (input 0) logic_high_thres)
    × (wants_console (λ _. logic_high_thres) ≡ false)
    × (wants_console (λ _. logic_high) ≡ true)
    × (wants_console (λ _. logic_low) ≡ false)
unfolding open_libs luaopen_profilua luaopen_profibit luaopen_profimidi luaopen_profiserial
wants_console-global_example =
    wants_console-global registry no_library empty logic_high_thres logic_high logic_low refl refl
      refl

-- A port whose state is its receive buffer.
abbrev line : Ports (List ℕ)
line = record {
  mount = λ d. (pos 1, d);
  unmount = λ h d. (true, d);
  check = λ h p d. (true, d);
  open_port = λ h p d. (true, d);
  close_port = λ h d. (true, d);
  send_byte = λ h b d. (true, d ++ low_byte b ∷ []);
  buffer_count = λ h d. (pos (length d), d);
  config = λ h a b c e d. (true, d);
  read_byte = λ h d. elim d [ [] ↦ (negsuc 0, []) | b ∷ bs ↦ (pos b, bs) ];
  buffer_flush = λ h d. (true, []);
}

line-Loopback : Loopback line (pos 1)
line-Loopback = record {
  buffer = λ d. d;
  accepted = λ b d. refl;
  sent = λ b d. refl;
  counted = λ d. refl;
  counting = λ d. refl;
  first = λ b bs d held. rw held refl;
  rest = λ b bs d held. rw held refl;
  empty = λ d held. rw held (0, refl);
  stays_empty = λ d held. rw held refl;
}

-- The table 3 is `{ 300, "A\200" }`: 300 reads as 44.
abbrev entries : ℕ → ℕ → Value
entries t zero = Value.nil
entries t (suc zero) = int (pos 300)
entries t (suc (suc zero)) = Value.string (65 ∷ 200 ∷ [])
entries t (suc (suc (suc i))) = Value.nil

send-read_example :
    Returns
      (λ replies u.
        ((n : ℕ) × (replies
            ≡ one (int (pos 3)) ∷ one (int (pos 3)) ∷ bytes_then (44 ∷ 65 ∷ 200 ∷ []) n))
        × (u ≡ []))
      (run lua line entries 9
        (λ f args. raise)
        registry
        (open_libs registry no_library empty)
        (("Send", int (pos 1) ∷ Value.table 3 ∷ [])
          ∷ ("BufferCount", int (pos 1) ∷ [])
          ∷ reads (int (pos 1)) 3)
        [])
unfolding line-Loopback
send-read_example =
    send-read lua line entries 9 (λ f args. raise) registry no_library empty (int (pos 1))
      line-Loopback 3 (int (pos 300) ∷ Value.string (65 ∷ 200 ∷ []) ∷ []) [] refl
      (refl, refl, (refl, refl, refl)) refl (omega arith)
