-- ===== src/Program/Examples.antt =====
-- A script that fetches an event at each step, and a message that arrives between two steps.
use profi_lua.Base.{
  ℕ, ◌≡◌, refl, subst, false, none, some, Option, [], ◌∷◌, ok, raised, fault, out_of_fuel, arith,
  pos, Returns-result, Run, After,
}
use profi_lua.Lua.{Value, Number, int, integer}
use profi_lua.Midi.State.{Midi}
use profi_lua.Midi.Wire.{midi_receive}
use profi_lua.Midi.Session.{Op, perform, session, Allocates}
use profi_lua.Midi.Examples.{lua, driver, two, s4, r4, σ4, s4-unused, Log}
use profi_lua.Sim.State.{Script, Sim}
use profi_lua.Sim.Worlds.{Turn}
use profi_lua.Sim.Step.{Answers, stepped, c_calculate_ex-stepped}
use profi_lua.Midi.Session.Calls.{Promised}
use profi_lua.Midi.Session.Safe.{session-Promised}
use profi_lua.Midi.Spec.Receive.{received, midi_receive-Refines}
use profi_lua.Sim.Host.{Arrays, Call, serve}
use profi_lua.Program.{World, Plays, PlaysOnly, Step, Reaches, with_midi}
use profi_lua.Program.Reach.{Sound, IsSafe, Reaches-IsSafe}

abbrev World2 : Type 0
World2 = World Log ℕ

abbrev fetched : World2 → Run (Midi Log) (Unit {0}) → Option (Value × World2)
fetched u (ok a m) = some (Value.table 5, record u { midi = m })
fetched u (raised m) = none
fetched u fault = none
fetched u out_of_fuel = none

-- Each function of the script fetches an event of the device 2.
abbrev script : Script World2
script = record {
  open_lua = λ u. some u;
  close_lua = λ u. u;
  run_file = λ file u. ([], u);
  global = λ name u. Value.function 1;
  set_user = λ user u. u;
  call = λ f arg u. fetched u (session lua driver 9 (Op.get_event two ∷ []) u.midi);
  entry = λ t i u. int (pos i);
}

record Arrived : Type 0 where
  midi : Midi Log
  arrives : midi_receive 9 7 2 0x7f4090 s4 ≡ ok tt midi
  promised : Promised 5 midi

fetched-runs :
    (u v : World2) (r : Value) (run : Run (Midi Log) (Unit {0}))
    → fetched u run ≡ some (r, v)
    → run ≡ ok tt v.midi
fetched-runs u v r (ok a m) e = ground arith
fetched-runs u v r (raised m) e = cc
fetched-runs u v r fault e = cc
fetched-runs u v r out_of_fuel e = cc

After-unit : (run : Run (Midi Log) (Unit {0})) → After (λ _. Unit {0}) run
After-unit (ok a m) = tt
After-unit (raised m) = tt
After-unit fault = tt
After-unit out_of_fuel = tt

idles : (m : Midi Log) → Plays lua driver m m
unfolding session Allocates
idles m = record { fuel = 0; ops = []; unused = tt; runs = refl }

only : PlaysOnly lua driver script
unfolding Allocates
only u v (Turn.opens e) =
    let same : u.midi ≡ v.midi = ground arith in subst (Plays lua driver u.midi) same (idles u.midi)
only u v (Turn.closes _) = idles u.midi
only u v (Turn.runs_file file _) = idles u.midi
only u v (Turn.sets_user user _) = idles u.midi
only u v (Turn.calls f arg r e) = record {
  fuel = 9;
  ops = Op.get_event two ∷ [];
  unused = (tt, After-unit (perform lua driver 9 (Op.get_event two) u.midi));
  runs = fetched-runs u v r (session lua driver 9 (Op.get_event two ∷ []) u.midi) e;
}

abbrev sim : Sim World2
sim = record {
  lua = some (record { stack = []; world = record { midi = s4; rest = 0 } });
  idle = record { midi = s4; rest = 0 };
  num_inputs = 2;
  num_outputs = 2;
  error = false;
  file_num = 1;
  console = false;
  console_top = 0;
  in_marker = λ _. false;
  out_marker = λ _. false;
  override = false;
  output = λ _. integer (pos 0);
  user = λ _. integer (pos 1);
  strings = λ _. [];
  windows = [];
}

sound : Sound lua driver script only sim
sound = ((4, (σ4, r4)), record { flag = refl; closes = tt })

abbrev low : ℕ → Number
low i = integer (pos 0)

abbrev lows : Arrays
lows = record { input = low; texts = λ _. [] }

-- A note on arrives at the device, and then the simulator makes a step.
arrival : Arrived
arrival =
    let (_, t, e, p) =
      Returns-result (midi_receive-Refines 9 7 2 0x7f4090 r4 (omega arith) s4-unused) in
    record { midi = t; arrives = e; promised = (received 7 2 0x7f4090 σ4, p.0) }

abbrev before : Sim World2
before = with_midi lua driver script arrival.midi sim

record Fetched : Type 0 where
  midi : Midi Log
  runs : session lua driver 9 (Op.get_event two ∷ []) arrival.midi ≡ ok tt midi

fetch : Fetched
unfolding Allocates
fetch =
    let (_, t, e, p) = Returns-result (
      session-Promised lua driver 9 (Op.get_event two ∷ []) 5 arrival.midi arrival.promised
        (omega arith) (tt, After-unit (perform lua driver 9 (Op.get_event two) arrival.midi))) in
    record { midi = t; runs = e }

abbrev world : World2
world = record { midi = fetch.midi; rest = 0 }

answers : Answers lua script before low (record { midi = arrival.midi; rest = 0 }) 5 world
answers = record {
  function = 1;
  defined = refl;
  answer = rw fetch.runs;
  fits = λ m from to. (integer (pos m), refl);
}

abbrev after : Sim World2
after = stepped lua script before [] 5 world

steps : serve lua script (Call.calculate lows) before ≡ ok tt after
unfolding serve
steps =
    c_calculate_ex-stepped lua script before low [] (record { midi = arrival.midi; rest = 0 }) world
      5 refl refl refl refl refl (omega arith) (omega arith) (omega arith) answers

reached : Reaches lua driver script sim after
reached =
    Reaches.next
      (Reaches.next Reaches.here
        (Step.arrives sim {m = arrival.midi} 9 7 2 0x7f4090 s4-unused arrival.arrives))
      (Step.serves (Call.calculate lows) steps)

Reaches-IsSafe_example : IsSafe lua driver script only after
Reaches-IsSafe_example = Reaches-IsSafe lua driver script only sound reached
