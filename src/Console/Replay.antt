-- ===== src/Console/Replay.antt =====
-- The console after the calls that the simulation host makes of it.
use profi_lua.Base.{
  ◌≡◌, refl, Bool, true, false, none, some, List, [], ◌∷◌, Cmd, ok, pure, ◌>>◌, After, Returns,
  returns, Returns-bind, After-mono, if◌then◌else◌,
}
use profi_lua.Lua.{Lua}
use profi_lua.Sim.State.{Script, Sim, ConsoleCall}
use profi_lua.Sim.Console.{ClosesOpen, is_shown}
use profi_lua.Sim.Host.{Call, host, host-Agrees}
use profi_lua.Console.{
  Stream, is_same, Console, debug_console_on, debug_console_off, debug_console_top,
}

-- All three files, their streams and the console are open, or none of them is.
abbrev pub Shows : Bool → Console → Type 0
Shows true c =
    (c.console ≡ true)
    × (c.fin ≡ some Stream.stdin)
    × (c.fout ≡ some Stream.stdout)
    × (c.ferr ≡ some Stream.stderr)
    × ((f : Stream) → c.is_open f ≡ true)
Shows false c =
    (c.console ≡ false)
    × (c.fin ≡ none)
    × (c.fout ≡ none)
    × (c.ferr ≡ none)
    × ((f : Stream) → c.is_open f ≡ false)

abbrev turned_on : Console → Console
turned_on c = record {
  fin = some Stream.stdin;
  fout = some Stream.stdout;
  ferr = some Stream.stderr;
  is_open = λ g.
      if is_same g Stream.stderr
      then true
      else if is_same g Stream.stdin
      then true
      else if is_same g Stream.stdout
      then true
      else c.is_open g;
  console = true;
}

all_open : (c : Console) (f : Stream) → (turned_on c).is_open f ≡ true
all_open c Stream.stdin = refl
all_open c Stream.stdout = refl
all_open c Stream.stderr = refl

abbrev turned_off : Console → Console
turned_off c = record {
  fin = none;
  fout = none;
  ferr = none;
  is_open = λ g.
      if is_same g Stream.stderr
      then false
      else if is_same g Stream.stdin
      then false
      else if is_same g Stream.stdout
      then false
      else c.is_open g;
  console = false;
}

all_closed : (c : Console) (f : Stream) → (turned_off c).is_open f ≡ false
all_closed c Stream.stdin = refl
all_closed c Stream.stdout = refl
all_closed c Stream.stderr = refl

module _ (has_file : Stream → Bool) where
  unfoldable pub console_call : ConsoleCall → Cmd Console (Unit {0})
  unfolding debug_console_on debug_console_off
  console_call ConsoleCall.turned_on = debug_console_on has_file
  console_call ConsoleCall.topped = debug_console_top
  console_call ConsoleCall.turned_off = debug_console_off

  -- The calls of a log, in which the last stands first.
  unfoldable pub replay : List ConsoleCall → Cmd Console (Unit {0})
  unfolding console_call
  replay [] = pure tt
  replay (call ∷ calls) = replay calls >> console_call call

  module _ (files : (f : Stream) → has_file f ≡ true) where
    turned_on-Shows :
        (c : Console) → Returns (λ _. Shows true) (console_call ConsoleCall.turned_on c)
    unfolding console_call debug_console_on
    turned_on-Shows c =
        let is_on : console_call ConsoleCall.turned_on c ≡ ok tt (turned_on c) =
          rw (files Stream.stdout, files Stream.stdin, files Stream.stderr) in
        rw is_on (returns {s = turned_on c} (refl, refl, refl, refl, all_open c))

    turned_off-Shows :
        (c : Console)
        → Shows true c
        → Returns (λ _. Shows false) (console_call ConsoleCall.turned_off c)
    unfolding console_call debug_console_off
    turned_off-Shows c (shown, fin, fout, ferr, opened) =
        rw
          (
            fout,
            opened Stream.stdout,
            opened Stream.stdout,
            fin,
            opened Stream.stdin,
            ferr,
            opened Stream.stderr,
            opened Stream.stderr,
          )
          (returns {s = turned_off c} (refl, refl, refl, refl, all_closed c))

    replay-Shows :
        (calls : List ConsoleCall) (c : Console)
        → ClosesOpen calls
        → Shows false c
        → Returns (λ _. Shows (is_shown calls)) (replay calls c)
    unfolding replay
    replay-Shows [] c closes hidden = returns hidden
    replay-Shows (ConsoleCall.turned_on ∷ calls) c closes hidden =
        Returns-bind (replay-Shows calls c closes hidden) (λ _ z shows. turned_on-Shows z)
    replay-Shows (ConsoleCall.topped ∷ calls) c closes hidden =
        Returns-bind (replay-Shows calls c closes hidden) (λ _ z shows. returns shows)
    replay-Shows (ConsoleCall.turned_off ∷ calls) c (was, closes) hidden =
        Returns-bind (replay-Shows calls c closes hidden)
          (λ _ z shows. turned_off-Shows z (rw was at shows))

    -- After any sequence of calls by the simulator, with any script, the calls that the host has
    -- made of the console run without undefined behaviour: no file is closed that is not open. In
    -- the end the files, their streams and the console are open if `gConsole` is set, and closed
    -- otherwise, the files NULL. This
    -- holds of every state in which a sequence ends, also by an error of the script, when the
    -- console and the streams are closed at first, and a FILE can be opened for each of the three handles.
    pub host-Shows :
        {W : Type 0} (lua : Lua) (script : Script W) (cs : List Call) (s : Sim W) (c : Console)
        → s.console ≡ false
        → s.windows ≡ []
        → Shows false c
        → After (λ z. Returns (λ _. Shows z.console) (replay z.windows c)) (host lua script cs s)
    host-Shows lua script cs s c no_console no_call hidden =
        After-mono (host lua script cs s)
          (host-Agrees lua script cs s
            (record { flag = rw (no_console, no_call) refl; closes = rw no_call tt }))
          (λ z a. rw a.flag (replay-Shows z.windows c a.closes hidden))
