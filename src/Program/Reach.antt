-- ===== src/Program/Reach.antt =====
-- The states that the whole program reaches.
use profi_lua.Base.{
  ◌<◌, ℕ, ◌≡◌, List, [], ◌∷◌, ok, After, After-mono, After-both, Returns-mono, suc, Returns,
  Option-cases, inl, inr,
}
use profi_lua.Lua.{Lua}
use profi_lua.Midi.State.{Midi, Winmm}
use profi_lua.Midi.Session.{Op, perform, session, Allocates, Unused}
use profi_lua.Midi.Session.Safe.{perform-Promised}
use profi_lua.Sim.State.{Script, Sim}
use profi_lua.Sim.Worlds.{Turn, Runs-inv, world_of}
use profi_lua.Sim.Host.{Call, serve, host, host-Agrees, host-Runs}
use profi_lua.Sim.Console.{Agrees}
use profi_lua.Program.{World, Plays, PlaysOnly, Step, Reaches, with_midi}
use profi_lua.Program.Lists.{WellFormed, Plays-WellFormed}

module _ {D H : Type 0} (lua : Lua) (w : Winmm D) (script : Script (World D H))
    (only : PlaysOnly lua w script) where
  -- The lists of MIDI devices are well formed, and `gConsole` says whether the console is open.
  abbrev pub Sound : Sim (World D H) → Type 0
  Sound s = WellFormed (world_of s).midi × Agrees s

  Turn-WellFormed : (u v : World D H) → Turn script u v → WellFormed u.midi → WellFormed v.midi
  Turn-WellFormed u v t = Plays-WellFormed lua w (only u v t)

  pub host-Sound :
      (cs : List Call) (s : Sim (World D H)) → Sound s → After Sound (host lua script cs s)
  host-Sound cs s (lists, console) =
      After-both (λ (t : Sim (World D H)). WellFormed (world_of t).midi) Agrees
        (host lua script cs s)
        (After-mono (host lua script cs s) (host-Runs lua script cs s)
          (λ t runs. Runs-inv (λ u. WellFormed u.midi) Turn-WellFormed runs lists))
        (host-Agrees lua script cs s console)

  serve-Sound :
      (c : Call) {s t : Sim (World D H)} → serve lua script c s ≡ ok tt t → Sound s → Sound t
  unfolding host
  serve-Sound c {s} e sound = rw e at (host-Sound (c ∷ []) s sound)

  put_in-Sound :
      (s : Sim (World D H)) (m : Midi D)
      → Sound s
      → WellFormed m
      → Sound (with_midi lua w script m s)
  put_in-Sound s m (lists, console) formed = elim (Option-cases s.lua) [
    | inl e ↦ rw e (formed, record { flag = console.flag; closes = console.closes })
    | inr (vm, e) ↦ rw e (formed, record { flag = console.flag; closes = console.closes })
  ]

  Step-Sound : {s t : Sim (World D H)} → Step lua w script s t → Sound s → Sound t
  unfolding session perform Allocates
  Step-Sound (Step.serves c e) sound = serve-Sound c e sound
  Step-Sound (Step.arrives s {m} k fresh num msgpar unused e) sound =
      let plays : Plays lua w (world_of s).midi m = record {
        fuel = k;
        ops = Op.receive fresh num msgpar ∷ [];
        unused = (unused, rw e tt);
        runs = rw e;
      } in
      put_in-Sound s m sound (Plays-WellFormed lua w plays sound.0)

  Reaches-Sound : {s t : Sim (World D H)} → Sound s → Reaches lua w script s t → Sound t
  Reaches-Sound sound Reaches.here = sound
  Reaches-Sound sound (Reaches.next r step) = Step-Sound step (Reaches-Sound sound r)

  -- The lists of MIDI devices are well formed, `gConsole` says whether the console is open, and each
  -- further call of the library `promidi`, with any arguments, and each further message returns and
  -- keeps the lists well formed, with any fuel above a bound that the state gives.
  pub record IsSafe (s : Sim (World D H)) : Type 0 where
    pub lists : WellFormed (world_of s).midi
    pub console : Agrees s
    pub bound : ℕ
    pub calls :
        (k : ℕ) (o : Op)
        → bound < k
        → Unused lua w k o (world_of s).midi
        → Returns (λ _ m. WellFormed m) (perform lua w k o (world_of s).midi)

  -- Every state that the whole program reaches is safe: the lists of MIDI devices and of their events
  -- are well formed, each further call of the library `promidi` and each message returns and keeps
  -- them so, dereferencing no NULL or freed pointer and with every loop ending, and `gConsole` says
  -- whether the debug console is open. The lists are well formed and the flag is right at first. The
  -- program takes any number of steps in any order: the simulator's calls, with any inputs, and
  -- messages of the driver between them. The script is any that changes the MIDI state only by calls
  -- of the library `promidi`, also while messages arrive between its calls and inside `plGetEvent`
  -- and `plCloseMidiIn`; its Lua state may be closed and opened again, while the lists remain. Each
  -- `malloc` returns NULL or an unused address.
  pub Reaches-IsSafe : {s t : Sim (World D H)} → Sound s → Reaches lua w script s t → IsSafe t
  Reaches-IsSafe {t} sound reached =
      let ((n, promised), console) = Reaches-Sound sound reached in
      record {
        lists = (n, promised);
        console = console;
        bound = n;
        calls = λ k o fuel unused.
            Returns-mono (perform-Promised lua w k o n (world_of t).midi promised fuel unused)
              λ _ m p. (suc n, p);
      }
