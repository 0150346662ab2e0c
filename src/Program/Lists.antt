-- ===== src/Program/Lists.antt =====
-- The lists of MIDI devices after a session, whatever fuel it has.
use profi_lua.Base.{ℕ, ◌+◌, ◌≤◌, ok, arith, Returns, Returns-ok, length}
use profi_lua.Lua.{Lua}
use profi_lua.Midi.State.{Midi, Winmm}
use profi_lua.Midi.Session.Calls.{Promised}
use profi_lua.Midi.Session.Safe.{session-Promised}
use profi_lua.Midi.Fuel.Calls.{session-more, Allocates-more}
use profi_lua.Program.{Plays}

-- The lists are well formed, with any number of cells.
abbrev pub WellFormed : {D : Type 0} → Midi D → Type 0
WellFormed m = (n : ℕ) × Promised n m

pub Plays-WellFormed :
    {D : Type 0} (lua : Lua) (w : Winmm D) {m m' : Midi D}
    → Plays lua w m m'
    → WellFormed m
    → WellFormed m'
Plays-WellFormed lua w {m} {m'} p (n, promised) =
    let k = p.fuel + (length p.ops + n) in
    let more : p.fuel ≤ k = omega arith in
    let runs = session-more lua w p.fuel k more p.ops m m' p.runs in
    let unused = Allocates-more lua w p.fuel k more p.ops m m' p.runs p.unused in
    let q : Returns (λ _ t. Promised (length p.ops + n) t) (ok tt m') =
      rw runs at (session-Promised lua w k p.ops n m promised (omega arith) unused) in
    (length p.ops + n, Returns-ok q)
