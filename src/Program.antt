-- ===== src/Program.antt =====
-- The whole program: the simulator's calls of src/profilua.c, a script that calls the functions of
-- src/profimidi.c, and the driver, which hands over messages at any time.
pub mod Lists
pub mod Reach
mod Examples
use profi_lua.Base.{ℕ, ◌≡◌, Option, none, some, List, ok}
use profi_lua.Lua.{Lua}
use profi_lua.Heap.{Ptr}
use profi_lua.Midi.State.{Midi, Winmm}
use profi_lua.Midi.Wire.{midi_receive}
use profi_lua.Midi.Session.{Op, session, Allocates}
use profi_lua.Sim.State.{Vm, Script, Sim}
use profi_lua.Sim.Worlds.{Turn, world_of}
use profi_lua.Sim.Host.{Call, serve}

-- What a script sees: the lists of MIDI devices, which are C globals, and all else.
pub record World (D H : Type 0) : Type 0 where
  pub midi : Midi D
  pub rest : H

module _ {D : Type 0} (lua : Lua) (w : Winmm D) where
  -- The MIDI state changes by a session: calls of the library's functions, and messages between
  -- them and inside `plGetEvent` and `plCloseMidiIn`. Each `malloc` returns NULL or an unused
  -- address.
  pub record Plays (m m' : Midi D) : Type 0 where
    pub fuel : ℕ
    pub ops : List Op
    pub unused : Allocates lua w fuel ops m
    pub runs : session lua w fuel ops m ≡ ok tt m'

  module _ {H : Type 0} (script : Script (World D H)) where
    -- Whatever the script and the Lua library do, they change the MIDI state by such sessions only.
    abbrev pub PlaysOnly : Type 0
    PlaysOnly = (u v : World D H) → Turn script u v → Plays u.midi v.midi

    abbrev put_in : Option (Vm (World D H)) → Midi D → Sim (World D H) → Sim (World D H)
    put_in none m s = record s { idle = record s.idle { midi = m } }
    put_in (some vm) m s = record s {
      lua = some (record vm { world = record vm.world { midi = m } });
    }

    -- The state with other MIDI lists, in the script's world if it is open.
    abbrev pub with_midi : Midi D → Sim (World D H) → Sim (World D H)
    with_midi m s = put_in s.lua m s

    -- A call of the simulator that returns, or a message of the driver between two calls.
    pub data Step : Sim (World D H) → Sim (World D H) → Type 0 where
      serves : {s t : Sim (World D H)} (c : Call) → serve lua script c s ≡ ok tt t → Step s t
      arrives :
          (s : Sim (World D H)) {m : Midi D} (k : ℕ) (fresh num msgpar : Ptr)
          → (world_of s).midi.events fresh ≡ none
          → midi_receive k fresh num msgpar (world_of s).midi ≡ ok tt m
          → Step s (with_midi m s)

    pub data Reaches (s : Sim (World D H)) : Sim (World D H) → Type 0 where
      here : Reaches s s
      next : {t u : Sim (World D H)} → Reaches s t → Step t u → Reaches s u
