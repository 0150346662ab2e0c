-- ===== src/Midi/Session.antt =====
-- Whole sessions: any sequence of calls by scripts and of callbacks by the driver. A callback runs
-- between two calls, inside `RemoveMidiInEvent` when a script calls `plGetEvent`, or inside
-- `RemoveMidiIn` when it calls `plCloseMidiIn`.
pub mod Calls
pub mod PlayNote
pub mod Safe
pub mod Order
use profi_lua.Base.{
  ◌>>=◌, ℕ, suc, ◌≡◌, none, List, [], ◌∷◌, Cmd, Run, After, ok, raised, fault, out_of_fuel, pure,
  ◌>>◌,
}
use profi_lua.Lua.{Lua, Value}
use profi_lua.Heap.{Ptr, null}
use profi_lua.Midi.State.{Midi, Winmm}
use profi_lua.Midi.Wire.{midi_receive}
use profi_lua.Midi.Queue.Interrupt.{interrupted}
use profi_lua.Midi.Queue.Interrupt.Unlinking.{Moment, removal_amid}
use profi_lua.Midi.Api.{
  pl_open_midi_out, pl_open_midi_in, pl_close_midi_out, pl_close_midi_in, pl_play_note,
  pl_count_devices, pl_get_midi_out_name, pl_get_midi_in_name, pl_get_event, get_event_by,
  close_midi_in_by,
}

-- `fresh` is what `malloc` returns in the call.
pub data Op : Type 0 where
  open_out open_in : (fresh : Ptr) → List Value → Op
  close_out close_in play_note count_devices out_name in_name get_event : List Value → Op
  receive : (fresh num msgpar : ℕ) → Op
  -- `plGetEvent` with the callback after so many rounds of the loop of `RemoveMidiInEvent`.
  get_event_amid : (rounds fresh num msgpar : ℕ) → List Value → Op
  -- `plCloseMidiIn` with the callback at a moment within `RemoveMidiIn`.
  close_in_amid : Moment → (fresh num msgpar : ℕ) → List Value → Op

module _ {D : Type 0} (lua : Lua) (w : Winmm D) (k : ℕ) where
  -- A Lua error ends the call that raised it. The script, or the host, goes on from its state.
  abbrev pub caught : {A : Type 0} → Run (Midi D) A → Run (Midi D) (Unit {0})
  caught (ok a s) = ok tt s
  caught (raised s) = ok tt s
  caught fault = fault
  caught out_of_fuel = out_of_fuel

  unfoldable pub perform : Op → Cmd (Midi D) (Unit {0})
  perform (open_out fresh args) s = caught (pl_open_midi_out lua w k fresh args s)
  perform (open_in fresh args) s = caught (pl_open_midi_in lua w k fresh args s)
  perform (close_out args) s = caught (pl_close_midi_out lua w k args s)
  perform (close_in args) s = caught (pl_close_midi_in lua w k args s)
  perform (play_note args) s = caught (pl_play_note lua w k args s)
  perform (count_devices args) s = caught (pl_count_devices lua w args s)
  perform (out_name args) s = caught (pl_get_midi_out_name lua w args s)
  perform (in_name args) s = caught (pl_get_midi_in_name lua w args s)
  perform (get_event args) s = caught (pl_get_event lua w k args s)
  perform (receive fresh num msgpar) s = caught (midi_receive k fresh num msgpar s)
  perform (get_event_amid rounds fresh num msgpar args) s =
      caught (get_event_by lua w k (interrupted (midi_receive k fresh num msgpar) rounds k) args s)
  -- The message may add an event, which takes a round more.
  perform (close_in_amid moment fresh num msgpar args) s = caught (
      close_midi_in_by lua w k (removal_amid (midi_receive k fresh num msgpar) moment (suc k)) args
        s)

  unfoldable pub session : List Op → Cmd (Midi D) (Unit {0})
  session [] = pure tt
  session (o ∷ ops) = perform o >> session ops

  -- `malloc` returns NULL or an address that holds no node.
  abbrev pub Unused : Op → Midi D → Type 0
  Unused (open_out fresh args) s = s.outs.heap fresh ≡ none
  Unused (open_in fresh args) s = s.ins.heap fresh ≡ none
  Unused (receive fresh num msgpar) s = s.events fresh ≡ none
  Unused (get_event_amid rounds fresh num msgpar args) s = s.events fresh ≡ none
  Unused (close_in_amid moment fresh num msgpar args) s = s.events fresh ≡ none
  Unused _ s = Unit {0}

  -- It does so at every step of a session.
  unfoldable pub Allocates : List Op → Midi D → Type 0
  Allocates [] s = Unit {0}
  Allocates (o ∷ ops) s = Unused o s × After (Allocates ops) (perform o s)

-- When the library is loaded both lists are empty.
abbrev pub start : {D : Type 0} → D → Midi D
start d = record {
  outs = record { head = null; heap = λ _. none };
  ins = record { head = null; heap = λ _. none };
  events = λ _. none;
  driver = d;
}
