-- ===== src/Midi/Examples.antt =====
-- Runs of the library `promidi` at concrete inputs, with a driver that keeps a log of its calls.
mod Pointers
mod Order
mod Interrupt
use profi_lua.Base.{
  ℕ, ◌≡◌, refl, none, some, List, [], ◌∷◌, arith, Run, ok, Returns, returns, pos, ◌==◌,
  if◌then◌else◌, ◌+◌,
}
use profi_lua.Lua.{Lua, Value, int, truncate, integer}
use profi_lua.Lua.Stack.{one}
use profi_lua.Heap.{load, write, set_next, set_value, free}
use profi_lua.Midi.State.{Midi, Winmm}
use profi_lua.Midi.Devices.{
  get_midi_in_entry, get_midi_out_entry, add_midi_in, add_midi_out, add_midi_in_event,
  remove_midi_in_event, last_loop, unchain, remove_midi_in, drain_loop,
}
use profi_lua.Midi.Chain.{get_entry, find_loop, add, detach, unlink_loop}
use profi_lua.Midi.Wire.{midi_receive, is_kept}
use profi_lua.Midi.Api.{
  pl_open_midi_in, pl_open_midi_out, opened_midi_in, opened_midi_out, pl_close_midi_in,
  pl_close_midi_out, pl_play_note, pl_get_event,
}
use profi_lua.Midi.Spec.{Spec, Refines}
use profi_lua.Midi.Spec.OpenIn.{pl_open_midi_in-Refines, open_in_spec}
use profi_lua.Midi.Spec.OpenOut.{pl_open_midi_out-Refines, open_out_spec}
use profi_lua.Midi.Spec.CloseIn.{pl_close_midi_in-Refines, close_in_spec}
use profi_lua.Midi.Spec.CloseOut.{pl_close_midi_out-Refines, close_out_spec}
use profi_lua.Midi.Spec.Receive.{midi_receive-Refines, received}
use profi_lua.Midi.Spec.GetEvent.{pl_get_event-Refines, event_reply, taken}
use profi_lua.Midi.Spec.PlayNote.{pl_play_note-wire}
use profi_lua.Midi.Queue.Interrupt.Unlinking.{Moment}
use profi_lua.Midi.Queue.Interrupt.Closing.{interrupted_removal, interrupted_drain}
use profi_lua.Midi.Queue.Interrupt.{interrupted, interrupted_loop}
use profi_lua.Midi.Session.{Op, session, start, Allocates, perform}
use profi_lua.Midi.Session.Safe.{session-Promised, start-Refines, closed}
use profi_lua.Midi.Session.Calls.{Promised}

-- A Lua library that converts no string.
abbrev pub lua : Lua
lua = record {
  str_to_number = λ _. none;
  number_to_str = λ _. [];
  number_to_integer = truncate;
  number_out_of_range = truncate;
}

abbrev pub Log : Type 0
Log = List (ℕ × ℕ)

-- The handle of a device is its number and 100; output 7 cannot be opened.
abbrev pub driver : Winmm Log
driver = record {
  out_open = λ n d. if n == 7 then (none, d) else (some (n + 100), (1, n) ∷ d);
  out_reset = λ h d. (2, h) ∷ d;
  out_close = λ h d. (3, h) ∷ d;
  out_short_msg = λ h m d. (h, m) ∷ d;
  out_num_devs = λ d. 8;
  out_name = λ n d. none;
  in_open = λ n d. (some (n + 100), (4, n) ∷ d);
  in_start = λ h d. (5, h) ∷ d;
  in_reset = λ h d. (6, h) ∷ d;
  in_close = λ h d. (7, h) ∷ d;
  in_num_devs = λ d. 2;
  in_name = λ n d. none;
}

abbrev end_of : {A : Type 0} → Midi Log → Run (Midi Log) A → Midi Log
end_of s (ok a t) = t
end_of s _ = s

at_end :
    {A : Type 0} {P : A → Midi Log → Type 0} {r : Run (Midi Log) A} (s : Midi Log)
    → Returns P r
    → (a : A) × P a (end_of s r)
at_end s (returns p) = (_, p)

abbrev pub two : List Value
two = int (pos 2) ∷ []

-- Input 2 is open, then it gets a note on and a note off, and output 2 is open as well.
abbrev s0 : Midi Log
s0 = start []

abbrev pub s1 : Midi Log
s1 = end_of s0 (pl_open_midi_in lua driver 9 4 two s0)

abbrev s2 : Midi Log
s2 = end_of s1 (midi_receive 9 5 2 0x7f3c90 s1)

abbrev s3 : Midi Log
s3 = end_of s2 (midi_receive 9 6 2 0x003c80 s2)

abbrev pub s4 : Midi Log
s4 = end_of s3 (pl_open_midi_out lua driver 9 4 two s3)

abbrev σ1 : Spec
σ1 = (open_in_spec lua driver 4 2 closed []).1

abbrev σ2 : Spec
σ2 = received 5 2 0x7f3c90 σ1

abbrev σ3 : Spec
σ3 = received 6 2 0x003c80 σ2

abbrev pub σ4 : Spec
σ4 = (open_out_spec lua driver 4 2 σ3 []).1

pl_open_midi_in-Refines_example :
    Returns
      (λ reply t.
        (reply ≡ (open_in_spec lua driver 4 2 closed []).0)
        × Refines 1 t (open_in_spec lua driver 4 2 closed []).1
        × (t.driver ≡ (open_in_spec lua driver 4 2 closed []).2))
      (pl_open_midi_in lua driver 9 4 two s0)
pl_open_midi_in-Refines_example =
    pl_open_midi_in-Refines lua driver 9 4 (int (pos 2)) (integer (pos 2)) (start-Refines [])
      (omega arith) refl refl

pub r1 : Refines 1 s1 σ1
r1 = (at_end s0 pl_open_midi_in-Refines_example).1.1

fresh_5 : s1.events 5 ≡ none
unfolding pl_open_midi_in opened_midi_in get_midi_in_entry get_entry add_midi_in add load set_next
    write
fresh_5 = refl

midi_receive-Refines_example :
    Returns (λ _ t. Refines 2 t σ2 × (t.driver ≡ s1.driver)) (midi_receive 9 5 2 0x7f3c90 s1)
midi_receive-Refines_example = midi_receive-Refines 9 5 2 0x7f3c90 r1 (omega arith) fresh_5

r2 : Refines 2 s2 σ2
r2 = (at_end s1 midi_receive-Refines_example).1.0

fresh_6 : s2.events 6 ≡ none
unfolding pl_open_midi_in opened_midi_in get_midi_in_entry get_entry find_loop add_midi_in add load
    set_next set_value write midi_receive is_kept add_midi_in_event
fresh_6 = refl

r3 : Refines 3 s3 σ3
r3 = (at_end s2 (midi_receive-Refines 9 6 2 0x003c80 r2 (omega arith) fresh_6)).1.0

unused_4 : s3.outs.heap 4 ≡ none
unfolding pl_open_midi_in opened_midi_in get_midi_in_entry get_entry find_loop add_midi_in add load
    set_next set_value write midi_receive is_kept add_midi_in_event
unused_4 = refl

pl_open_midi_out-Refines_example :
    Returns
      (λ reply t.
        (reply ≡ (open_out_spec lua driver 4 2 σ3 s3.driver).0)
        × Refines 4 t (open_out_spec lua driver 4 2 σ3 s3.driver).1
        × (t.driver ≡ (open_out_spec lua driver 4 2 σ3 s3.driver).2))
      (pl_open_midi_out lua driver 9 4 two s3)
pl_open_midi_out-Refines_example =
    pl_open_midi_out-Refines lua driver 9 4 (int (pos 2)) (integer (pos 2)) r3 (omega arith) refl
      unused_4

pub r4 : Refines 4 s4 σ4
r4 = (at_end s3 pl_open_midi_out-Refines_example).1.1

pub s4-unused : s4.events 7 ≡ none
unfolding pl_open_midi_out get_midi_out_entry get_entry midi_receive get_midi_in_entry
    pl_open_midi_in add_midi_in add set_next load write add_midi_in_event set_value add_midi_out
s4-unused = refl

-- The note on, which came first, is what a script gets first.
pl_get_event-Refines_example :
    Returns
      (λ reply t.
        (reply ≡ event_reply (some (record { status = 0x90; dat1 = 0x3c; dat2 = 0x7f })))
        × Refines 4 t (taken 2 σ4)
        × (t.driver ≡ s4.driver))
      (pl_get_event lua driver 9 two s4)
pl_get_event-Refines_example =
    pl_get_event-Refines lua driver 9 (int (pos 2)) (integer (pos 2)) r4 (omega arith) refl

pl_close_midi_in-Refines_example :
    Returns
      (λ reply t.
        (reply ≡ (close_in_spec lua driver 2 σ4 s4.driver).0)
        × Refines 4 t (close_in_spec lua driver 2 σ4 s4.driver).1
        × (t.driver ≡ (close_in_spec lua driver 2 σ4 s4.driver).2))
      (pl_close_midi_in lua driver 9 two s4)
pl_close_midi_in-Refines_example =
    pl_close_midi_in-Refines lua driver 9 (int (pos 2)) (integer (pos 2)) r4 (omega arith) refl

pl_close_midi_out-Refines_example :
    Returns
      (λ reply t.
        (reply ≡ (close_out_spec lua driver 2 σ4 s4.driver).0)
        × Refines 4 t (close_out_spec lua driver 2 σ4 s4.driver).1
        × (t.driver ≡ (close_out_spec lua driver 2 σ4 s4.driver).2))
      (pl_close_midi_out lua driver 9 two s4)
pl_close_midi_out-Refines_example =
    pl_close_midi_out-Refines lua driver 9 (int (pos 2)) (integer (pos 2)) r4 (omega arith) refl

-- A note on for key 60 on channel 3.
pl_play_note-wire_example :
    Returns
      (λ reply t.
        (reply ≡ one (int (pos 0))) × (t ≡ record s4 { driver = (102, 0x7f3c92) ∷ s4.driver }))
      (pl_play_note lua driver 9
        (int (pos 2) ∷ int (pos 3) ∷ int (pos 60) ∷ int (pos 127) ∷ int (pos 0x90) ∷ [])
        s4)
pl_play_note-wire_example =
    pl_play_note-wire lua driver 9 (int (pos 2)) (int (pos 3)) (int (pos 60)) (int (pos 127))
      (int (pos 0x90)) (integer (pos 2)) (integer (pos 3)) (integer (pos 60)) (integer (pos 127))
      (integer (pos 0x90)) r4 (omega arith) refl refl refl refl refl

-- A session of scripts and callbacks.
abbrev ops : List Op
ops =
    Op.open_in 4 two
    ∷ Op.receive 5 2 0x7f3c90
    ∷ Op.open_out 4 two
    ∷ Op.play_note (int (pos 2) ∷ [])
    ∷ Op.receive 6 2 0x003c80
    ∷ Op.get_event_amid 1 7 2 0x7f4090 two
    ∷ Op.get_event two
    ∷ Op.close_in_amid (Moment.draining 1) 8 2 0x7f4090 two
    ∷ []

allocates : Allocates lua driver 9 ops s0
unfolding Allocates perform pl_open_midi_in opened_midi_in get_midi_in_entry get_entry find_loop
    add_midi_in add load set_next set_value write midi_receive is_kept add_midi_in_event
    pl_open_midi_out opened_midi_out add_midi_out pl_play_note pl_get_event pl_close_midi_in
    get_midi_out_entry remove_midi_in_event last_loop free remove_midi_in drain_loop detach
    unlink_loop interrupted interrupted_loop unchain interrupted_removal interrupted_drain
allocates = (refl, (refl, (refl, (tt, (refl, (refl, (tt, (refl, tt))))))))

session-Promised_example : Returns (λ _ t. Promised 8 t) (session lua driver 9 ops s0)
session-Promised_example =
    session-Promised lua driver 9 ops 0 s0 (closed, start-Refines []) (omega arith) allocates
