-- ===== src/Midi/Examples/Interrupt.antt =====
-- A callback in the middle of `RemoveMidiInEvent`, with two events and with one, and in the middle of
-- `RemoveMidiIn` and `AddMidiIn`.
use profi_lua.Base.{
  ℕ, ◌≡◌, refl, none, some, [], ◌∷◌, arith, subst, Returns, ◌>>◌, pos, ◌==◌, if◌then◌else◌,
}
use profi_lua.Heap.{null, node}
use profi_lua.Heap.Seg.{Seg, nil, cons}
use profi_lua.Midi.State.{InDev, Event, Midi}
use profi_lua.Midi.View.{View, Holds}
use profi_lua.Midi.Devices.{remove_midi_in_event, remove_midi_in, add_midi_in}
use profi_lua.Midi.Queue.Interrupt.Adding.{interrupted_add, adding-sequential}
use profi_lua.Midi.Queue.Interrupt.Closing.{interrupted_removal, closing-sequential}
use profi_lua.Midi.Queue.Interrupt.Unlinking.{
  Moment, removal_amid, interrupted_unlinking, unlinking-sequential,
}
use profi_lua.Midi.Spec.Closing.{close_in_amid, close_midi_in_by-interrupted}
use profi_lua.Midi.Wire.{midi_receive, is_kept}
use profi_lua.Midi.Queue.Receive.{event_of}
use profi_lua.Midi.Queue.Interrupt.{interrupted}
use profi_lua.Midi.Queue.Interrupt.Lost.{Lost, interrupted-Lost}
use profi_lua.Midi.Queue.Interrupt.Sequential.{interrupted-sequential}
use profi_lua.Lua.{int, integer}
use profi_lua.Midi.Api.{get_event_by, close_midi_in_by}
use profi_lua.Midi.Spec.{Refines}
use profi_lua.Midi.Spec.GetEvent.{event_reply}
use profi_lua.Midi.Spec.Interrupted.{taken_amid, get_event_by-interrupted}
use profi_lua.Midi.Examples.{lua, driver, two, s4, r4, σ4, s4-unused}
use profi_lua.Midi.Examples.Pointers.{state, state-Holds, first_in}

-- Note on, key 60, velocity 127
abbrev message : ℕ
message = 0x7F3C90

-- For the device itself, which has two events.
interrupted-sequential_example :
    interrupted (midi_receive 4 11 5 message) 1 4 4 state
    ≡ (midi_receive 4 11 5 message >> remove_midi_in_event 4 4) state
interrupted-sequential_example =
    interrupted-sequential 1 4 11 5 message 4 first_in state-Holds refl (omega arith) (omega arith)
      refl (omega arith) (λ e e'. omega arith)

-- For the second device, while the first one is closed and one of its two events is freed.
closing-sequential_example :
    interrupted_removal (midi_receive 4 11 6 message) 1 4 4 state
    ≡ (remove_midi_in 4 4 >> midi_receive 4 11 6 message) state
closing-sequential_example =
    closing-sequential 1 4 4 11 6 message 4 first_in state-Holds refl (omega arith) (omega arith)
      (omega arith) refl

abbrev only_event : Event
only_event = record { status = 0x80; dat1 = 60; dat2 = 0 }

abbrev only_in : InDev
only_in = record { number = 5; handle = 50; events = 8 }

abbrev one_event : Midi ℕ
one_event = record {
  outs = record { head = null; heap = λ a. none };
  ins = record { head = 4; heap = λ a. if a == 4 then some (node only_in null) else none };
  events = λ a. if a == 8 then some (node only_event null) else none;
  driver = 0;
}

abbrev one_view : View
one_view = record { outs = []; ins = (4, only_in) ∷ []; queue = λ p. (8, only_event) ∷ [] }

one_event-Holds : Holds one_event one_view
one_event-Holds = record {
  outs = nil;
  ins = cons (record { ne_null = ground arith; holds = refl }) (ground arith) nil;
  queued = λ p d l.
      let first : 8 ≡ d.events = ground (arith, l) in
      subst (λ x. Seg one_event.events null x ((8, only_event) ∷ [])) first
        (cons (record { ne_null = ground arith; holds = refl }) (ground arith) nil);
  apart = λ p r d e lp lr ne a i. absurd (ground (arith, lp, lr, ne));
}

abbrev new_in : InDev
new_in = record { number = 6; handle = 60; events = null }

-- The node of a second device, which is not yet on the list.
abbrev one_more : Midi ℕ
one_more = record one_event {
  ins = record {
    head = 4;
    heap = λ a.
        if a == 6
        then some (node new_in null)
        else if a == 4
        then some (node only_in null)
        else none;
  };
}

one_more-Holds : Holds one_more one_view
one_more-Holds = record {
  outs = nil;
  ins = cons (record { ne_null = ground arith; holds = refl }) (ground arith) nil;
  queued = one_event-Holds.queued;
  apart = one_event-Holds.apart;
}

-- For the first device, while the second one is put on the list.
adding-sequential_example :
    interrupted_add (midi_receive 4 11 5 message) 6 one_more
    ≡ (midi_receive 4 11 5 message >> add_midi_in 6) one_more
adding-sequential_example =
    adding-sequential 4 11 5 message 6 null new_in one_more-Holds
      (record { ne_null = ground arith; holds = refl }) (ground arith) (omega arith)

interrupted-Lost_example :
    Returns
      (Lost one_event one_view 4 11 8 only_in only_event (event_of message))
      (interrupted (midi_receive 4 11 5 message) 1 4 4 one_event)
unfolding is_kept
interrupted-Lost_example =
    interrupted-Lost 4 11 5 message 4 only_in one_event-Holds refl refl (omega arith) refl
      (ground arith) refl 1 8 only_event refl

-- The device 2 has a note on and a note off, and a second note on arrives: the first note on is
-- handed out.
get_event_by-interrupted_example :
    Returns
      (λ reply t.
        (reply ≡ event_reply (some (record { status = 0x90; dat1 = 0x3c; dat2 = 0x7f })))
        × Refines 5 t (taken_amid 7 2 0x7f4090 2 σ4)
        × (t.driver ≡ s4.driver))
      (get_event_by lua driver 9 (interrupted (midi_receive 9 7 2 0x7f4090) 1 9) two s4)
get_event_by-interrupted_example =
    get_event_by-interrupted lua driver 1 9 7 2 0x7f4090 (int (pos 2)) (integer (pos 2)) r4
      (omega arith) s4-unused refl

-- For the second device, while the first one is taken off the list.
unlinking-sequential_example :
    interrupted_unlinking (midi_receive 4 11 6 message) 1 4 4 state
    ≡ (midi_receive 4 11 6 message >> remove_midi_in 4 4) state
unlinking-sequential_example =
    unlinking-sequential 1 4 4 11 6 message 4 first_in state-Holds refl (omega arith)

abbrev after_one : Moment
after_one = Moment.draining 1

-- The device 2 is closed while a message for it arrives, after one of its two events is freed.
close_midi_in_by-interrupted_example :
    Returns
      (λ reply t.
        (reply ≡ (close_in_amid lua driver after_one 7 2 0x7f4090 2 σ4 s4.driver).0)
        × Refines 5 t (close_in_amid lua driver after_one 7 2 0x7f4090 2 σ4 s4.driver).1
        × (t.driver ≡ (close_in_amid lua driver after_one 7 2 0x7f4090 2 σ4 s4.driver).2))
      (close_midi_in_by lua driver 9
        (removal_amid (midi_receive 9 7 2 0x7f4090) after_one 10)
        two
        s4)
close_midi_in_by-interrupted_example =
    close_midi_in_by-interrupted lua driver 9 7 2 0x7f4090 (int (pos 2)) (integer (pos 2)) r4
      (omega arith) s4-unused refl after_one
