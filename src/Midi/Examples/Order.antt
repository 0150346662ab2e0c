-- ===== src/Midi/Examples/Order.antt =====
-- Two messages that arrive at an open device, and the two calls that fetch them.
use profi_lua.Base.{ℕ, ◌≡◌, refl, some, List, [], ◌∷◌, arith, Returns, pos, ◌>>◌}
use profi_lua.Lua.{int, integer}
use profi_lua.Heap.{Ptr, load, write, set_next, set_value}
use profi_lua.Midi.State.{Event}
use profi_lua.Midi.Chain.{get_entry, find_loop, add}
use profi_lua.Midi.Devices.{get_midi_in_entry, add_midi_in, add_midi_in_event}
use profi_lua.Midi.Wire.{midi_receive, is_kept}
use profi_lua.Midi.Api.{pl_open_midi_in, opened_midi_in}
use profi_lua.Midi.Spec.GetEvent.{event_reply}
use profi_lua.Midi.Session.Order.{receive_all, get_all, Accepted, receive_all-get_all}
use profi_lua.Midi.Examples.{lua, driver, s1, r1}

abbrev messages : List (Ptr × ℕ)
messages = (5, 0x7f3c90) ∷ (6, 0x003c80) ∷ []

accepted : Accepted lua driver 9 2 messages s1
unfolding pl_open_midi_in opened_midi_in get_midi_in_entry get_entry find_loop add_midi_in add load
    set_next set_value write midi_receive is_kept add_midi_in_event
accepted = (refl, refl, (refl, refl, tt))

abbrev note_on_60 : Event
note_on_60 = record { status = 0x90; dat1 = 0x3c; dat2 = 0x7f }

abbrev note_off_60 : Event
note_off_60 = record { status = 0x80; dat1 = 0x3c; dat2 = 0 }

receive_all-get_all_example :
    Returns
      (λ replies _. replies ≡ event_reply (some note_on_60) ∷ event_reply (some note_off_60) ∷ [])
      ((receive_all lua driver 9 2 messages >> get_all lua driver 9 2 (int (pos 2))) s1)
receive_all-get_all_example =
    receive_all-get_all lua driver 9 (int (pos 2)) (integer (pos 2)) refl messages 102 r1
      (omega arith) refl accepted
