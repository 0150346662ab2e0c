-- ===== src/Libraries/Examples/Messages.antt =====
-- A script that opens input 2 and fetches the two messages that arrive there.
use profi_lua.Base.{ℕ, ◌+◌, ◌≡◌, refl, some, List, [], ◌∷◌, arith, After, Returns, pos, raise}
use profi_lua.Lua.{int, integer}
use profi_lua.Lua.Stack.{one}
use profi_lua.Heap.{Ptr, load, write, set_next, set_value}
use profi_lua.Midi.State.{Event, Winmm}
use profi_lua.Midi.Chain.{get_entry, find_loop, add}
use profi_lua.Midi.Devices.{get_midi_in_entry, add_midi_in, add_midi_in_event}
use profi_lua.Midi.Wire.{midi_receive, is_kept}
use profi_lua.Midi.Api.{pl_open_midi_in, opened_midi_in}
use profi_lua.Midi.Spec.GetEvent.{event_reply}
use profi_lua.Midi.Session.{start}
use profi_lua.Midi.Session.Safe.{start-Refines}
use profi_lua.Midi.Session.Order.{Accepted}
use profi_lua.Libraries.Open.{open_libs}
use profi_lua.Libraries.Messages.{listen, listen-in_order}
use profi_lua.Libraries.Examples.{registry, empty, no_library, lua, driver}

-- The handle of an input is its number and 100.
abbrev inputs : Winmm ℕ
inputs = record driver { in_open = λ num d. (some (num + 100), d) }

abbrev messages : List (Ptr × ℕ)
messages = (5, 0x7f3c90) ∷ (6, 0x003c80) ∷ []

accepted :
    After
      (Accepted lua inputs 9 2 messages)
      (pl_open_midi_in lua inputs 9 4 (int (pos 2) ∷ []) (start 0))
unfolding pl_open_midi_in opened_midi_in get_midi_in_entry get_entry find_loop add_midi_in add load
    set_next set_value write midi_receive is_kept add_midi_in_event
accepted = (refl, refl, (refl, refl, tt))

abbrev note_on_60 : Event
note_on_60 = record { status = 0x90; dat1 = 0x3c; dat2 = 0x7f }

abbrev note_off_60 : Event
note_off_60 = record { status = 0x80; dat1 = 0x3c; dat2 = 0 }

listen-in_order_example :
    Returns
      (λ replies _.
        (replies.0 ≡ one (int (pos 0)))
        × (replies.1 ≡ event_reply (some note_on_60) ∷ event_reply (some note_off_60) ∷ []))
      (listen lua inputs 9
        (λ f args. raise)
        registry
        (open_libs registry no_library empty)
        4
        2
        messages
        (int (pos 2))
        (start 0))
listen-in_order_example =
    listen-in_order lua inputs 9 (λ f args. raise) registry no_library empty 4 102 (int (pos 2))
      (integer (pos 2)) messages refl refl (start-Refines 0) (omega arith) refl refl refl refl
      accepted
