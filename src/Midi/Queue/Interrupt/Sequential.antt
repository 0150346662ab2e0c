-- ===== src/Midi/Queue/Interrupt/Sequential.antt =====
-- A message that arrives in the middle of `RemoveMidiInEvent`, and is handled as if it had come before.
use profi_lua.Base.{
  not, ◌&&◌, ◌⊎◌, inl, inr, Bool-cases, false, ℕ, ◌==◌, ◌≤◌, ◌<◌, ◌≡◌, ◌≢◌, refl, true, none, some,
  List, [], ◌∷◌, arith, length, ◌>>◌,
}
use profi_lua.Heap.{Ptr, null}
use profi_lua.Heap.Seg.{Points, Points-write}
use profi_lua.Heap.Cells.{lookup, find, Points-lookup}
use profi_lua.Heap.Ends.{last_two}
use profi_lua.Midi.State.{InDev, Event, Midi}
use profi_lua.Midi.View.{View, Holds}
use profi_lua.Midi.Devices.{in_number, remove_midi_in_event}
use profi_lua.Midi.Wire.{midi_receive, is_kept, byte_of}
use profi_lua.Midi.Queue.Receive.{event_of}
use profi_lua.Midi.Queue.Interrupt.{
  interrupted, interrupted-unchain, find_last-last_two, received, receive-received, received_spares,
  received-Seg,
}
use profi_lua.Midi.Queue.Interrupt.Spares.{Spares-sequential, receive-Spares}

last_two-cons :
    (c : Ptr × Event) (q : List (Ptr × Event))
    → 2 ≤ length q
    → last_two null (c ∷ q) ≡ last_two null q
last_two-cons c [] two = absurd (omega (arith, two))
last_two-cons c (x ∷ []) two = absurd (omega (arith, two))
last_two-cons c (x ∷ y ∷ q) two = refl

module _ {D : Type 0} where
  module _ {s : Midi D} {v : View} (k fresh num msgpar dev : ℕ) (d : InDev) (h : Holds s v)
      (at : find (in_number num) v.ins ≡ dev) (found : lookup dev v.ins ≡ some d)
      (fuel : length v.ins < k) (kept : is_kept (byte_of 0 msgpar) ≡ true) (ne : fresh ≢ null)
      (unused : s.events fresh ≡ none) where
    -- With two events or more.
    interrupted-received :
        (rounds : ℕ)
        → 2 ≤ length (v.queue dev)
        → length (v.queue dev) < k
        → interrupted (midi_receive k fresh num msgpar) rounds k dev s
          ≡ (midi_receive k fresh num msgpar >> remove_midi_in_event k dev) s
    unfolding remove_midi_in_event
    interrupted-received rounds two few =
        let (next, points) = Points-lookup dev h.ins found in
        let d' : InDev = record d { events = fresh } in
        let points' : Points (received s dev next fresh d (event_of msgpar)).ins.heap dev d' next =
          Points-write points d' next in
        rw (
          receive-received k fresh num msgpar dev d h at found fuel kept ne unused points,
          interrupted-unchain (midi_receive k fresh num msgpar) s
              (received s dev next fresh d (event_of msgpar))
              (receive-received k fresh num msgpar dev d h at found fuel kept ne unused points)
              rounds k dev d points refl (h.queued dev d found)
              (received_spares k fresh num msgpar dev d h at found fuel kept ne unused next)
              (omega (arith, two)) (omega (arith, few)),
          find_last-last_two {s = received s dev next fresh d (event_of msgpar)} k dev d' points'
              refl (received-Seg k fresh num msgpar dev d h at found fuel kept ne unused next)
              (omega arith) (omega (arith, few)),
          last_two-cons (fresh, event_of msgpar) (v.queue dev) two,
        )

  -- A message that arrives while `RemoveMidiInEvent` looks for the last event of a device, after any
  -- number of rounds of its loop, or before it takes this event off the list, is handled as if it
  -- had arrived before the call: the result and the whole state in the end are the same. The device
  -- has an event, and at least two if the message is for this device itself, is one that is kept,
  -- and there is memory for it. The fuel is above the numbers of devices and of events, and `malloc`
  -- returns NULL or an unused address.
  pub interrupted-sequential :
      {s : Midi D} {v : View} (rounds k fresh num msgpar dev : ℕ) (d : InDev)
      → Holds s v
      → lookup dev v.ins ≡ some d
      → length v.ins < k
      → length (v.queue dev) < k
      → s.events fresh ≡ none
      → 1 ≤ length (v.queue dev)
      → (not (fresh == null) && is_kept (byte_of 0 msgpar) ≡ true
          → find (in_number num) v.ins ≡ dev
          → 2 ≤ length (v.queue dev))
      → interrupted (midi_receive k fresh num msgpar) rounds k dev s
        ≡ (midi_receive k fresh num msgpar >> remove_midi_in_event k dev) s
  interrupted-sequential {s} {v} rounds k fresh num msgpar dev d h found fuel few unused some_event
        two =
      let (next, points) = Points-lookup dev h.ins found in
      let spared_by =
        λ (o : (is_kept (byte_of 0 msgpar) ≡ false)
            ⊎ ((fresh ≡ null) ⊎ (find (in_number num) v.ins ≢ dev))).
          Spares-sequential rounds k dev d points (h.queued dev d found) some_event
            (omega (arith, few))
            (receive-Spares k fresh num msgpar dev next d h found points fuel unused o) in
      elim (Bool-cases (is_kept (byte_of 0 msgpar))) [
        | inr dropped ↦ spared_by (inl dropped)
        | inl kept ↦ elim (Bool-cases (fresh == null)) [
          | inl no_memory ↦ spared_by (inr (inl (ground arith)))
          | inr memory ↦ elim (Bool-cases (find (in_number num) v.ins == dev)) [
            | inl here ↦
                let at : find (in_number num) v.ins ≡ dev = ground arith in
                interrupted-received k fresh num msgpar dev d h at found fuel kept (ground arith)
                  unused rounds (two (ground arith) at) few
            | inr elsewhere ↦ spared_by (inr (inr (ground arith)))
          ]
        ]
      ]
