-- ===== src/Midi/Queue/Interrupt/Adding.antt =====
-- A message that arrives in the middle of `AddMidiIn`, while a new device is put on the list.
use profi_lua.Base.{
  ℕ, ◌<◌, ◌≡◌, refl, some, [], arith, length, ◌==◌, Cmd, pure, get, modify, ◌>>=◌, ◌>>◌,
  if◌then◌else◌,
}
use profi_lua.Heap.{Ptr, null, set_next, write, node}
use profi_lua.Heap.Seg.{Points, ◌∉◌, not_null, set_next-ok}
use profi_lua.Heap.Overlay.{overlay-write, overlay-Points}
use profi_lua.Midi.State.{InDev, Midi, on_ins, on_heap}
use profi_lua.Midi.Chain.{add}
use profi_lua.Midi.View.{View, Holds}
use profi_lua.Midi.Devices.{add_midi_in}
use profi_lua.Midi.Wire.{midi_receive}
use profi_lua.Midi.Queue.Interrupt.Apart.{midi_receive-Apart}

module _ {D : Type 0} where
  -- `AddMidiIn`, with a callback between its two assignments.
  unfoldable pub interrupted_add :
      (callback : Cmd (Midi D) (Unit {0})) → (tmp : Ptr) → Cmd (Midi D) (Unit {0})
  interrupted_add callback tmp = if tmp == null then pure tt else do
    s ← get
    on_ins (on_heap (set_next tmp s.ins.head))
    callback
    on_ins (modify λ c. record c { head = tmp })

  -- A message that arrives after `AddMidiIn` has set the successor of a new device, and before it
  -- makes this device the first of the list, is handled as if it had arrived before the call, and
  -- the device gets the same place. The device is a node that is not on the list, and the message is
  -- for any number. The fuel exceeds the number of devices.
  pub adding-sequential :
      {s : Midi D} {v : View} (k fresh num msgpar tmp next : ℕ) (d : InDev)
      → Holds s v
      → Points s.ins.heap tmp d next
      → tmp ∉ v.ins
      → length v.ins < k
      → interrupted_add (midi_receive k fresh num msgpar) tmp s
        ≡ (midi_receive k fresh num msgpar >> add_midi_in tmp) s
  unfolding interrupted_add add_midi_in add
  adding-sequential {s} k fresh num msgpar tmp next d h points out fuel =
      let p = midi_receive-Apart {s = s} {q = []} k fresh num msgpar tmp h.ins fuel out refl in
      let linked = write s.ins.heap tmp (some (node d s.ins.head)) in
      rw (
        not_null points,
        set_next-ok points s.ins.head,
        p.acts (record s { ins = record s.ins { heap = linked } }) refl
            (λ b n. unfold write in ground (arith, n)),
        p.acts s refl (λ b n. refl),
        set_next-ok (overlay-Points p.devices p.no_device points) s.ins.head,
        overlay-write p.devices s.ins.heap tmp (some (node d s.ins.head)) p.no_device,
      )
