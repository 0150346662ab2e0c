-- ===== src/Midi/Queue/Receive.antt =====
-- `MidiReceive` for a device that is open, on what the lists hold.
use profi_lua.Base.{ℕ, ◌<◌, ◌≡◌, ◌≢◌, refl, true, none, some, ◌∷◌, arith, length, Returns, returns}
use profi_lua.Heap.{Ptr, null, write, node}
use profi_lua.Heap.Seg.{
  cons, Points-fresh, Points-write, not_null, load-ok, set_value-ok, set_next-ok, frame,
}
use profi_lua.Heap.Cells.{lookup, find, Points-lookup, not_mem_of_none}
use profi_lua.Midi.State.{InDev, Event, Midi}
use profi_lua.Midi.View.{View, Holds, requeue}
use profi_lua.Midi.Devices.{add_midi_in_event, get_midi_in_entry, in_number}
use profi_lua.Midi.Wire.{midi_receive, is_kept, byte_of}
use profi_lua.Midi.Chain.Find.{get_entry-find}
use profi_lua.Midi.Queue.{requeue-Holds}

abbrev pub event_of : ℕ → Event
event_of msgpar = record {
  status = byte_of 0 msgpar;
  dat1 = byte_of 1 msgpar;
  dat2 = byte_of 2 msgpar;
}

module _ {D : Type 0} where
  pub record Enqueued (s : Midi D) (v : View) (dev fresh : Ptr) (d : InDev) (e : Event) (t : Midi D)
      : Type 0 where
    pub holds : Holds t (requeue dev d fresh ((fresh, e) ∷ v.queue dev) v)
    pub others : (b : Ptr) → b ≢ fresh → t.events b ≡ s.events b
    pub outs : t.outs ≡ s.outs
    pub driver : t.driver ≡ s.driver

  pub midi_receive-Enqueued :
      {s : Midi D} {v : View} (k : ℕ) (fresh num msgpar dev : ℕ) (d : InDev)
      → Holds s v
      → find (in_number num) v.ins ≡ dev
      → lookup dev v.ins ≡ some d
      → length v.ins < k
      → is_kept (byte_of 0 msgpar) ≡ true
      → fresh ≢ null
      → s.events fresh ≡ none
      → Returns
          (λ _. Enqueued s v dev fresh d (event_of msgpar))
          (midi_receive k fresh num msgpar s)
  unfolding midi_receive add_midi_in_event get_midi_in_entry write
  midi_receive-Enqueued {s} {v} k fresh num msgpar dev d h at found fuel kept ne unused =
      let (next, points) = Points-lookup dev h.ins found in
      let ev = event_of msgpar in
      let first = Points-fresh s.events fresh ev null ne in
      let new = Points-write first ev d.events in
      let g = write (write s.events fresh (some (node ev null))) fresh (some (node ev d.events)) in
      rw
        (
          kept,
          not_null first,
          get_entry-find (in_number num) k s.ins h.ins fuel,
          at,
          not_null points,
          load-ok points,
          set_next-ok first d.events,
          set_value-ok points (record d { events = fresh }),
        )
        (returns record {
          holds =
              requeue-Holds dev fresh next d ((fresh, ev) ∷ v.queue dev) g h found points
                (cons new (not_mem_of_none fresh (h.queued dev d found) unused) (
                  frame g (h.queued dev d found) λ a i.
                    let out = not_mem_of_none fresh (h.queued dev d found) unused in
                    ground (arith, i, out)))
                (λ r e l ner a i.
                  let out = not_mem_of_none fresh (h.queued r e l) unused in
                  (
                    ground (arith, i, out),
                    ground (arith, i, out, h.apart r dev e d l found ner a i),
                  ));
          others = λ b n. ground arith;
          outs = refl;
          driver = refl;
        })
