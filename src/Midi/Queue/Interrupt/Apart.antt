-- ===== src/Midi/Queue/Interrupt/Apart.antt =====
-- A callback that does not touch a device which is no longer on the list.
use profi_lua.Base.{
  ℕ, ◌<◌, ◌≡◌, ◌≢◌, refl, none, some, arith, length, ok, ◌==◌, Cmd, ◌∙◌, Bool-cases, inl, inr, List,
}
use profi_lua.Heap.{write_twice, Ptr, null, node}
use profi_lua.Heap.Seg.{
  Seg, Points, ◌∈◌, ◌∉◌, not_null, load-ok, set_next-ok, set_value-ok, Points-fresh, frame,
}
use profi_lua.Heap.Cells.{find, find-lookup, Points-lookup, has-lookup}
use profi_lua.Heap.Overlay.{
  Layer, blank, at_one, overlay-blank, overlay-at_one, overlay-Points, overlay, overlay-same_next,
}
use profi_lua.Midi.State.{InDev, Event, Midi}
use profi_lua.Midi.View.{Events}
use profi_lua.Midi.Devices.{add_midi_in_event, get_midi_in_entry, in_number}
use profi_lua.Midi.Wire.{midi_receive, is_kept, byte_of}
use profi_lua.Midi.Chain.Find.{get_entry-find}
use profi_lua.Midi.Queue.Receive.{event_of}
use profi_lua.Midi.Queue.Interrupt.Patch.{patched}

module _ {D : Type 0} where
  -- The callback writes neither to the device nor to its events, and reads nothing of them.
  pub record Apart (s : Midi D) (dev : Ptr) (q : Events) (callback : Cmd (Midi D) (Unit {0}))
      : Type 0 where
    pub devices : Layer InDev
    pub events : Layer Event
    pub acts :
        (t : Midi D)
        → t.ins.head ≡ s.ins.head
        → ((b : Ptr) → b ≢ dev → t.ins.heap b ≡ s.ins.heap b)
        → callback t ≡ ok tt (patched devices events t)
    pub no_device : devices dev ≡ none
    pub no_event : (b : Ptr) → b ∈ q → events b ≡ none
    pub same_next :
        {a b : Ptr} {e : InDev}
        → Points s.ins.heap a e b
        → (x : InDev) × Points (overlay devices s.ins.heap) a x b

  -- The callback, for a device on the list `l`, or for none.
  pub midi_receive-Apart :
      {s : Midi D} {l : List (Ptr × InDev)} {q : Events} (k fresh num msgpar dev : ℕ)
      → Seg s.ins.heap null s.ins.head l
      → length l < k
      → dev ∉ l
      → fresh ∉ q
      → Apart s dev q (midi_receive k fresh num msgpar)
  unfolding midi_receive add_midi_in_event get_midi_in_entry
  midi_receive-Apart {s} {l} k fresh num msgpar dev seg fuel out unused =
      elim (Bool-cases (is_kept (byte_of 0 msgpar))) [
        | inr dropped ↦ record {
          devices = blank;
          events = blank;
          acts = λ t head same. rw (dropped, overlay-blank t.ins.heap, overlay-blank t.events);
          no_device = refl;
          no_event = λ b i. refl;
          same_next = λ e. (_, overlay-Points blank refl e);
        }
        | inl kept ↦ elim (Bool-cases (fresh == null)) [
          | inl no_memory ↦ record {
            devices = blank;
            events = blank;
            acts = λ t head same.
                rw (kept, no_memory, overlay-blank t.ins.heap, overlay-blank t.events);
            no_device = refl;
            no_event = λ b i. refl;
            same_next = λ e. (_, overlay-Points blank refl e);
          }
          | inr memory ↦ elim (Bool-cases (find (in_number num) l == null)) [
            | inl no_device ↦ record {
              devices = blank;
              events = at_one fresh (some (node (event_of msgpar) null));
              acts = λ t head same. rw (
                kept,
                memory,
                get_entry-find (in_number num) k t.ins (chain t head same) fuel,
                no_device,
                overlay-blank t.ins.heap,
                overlay-at_one fresh (some (node (event_of msgpar) null)) t.events,
              );
              no_device = refl;
              no_event = λ b i. ground (arith, i, unused);
              same_next = λ e. (_, overlay-Points blank refl e);
            }
            | inr device ↦
                let r = find (in_number num) l in
                let (e, at_r, _) = find-lookup (in_number num) r seg refl (ground arith) in
                let (next, points) = Points-lookup r seg at_r in
                let inside = has-lookup r l e at_r in
                let e' : InDev = record e { events = fresh } in
                record {
                  devices = at_one r (some (node e' next));
                  events = at_one fresh (some (node (event_of msgpar) e.events));
                  acts = λ t head same.
                      let ev = event_of msgpar in
                      let first = Points-fresh t.events fresh ev null (ground (arith, memory)) in
                      let at_t : Points t.ins.heap r e next = record {
                        ne_null = points.ne_null;
                        holds = same r (ground (arith, inside, out)) ∙ points.holds;
                      } in
                      rw (
                        kept,
                        memory,
                        get_entry-find (in_number num) k t.ins (chain t head same) fuel,
                        not_null at_t,
                        load-ok at_t,
                        set_next-ok first e.events,
                        set_value-ok at_t e',
                        write_twice t.events fresh (some (node ev null)) (some (node ev e.events)),
                        overlay-at_one r (some (node e' next)) t.ins.heap,
                        overlay-at_one fresh (some (node ev e.events)) t.events,
                      );
                  no_device = ground (arith, inside, out);
                  no_event = λ b i. ground (arith, i, unused);
                  same_next = overlay-same_next e' points;
                }
          ]
        ]
      ]
    where
      chain :
          (t : Midi D)
          → t.ins.head ≡ s.ins.head
          → ((b : Ptr) → b ≢ dev → t.ins.heap b ≡ s.ins.heap b)
          → Seg t.ins.heap null t.ins.head l
      chain t head same = rw head (frame t.ins.heap seg λ b i. same b (ground (arith, i, out)))
