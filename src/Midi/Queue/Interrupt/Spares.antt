-- ===== src/Midi/Queue/Interrupt/Spares.antt =====
-- A callback in the middle of `RemoveMidiInEvent` that does not touch the device or its events.
use profi_lua.Base.{
  ◌⊎◌, inl, inr, Bool-cases, false, ℕ, ◌==◌, ◌≤◌, ◌<◌, ◌≡◌, ◌≢◌, refl, true, none, some, List,
  arith, length, Cmd, ok, ◌>>◌,
}
use profi_lua.Heap.{Ptr, null, write, node}
use profi_lua.Heap.Seg.{Seg, Points, ◌∈◌, Points-fresh, not_null, frame}
use profi_lua.Heap.Cells.{lookup, find, find-lookup, Points-lookup, not_mem_of_none}
use profi_lua.Midi.State.{InDev, Event, Midi}
use profi_lua.Midi.View.{View, Holds}
use profi_lua.Midi.Devices.{add_midi_in_event, get_midi_in_entry, in_number, remove_midi_in_event}
use profi_lua.Midi.Wire.{midi_receive, is_kept, byte_of}
use profi_lua.Midi.Chain.Find.{get_entry-find}
use profi_lua.Midi.Queue.Receive.{event_of}
use profi_lua.Midi.Queue.Interrupt.{
  interrupted, interrupted-unchain, find_last-last_two, received, receive-received,
}

module _ {D : Type 0} where
  -- The callback returns, and leaves the device and the nodes of its events as they are.
  pub record Spares (s : Midi D) (dev next : Ptr) (d : InDev) (q : List (Ptr × Event))
      (callback : Cmd (Midi D) (Unit {0})) : Type 0 where
    pub after : Midi D
    pub calls : callback s ≡ ok tt after
    pub points : Points after.ins.heap dev d next
    pub same : (a : Ptr) → a ∈ q → after.events a ≡ s.events a

  pub Spares-sequential :
      {s : Midi D} {next : Ptr} {q : List (Ptr × Event)} {callback : Cmd (Midi D) (Unit {0})}
      (rounds k : ℕ) (dev : Ptr) (d : InDev)
      → Points s.ins.heap dev d next
      → Seg s.events null d.events q
      → 1 ≤ length q
      → length q ≤ k
      → Spares s dev next d q callback
      → interrupted callback rounds k dev s ≡ (callback >> remove_midi_in_event k dev) s
  unfolding remove_midi_in_event
  Spares-sequential {s} {callback} rounds k dev d points seg some_event fuel a = rw (
    a.calls,
    interrupted-unchain callback s a.after a.calls rounds k dev d points refl seg a.same some_event
        fuel,
    find_last-last_two {s = a.after} k dev d a.points refl (frame a.after.events seg a.same)
        some_event fuel,
  )

  -- A message for another device on the list, or for none.
  elsewhere-Spares :
      {s : Midi D} {v : View} (k fresh num msgpar dev next : ℕ) (d : InDev)
      → Holds s v
      → lookup dev v.ins ≡ some d
      → Points s.ins.heap dev d next
      → length v.ins < k
      → s.events fresh ≡ none
      → is_kept (byte_of 0 msgpar) ≡ true
      → fresh ≢ null
      → find (in_number num) v.ins ≢ dev
      → Spares s dev next d (v.queue dev) (midi_receive k fresh num msgpar)
  unfolding midi_receive add_midi_in_event get_midi_in_entry write
  elsewhere-Spares {s} {v} k fresh num msgpar dev next d h found points fuel unused kept ne
        elsewhere =
      let r = find (in_number num) v.ins in
      let first = Points-fresh s.events fresh (event_of msgpar) null ne in
      let out = not_mem_of_none fresh (h.queued dev d found) unused in
      elim (Bool-cases (r == null)) [
        | inl no_device ↦ record {
          after = record s { events = write s.events fresh (some (node (event_of msgpar) null)) };
          calls =
              rw (
                kept,
                not_null first,
                get_entry-find (in_number num) k s.ins h.ins fuel,
                no_device,
              );
          points = points;
          same = λ a i. ground (arith, i, out);
        }
        | inr device ↦
            let (e, at_r, _) = find-lookup (in_number num) r h.ins refl (ground arith) in
            let (next_r, points_r) = Points-lookup r h.ins at_r in
            let apart : (dev == r) ≡ false = ground arith in
            record {
              after = received s r next_r fresh e (event_of msgpar);
              calls =
                  receive-received k fresh num msgpar r e h refl at_r fuel kept ne unused points_r;
              points = record {
                ne_null = points.ne_null;
                holds = ground (arith, points.holds, apart);
              };
              same = λ a i. ground (arith, i, out);
            }
      ]

  -- A message for no device on the list, or for another one, and one that is dropped.
  pub receive-Spares :
      {s : Midi D} {v : View} (k fresh num msgpar dev next : ℕ) (d : InDev)
      → Holds s v
      → lookup dev v.ins ≡ some d
      → Points s.ins.heap dev d next
      → length v.ins < k
      → s.events fresh ≡ none
      → (is_kept (byte_of 0 msgpar) ≡ false) ⊎ ((fresh ≡ null) ⊎ (find (in_number num) v.ins ≢ dev))
      → Spares s dev next d (v.queue dev) (midi_receive k fresh num msgpar)
  unfolding midi_receive add_midi_in_event get_midi_in_entry write
  receive-Spares {s} k fresh num msgpar dev next d h found points fuel unused (inl dropped) =
      record { after = s; calls = rw dropped; points = points; same = λ a i. refl }
  receive-Spares {s} {v} k fresh num msgpar dev next d h found points fuel unused
        (inr (inl null_address)) =
      let no_memory : (fresh == null) ≡ true = ground arith in
      elim (Bool-cases (is_kept (byte_of 0 msgpar))) [
        | inl kept ↦ record {
          after = s;
          calls = rw (kept, no_memory);
          points = points;
          same = λ a i. refl;
        }
        | inr dropped ↦ record {
          after = s;
          calls = rw dropped;
          points = points;
          same = λ a i. refl;
        }
      ]
  receive-Spares {s} {v} k fresh num msgpar dev next d h found points fuel unused
        (inr (inr elsewhere)) =
      elim (Bool-cases (is_kept (byte_of 0 msgpar))) [
        | inr dropped ↦ record {
          after = s;
          calls = rw dropped;
          points = points;
          same = λ a i. refl;
        }
        | inl kept ↦ elim (Bool-cases (fresh == null)) [
          | inl no_memory ↦ record {
            after = s;
            calls = rw (kept, no_memory);
            points = points;
            same = λ a i. refl;
          }
          | inr memory ↦
              elsewhere-Spares k fresh num msgpar dev next d h found points fuel unused kept
                (ground arith) elsewhere
        ]
      ]
