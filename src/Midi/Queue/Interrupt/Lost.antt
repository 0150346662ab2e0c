-- ===== src/Midi/Queue/Interrupt/Lost.antt =====
-- A message that is lost, since it arrives while the only event of a device is taken off its list.
use profi_lua.Base.{
  fun_ext, subst, sym, ℕ, ◌<◌, ◌≡◌, ◌≢◌, refl, true, Option, none, some, [], ◌∷◌, arith, length,
  Returns, returns,
}
use profi_lua.Heap.{Ptr, null, Heap, write, node}
use profi_lua.Heap.Seg.{Seg, nil, cons, Points, ◌∉◌, Points-write, load-ok, set_value-ok, free-ok}
use profi_lua.Heap.Cells.{lookup, find, Points-lookup, not_mem_of_none}
use profi_lua.Midi.State.{InDev, Event, Midi}
use profi_lua.Midi.View.{View, Holds, requeue}
use profi_lua.Midi.Devices.{in_number, unchain}
use profi_lua.Midi.Wire.{midi_receive, is_kept, byte_of}
use profi_lua.Midi.Queue.Receive.{event_of}
use profi_lua.Midi.Queue.{requeue-Holds}
use profi_lua.Midi.Queue.Interrupt.{
  interrupted, interrupted-unchain, received, receive-received, received_spares,
}

one-Points :
    {h : Heap Event} {first p : Ptr} {e : Event}
    → Seg h null first ((p, e) ∷ [])
    → Points h p e null
one-Points (cons pt out nil) = pt

one-first :
    {h : Heap Event} {first p : Ptr} {e : Event} → Seg h null first ((p, e) ∷ []) → first ≡ p
one-first (cons pt out nil) = refl

module _ {D : Type 0} where
  -- The event `e` was handed out, and the device's list is empty. The node of the new event is on no
  -- list, and it is still allocated.
  pub record Lost (s : Midi D) (v : View) (dev fresh p : Ptr) (d : InDev) (e new : Event)
      (r : Option Event) (t : Midi D) : Type 0 where
    pub result : r ≡ some e
    pub holds : Holds t (requeue dev d null [] v)
    pub driver : t.driver ≡ s.driver
    pub leaked : t.events fresh ≡ some (node new p)

  module _ {s : Midi D} {v : View} (k fresh num msgpar dev : ℕ) (d : InDev) (h : Holds s v)
      (at : find (in_number num) v.ins ≡ dev) (found : lookup dev v.ins ≡ some d)
      (fuel : length v.ins < k) (kept : is_kept (byte_of 0 msgpar) ≡ true) (ne : fresh ≢ null)
      (unused : s.events fresh ≡ none) where
    -- When the event `e` is the device's only one, a message that arrives while `RemoveMidiInEvent`
    -- looks for it, or before it is taken off the list, is lost: `e` is handed out, and the device's
    -- list is empty, though it should hold the new event, whose node is never freed. The message
    -- is kept, and there is memory for its event.
    pub interrupted-Lost :
        (rounds : ℕ) (p : Ptr) (e : Event)
        → v.queue dev ≡ (p, e) ∷ []
        → Returns
            (Lost s v dev fresh p d e (event_of msgpar))
            (interrupted (midi_receive k fresh num msgpar) rounds k dev s)
    unfolding unchain write
    interrupted-Lost rounds p e only =
        let (next, points) = Points-lookup dev h.ins found in
        let seg : Seg s.events null d.events ((p, e) ∷ []) = rw only at (h.queued dev d found) in
        let at_p = one-Points seg in
        let d' : InDev = record d { events = fresh } in
        let t = received s dev next fresh d (event_of msgpar) in
        let points' : Points t.ins.heap dev d' next = Points-write points d' next in
        let out = not_mem_of_none fresh seg unused in
        let at_p' : Points t.events p e null = record {
          ne_null = at_p.ne_null;
          holds = ground (arith, at_p.holds, out);
        } in
        let g = write t.events p none in
        let twice : write t.ins.heap dev (some (node (record d { events = null }) next))
            ≡ write s.ins.heap dev (some (node (record d { events = null }) next)) =
          fun_ext λ b. ground arith in
        rw
          (
            interrupted-unchain (midi_receive k fresh num msgpar) s t
                (receive-received k fresh num msgpar dev d h at found fuel kept ne unused points)
                rounds k dev d points refl seg
                (λ a i.
                  received_spares k fresh num msgpar dev d h at found fuel kept ne unused next a
                    (rw only i))
                (omega arith) (omega arith),
            load-ok points',
            set_value-ok points' (record d { events = null }),
            load-ok at_p',
            free-ok at_p',
          )
          (returns record {
            result = refl;
            holds =
                subst
                  (λ f.
                    Holds (record s { ins = record s.ins { heap = f }; events = g })
                      (requeue dev d null [] v))
                  (sym twice)
                  (requeue-Holds dev null next d [] g h found points nil λ r f l ner a i.
                    let out_r = not_mem_of_none fresh (h.queued r f l) unused in
                    let apart : a ∉ ((p, e) ∷ []) =
                      rw only at (h.apart r dev f d l found ner a i) in
                    (ground (arith, i, out_r, apart), refl));
            driver = refl;
            leaked = ground (arith, one-first seg, out);
          })
