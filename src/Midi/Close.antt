-- ===== src/Midi/Close.antt =====
-- `RemoveMidiOut` and `RemoveMidiIn` on what the lists hold.
use profi_lua.Base.{
  ℕ, ◌<◌, ◌≡◌, ◌≢◌, refl, none, some, arith, length, Returns, returns, Returns-bind,
  Returns-put_back, ◌∙◌,
}
use profi_lua.Heap.{Ptr, null, write}
use profi_lua.Heap.Seg.{Seg, Points, ◌∈◌, ◌∉◌, not_null, free-ok, frame-write, frame}
use profi_lua.Heap.Cells.{
  lookup, erase, Points-lookup, has-lookup, not_mem-erase_self, lookup-erase,
}
use profi_lua.Midi.State.{OutDev, InDev, Chain, Midi}
use profi_lua.Midi.View.{View, Holds}
use profi_lua.Midi.Chain.Detach.{detach-erase}
use profi_lua.Midi.Devices.{remove_midi_out, remove_midi_in}
use profi_lua.Midi.Queue.Drain.{drain_loop-Drained}

module _ {D : Type 0} (v : View) where
  pub record OutRemoved (s : Midi D) (tmp : Ptr) (t : Midi D) : Type 0 where
    pub holds : Holds t (record v { outs = erase tmp v.outs })
    pub freed : t.outs.heap tmp ≡ none
    pub ins : t.ins ≡ s.ins
    pub events : t.events ≡ s.events
    pub driver : t.driver ≡ s.driver

  -- `RemoveMidiOut` of a device on the list takes it out of the list and frees its node, and keeps
  -- the input devices, the events and the driver. The fuel exceeds the length of the list.
  pub remove_midi_out-OutRemoved :
      (s : Midi D) (k : ℕ) (tmp : Ptr) (d : OutDev)
      → Holds s v
      → lookup tmp v.outs ≡ some d
      → length v.outs < k
      → Returns (λ _. OutRemoved s tmp) (remove_midi_out k tmp s)
  unfolding remove_midi_out write
  remove_midi_out-OutRemoved s k tmp d h found fuel =
      let (next, points) = Points-lookup tmp h.outs found in
      let gone = not_mem-erase_self tmp h.outs in
      rw (not_null points) (
        Returns-bind
          (Returns-put_back
            {Q = λ _ t.
              (c : Chain OutDev) × (t ≡ record s { outs = c })
              × Seg c.heap null c.head (erase tmp v.outs)
              × Points c.heap tmp d next}
            (λ c. record s { outs = c })
            (detach-erase k tmp s.outs h.outs (has-lookup tmp v.outs d found) fuel)
            (λ _ c r. (
              c,
              refl,
              r.0,
              record { ne_null = points.ne_null; holds = r.1 tmp gone ∙ points.holds },
            )))
          (λ _ t (c, e, seg, pt).
            rw (e, free-ok pt)
              (returns record {
                holds = record {
                  outs = frame-write tmp none seg gone;
                  ins = h.ins;
                  queued = h.queued;
                  apart = h.apart;
                };
                freed = ground arith;
                ins = refl;
                events = refl;
                driver = refl;
              })))

  pub record InRemoved (s : Midi D) (tmp : Ptr) (t : Midi D) : Type 0 where
    pub holds : Holds t (record v { ins = erase tmp v.ins })
    pub freed : t.ins.heap tmp ≡ none
    pub events_freed : (a : Ptr) → a ∈ v.queue tmp → t.events a ≡ none
    pub events_kept : (a : Ptr) → a ∉ v.queue tmp → t.events a ≡ s.events a
    pub outs : t.outs ≡ s.outs
    pub driver : t.driver ≡ s.driver

  -- `RemoveMidiIn` of a device on the list takes it out of the list, frees its node and each of its
  -- events, and keeps every other event, the output devices and the driver: nothing leaks and
  -- nothing else is freed. The fuel exceeds the lengths of both lists.
  pub remove_midi_in-InRemoved :
      (s : Midi D) (k : ℕ) (tmp : Ptr) (d : InDev)
      → Holds s v
      → lookup tmp v.ins ≡ some d
      → length v.ins < k
      → length (v.queue tmp) < k
      → Returns (λ _. InRemoved s tmp) (remove_midi_in k tmp s)
  unfolding remove_midi_in write
  remove_midi_in-InRemoved s k tmp d h found fuel fuel_q =
      let (next, points) = Points-lookup tmp h.ins found in
      let gone = not_mem-erase_self tmp h.ins in
      rw (not_null points) (
        Returns-bind
          (Returns-put_back
            {Q = λ _ t.
              (c : Chain InDev) × (t ≡ record s { ins = c })
              × Seg c.heap null c.head (erase tmp v.ins)
              × Points c.heap tmp d next}
            (λ c. record s { ins = c })
            (detach-erase k tmp s.ins h.ins (has-lookup tmp v.ins d found) fuel)
            (λ _ c r. (
              c,
              refl,
              r.0,
              record { ne_null = points.ne_null; holds = r.1 tmp gone ∙ points.holds },
            )))
          (λ _ t (c, e, seg, pt). rw e (
            Returns-bind
              (drain_loop-Drained k {s = record s { ins = c }} k tmp next d (v.queue tmp) pt
                (h.queued tmp d found) fuel_q (omega arith))
              λ _ u m. rw (free-ok m.at) (
                returns record {
                  holds = record {
                    outs = rw m.outs h.outs;
                    ins = rw m.head (
                        frame-write tmp none
                          (frame u.ins.heap seg λ a i. m.devices a (ground (arith, i, gone))) gone);
                    queued = λ p e l.
                        let (l', ne) = kept p e l in
                        frame u.events (h.queued p e l')
                          λ a i. m.others a (h.apart p tmp e d l' found ne a i);
                    apart = λ p r e f le lf ne a i.
                        h.apart p r e f (kept p e le).0 (kept r f lf).0 ne a i;
                  };
                  freed = ground arith;
                  events_freed = m.freed;
                  events_kept = m.others;
                  outs = m.outs;
                  driver = m.driver;
                }))))
    where
      kept :
          (p : Ptr) (e : InDev)
          → lookup p (erase tmp v.ins) ≡ some e
          → (lookup p v.ins ≡ some e) × (p ≢ tmp)
      kept p e l = ground (arith, lookup-erase p tmp h.ins)
