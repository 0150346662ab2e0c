-- ===== src/Midi/Queue/Interrupt/Closing.antt =====
-- A message that arrives in the middle of `RemoveMidiIn`, after the device has left the list.
use profi_lua.Base.{
  ℕ, zero, suc, ◌≤◌, ◌<◌, ◌≡◌, ◌≢◌, refl, none, some, [], ◌∷◌, arith, length, ◌==◌, put_back,
  Returns-result, Cmd, pure, out_of_fuel, ◌>>=◌, ◌>>◌, if◌then◌else◌, ◌∙◌,
}
use profi_lua.Heap.{Ptr, null, write, free}
use profi_lua.Heap.Seg.{Seg, Points, ◌∈◌, not_null, free-ok, Points-write}
use profi_lua.Heap.Ends.{eq_null_of_nil, front, not_mem-front}
use profi_lua.Heap.Cells.{lookup, Points-lookup, has-lookup, not_mem_of_none, not_mem-erase_self}
use profi_lua.Heap.Keyed.{length-erase}
use profi_lua.Midi.Spec.{in_num}
use profi_lua.Heap.Overlay.{overlay-write, overlay-Points}
use profi_lua.Midi.State.{InDev, Midi, on_ins, on_heap}
use profi_lua.Midi.Chain.{detach}
use profi_lua.Midi.View.{Events, View, Holds}
use profi_lua.Midi.Devices.{remove_midi_in_event, drain_loop, remove_midi_in}
use profi_lua.Midi.Wire.{midi_receive}
use profi_lua.Midi.Chain.Detach.{detach-erase}
use profi_lua.Midi.Queue.Remove.{remove_midi_in_event-Removed, remove_midi_in_event-none}
use profi_lua.Midi.Queue.Drain.{last?-cons, length-front, drain_loop-Drained}
use profi_lua.Midi.Queue.Interrupt.Apart.{Apart, midi_receive-Apart}
use profi_lua.Midi.Queue.Interrupt.Patch.{patched, drain_loop-patched}

module _ {D : Type 0} where
  -- The loop of `RemoveMidiIn`, with a callback after so many rounds, or at its end when there are
  -- fewer.
  unfoldable pub interrupted_drain :
      (callback : Cmd (Midi D) (Unit {0})) → (at rounds k : ℕ) → Ptr → Cmd (Midi D) (Unit {0})
  unfolding drain_loop
  interrupted_drain callback zero rounds k tmp = do callback; drain_loop rounds k tmp
  interrupted_drain callback (suc at) zero k tmp = λ _. out_of_fuel
  interrupted_drain callback (suc at) (suc rounds) k tmp = do
    e ← remove_midi_in_event k tmp
    elim e [ none ↦ callback | some _ ↦ interrupted_drain callback at rounds k tmp ]

  -- `RemoveMidiIn`, with a callback after it has unlinked the device, and before it frees its node.
  unfoldable pub interrupted_removal :
      (callback : Cmd (Midi D) (Unit {0})) → (at k : ℕ) → Ptr → Cmd (Midi D) (Unit {0})
  unfolding interrupted_drain
  interrupted_removal callback at k tmp = if tmp == null then pure tt else do
    on_ins (detach k tmp)
    interrupted_drain callback at k k tmp
    on_ins (on_heap (free tmp))

  module _ (callback : Cmd (Midi D) (Unit {0})) {s : Midi D} (k dev next : ℕ) (q : Events)
      (p : Apart s dev q callback) where
    interrupted_drain-patched :
        (at rounds : ℕ) (t : Midi D) (d : InDev) (r : Events)
        → t.ins.head ≡ s.ins.head
        → ((b : Ptr) → b ≢ dev → t.ins.heap b ≡ s.ins.heap b)
        → Points t.ins.heap dev d next
        → Seg t.events null d.events r
        → length r < rounds
        → length r ≤ k
        → ((b : Ptr) → b ∈ r → b ∈ q)
        → interrupted_drain callback at rounds k dev t
          ≡ put_back (patched p.devices p.events) (drain_loop rounds k dev t)
    unfolding interrupted_drain
    interrupted_drain-patched zero rounds t d r head same points seg enough fuel inside =
        rw (p.acts t head same) (
          drain_loop-patched p.devices p.events rounds t k dev next d r p.no_device points seg
            enough fuel λ b i. p.no_event b (inside b i))
    interrupted_drain-patched (suc at) zero t d r head same points seg enough fuel inside =
        absurd (omega (arith, enough))
    interrupted_drain-patched (suc at) (suc rounds) t d [] head same points seg enough fuel inside =
        rw (
          remove_midi_in_event-none {s = t} k dev next d points (eq_null_of_nil seg refl),
          p.acts t head same,
        )
    interrupted_drain-patched (suc at) (suc rounds) t d (c ∷ r) head same points seg enough fuel
          inside =
        let ((a, e), l) = last?-cons c r in
        let (_, u, runs, m) =
          Returns-result
            (remove_midi_in_event-Removed {s = t} k dev next d a e points seg l fuel) in
        let d' : InDev = record d { events = m.first } in
        rw (runs, m.result, m.state)
          (interrupted_drain-patched at rounds _ d' (front (c ∷ r)) head
            (λ b n. unfold write in ground (arith, n, same b n)) (Points-write points d' next) m.seg
            (omega (arith, length-front c r, enough)) (omega (arith, length-front c r, fuel))
            λ b i. inside b (ground (arith, i, not_mem-front b (c ∷ r))))

  -- A message that arrives while `RemoveMidiIn` frees the events of a device, which has left the
  -- list, in any round of the loop or before the device is freed, is handled as if it had arrived
  -- after the call: the whole state in the end is the same. The message is for any number. The
  -- fuel exceeds the numbers of devices and of the device's events, and `malloc` returns NULL or an
  -- unused address.
  pub closing-sequential :
      {s : Midi D} {v : View} (at k j fresh num msgpar tmp : ℕ) (d : InDev)
      → Holds s v
      → lookup tmp v.ins ≡ some d
      → length v.ins < k
      → length v.ins < j
      → length (v.queue tmp) < j
      → s.events fresh ≡ none
      → interrupted_removal (midi_receive k fresh num msgpar) at j tmp s
        ≡ (remove_midi_in j tmp >> midi_receive k fresh num msgpar) s
  unfolding interrupted_removal remove_midi_in
  closing-sequential {s} {v} at k j fresh num msgpar tmp d h found fuel fuel_j few unused =
      let (next, points) = Points-lookup tmp h.ins found in
      let gone = not_mem-erase_self tmp h.ins in
      let out = not_mem_of_none fresh (h.queued tmp d found) unused in
      let (_, c, detaches, (seg, same)) =
        Returns-result (detach-erase j tmp s.ins h.ins (has-lookup tmp v.ins d found) fuel_j) in
      let s' : Midi D = record s { ins = c } in
      let points' : Points c.heap tmp d next = record {
        ne_null = points.ne_null;
        holds = same tmp gone ∙ points.holds;
      } in
      let p =
        midi_receive-Apart {s = s'} {q = v.queue tmp} k fresh num msgpar tmp seg
          (omega (arith, length-erase in_num tmp v.ins, fuel)) gone out in
      let (_, u, drains, m) = Returns-result (
        drain_loop-Drained j {s = s'} j tmp next d (v.queue tmp) points' (h.queued tmp d found) few
          (omega (arith, few))) in
      rw (
        not_null points,
        detaches,
        interrupted_drain-patched (midi_receive k fresh num msgpar) {s = s'} j tmp next
            (v.queue tmp) p at j s' d (v.queue tmp) refl (λ b n. refl) points'
            (h.queued tmp d found) few (omega (arith, few)) (λ b i. i),
        drains,
        free-ok m.at,
        free-ok (overlay-Points p.devices p.no_device m.at),
        p.acts (record u { ins = record u.ins { heap = write u.ins.heap tmp none } }) m.head
            (λ b n. unfold write in ground (arith, n, m.devices b n)),
        overlay-write p.devices u.ins.heap tmp none p.no_device,
      )
