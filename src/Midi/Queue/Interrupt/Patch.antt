-- ===== src/Midi/Queue/Interrupt/Patch.antt =====
-- `RemoveMidiInEvent` and the loop of `RemoveMidiIn` in a state that differs at nodes they do not use.
use profi_lua.Base.{
  ℕ, zero, suc, ◌≤◌, ◌<◌, ◌≡◌, refl, none, some, [], ◌∷◌, arith, length, ◌==◌, false, put_back,
  Returns-result,
}
use profi_lua.Heap.{Ptr, null, write, node}
use profi_lua.Heap.Seg.{
  Seg, nil, cons, Points, ◌∈◌, not_null, load-ok, set_value-ok, set_next-ok, free-ok, Points-write,
}
use profi_lua.Heap.Ends.{
  last?, last_two, mem-last?, last?-not_mem-front, cut, Points-last?, last_two-last?,
  eq_null_of_nil, front, not_mem-front,
}
use profi_lua.Heap.Overlay.{Layer, overlay, overlay-write, overlay-Points, overlay-Seg}
use profi_lua.Midi.State.{InDev, Event, Midi}
use profi_lua.Midi.View.{Events}
use profi_lua.Midi.Devices.{remove_midi_in_event, drain_loop}
use profi_lua.Midi.Queue.Last.{last_loop-last_two}
use profi_lua.Midi.Queue.Remove.{remove_midi_in_event-Removed, remove_midi_in_event-none}
use profi_lua.Midi.Queue.Drain.{last?-cons, length-front}

module _ {D : Type 0} (devices : Layer InDev) (events : Layer Event) where
  abbrev pub patched : Midi D → Midi D
  patched s = record s {
    ins = record s.ins { heap = overlay devices s.ins.heap };
    events = overlay events s.events;
  }

  module _ (s : Midi D) (k : ℕ) (dev next num hd : Ptr) (apart : devices dev ≡ none) where
    abbrev at : Ptr → InDev
    at first = record { number = num; handle = hd; events = first }

    remove-patched :
        {first : Ptr} {q : Events} (a : Ptr) (e : Event)
        → Points s.ins.heap dev (at first) next
        → Seg s.events null first q
        → last? q ≡ some (a, e)
        → length q ≤ k
        → ((b : Ptr) → b ∈ q → events b ≡ none)
        → remove_midi_in_event k dev (patched s) ≡ put_back patched (remove_midi_in_event k dev s)
    unfolding remove_midi_in_event
    remove-patched a e points nil last fuel spared = absurd (ground arith)
    remove-patched a e points (cons {p} {v = w} pt out nil) last fuel spared =
        let points' = overlay-Points devices apart points in
        let free_p = spared p (ground arith) in
        let pt' = overlay-Points events free_p pt in
        rw (
          not_null points,
          load-ok points,
          load-ok points',
          not_null pt,
          last_loop-last_two k null pt nil fuel,
          last_loop-last_two k null pt' nil fuel,
          load-ok points,
          load-ok points',
          set_value-ok points (at null),
          set_value-ok points' (at null),
          load-ok pt,
          load-ok pt',
          free-ok pt,
          free-ok pt',
          overlay-write devices s.ins.heap dev (some (node (at null) next)) apart,
          overlay-write events s.events p none free_p,
        )
    remove-patched a e points (cons {p} {v = w} pt out (cons {p = q} {v = u} {xs} pt' out' s')) last
          fuel spared =
        let b = (last_two p ((q, u) ∷ xs)).0 in
        let c = cut pt out pt' out' s' in
        let all = cons pt out (cons pt' out' s') in
        let pa = Points-last? a e all last in
        let out_a = last?-not_mem-front a e all last in
        let ab : (a == b) ≡ false = ground (arith, c.inside, out_a) in
        let free_b : events b ≡ none =
          spared b (ground (arith, c.inside, not_mem-front b ((p, w) ∷ (q, u) ∷ xs))) in
        let free_a : events a ≡ none = spared a (mem-last? a ((p, w) ∷ (q, u) ∷ xs) e last) in
        let g = write s.events b (some (node c.value null)) in
        let pa' : Points g a e null = record {
          ne_null = pa.ne_null;
          holds = unfold write in ground (arith, pa.holds, ab);
        } in
        let points' = overlay-Points devices apart points in
        let b' = overlay-Points events free_b c.points in
        let first' = overlay-Points events (spared p (ground arith)) pt in
        let rest' = overlay-Seg events (λ x i. spared x (ground (arith, i))) (cons pt' out' s') in
        let a' = overlay-Points events free_a pa' in
        rw (
          not_null points,
          load-ok points,
          load-ok points',
          not_null pt,
          last_loop-last_two k null pt (cons pt' out' s') (omega arith),
          last_loop-last_two k null first' rest' (omega arith),
          last_two-last? p ((q, u) ∷ xs) last,
          not_null c.points,
          set_next-ok c.points null,
          set_next-ok b' null,
          ← overlay-write events s.events b (some (node c.value null)) free_b,
          load-ok pa',
          load-ok a',
          free-ok pa',
          free-ok a',
          overlay-write events g a none free_a,
        )

  -- The loop of `RemoveMidiIn` does the same in the patched state.
  pub drain_loop-patched :
      (rounds : ℕ) (s : Midi D) (k dev next : Ptr) (d : InDev) (q : Events)
      → devices dev ≡ none
      → Points s.ins.heap dev d next
      → Seg s.events null d.events q
      → length q < rounds
      → length q ≤ k
      → ((b : Ptr) → b ∈ q → events b ≡ none)
      → drain_loop rounds k dev (patched s) ≡ put_back patched (drain_loop rounds k dev s)
  unfolding drain_loop
  drain_loop-patched zero s k dev next d q apart points seg enough fuel spared =
      absurd (omega (arith, enough))
  drain_loop-patched (suc rounds) s k dev next d [] apart points seg enough fuel spared =
      let empty = eq_null_of_nil seg refl in
      rw (
        remove_midi_in_event-none {s = s} k dev next d points empty,
        remove_midi_in_event-none {s = patched s} k dev next d (overlay-Points devices apart points)
            empty,
      )
  drain_loop-patched (suc rounds) s k dev next d (c ∷ q) apart points seg enough fuel spared =
      let ((a, e), l) = last?-cons c q in
      let (r, t, runs, m) =
        Returns-result (remove_midi_in_event-Removed {s = s} k dev next d a e points seg l fuel) in
      rw
        (
          remove-patched s k dev next d.number d.handle apart a e points seg l fuel spared,
          runs,
          m.result,
          m.state,
        )
        (drain_loop-patched rounds _ k dev next (record d { events = m.first }) (front (c ∷ q))
          apart (Points-write points (record d { events = m.first }) next) m.seg
          (omega (arith, length-front c q, enough)) (omega (arith, length-front c q, fuel))
          λ b i. spared b (ground (arith, i, not_mem-front b (c ∷ q))))
