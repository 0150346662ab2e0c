-- ===== src/Midi/Queue/Remove.antt =====
-- `RemoveMidiInEvent` on the list of one device.
use profi_lua.Base.{
  ℕ, ◌≤◌, ◌≡◌, refl, false, Option, none, some, ◌∷◌, ◌==◌, arith, length, ok, Returns, returns, ap,
  fun_ext,
}
use profi_lua.Heap.{Ptr, null, Heap, write, node}
use profi_lua.Heap.Seg.{
  Seg, nil, cons, Points, ◌∉◌, not_null, load-ok, set_value-ok, set_next-ok, free-ok, frame-write,
}
use profi_lua.Heap.Ends.{
  front, last?, last_two, not_mem-front, mem-last?, last?-not_mem-front, cut, Points-last?,
  last_two-last?,
}
use profi_lua.Midi.State.{InDev, Event, Midi}
use profi_lua.Midi.View.{Events}
use profi_lua.Midi.Devices.{remove_midi_in_event}
use profi_lua.Midi.Queue.Last.{last_loop-last_two}

module _ {D : Type 0} where
  -- The device `d` at `dev`, the next of it at `next`, with new events, in a heap of events `g`.
  abbrev pub relinked : Midi D → (dev next : Ptr) → InDev → (first : Ptr) → Heap Event → Midi D
  relinked s dev next d first g = record s {
    ins = record s.ins {
      heap = write s.ins.heap dev (some (node (record d { events = first }) next));
    };
    events = g;
  }

  -- The event `e` at `a`, the last of the cells `q` of `d`, was handed out, and its node freed.
  pub record Removed (s : Midi D) (dev next : Ptr) (d : InDev) (q : Events) (a : Ptr) (e : Event)
      (r : Option Event) (t : Midi D) : Type 0 where
    pub result : r ≡ some e
    pub first : Ptr
    pub events : Heap Event
    pub state : t ≡ relinked s dev next d first events
    pub seg : Seg events null first (front q)
    pub freed : events a ≡ none
    pub others : (b : Ptr) → b ∉ q → events b ≡ s.events b

  module _ (s : Midi D) (k : ℕ) (dev next num hd : Ptr) where
    abbrev at : Ptr → InDev
    at first = record { number = num; handle = hd; events = first }

    write_same :
        (p : Ptr) (g : Heap Event)
        → Points s.ins.heap dev (at p) next
        → record s { events = g } ≡ relinked s dev next (at p) p g
    unfolding write
    write_same p g points =
        ap (λ (f : Heap InDev). record s { ins = record s.ins { heap = f }; events = g })
          (fun_ext λ b. ground (arith, points.holds))

    remove-Seg :
        {first : Ptr} {q : Events} (a : Ptr) (e : Event)
        → Points s.ins.heap dev (at first) next
        → Seg s.events null first q
        → last? q ≡ some (a, e)
        → length q ≤ k
        → Returns (Removed s dev next (at first) q a e) (remove_midi_in_event k dev s)
    unfolding remove_midi_in_event write
    remove-Seg a e points nil last fuel = absurd (ground arith)
    remove-Seg a e points (cons {p} {v = w} pt out nil) last fuel =
        let pa : p ≡ a = ground arith in
        let we : w ≡ e = ground arith in
        rw
          (
            not_null points,
            load-ok points,
            not_null pt,
            last_loop-last_two k null pt nil fuel,
            load-ok points,
            set_value-ok points (at null),
            load-ok pt,
            free-ok pt,
            ← we,
            ← pa,
          )
          (returns record {
            result = refl;
            first = null;
            events = write s.events p none;
            state = refl;
            seg = nil;
            freed = ground arith;
            others = λ b o. ground arith;
          })
    remove-Seg a e points (cons {p} {v = w} pt out (cons {p = q} {v = u} {xs} pt' out' s')) last
          fuel =
        let b = (last_two p ((q, u) ∷ xs)).0 in
        let c = cut pt out pt' out' s' in
        let all = cons pt out (cons pt' out' s') in
        let pa = Points-last? a e all last in
        let out_a = last?-not_mem-front a e all last in
        let ab : (a == b) ≡ false = ground (arith, c.inside, out_a) in
        let g = write s.events b (some (node c.value null)) in
        let pa' : Points g a e null = record {
          ne_null = pa.ne_null;
          holds = ground (arith, pa.holds, ab);
        } in
        rw
          (
            not_null points,
            load-ok points,
            not_null pt,
            last_loop-last_two k null pt (cons pt' out' s') (omega arith),
            last_two-last? p ((q, u) ∷ xs) last,
            not_null c.points,
            set_next-ok c.points null,
            load-ok pa',
            free-ok pa',
          )
          (returns record {
            result = refl;
            first = p;
            events = write g a none;
            state = write_same p (write g a none) points;
            seg = frame-write a none c.chain out_a;
            freed = ground arith;
            others = λ x o. ground (
              arith,
              c.inside,
              not_mem-front x ((q, u) ∷ xs),
              mem-last? a ((p, w) ∷ (q, u) ∷ xs) e,
              last,
            );
          })

  -- The last event of the cells of a device is handed out.
  pub remove_midi_in_event-Removed :
      {s : Midi D} (k : ℕ) (dev next : Ptr) (d : InDev) {q : Events} (a : Ptr) (e : Event)
      → Points s.ins.heap dev d next
      → Seg s.events null d.events q
      → last? q ≡ some (a, e)
      → length q ≤ k
      → Returns (Removed s dev next d q a e) (remove_midi_in_event k dev s)
  remove_midi_in_event-Removed {s} k dev next d = remove-Seg s k dev next d.number d.handle

  -- A device with no event gives none, and nothing changes.
  pub remove_midi_in_event-none :
      {s : Midi D} (k : ℕ) (dev next : Ptr) (d : InDev)
      → Points s.ins.heap dev d next
      → d.events ≡ null
      → remove_midi_in_event k dev s ≡ ok none s
  unfolding remove_midi_in_event
  remove_midi_in_event-none k dev next d points empty = rw (not_null points, load-ok points, empty)
