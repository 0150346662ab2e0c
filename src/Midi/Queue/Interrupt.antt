-- ===== src/Midi/Queue/Interrupt.antt =====
-- The driver's callback on its own thread: `MidiReceive` between two steps of `RemoveMidiInEvent`.
pub mod Adding
pub mod Apart
pub mod Closing
pub mod Patch
pub mod Spares
pub mod Unlinking
pub mod Sequential
pub mod Lost
use profi_lua.Base.{
  ◌>>=◌, ℕ, zero, suc, ◌∙◌, if◌then◌else◌, ◌==◌, pure, out_of_fuel, ◌≤◌, ◌<◌, ◌≡◌, ◌≢◌, true,
  Option, none, some, List, ◌∷◌, arith, length, Cmd, ok, ◌>>◌,
}
use profi_lua.Heap.{Ptr, null, Heap, write, node, load}
use profi_lua.Heap.Seg.{
  Seg, nil, cons, Points, ◌∈◌, Points-fresh, Points-write, not_null, load-ok, set_value-ok,
  set_next-ok, frame,
}
use profi_lua.Heap.Cells.{lookup, find, not_mem_of_none}
use profi_lua.Heap.Ends.{last_two}
use profi_lua.Midi.State.{InDev, Event, Midi, on_heap, on_ins, on_events}
use profi_lua.Midi.View.{View, Holds}
use profi_lua.Midi.Devices.{
  add_midi_in_event, get_midi_in_entry, in_number, last_loop, find_last, unchain,
}
use profi_lua.Midi.Wire.{midi_receive, is_kept, byte_of}
use profi_lua.Midi.Chain.Find.{get_entry-find}
use profi_lua.Midi.Queue.Last.{last_loop-last_two}
use profi_lua.Midi.Queue.Receive.{event_of}

spared : {h g : Heap Event} {p q : Ptr} {v : Event} → Points h p v q → g p ≡ h p → Points g p v q
spared e same = record { ne_null = e.ne_null; holds = same ∙ e.holds }

module _ {D : Type 0} where
  -- The loop of `RemoveMidiInEvent`, with a callback after so many rounds, or at its end when there
  -- are fewer.
  unfoldable pub interrupted_loop :
      (callback : Cmd (Midi D) (Unit {0}))
      → (rounds k : ℕ) → (pprev p : Ptr) → Cmd (Midi D) (Ptr × Ptr)
  unfolding last_loop
  interrupted_loop callback zero k pprev p = do callback; on_events (last_loop k pprev p)
  interrupted_loop callback (suc rounds) zero pprev p = λ _. out_of_fuel
  interrupted_loop callback (suc rounds) (suc k) pprev p = do
    n ← on_events (load p)
    if n.next == null
        then callback >> pure (pprev, p)
        else interrupted_loop callback rounds k p n.next

  -- `RemoveMidiInEvent`, with a callback after it has read the head of the list, and before it takes
  -- the event off the list.
  unfoldable pub interrupted :
      (callback : Cmd (Midi D) (Unit {0})) → (rounds k : ℕ) → Ptr → Cmd (Midi D) (Option Event)
  unfolding interrupted_loop unchain
  interrupted callback rounds k dev = if dev == null then pure none else do
    d ← on_ins (on_heap (load dev))
    if d.value.events == null then pure none else do
      found ← interrupted_loop callback rounds k null d.value.events
      unchain dev (some found)

  module _ (callback : Cmd (Midi D) (Unit {0})) (s t : Midi D) (calls : callback s ≡ ok tt t) where
    -- A callback that spares the nodes of the list does not change where the loop ends.
    interrupted_loop-last_two :
        (rounds k : ℕ) (prev : Ptr) {p q : Ptr} {v : Event} {xs : List (Ptr × Event)}
        → Points s.events p v q
        → Points t.events p v q
        → Seg s.events null q xs
        → ((a : Ptr) → a ∈ xs → t.events a ≡ s.events a)
        → length xs < k
        → interrupted_loop callback rounds k prev p s ≡ ok (last_two prev ((p, v) ∷ xs)) t
    unfolding interrupted_loop
    interrupted_loop-last_two zero k prev e e' seg same fuel =
        rw (calls, last_loop-last_two k prev e' (frame t.events seg same) fuel)
    interrupted_loop-last_two (suc rounds) zero prev e e' seg same fuel =
        absurd (omega (arith, fuel))
    interrupted_loop-last_two (suc rounds) (suc k) prev e e' nil same fuel = rw (load-ok e, calls)
    interrupted_loop-last_two (suc rounds) (suc k) prev {p} e e' (cons {p = r} pt out seg) same
          fuel =
        let pt' = spared pt (same r (ground arith)) in
        rw (load-ok e, not_null pt)
          (interrupted_loop-last_two rounds k p pt pt' seg (λ a i. same a (ground (arith, i)))
            (omega (arith, fuel)))

    pub interrupted-unchain :
        {next first : Ptr} {q : List (Ptr × Event)} (rounds k : ℕ) (dev : Ptr) (d : InDev)
        → Points s.ins.heap dev d next
        → d.events ≡ first
        → Seg s.events null first q
        → ((a : Ptr) → a ∈ q → t.events a ≡ s.events a)
        → 1 ≤ length q
        → length q ≤ k
        → interrupted callback rounds k dev s ≡ unchain dev (some (last_two null q)) t
    unfolding interrupted
    interrupted-unchain rounds k dev d points e nil same some_event fuel =
        absurd (omega (arith, some_event))
    interrupted-unchain rounds k dev d points e (cons {p} pt out seg) same some_event fuel =
        let pt' = spared pt (same p (ground arith)) in
        rw (
          not_null points,
          load-ok points,
          e,
          not_null pt,
          interrupted_loop-last_two rounds k null pt pt' seg (λ a i. same a (ground (arith, i)))
              (omega (arith, fuel)),
        )

  -- The state after the callback has put the event `e` at `fresh` before the events of `d`.
  abbrev pub received : Midi D → (dev next fresh : Ptr) → InDev → Event → Midi D
  received s dev next fresh d e = record s {
    ins = record s.ins {
      heap = write s.ins.heap dev (some (node (record d { events = fresh }) next));
    };
    events = write (write s.events fresh (some (node e null))) fresh (some (node e d.events));
  }

  pub find_last-last_two :
      {s : Midi D} {next first : Ptr} {q : List (Ptr × Event)} (k : ℕ) (dev : Ptr) (d : InDev)
      → Points s.ins.heap dev d next
      → d.events ≡ first
      → Seg s.events null first q
      → 1 ≤ length q
      → length q ≤ k
      → find_last k dev s ≡ ok (some (last_two null q)) s
  unfolding find_last
  find_last-last_two k dev d points e nil some_event fuel = absurd (omega (arith, some_event))
  find_last-last_two k dev d points e (cons pt out seg) some_event fuel = rw (
    not_null points,
    load-ok points,
    e,
    not_null pt,
    last_loop-last_two k null pt seg (omega arith),
  )

  module _ {s : Midi D} {v : View} (k fresh num msgpar dev : ℕ) (d : InDev) (h : Holds s v)
      (at : find (in_number num) v.ins ≡ dev) (found : lookup dev v.ins ≡ some d)
      (fuel : length v.ins < k) (kept : is_kept (byte_of 0 msgpar) ≡ true) (ne : fresh ≢ null)
      (unused : s.events fresh ≡ none) where
    pub receive-received :
        {next : Ptr}
        → Points s.ins.heap dev d next
        → midi_receive k fresh num msgpar s ≡ ok tt (received s dev next fresh d (event_of msgpar))
    unfolding midi_receive add_midi_in_event get_midi_in_entry
    receive-received points =
        let first = Points-fresh s.events fresh (event_of msgpar) null ne in
        rw (
          kept,
          not_null first,
          get_entry-find (in_number num) k s.ins h.ins fuel,
          at,
          not_null points,
          load-ok points,
          set_next-ok first d.events,
          set_value-ok points (record d { events = fresh }),
        )

    pub received_spares :
        (next a : Ptr)
        → a ∈ v.queue dev
        → (received s dev next fresh d (event_of msgpar)).events a ≡ s.events a
    unfolding write
    received_spares next a i =
        let out = not_mem_of_none fresh (h.queued dev d found) unused in ground (arith, i, out)

    pub received-Seg :
        (next : Ptr)
        → Seg
            (received s dev next fresh d (event_of msgpar)).events
            null
            fresh
            ((fresh, event_of msgpar) ∷ v.queue dev)
    unfolding write
    received-Seg next =
        let first = Points-fresh s.events fresh (event_of msgpar) null ne in
        let out = not_mem_of_none fresh (h.queued dev d found) unused in
        let new = Points-write first (event_of msgpar) d.events in
        cons new out (
          frame (received s dev next fresh d (event_of msgpar)).events (h.queued dev d found)
            (received_spares next))
