-- ===== src/Midi/Queue/Dequeue.antt =====
-- `RemoveMidiInEvent` on what the lists hold.
use profi_lua.Base.{
  ℕ, ◌≤◌, ◌≡◌, Option, none, some, [], length, ok, Returns, Returns-mono, subst, sym,
}
use profi_lua.Heap.{Ptr}
use profi_lua.Heap.Seg.{Points}
use profi_lua.Heap.Cells.{lookup, Points-lookup}
use profi_lua.Heap.Ends.{eq_null_of_nil, front, last?, not_mem-front}
use profi_lua.Midi.State.{InDev, Event, Midi}
use profi_lua.Midi.View.{View, Holds, requeue}
use profi_lua.Midi.Devices.{remove_midi_in_event}
use profi_lua.Midi.Queue.{requeue-Holds}
use profi_lua.Midi.Queue.Remove.{Removed, remove_midi_in_event-Removed, remove_midi_in_event-none}

module _ {D : Type 0} where
  -- The event `e` at `a` went from the end of the list of `dev`, and nothing else changed.
  pub record Dequeued (s : Midi D) (v : View) (dev a : Ptr) (d : InDev) (e : Event)
      (r : Option Event) (t : Midi D) : Type 0 where
    pub result : r ≡ some e
    pub first : Ptr
    pub holds : Holds t (requeue dev d first (front (v.queue dev)) v)
    pub freed : t.events a ≡ none
    pub outs : t.outs ≡ s.outs
    pub driver : t.driver ≡ s.driver

  module _ {s : Midi D} {v : View} (k : ℕ) (dev : Ptr) (d : InDev) (h : Holds s v) where
    Removed-Dequeued :
        {next a : Ptr} {e : Event} {r : Option Event} {t : Midi D}
        → lookup dev v.ins ≡ some d
        → Points s.ins.heap dev d next
        → Removed s dev next d (v.queue dev) a e r t
        → Dequeued s v dev a d e r t
    Removed-Dequeued {next} found points m = record {
      result = m.result;
      first = m.first;
      holds =
          subst (λ t. Holds t (requeue dev d m.first (front (v.queue dev)) v)) (sym m.state)
            (requeue-Holds dev m.first next d (front (v.queue dev)) m.events h found points m.seg
              λ r f l ne b i.
                let out = h.apart r dev f d l found ne b i in
                (m.others b out, not_mem-front b (v.queue dev) out));
      freed = rw m.state m.freed;
      outs = rw m.state;
      driver = rw m.state;
    }

    -- `RemoveMidiInEvent` on a device whose last event is `e` hands out `e`, takes that cell off
    -- the end of the device's list and frees it, and keeps all other lists, the output devices and
    -- the driver. The fuel is at least the length of the list.
    pub remove_midi_in_event-last :
        (a : Ptr) (e : Event)
        → lookup dev v.ins ≡ some d
        → last? (v.queue dev) ≡ some (a, e)
        → length (v.queue dev) ≤ k
        → Returns (Dequeued s v dev a d e) (remove_midi_in_event k dev s)
    remove_midi_in_event-last a e found last fuel =
        let (next, points) = Points-lookup dev h.ins found in
        Returns-mono
          (remove_midi_in_event-Removed k dev next d a e points (h.queued dev d found) last fuel)
          (λ r t m. Removed-Dequeued found points m)

    -- A device with no event gives none, and nothing changes.
    pub remove_midi_in_event-nil :
        lookup dev v.ins ≡ some d → v.queue dev ≡ [] → remove_midi_in_event k dev s ≡ ok none s
    remove_midi_in_event-nil found empty =
        let (next, points) = Points-lookup dev h.ins found in
        remove_midi_in_event-none k dev next d points (eq_null_of_nil (h.queued dev d found) empty)
