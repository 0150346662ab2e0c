-- ===== src/Midi/Examples/Pointers.antt =====
-- The pointer level of the library `promidi` at concrete heaps.
use profi_lua.Base.{
  ℕ, ◌≡◌, refl, none, some, List, [], ◌∷◌, arith, Returns, inl, inr, ◌⊎◌, true, false, Bool-cases,
  subst, ◌==◌, if◌then◌else◌,
}
use profi_lua.Heap.{Ptr, Heap, Node, null, node}
use profi_lua.Heap.Seg.{Seg, nil, cons}
use profi_lua.Heap.Cells.{lookup}
use profi_lua.Midi.State.{OutDev, InDev, Event, Midi}
use profi_lua.Midi.View.{View, Holds, Events}
use profi_lua.Midi.Devices.{remove_midi_in, drain_loop}
use profi_lua.Midi.Queue.Drain.{drain_loop-Drained, Drained}
use profi_lua.Midi.Close.{remove_midi_in-InRemoved, InRemoved}

-- Three output devices, and two input devices of which the first has two events.
abbrev out_cells : List (Ptr × OutDev)
out_cells =
    (1, record { number = 10; handle = 100 })
    ∷ (2, record { number = 20; handle = 200 })
    ∷ (3, record { number = 30; handle = 300 })
    ∷ []

abbrev pub first_in : InDev
first_in = record { number = 5; handle = 50; events = 8 }

abbrev second_in : InDev
second_in = record { number = 6; handle = 60; events = null }

abbrev new_event : Event
new_event = record { status = 0x80; dat1 = 60; dat2 = 0 }

abbrev old_event : Event
old_event = record { status = 0x90; dat1 = 60; dat2 = 127 }

abbrev events : Events
events = (8, new_event) ∷ (9, old_event) ∷ []

-- The heap of two cells and of three.
abbrev heap_of : {A : Type 0} → List (Ptr × Node A) → Heap A
heap_of [] a = none
heap_of ((p, n) ∷ ns) a = if a == p then some n else heap_of ns a

abbrev pub state : Midi ℕ
state = record {
  outs = record {
    head = 1;
    heap = heap_of (
        (1, node (record { number = 10; handle = 100 }) 2)
        ∷ (2, node (record { number = 20; handle = 200 }) 3)
        ∷ (3, node (record { number = 30; handle = 300 }) null)
        ∷ []);
  };
  ins = record { head = 4; heap = heap_of ((4, node first_in 7) ∷ (7, node second_in null) ∷ []) };
  events = heap_of ((8, node new_event 9) ∷ (9, node old_event null) ∷ []);
  driver = 0;
}

abbrev pub view : View
view = record {
  outs = out_cells;
  ins = (4, first_in) ∷ (7, second_in) ∷ [];
  queue = λ p. if p == 4 then events else [];
}

outs-Seg : Seg state.outs.heap null 1 out_cells
outs-Seg =
    cons (record { ne_null = ground arith; holds = refl }) (ground arith)
      (cons (record { ne_null = ground arith; holds = refl }) (ground arith)
        (cons (record { ne_null = ground arith; holds = refl }) (ground arith) nil))

ins-Seg : Seg state.ins.heap null 4 view.ins
ins-Seg =
    cons (record { ne_null = ground arith; holds = refl }) (ground arith)
      (cons (record { ne_null = ground arith; holds = refl }) (ground arith) nil)

events-Seg : Seg state.events null 8 events
events-Seg =
    cons (record { ne_null = ground arith; holds = refl }) (ground arith)
      (cons (record { ne_null = ground arith; holds = refl }) (ground arith) nil)

queued :
    (p : Ptr) (d : InDev)
    → lookup p view.ins ≡ some d
    → ((p == 4) ≡ true) ⊎ ((p == 4) ≡ false)
    → Seg state.events null d.events (view.queue p)
queued p d l (inl t) =
    let first : 8 ≡ d.events = ground (arith) in
    rw t (subst (λ x. Seg state.events null x events) first events-Seg)
queued p d l (inr f) =
    let first : null ≡ d.events = ground (arith) in
    rw f (subst (λ x. Seg state.events null x []) first nil)

pub state-Holds : Holds state view
state-Holds = record {
  outs = outs-Seg;
  ins = ins-Seg;
  queued = λ p d l. queued p d l (Bool-cases (p == 4));
  apart = λ p r d e lp lr ne a i. ground (arith, lp, lr, ne, i);
}

remove_midi_in-InRemoved_example : Returns (λ _. InRemoved view state 4) (remove_midi_in 3 4 state)
remove_midi_in-InRemoved_example =
    remove_midi_in-InRemoved view state 3 4 first_in state-Holds refl (omega arith) (omega arith)

drain_loop-Drained_example : Returns (λ _. Drained state 4 7 events) (drain_loop 3 2 4 state)
drain_loop-Drained_example =
    drain_loop-Drained 3 2 4 7 first_in events (record { ne_null = ground arith; holds = refl })
      events-Seg (omega arith) (omega arith)
