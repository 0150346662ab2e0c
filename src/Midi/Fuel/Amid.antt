-- ===== src/Midi/Fuel/Amid.antt =====
-- Calls with a message in their middle, with more fuel than they need.
use profi_lua.Base.{
  ℕ, zero, suc, ◌≤◌, ◌==◌, arith, Cmd, Extends, same-Extends, if-Extends, option-Extends,
  bind-Extends, then-Extends, get,
}
use profi_lua.Heap.{Ptr, null, load}
use profi_lua.Midi.State.{Midi, on_heap, on_ins, on_events}
use profi_lua.Midi.Queue.Interrupt.{interrupted, interrupted_loop}
use profi_lua.Midi.Queue.Interrupt.Unlinking.{
  interrupted_unlink, interrupted_unlinking, Moment, removal_amid,
}
use profi_lua.Midi.Queue.Interrupt.Closing.{interrupted_drain, interrupted_removal}
use profi_lua.Midi.Fuel.{
  heap-Extends, ins-Extends, events-Extends, unlink_loop-Extends, detach-Extends, last_loop-Extends,
  drain_loop-Extends, remove_midi_in_event-Extends,
}

module _ {D : Type 0} (k k' : ℕ) (le : k ≤ k') where
  module _ {callback callback' : Cmd (Midi D) (Unit {0})} (more : Extends callback callback') where
    interrupted_loop-Extends :
        (rounds j j' : ℕ) (pprev p : Ptr)
        → j ≤ j'
        → Extends
            (interrupted_loop callback rounds j pprev p)
            (interrupted_loop callback' rounds j' pprev p)
    unfolding interrupted_loop
    interrupted_loop-Extends zero j j' pprev p le' =
        bind-Extends more λ _. events-Extends (last_loop-Extends j j' pprev p le')
    interrupted_loop-Extends (suc rounds) zero j' pprev p le' = record { runs = λ s. tt }
    interrupted_loop-Extends (suc rounds) (suc j) zero pprev p le' = absurd (omega (arith, le'))
    interrupted_loop-Extends (suc rounds) (suc j) (suc j') pprev p le' =
        then-Extends (on_events (load p)) λ n.
          if-Extends (n.next == null) (bind-Extends more λ _. same-Extends)
            (interrupted_loop-Extends rounds j j' p n.next (omega (arith, le')))

    pub interrupted-Extends :
        (rounds : ℕ) (dev : Ptr)
        → Extends (interrupted callback rounds k dev) (interrupted callback' rounds k' dev)
    unfolding interrupted
    interrupted-Extends rounds dev = if-Extends (dev == null) same-Extends (
        then-Extends (on_ins (on_heap (load dev))) λ d.
          if-Extends (d.value.events == null) same-Extends (
            bind-Extends (interrupted_loop-Extends rounds k k' null d.value.events le)
              λ found. same-Extends))

    interrupted_drain-Extends :
        (at rounds rounds' : ℕ) (tmp : Ptr)
        → rounds ≤ rounds'
        → Extends
            (interrupted_drain callback at rounds k tmp)
            (interrupted_drain callback' at rounds' k' tmp)
    unfolding interrupted_drain
    interrupted_drain-Extends zero rounds rounds' tmp le' =
        bind-Extends more λ _. drain_loop-Extends k k' le rounds rounds' tmp le'
    interrupted_drain-Extends (suc at) zero rounds' tmp le' = record { runs = λ s. tt }
    interrupted_drain-Extends (suc at) (suc rounds) zero tmp le' = absurd (omega (arith, le'))
    interrupted_drain-Extends (suc at) (suc rounds) (suc rounds') tmp le' =
        bind-Extends (remove_midi_in_event-Extends k k' le tmp) λ e.
          option-Extends e more
            λ _. interrupted_drain-Extends at rounds rounds' tmp (omega (arith, le'))

    interrupted_removal-Extends :
        (at : ℕ) (tmp : Ptr)
        → Extends (interrupted_removal callback at k tmp) (interrupted_removal callback' at k' tmp)
    unfolding interrupted_removal
    interrupted_removal-Extends at tmp = if-Extends (tmp == null) same-Extends (
        bind-Extends (ins-Extends (detach-Extends k k' tmp le))
          λ _. bind-Extends (interrupted_drain-Extends at k k' tmp le) λ _. same-Extends)

    interrupted_unlink-Extends :
        (at j j' : ℕ) (tmp p : Ptr)
        → j ≤ j'
        → Extends
            (interrupted_unlink callback at j tmp p)
            (interrupted_unlink callback' at j' tmp p)
    unfolding interrupted_unlink
    interrupted_unlink-Extends zero j j' tmp p le' =
        bind-Extends more λ _. ins-Extends (heap-Extends (unlink_loop-Extends j j' tmp p le'))
    interrupted_unlink-Extends (suc at) zero j' tmp p le' = record { runs = λ s. tt }
    interrupted_unlink-Extends (suc at) (suc j) zero tmp p le' = absurd (omega (arith, le'))
    interrupted_unlink-Extends (suc at) (suc j) (suc j') tmp p le' = if-Extends (p == null) more (
        then-Extends (on_ins (on_heap (load p))) λ n.
          if-Extends (n.next == tmp)
            (then-Extends (on_ins (on_heap (load tmp))) λ t. bind-Extends more λ _. same-Extends)
            (interrupted_unlink-Extends at j j' tmp n.next (omega (arith, le'))))

    interrupted_unlinking-Extends :
        (at : ℕ) (tmp : Ptr)
        → Extends
            (interrupted_unlinking callback at k tmp)
            (interrupted_unlinking callback' at k' tmp)
    unfolding interrupted_unlinking
    interrupted_unlinking-Extends at tmp = if-Extends (tmp == null) same-Extends (
        then-Extends get λ s.
          bind-Extends
            (if-Extends (s.ins.head == tmp)
              (then-Extends (on_ins (on_heap (load tmp))) λ t. bind-Extends more λ _. same-Extends)
              (interrupted_unlink-Extends at k k' tmp s.ins.head le))
            λ _. bind-Extends (drain_loop-Extends k k' le k k' tmp le) λ _. same-Extends)

    pub removal_amid-Extends :
        (moment : Moment) (tmp : Ptr)
        → Extends (removal_amid callback moment k tmp) (removal_amid callback' moment k' tmp)
    removal_amid-Extends (Moment.unlinking at) tmp = interrupted_unlinking-Extends at tmp
    removal_amid-Extends (Moment.draining at) tmp = interrupted_removal-Extends at tmp
