-- ===== src/Midi/Fuel.antt =====
-- The loops of src/profimidi.c with more fuel than they need.
pub mod Amid
pub mod Calls
use profi_lua.Base.{
  ℕ, zero, suc, ◌≤◌, Bool, Option, none, some, List, ◌==◌, if◌then◌else◌, arith, Cmd, pure, ◌>>=◌,
  ◌>>◌, Extends, same-Extends, if-Extends, option-Extends, bind-Extends, then-Extends, get,
  part-Extends,
}
use profi_lua.Heap.{Ptr, null, Heap, load, store, node}
use profi_lua.Midi.State.{Chain, OutDev, InDev, Event, Midi, on_heap, on_outs, on_ins, on_events}
use profi_lua.Midi.Chain.{find_loop, get_entry, unlink_loop, detach}
use profi_lua.Midi.Devices.{
  add_midi_in_event, last_loop, find_last, unchain, remove_midi_in_event, remove_midi_out,
  drain_loop, remove_midi_in, get_midi_out_entry, get_midi_in_entry,
}
use profi_lua.Midi.Wire.{midi_receive, is_kept, byte_of}
use profi_lua.Midi.Queue.Receive.{event_of}
use profi_lua.Midi.Queue.Interrupt.{interrupted, interrupted_loop}
use profi_lua.Midi.Queue.Interrupt.Unlinking.{
  interrupted_unlink, interrupted_unlinking, Moment, removal_amid,
}
use profi_lua.Midi.Queue.Interrupt.Closing.{interrupted_drain, interrupted_removal}

module _ {A B : Type 0} {m m' : Cmd (Heap A) B} where
  pub heap-Extends : Extends m m' → Extends {S = Chain A} (on_heap m) (on_heap m')
  heap-Extends = part-Extends (λ c. c.heap) (λ c h. record c { heap = h })

module _ {D B : Type 0} where
  pub outs-Extends :
      {m m' : Cmd (Chain OutDev) B} → Extends m m' → Extends {S = Midi D} (on_outs m) (on_outs m')
  outs-Extends = part-Extends (λ s. s.outs) (λ s c. record s { outs = c })

  pub ins-Extends :
      {m m' : Cmd (Chain InDev) B} → Extends m m' → Extends {S = Midi D} (on_ins m) (on_ins m')
  ins-Extends = part-Extends (λ s. s.ins) (λ s c. record s { ins = c })

  pub events-Extends :
      {m m' : Cmd (Heap Event) B} → Extends m m' → Extends {S = Midi D} (on_events m) (on_events m')
  events-Extends = part-Extends (λ s. s.events) (λ s h. record s { events = h })

module _ {A : Type 0} where
  find_loop-Extends :
      (k k' : ℕ) (is : A → Bool) (p : Ptr) → k ≤ k' → Extends (find_loop k is p) (find_loop k' is p)
  unfolding find_loop
  find_loop-Extends zero k' is p le = record { runs = λ h. tt }
  find_loop-Extends (suc k) zero is p le = absurd (omega (arith, le))
  find_loop-Extends (suc k) (suc k') is p le = then-Extends (load p) λ n.
      if-Extends (is n.value) same-Extends (
        if-Extends (n.next == null) same-Extends
          (find_loop-Extends k k' is n.next (omega (arith, le))))

  get_entry-Extends :
      (k k' : ℕ) (is : A → Bool) → k ≤ k' → Extends (get_entry k is) (get_entry k' is)
  unfolding get_entry
  get_entry-Extends k k' is le = then-Extends get λ c.
      if-Extends (c.head == null) same-Extends (heap-Extends (find_loop-Extends k k' is c.head le))

  pub unlink_loop-Extends :
      (k k' : ℕ) (tmp p : Ptr)
      → k ≤ k'
      → Extends {S = Heap A} (unlink_loop k tmp p) (unlink_loop k' tmp p)
  unfolding unlink_loop
  unlink_loop-Extends zero k' tmp p le = record { runs = λ h. tt }
  unlink_loop-Extends (suc k) zero tmp p le = absurd (omega (arith, le))
  unlink_loop-Extends (suc k) (suc k') tmp p le = if-Extends (p == null) same-Extends (
      then-Extends (load p) λ n.
        if-Extends (n.next == tmp) same-Extends
          (unlink_loop-Extends k k' tmp n.next (omega (arith, le))))

  pub detach-Extends :
      (k k' : ℕ) (tmp : Ptr) → k ≤ k' → Extends {S = Chain A} (detach k tmp) (detach k' tmp)
  unfolding detach
  detach-Extends k k' tmp le = then-Extends get λ c.
      if-Extends (c.head == tmp) same-Extends
        (heap-Extends (unlink_loop-Extends k k' tmp c.head le))

pub last_loop-Extends :
    (k k' : ℕ) (pprev p : Ptr) → k ≤ k' → Extends (last_loop k pprev p) (last_loop k' pprev p)
unfolding last_loop
last_loop-Extends zero k' pprev p le = record { runs = λ h. tt }
last_loop-Extends (suc k) zero pprev p le = absurd (omega (arith, le))
last_loop-Extends (suc k) (suc k') pprev p le = then-Extends (load p) λ n.
    if-Extends (n.next == null) same-Extends (last_loop-Extends k k' p n.next (omega (arith, le)))

module _ {D : Type 0} (k k' : ℕ) (le : k ≤ k') where
  pub get_midi_out_entry-Extends :
      (num : ℕ) → Extends {S = Midi D} (get_midi_out_entry k num) (get_midi_out_entry k' num)
  unfolding get_midi_out_entry
  get_midi_out_entry-Extends num = outs-Extends (get_entry-Extends k k' _ le)

  pub get_midi_in_entry-Extends :
      (num : ℕ) → Extends {S = Midi D} (get_midi_in_entry k num) (get_midi_in_entry k' num)
  unfolding get_midi_in_entry
  get_midi_in_entry-Extends num = ins-Extends (get_entry-Extends k k' _ le)

  pub remove_midi_in_event-Extends :
      (dev : Ptr) → Extends {S = Midi D} (remove_midi_in_event k dev) (remove_midi_in_event k' dev)
  unfolding remove_midi_in_event
  remove_midi_in_event-Extends dev =
      bind-Extends
        (if-Extends (dev == null) same-Extends (
          then-Extends (on_ins (on_heap (load dev))) λ d.
            if-Extends (d.value.events == null) same-Extends (
              bind-Extends (events-Extends (last_loop-Extends k k' null d.value.events le))
                λ found. same-Extends)))
        λ found. same-Extends

  pub drain_loop-Extends :
      (rounds rounds' : ℕ) (tmp : Ptr)
      → rounds ≤ rounds'
      → Extends {S = Midi D} (drain_loop rounds k tmp) (drain_loop rounds' k' tmp)
  unfolding drain_loop
  drain_loop-Extends zero rounds' tmp le' = record { runs = λ s. tt }
  drain_loop-Extends (suc rounds) zero tmp le' = absurd (omega (arith, le'))
  drain_loop-Extends (suc rounds) (suc rounds') tmp le' =
      bind-Extends (remove_midi_in_event-Extends tmp) λ e.
        option-Extends e same-Extends
          λ _. drain_loop-Extends rounds rounds' tmp (omega (arith, le'))

  pub remove_midi_out-Extends :
      (tmp : Ptr) → Extends {S = Midi D} (remove_midi_out k tmp) (remove_midi_out k' tmp)
  unfolding remove_midi_out
  remove_midi_out-Extends tmp =
      if-Extends (tmp == null) same-Extends
        (bind-Extends (outs-Extends (detach-Extends k k' tmp le)) λ _. same-Extends)

  pub remove_midi_in-Extends :
      (tmp : Ptr) → Extends {S = Midi D} (remove_midi_in k tmp) (remove_midi_in k' tmp)
  unfolding remove_midi_in
  remove_midi_in-Extends tmp = if-Extends (tmp == null) same-Extends (
      bind-Extends (ins-Extends (detach-Extends k k' tmp le))
        λ _. bind-Extends (drain_loop-Extends k k' tmp le) λ _. same-Extends)

  pub midi_receive-Extends :
      (fresh num msgpar : ℕ)
      → Extends {S = Midi D} (midi_receive k fresh num msgpar) (midi_receive k' fresh num msgpar)
  unfolding midi_receive
  midi_receive-Extends fresh num msgpar =
      if-Extends (is_kept (byte_of 0 msgpar))
        (if-Extends {m = pure tt} (fresh == null) same-Extends (
          then-Extends (on_events (store fresh (some (node (event_of msgpar) null)))) λ _.
            bind-Extends (get_midi_in_entry-Extends num)
              λ dev. same-Extends {m = add_midi_in_event dev fresh}))
        (same-Extends {m = pure tt})
