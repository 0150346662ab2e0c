-- ===== src/Midi/Devices.antt =====
-- The event list of an input device, and the two lists of opened devices. The argument `k` is the
-- fuel of the loops.
use profi_lua.Base.{
  ℕ, zero, suc, Bool, Option, none, some, ◌==◌, if◌then◌else◌, Cmd, out_of_fuel, pure, ◌>>=◌, ◌>>◌,
}
use profi_lua.Heap.{Ptr, null, Heap, load, set_next, set_value, free}
use profi_lua.Midi.State.{OutDev, InDev, Event, Midi, on_heap, on_outs, on_ins, on_events}
use profi_lua.Midi.Chain.{get_entry, add, detach}

-- while( p->next != NULL ){ pprev = p; p = p->next; }
unfoldable pub last_loop : ℕ → (pprev p : Ptr) → Cmd (Heap Event) (Ptr × Ptr)
last_loop zero pprev p = λ _. out_of_fuel
last_loop (suc k) pprev p = do
  n ← load p
  if n.next == null then pure (pprev, p) else last_loop k p n.next

abbrev pub out_number : ℕ → OutDev → Bool
out_number num d = d.number == num

abbrev pub in_number : ℕ → InDev → Bool
in_number num d = d.number == num

module _ {D : Type 0} where
  -- `dev` is a device and `event` an event node.
  unfoldable pub add_midi_in_event : (dev event : Ptr) → Cmd (Midi D) (Unit {0})
  add_midi_in_event dev event =
      if dev == null then pure tt else if event == null then pure tt else do
        d ← on_ins (on_heap (load dev))
        on_events (set_next event d.value.events)
        on_ins (on_heap (set_value dev (record d.value { events = event })))

  -- The part of RemoveMidiInEvent up to the end of the loop: the last event but one, or NULL, and
  -- the last. `none` is the result -1.
  unfoldable pub find_last : ℕ → Ptr → Cmd (Midi D) (Option (Ptr × Ptr))
  unfolding last_loop
  find_last k dev = if dev == null then pure none else do
    d ← on_ins (on_heap (load dev))
    if d.value.events == null
        then pure none
        else do found ← on_events (last_loop k null d.value.events); pure (some found)

  -- The rest: the last event is taken off the list, read and freed. `some` holds what is stored in
  -- `*event`; a caller that passes `NULL` for `event` ignores it.
  unfoldable pub unchain : Ptr → Option (Ptr × Ptr) → Cmd (Midi D) (Option Event)
  unchain dev none = pure none
  unchain dev (some (pprev, p)) = do
    if pprev == null
        then (do
          d ← on_ins (on_heap (load dev))
          on_ins (on_heap (set_value dev (record d.value { events = null }))))
        else on_events (set_next pprev null)
    e ← on_events (load p)
    on_events (free p)
    pure (some e.value)

  unfoldable pub remove_midi_in_event : ℕ → Ptr → Cmd (Midi D) (Option Event)
  unfolding find_last unchain
  remove_midi_in_event k dev = find_last k dev >>= unchain dev

  unfoldable pub add_midi_out : Ptr → Cmd (Midi D) (Unit {0})
  add_midi_out tmp = on_outs (add tmp)

  unfoldable pub add_midi_in : Ptr → Cmd (Midi D) (Unit {0})
  add_midi_in tmp = on_ins (add tmp)

  unfoldable pub remove_midi_out : ℕ → Ptr → Cmd (Midi D) (Unit {0})
  remove_midi_out k tmp =
      if tmp == null then pure tt else do on_outs (detach k tmp); on_outs (on_heap (free tmp))

  -- while( RemoveMidiInEvent(tmp,NULL) >= 0 ){;}
  unfoldable pub drain_loop : (rounds k : ℕ) → Ptr → Cmd (Midi D) (Unit {0})
  drain_loop zero k tmp = λ _. out_of_fuel
  drain_loop (suc rounds) k tmp = do
    e ← remove_midi_in_event k tmp
    elim e [ none ↦ pure tt | some _ ↦ drain_loop rounds k tmp ]

  unfoldable pub remove_midi_in : ℕ → Ptr → Cmd (Midi D) (Unit {0})
  unfolding drain_loop
  remove_midi_in k tmp =
      if tmp == null
      then pure tt
      else do on_ins (detach k tmp); drain_loop k k tmp; on_ins (on_heap (free tmp))

  unfoldable pub get_midi_out_entry : ℕ → ℕ → Cmd (Midi D) Ptr
  get_midi_out_entry k num = on_outs (get_entry k (out_number num))

  unfoldable pub get_midi_in_entry : ℕ → ℕ → Cmd (Midi D) Ptr
  get_midi_in_entry k num = on_ins (get_entry k (in_number num))
