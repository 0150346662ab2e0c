-- ===== src/Midi/Session/Safe.antt =====
-- Sessions from their start to their end.
use profi_lua.Base.{
  ℕ, suc, ◌≤◌, ◌<◌, ◌+◌, refl, none, List, [], ◌∷◌, length, arith, Run, ok, raised, fault,
  out_of_fuel, Ends, Returns, returns, Returns-Ends, Returns-mono, Returns-result,
}
use profi_lua.Lua.{Lua}
use profi_lua.Midi.State.{Midi, Winmm}
use profi_lua.Midi.Spec.{Spec, Refines}
use profi_lua.Midi.Spec.Frame.{Refines-le}
use profi_lua.Midi.Spec.Receive.{midi_receive-Refines}
use profi_lua.Midi.Session.{Op, caught, perform, session, Unused, Allocates, start}
use profi_lua.Midi.Session.Calls.{
  Promised, pl_open_midi_out-Ends, pl_open_midi_in-Ends, pl_close_midi_out-Ends,
  pl_close_midi_in-Ends, pl_count_devices-Ends, pl_get_midi_out_name-Ends, pl_get_midi_in_name-Ends,
  pl_get_event-Ends, get_event_amid-Ends, close_in_amid-Ends,
}
use profi_lua.Midi.Session.PlayNote.{pl_play_note-Ends}
use profi_lua.Heap.Seg.{Seg}

-- With both lists empty, every device is closed.
abbrev pub closed : Spec
closed = record { outs = λ _. none; ins = λ _. none }

pub start-Refines : {D : Type 0} (d : D) → Refines 0 (start d) closed
start-Refines d = record {
  view = record { outs = []; ins = []; queue = λ _. [] };
  holds = record {
    outs = Seg.nil;
    ins = Seg.nil;
    queued = λ p e l. absurd (ground arith);
    apart = λ p x e f l. absurd (ground arith);
  };
  out_distinct = tt;
  in_distinct = tt;
  outs_of = λ m. refl;
  ins_of = λ m. refl;
  outs_size = omega arith;
  ins_size = omega arith;
  queue_size = λ p e l. absurd (ground arith);
}

module _ {D : Type 0} (lua : Lua) (w : Winmm D) (k : ℕ) where
  caught-Ends :
      {A : Type 0} (Q : Midi D → Type 0) (r : Run (Midi D) A)
      → Ends Q r
      → Returns (λ _ t. Q t) (caught lua w k r)
  caught-Ends Q (ok a s) q = returns q
  caught-Ends Q (raised s) q = returns q
  caught-Ends Q fault q = absurd q
  caught-Ends Q out_of_fuel q = absurd q

  pub perform-Promised :
      (o : Op) (n : ℕ) (s : Midi D)
      → Promised n s
      → n < k
      → Unused lua w k o s
      → Returns (λ _ t. Promised (suc n) t) (perform lua w k o s)
  unfolding perform
  perform-Promised (Op.open_out fresh args) n s (σ, r) fuel u =
      caught-Ends _ _ (pl_open_midi_out-Ends lua w k r fuel fresh u args)
  perform-Promised (Op.open_in fresh args) n s (σ, r) fuel u =
      caught-Ends _ _ (pl_open_midi_in-Ends lua w k r fuel fresh u args)
  perform-Promised (Op.close_out args) n s (σ, r) fuel u =
      caught-Ends _ _ (pl_close_midi_out-Ends lua w k r fuel args)
  perform-Promised (Op.close_in args) n s (σ, r) fuel u =
      caught-Ends _ _ (pl_close_midi_in-Ends lua w k r fuel args)
  perform-Promised (Op.play_note args) n s (σ, r) fuel u =
      caught-Ends _ _ (pl_play_note-Ends lua w k r fuel args)
  perform-Promised (Op.count_devices args) n s (σ, r) fuel u =
      caught-Ends _ _ (pl_count_devices-Ends lua w k r fuel args)
  perform-Promised (Op.out_name args) n s (σ, r) fuel u =
      caught-Ends _ _ (pl_get_midi_out_name-Ends lua w k r fuel args)
  perform-Promised (Op.in_name args) n s (σ, r) fuel u =
      caught-Ends _ _ (pl_get_midi_in_name-Ends lua w k r fuel args)
  perform-Promised (Op.get_event args) n s (σ, r) fuel u =
      caught-Ends _ _ (pl_get_event-Ends lua w k r fuel args)
  perform-Promised (Op.receive fresh num msgpar) n s (σ, r) fuel u = caught-Ends _ _ (
      Returns-Ends (Promised (suc n)) (midi_receive-Refines k fresh num msgpar r fuel u)
        λ _ t q. (_, q.0))
  perform-Promised (Op.get_event_amid rounds fresh num msgpar args) n s (σ, r) fuel u =
      caught-Ends _ _ (get_event_amid-Ends lua w k r fuel rounds fresh num msgpar u args)
  perform-Promised (Op.close_in_amid moment fresh num msgpar args) n s (σ, r) fuel u =
      caught-Ends _ _ (close_in_amid-Ends lua w k r fuel moment fresh num msgpar u args)

  -- From a state whose lists and event queues have at most `n` cells each, any sequence of at most
  -- `k - n` calls and callbacks, with any arguments and any driver, runs to its end with fuel `k`
  -- and leaves lists that are well formed: no NULL, freed or foreign pointer is dereferenced and no
  -- loop runs on. Each `malloc` is assumed to return NULL or an address that holds no node, and a
  -- callback to run between two calls, within `plGetEvent` while `RemoveMidiInEvent` looks for the
  -- last event or before it takes this event off the list, or within `plCloseMidiIn` in or after a
  -- round of either loop of `RemoveMidiIn`.
  pub session-Promised :
      (ops : List Op) (n : ℕ) (s : Midi D)
      → Promised n s
      → length ops + n ≤ k
      → Allocates lua w k ops s
      → Returns (λ _ t. Promised (length ops + n) t) (session lua w k ops s)
  unfolding session Allocates
  session-Promised [] n s (σ, r) fuel u = returns (σ, Refines-le (0 + n) (omega arith) r)
  session-Promised (o ∷ ops) n s p fuel u =
      let (_, t, e, q) = Returns-result (perform-Promised o n s p (omega arith) u.0) in
      rw e (
        Returns-mono (session-Promised ops (suc n) t q (omega arith) (rw e at u.1))
          λ _ x p'. (p'.0, Refines-le (suc (length ops) + n) (omega arith) p'.1))

  -- The same from the start of the library, with the fuel that the number of calls gives.
  pub session-start :
      (ops : List Op) (d : D)
      → length ops ≤ k
      → Allocates lua w k ops (start d)
      → Returns (λ _ t. Promised (length ops) t) (session lua w k ops (start d))
  session-start ops d fuel u =
      Returns-mono (session-Promised ops 0 (start d) (closed, start-Refines d) (omega arith) u)
        λ _ t q. (q.0, Refines-le (length ops) (omega arith) q.1)
