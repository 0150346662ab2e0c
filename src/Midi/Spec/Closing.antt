-- ===== src/Midi/Spec/Closing.antt =====
-- `plCloseMidiIn` with a message from the driver in the middle of `RemoveMidiIn`, and the promise.
pub mod Heard
use profi_lua.Base.{
  ℕ, suc, ◌<◌, ◌≡◌, refl, Option, none, some, [], ◌∷◌, ◌==◌, arith, inl, inr, false, ◌∙◌, ap, sym,
  Option-cases, Returns, returns, Returns-bind, Returns-mono, u32_of, pos, negsuc, List, Bool-cases,
  not, ◌&&◌, ==_iff,
}
use profi_lua.Lua.{Lua, Value, as_number, Number, int}
use profi_lua.Heap.{Ptr, null}
use profi_lua.Heap.Seg.{load-ok}
use profi_lua.Heap.Cells.{Points-lookup, not_mem_of_none}
use profi_lua.Heap.Keyed.{entry, entry-IsEntry, find-entry, address}
use profi_lua.Midi.State.{InDev, Event, Midi, Winmm}
use profi_lua.Midi.Chain.Find.{get_entry-find}
use profi_lua.Midi.Spec.{Spec, Refines, Input, input_of, in_num, change}
use profi_lua.Midi.Spec.Frame.{Holds-driver, Refines-le, Refines-driver}
use profi_lua.Midi.Spec.CloseIn.{close_in_spec, removed}
use profi_lua.Midi.Spec.Receive.{contains, statuses, received, midi_receive-Kept}
use profi_lua.Midi.Devices.{get_midi_in_entry, in_number}
use profi_lua.Midi.Wire.{midi_receive, byte_of}
use profi_lua.Midi.Queue.Receive.{event_of}
use profi_lua.Midi.Close.{remove_midi_in-InRemoved}
use profi_lua.Midi.Queue.Interrupt.Closing.{interrupted_removal, closing-sequential}
use profi_lua.Midi.Queue.Interrupt.Unlinking.{
  Moment, removal_amid, interrupted_unlinking, unlinking-sequential,
}
use profi_lua.Lua.Stack.{Reply, one}
use profi_lua.Midi.Api.{close_midi_in_by}
use profi_lua.Midi.Spec.Closing.Heard.{gone, heard}

module _ {D : Type 0} (lua : Lua) (w : Winmm D) where
  abbrev pub closes_amid :
      Moment → (fresh num msgpar m : ℕ) → Option Input → Spec → D → Reply × Spec × D
  closes_amid moment fresh num msgpar m none σ d = (one (int (negsuc 1)), σ, d)
  closes_amid moment fresh num msgpar m (some i) σ d = (
    one (int (pos 0)),
    gone moment fresh num msgpar m σ,
    w.in_close i.handle (w.in_reset i.handle d),
  )

  -- The reply, the new promise and the driver's new state. A device that is not open is not removed,
  -- so that no message arrives meanwhile.
  abbrev pub close_in_amid : Moment → (fresh num msgpar m : ℕ) → Spec → D → Reply × Spec × D
  close_in_amid moment fresh num msgpar m σ d = closes_amid moment fresh num msgpar m (σ.ins m) σ d

  module _ {n : ℕ} {s : Midi D} {σ : Spec} (k fresh num msgpar : ℕ) (v : Value) (x : Number)
      (r : Refines n s σ) (fuel : n < k) (unused : s.events fresh ≡ none)
      (numeric : as_number lua v ≡ some x) where
    abbrev m : ℕ
    m = u32_of (lua.number_to_integer x)

    -- `plCloseMidiIn` with a numeric argument, while a message of the driver arrives inside
    -- `RemoveMidiIn`, in or after a round of the loop that unlinks the device or of the one that
    -- frees its events: the call replies and calls the driver as without the message, the device is
    -- gone with all its events, and the message is handled as before that or, when the device has
    -- left the list, as after it. A device that is not open is not removed, and no message arrives
    -- meanwhile. The lists stay well formed. `malloc` is assumed to return NULL or an unused
    -- address.
    pub close_midi_in_by-interrupted :
        (moment : Moment)
        → Returns
            (λ reply t.
              (reply ≡ (close_in_amid moment fresh num msgpar m σ s.driver).0)
              × Refines (suc n) t (close_in_amid moment fresh num msgpar m σ s.driver).1
              × (t.driver ≡ (close_in_amid moment fresh num msgpar m σ s.driver).2))
            (close_midi_in_by lua w k
              (removal_amid (midi_receive k fresh num msgpar) moment (suc k))
              (v ∷ [])
              s)
    unfolding get_midi_in_entry Refines-driver
    close_midi_in_by-interrupted moment = elim (Option-cases (entry in_num m r.view.ins)) [
      | inl e ↦
          let closed : σ.ins m ≡ none = sym (r.ins_of m) ∙ ap (input_of r.view.queue) e in
          let missed = find-entry in_num m r.view.ins ∙ ap (address in_num) e in
          rw
            (
              numeric,
              get_entry-find (in_number m) k s.ins r.holds.ins (omega (arith, r.ins_size, fuel)),
              missed,
              closed,
            )
            (returns (refl, Refines-le (suc n) (omega arith) r, refl))
      | inr ((dev, d), e) ↦
          let is = entry-IsEntry in_num m dev d r.holds.ins e in
          let known = sym (r.ins_of m) ∙ ap (input_of r.view.queue) e in
          let found = find-entry in_num m r.view.ins ∙ ap (address in_num) e in
          let ne : (dev == null) ≡ false = ground (arith, is.ne_null) in
          let (next, points) = Points-lookup dev r.holds.ins is.at in
          let driver = w.in_close d.handle (w.in_reset d.handle s.driver) in
          rw
            (
              numeric,
              get_entry-find (in_number m) k s.ins r.holds.ins (omega (arith, r.ins_size, fuel)),
              found,
              ne,
              load-ok points,
              known,
            )
            (Returns-bind
              (heard lua w k fresh num msgpar v x (Refines-driver driver r) fuel unused numeric dev
                d e moment d.handle _ known)
              λ _ u p. returns (refl, p.0, p.1))
    ]
