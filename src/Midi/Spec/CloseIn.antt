-- ===== src/Midi/Spec/CloseIn.antt =====
-- `plCloseMidiIn` and the promise.
use profi_lua.Base.{
  ℕ, ◌<◌, ◌≡◌, refl, Option, none, some, [], ◌∷◌, ◌==◌, arith, inl, inr, false, ◌∙◌, ap, sym,
  Option-cases, Returns, returns, Returns-bind, pos, negsuc, u32_of,
}
use profi_lua.Lua.{Lua, Value, as_number, Number, int}
use profi_lua.Lua.Stack.{Reply, one}
use profi_lua.Heap.{Ptr, null}
use profi_lua.Heap.Seg.{load-ok}
use profi_lua.Heap.Cells.{Points-lookup, erase, lookup-erase}
use profi_lua.Heap.Keyed.{
  entry, entry-IsEntry, find-entry, address, entry-erase, Distinct-erase, length-erase,
}
use profi_lua.Midi.State.{InDev, Midi, Winmm}
use profi_lua.Midi.View.{Holds}
use profi_lua.Midi.Chain.Find.{get_entry-find}
use profi_lua.Midi.Spec.{Spec, Refines, Input, change, input_of, in_num}
use profi_lua.Midi.Spec.Frame.{Holds-driver}
use profi_lua.Midi.Devices.{get_midi_in_entry, in_number}
use profi_lua.Midi.Close.{remove_midi_in-InRemoved}
use profi_lua.Midi.Api.{pl_close_midi_in}

module _ {D : Type 0} (lua : Lua) (w : Winmm D) where
  abbrev pub close_in : ℕ → Spec → D → Option Input → Reply × Spec × D
  close_in num σ d none = (one (int (negsuc 1)), σ, d)
  close_in num σ d (some i) = (
    one (int (pos 0)),
    record σ { ins = change σ.ins num none },
    w.in_close i.handle (w.in_reset i.handle d),
  )

  -- The reply, the new promise and the driver's new state.
  abbrev pub close_in_spec : ℕ → Spec → D → Reply × Spec × D
  close_in_spec num σ d = close_in num σ d (σ.ins num)

  module _ {n : ℕ} {s : Midi D} {σ : Spec} (k : ℕ) (v : Value) (x : Number) (r : Refines n s σ)
      (fuel : n < k) (numeric : as_number lua v ≡ some x) where
    abbrev num : ℕ
    num = u32_of (lua.number_to_integer x)

    -- The state less a device that the promise has.
    pub removed :
        {t : Midi D} (dev : Ptr) (d : InDev)
        → entry in_num num r.view.ins ≡ some (dev, d)
        → Holds t (record r.view { ins = erase dev r.view.ins })
        → Refines n t (record σ { ins = change σ.ins num none })
    removed dev d e h =
        let is = entry-IsEntry in_num num dev d r.holds.ins e in
        record {
          view = record r.view { ins = erase dev r.view.ins };
          holds = h;
          in_distinct = Distinct-erase in_num dev d r.holds.ins is.at r.in_distinct;
          out_distinct = r.out_distinct;
          outs_of = r.outs_of;
          ins_of = λ m. ground (
            arith,
            entry-erase in_num m dev d r.holds.ins is.at r.in_distinct,
            is.numbered,
            r.ins_of m,
          );
          outs_size = r.outs_size;
          ins_size = omega (arith, r.ins_size, length-erase in_num dev r.view.ins);
          queue_size = λ p e l. r.queue_size p e (ground (arith, lookup-erase p dev r.holds.ins));
        }

    -- `plCloseMidiIn` with a numeric argument replies -2 if the device is not open; else it resets
    -- and closes the driver's device, and the device and its events are gone from the lists, the
    -- other devices being as before.
    pub pl_close_midi_in-Refines :
        Returns
          (λ reply t.
            (reply ≡ (close_in_spec num σ s.driver).0)
            × Refines n t (close_in_spec num σ s.driver).1
            × (t.driver ≡ (close_in_spec num σ s.driver).2))
          (pl_close_midi_in lua w k (v ∷ []) s)
    unfolding pl_close_midi_in get_midi_in_entry
    pl_close_midi_in-Refines = elim (Option-cases (entry in_num num r.view.ins)) [
      | inl e ↦
          let closed : σ.ins num ≡ none = sym (r.ins_of num) ∙ ap (input_of r.view.queue) e in
          let missed = find-entry in_num num r.view.ins ∙ ap (address in_num) e in
          rw
            (
              numeric,
              get_entry-find (in_number num) k s.ins r.holds.ins (omega (arith, r.ins_size)),
              missed,
              closed,
            )
            (returns (refl, r, refl))
      | inr ((dev, d), e) ↦
          let is = entry-IsEntry in_num num dev d r.holds.ins e in
          let known = sym (r.ins_of num) ∙ ap (input_of r.view.queue) e in
          let at = find-entry in_num num r.view.ins ∙ ap (address in_num) e in
          let ne : (dev == null) ≡ false = ground (arith, is.ne_null) in
          let (next, points) = Points-lookup dev r.holds.ins is.at in
          let driver = w.in_close d.handle (w.in_reset d.handle s.driver) in
          rw
            (
              numeric,
              get_entry-find (in_number num) k s.ins r.holds.ins (omega (arith, r.ins_size)),
              at,
              ne,
              load-ok points,
              known,
            )
            (Returns-bind
              (remove_midi_in-InRemoved r.view (record s { driver = driver }) k dev d
                (Holds-driver driver r.holds) is.at (omega (arith, r.ins_size))
                (omega (arith, r.queue_size dev d is.at)))
              λ _ t q. returns (refl, removed dev d e q.holds, q.driver))
    ]
