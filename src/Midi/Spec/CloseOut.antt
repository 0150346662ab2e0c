-- ===== src/Midi/Spec/CloseOut.antt =====
-- `plCloseMidiOut` and the promise.
use profi_lua.Base.{
  ℕ, ◌<◌, ◌≡◌, refl, Option, none, some, [], ◌∷◌, ◌==◌, arith, inl, inr, false, ◌∙◌, ap, sym,
  Option-cases, Returns, returns, Returns-bind, pos, negsuc, u32_of,
}
use profi_lua.Lua.{Lua, Value, as_number, Number, int}
use profi_lua.Lua.Stack.{Reply, one}
use profi_lua.Heap.{Ptr, null}
use profi_lua.Heap.Seg.{load-ok}
use profi_lua.Heap.Cells.{Points-lookup, erase}
use profi_lua.Heap.Keyed.{
  entry, entry-IsEntry, find-entry, address, entry-erase, Distinct-erase, length-erase,
}
use profi_lua.Midi.State.{OutDev, Midi, Winmm}
use profi_lua.Midi.View.{Holds}
use profi_lua.Midi.Chain.Find.{get_entry-find}
use profi_lua.Midi.Spec.{Spec, Refines, change, output_of, out_num}
use profi_lua.Midi.Spec.Frame.{Holds-driver}
use profi_lua.Midi.Devices.{get_midi_out_entry, out_number}
use profi_lua.Midi.Close.{remove_midi_out-OutRemoved}
use profi_lua.Midi.Api.{pl_close_midi_out}

module _ {D : Type 0} (lua : Lua) (w : Winmm D) where
  abbrev pub close_out : ℕ → Spec → D → Option ℕ → Reply × Spec × D
  close_out num σ d none = (one (int (negsuc 1)), σ, d)
  close_out num σ d (some h) = (
    one (int (pos 0)),
    record σ { outs = change σ.outs num none },
    w.out_close h (w.out_reset h d),
  )

  -- The reply, the new promise and the driver's new state.
  abbrev pub close_out_spec : ℕ → Spec → D → Reply × Spec × D
  close_out_spec num σ d = close_out num σ d (σ.outs num)

  module _ {n : ℕ} {s : Midi D} {σ : Spec} (k : ℕ) (v : Value) (x : Number) (r : Refines n s σ)
      (fuel : n < k) (numeric : as_number lua v ≡ some x) where
    abbrev num : ℕ
    num = u32_of (lua.number_to_integer x)

    -- The state less a device that the promise has.
    removed :
        {t : Midi D} (dev : Ptr) (d : OutDev)
        → entry out_num num r.view.outs ≡ some (dev, d)
        → Holds t (record r.view { outs = erase dev r.view.outs })
        → Refines n t (record σ { outs = change σ.outs num none })
    removed dev d e h =
        let is = entry-IsEntry out_num num dev d r.holds.outs e in
        record {
          view = record r.view { outs = erase dev r.view.outs };
          holds = h;
          out_distinct = Distinct-erase out_num dev d r.holds.outs is.at r.out_distinct;
          in_distinct = r.in_distinct;
          outs_of = λ m. ground (
            arith,
            entry-erase out_num m dev d r.holds.outs is.at r.out_distinct,
            is.numbered,
            r.outs_of m,
          );
          ins_of = r.ins_of;
          outs_size = omega (arith, r.outs_size, length-erase out_num dev r.view.outs);
          ins_size = r.ins_size;
          queue_size = r.queue_size;
        }

    -- `plCloseMidiOut` with a numeric argument replies -2 if the device is not open; else it resets
    -- and closes the driver's device, and the device is gone from the list, the other devices being
    -- as before.
    pub pl_close_midi_out-Refines :
        Returns
          (λ reply t.
            (reply ≡ (close_out_spec num σ s.driver).0)
            × Refines n t (close_out_spec num σ s.driver).1
            × (t.driver ≡ (close_out_spec num σ s.driver).2))
          (pl_close_midi_out lua w k (v ∷ []) s)
    unfolding pl_close_midi_out get_midi_out_entry
    pl_close_midi_out-Refines = elim (Option-cases (entry out_num num r.view.outs)) [
      | inl e ↦
          let closed : σ.outs num ≡ none = sym (r.outs_of num) ∙ ap output_of e in
          let missed = find-entry out_num num r.view.outs ∙ ap (address out_num) e in
          rw
            (
              numeric,
              get_entry-find (out_number num) k s.outs r.holds.outs (omega (arith, r.outs_size)),
              missed,
              closed,
            )
            (returns (refl, r, refl))
      | inr ((dev, d), e) ↦
          let is = entry-IsEntry out_num num dev d r.holds.outs e in
          let known = sym (r.outs_of num) ∙ ap output_of e in
          let at = find-entry out_num num r.view.outs ∙ ap (address out_num) e in
          let ne : (dev == null) ≡ false = ground (arith, is.ne_null) in
          let (next, points) = Points-lookup dev r.holds.outs is.at in
          let driver = w.out_close d.handle (w.out_reset d.handle s.driver) in
          rw
            (
              numeric,
              get_entry-find (out_number num) k s.outs r.holds.outs (omega (arith, r.outs_size)),
              at,
              ne,
              load-ok points,
              known,
            )
            (Returns-bind
              (remove_midi_out-OutRemoved r.view (record s { driver = driver }) k dev d
                (Holds-driver driver r.holds) is.at (omega (arith, r.outs_size)))
              λ _ t q. returns (refl, removed dev d e q.holds, q.driver))
    ]
