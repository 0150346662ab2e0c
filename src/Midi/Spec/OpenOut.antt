-- ===== src/Midi/Spec/OpenOut.antt =====
-- `plOpenMidiOut` and the promise.
use profi_lua.Base.{
  ℕ, suc, ◌<◌, ◌≡◌, ◌≢◌, refl, Option, none, some, [], ◌∷◌, ◌==◌, if◌then◌else◌, arith, Bool-cases,
  inl, inr, false, ◌∙◌, ap, sym, Option-cases, Returns, returns, pos, negsuc, u32_of,
}
use profi_lua.Lua.{Lua, Value, as_number, Number, int}
use profi_lua.Lua.Stack.{Reply, one}
use profi_lua.Heap.{Ptr, null}
use profi_lua.Heap.Keyed.{entry, entry-IsEntry, find-entry, address}
use profi_lua.Midi.State.{OutDev, Midi, Winmm}
use profi_lua.Midi.Chain.Find.{get_entry-find}
use profi_lua.Midi.Chain.Add.{with_head, add-ok, Seg-with_head}
use profi_lua.Midi.Spec.{Spec, Refines, change, output_of, out_num}
use profi_lua.Midi.Spec.Frame.{Refines-le, Refines-driver}
use profi_lua.Midi.Devices.{get_midi_out_entry, add_midi_out, out_number}
use profi_lua.Midi.Api.{pl_open_midi_out, opened_midi_out}

-- The new promise: the device is open.
abbrev pub opened_out : (num handle : ℕ) → Spec → Spec
opened_out num handle σ = record σ { outs = change σ.outs num (some handle) }

not-open : (o : Option (Ptr × OutDev)) → output_of o ≡ none → o ≡ none
not-open none e = refl
not-open (some (p, d)) e = absurd (ground arith)

module _ {D : Type 0} {n : ℕ} {s : Midi D} {σ : Spec} (r : Refines n s σ) where
  abbrev with_device : (num handle fresh : ℕ) → D → Midi D
  with_device num handle fresh driver = record s {
    outs = record {
      head = fresh;
      heap = with_head s.outs.heap s.outs.head fresh (record { number = num; handle = handle });
    };
    driver = driver;
  }

  with_device-Refines :
      (num handle fresh : ℕ) (driver : D)
      → fresh ≢ null
      → s.outs.heap fresh ≡ none
      → σ.outs num ≡ none
      → Refines (suc n) (with_device num handle fresh driver) (opened_out num handle σ)
  with_device-Refines num handle fresh driver ne unused closed =
      let dev : OutDev = record { number = num; handle = handle } in
      record {
        view = record r.view { outs = (fresh, dev) ∷ r.view.outs };
        holds = record {
          outs = Seg-with_head s.outs.heap s.outs.head fresh dev ne r.holds.outs unused;
          ins = r.holds.ins;
          queued = r.holds.queued;
          apart = r.holds.apart;
        };
        out_distinct =
            (not-open (entry out_num num r.view.outs) (r.outs_of num ∙ closed), r.out_distinct);
        in_distinct = r.in_distinct;
        outs_of = λ m. ground (arith, r.outs_of m);
        ins_of = r.ins_of;
        outs_size = omega (arith, r.outs_size);
        ins_size = omega (arith, r.ins_size);
        queue_size = λ p e l. omega (arith, r.queue_size p e l);
      }

module _ {D : Type 0} (lua : Lua) (w : Winmm D) where
  -- The reply, the new promise and the driver's new state.
  abbrev pub open_out : (fresh num : ℕ) → Spec → D → Option ℕ → Option ℕ × D → Reply × Spec × D
  open_out fresh num σ d (some _) _ = (one (int (negsuc 1)), σ, d)
  open_out fresh num σ d none (none, d') = (one (int (negsuc 2)), σ, d')
  open_out fresh num σ d none (some h, d') =
      if fresh == null
      then (one (int (negsuc 3)), σ, d')
      else (one (int (pos 0)), opened_out num h σ, d')

  abbrev pub open_out_spec : (fresh num : ℕ) → Spec → D → Reply × Spec × D
  open_out_spec fresh num σ d = open_out fresh num σ d (σ.outs num) (w.out_open num d)

  module _ {n : ℕ} {s : Midi D} {σ : Spec} (k fresh : ℕ) (v : Value) (x : Number)
      (r : Refines n s σ) (fuel : n < k) (numeric : as_number lua v ≡ some x)
      (unused : s.outs.heap fresh ≡ none) where
    abbrev num : ℕ
    num = u32_of (lua.number_to_integer x)

    after_open :
        entry out_num num r.view.outs ≡ none
        → (opened : Option ℕ) (d : D)
        → Returns
            (λ reply t.
              (reply ≡ (open_out fresh num σ s.driver none (opened, d)).0)
              × Refines (suc n) t (open_out fresh num σ s.driver none (opened, d)).1
              × (t.driver ≡ (open_out fresh num σ s.driver none (opened, d)).2))
            (opened_midi_out lua w fresh num opened (record s { driver = d }))
    unfolding opened_midi_out add_midi_out
    after_open e none d =
        returns (refl, Refines-le (suc n) (omega arith) (Refines-driver d r), refl)
    after_open e (some handle) d = elim (Bool-cases (fresh == null)) [
      | inl t ↦ rw t (returns (refl, Refines-le (suc n) (omega arith) (Refines-driver d r), refl))
      | inr f ↦
          let ne : fresh ≢ null = ground arith in
          let dev : OutDev = record { number = num; handle = handle } in
          rw (f, add-ok s.outs.heap s.outs.head fresh dev ne)
            (returns (
              refl,
              with_device-Refines r num handle fresh d ne unused
                  (sym (r.outs_of num) ∙ ap output_of e),
              refl,
            ))
    ]

    -- `plOpenMidiOut` with a numeric argument replies -2 if the device is open already, -3 if the
    -- driver refuses, -4 with no memory, when the driver's device stays open, and else 0, with the
    -- device open. `malloc` is assumed to return NULL or an unused address.
    pub pl_open_midi_out-Refines :
        Returns
          (λ reply t.
            (reply ≡ (open_out_spec fresh num σ s.driver).0)
            × Refines (suc n) t (open_out_spec fresh num σ s.driver).1
            × (t.driver ≡ (open_out_spec fresh num σ s.driver).2))
          (pl_open_midi_out lua w k fresh (v ∷ []) s)
    unfolding pl_open_midi_out get_midi_out_entry
    pl_open_midi_out-Refines = elim (Option-cases (entry out_num num r.view.outs)) [
      | inl e ↦
          let closed : σ.outs num ≡ none = sym (r.outs_of num) ∙ ap output_of e in
          let missed = find-entry out_num num r.view.outs ∙ ap (address out_num) e in
          rw
            (
              numeric,
              get_entry-find (out_number num) k s.outs r.holds.outs (omega (arith, r.outs_size)),
              missed,
              closed,
            )
            (after_open e (w.out_open num s.driver).0 (w.out_open num s.driver).1)
      | inr ((dev, d), e) ↦
          let is = entry-IsEntry out_num num dev d r.holds.outs e in
          let known = sym (r.outs_of num) ∙ ap output_of e in
          let at = find-entry out_num num r.view.outs ∙ ap (address out_num) e in
          let ne : (dev == null) ≡ false = ground (arith, is.ne_null) in
          rw
            (
              numeric,
              get_entry-find (out_number num) k s.outs r.holds.outs (omega (arith, r.outs_size)),
              at,
              ne,
              known,
            )
            (returns (refl, Refines-le (suc n) (omega arith) r, refl))
    ]
