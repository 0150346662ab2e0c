-- ===== src/Midi/Spec/OpenIn.antt =====
-- `plOpenMidiIn` and the promise.
use profi_lua.Base.{
  ℕ, suc, ◌≤◌, ◌<◌, ◌≡◌, ◌≢◌, ◌⊎◌, refl, Option, none, some, List, [], ◌∷◌, ◌==◌, if◌then◌else◌,
  length, arith, Bool-cases, inl, inr, true, false, ◌∙◌, ap, sym, subst, Option-cases, Returns,
  returns, pos, negsuc, u32_of,
}
use profi_lua.Lua.{Lua, Value, as_number, Number, int}
use profi_lua.Lua.Stack.{Reply, one}
use profi_lua.Heap.{Ptr, null}
use profi_lua.Heap.Seg.{Seg, nil, load-ok, ◌∈◌, ◌∉◌}
use profi_lua.Heap.Cells.{lookup, not_mem_of_none, has-lookup}
use profi_lua.Heap.Keyed.{entry, entry-IsEntry, find-entry, address}
use profi_lua.Midi.State.{InDev, Event, Midi, Winmm}
use profi_lua.Midi.View.{Events, override}
use profi_lua.Midi.Devices.{get_midi_in_entry, add_midi_in, in_number}
use profi_lua.Midi.Api.{pl_open_midi_in, opened_midi_in}
use profi_lua.Midi.Chain.Find.{get_entry-find}
use profi_lua.Midi.Chain.Add.{with_head, add-ok, Points-with_head, Seg-with_head}
use profi_lua.Midi.Spec.{Spec, Refines, Input, change, input_of, in_num}
use profi_lua.Midi.Spec.Frame.{Refines-le, Refines-driver}

-- The new promise: the device is open, with no events.
abbrev pub opened_in : (num handle : ℕ) → Spec → Spec
opened_in num handle σ = record σ {
  ins = change σ.ins num (some (record { handle = handle; queue = [] }));
}

not-open : (o : Option (Ptr × InDev)) (q : Ptr → Events) → input_of q o ≡ none → o ≡ none
not-open none q e = refl
not-open (some (p, d)) q e = absurd (ground arith)

module _ {D : Type 0} {n : ℕ} {s : Midi D} {σ : Spec} (r : Refines n s σ) where
  abbrev with_device : (num handle fresh : ℕ) → D → Midi D
  with_device num handle fresh driver = record s {
    ins = record {
      head = fresh;
      heap =
          with_head s.ins.heap s.ins.head fresh
            (record { number = num; handle = handle; events = null });
    };
    driver = driver;
  }

  with_device-Refines :
      (num handle fresh : ℕ) (driver : D)
      → fresh ≢ null
      → s.ins.heap fresh ≡ none
      → σ.ins num ≡ none
      → Refines (suc n) (with_device num handle fresh driver) (opened_in num handle σ)
  with_device-Refines num handle fresh driver ne unused closed = record {
    view = record r.view { ins = (fresh, dev) ∷ r.view.ins; queue = queue };
    holds = record {
      outs = r.holds.outs;
      ins = Seg-with_head s.ins.heap s.ins.head fresh dev ne r.holds.ins unused;
      queued = λ p e l. queued p e l (Bool-cases (p == fresh));
      apart = λ p x e f le lf pn a i.
          apart p x e f le lf pn a i (Bool-cases (p == fresh)) (Bool-cases (x == fresh));
    };
    out_distinct = r.out_distinct;
    in_distinct = (
      not-open (entry in_num num r.view.ins) r.view.queue (r.ins_of num ∙ closed),
      r.in_distinct,
    );
    outs_of = r.outs_of;
    ins_of = λ m. ins_of m;
    outs_size = omega (arith, r.outs_size);
    ins_size = omega (arith, r.ins_size);
    queue_size = λ p e l. size p e l (Bool-cases (p == fresh));
  }
    where
      dev : InDev
      dev = record { number = num; handle = handle; events = null }

      queue : Ptr → Events
      queue = override r.view.queue fresh []

      out : fresh ∉ r.view.ins
      out = not_mem_of_none fresh r.holds.ins unused

      ins : List (Ptr × InDev)
      ins = (fresh, dev) ∷ r.view.ins

      queued :
          (p : Ptr) (e : InDev)
          → lookup p ins ≡ some e
          → ((p == fresh) ≡ true) ⊎ ((p == fresh) ≡ false)
          → Seg s.events null e.events (queue p)
      queued p e l (inl t) =
          let first : null ≡ e.events = ground arith in
          rw t (subst (λ x. Seg s.events null x []) first nil)
      queued p e l (inr f) = rw f (r.holds.queued p e (ground arith))

      apart :
          (p x : Ptr) (e f : InDev)
          → lookup p ins ≡ some e
          → lookup x ins ≡ some f
          → p ≢ x
          → (a : Ptr) → a ∈ queue p
          → ((p == fresh) ≡ true) ⊎ ((p == fresh) ≡ false)
          → ((x == fresh) ≡ true) ⊎ ((x == fresh) ≡ false)
          → a ∉ queue x
      apart p x e f le lf pn a i (inl t) _ =
          let i' : ◌∈◌ {A = Event} a [] = rw t at i in absurd (ground arith)
      apart p x e f le lf pn a i (inr g) (inl t) = rw t
      apart p x e f le lf pn a i (inr g) (inr g') =
          let i' : a ∈ r.view.queue p = rw g at i in
          rw g' (r.holds.apart p x e f (ground arith) (ground arith) pn a i')

      ins_of : (m : ℕ) → input_of queue (entry in_num m ins) ≡ (opened_in num handle σ).ins m
      ins_of m = elim (Bool-cases (num == m)) [
        | inl t ↦ rw t (ground arith)
        | inr g ↦ elim (Option-cases (entry in_num m r.view.ins)) [
          | inl e ↦ rw (g, e) (ground (arith, r.ins_of m, ap (input_of r.view.queue) e))
          | inr ((p, x), e) ↦
              let is = entry-IsEntry in_num m p x r.holds.ins e in
              rw (g, e)
                (ground (
                  arith,
                  has-lookup p r.view.ins x is.at,
                  out,
                  sym (r.ins_of m) ∙ ap (input_of r.view.queue) e,
                ))
        ]
      ]

      size :
          (p : Ptr) (e : InDev)
          → lookup p ins ≡ some e
          → ((p == fresh) ≡ true) ⊎ ((p == fresh) ≡ false)
          → length (queue p) ≤ suc n
      size p e l (inl t) = rw t (omega arith)
      size p e l (inr g) = rw g (omega (arith, r.queue_size p e (ground arith)))

module _ {D : Type 0} (lua : Lua) (w : Winmm D) where
  -- The reply, the new promise and the driver's new state.
  abbrev pub open_in : (fresh num : ℕ) → Spec → D → Option Input → Option ℕ × D → Reply × Spec × D
  open_in fresh num σ d (some _) _ = (one (int (negsuc 1)), σ, d)
  open_in fresh num σ d none (none, d') = (one (int (negsuc 2)), σ, d')
  open_in fresh num σ d none (some h, d') =
      if fresh == null
      then (one (int (negsuc 3)), σ, w.in_close h d')
      else (one (int (pos 0)), opened_in num h σ, w.in_start h d')

  abbrev pub open_in_spec : (fresh num : ℕ) → Spec → D → Reply × Spec × D
  open_in_spec fresh num σ d = open_in fresh num σ d (σ.ins num) (w.in_open num d)

  module _ {n : ℕ} {s : Midi D} {σ : Spec} (k fresh : ℕ) (v : Value) (x : Number)
      (r : Refines n s σ) (fuel : n < k) (numeric : as_number lua v ≡ some x)
      (unused : s.ins.heap fresh ≡ none) where
    abbrev num : ℕ
    num = u32_of (lua.number_to_integer x)

    after_open :
        entry in_num num r.view.ins ≡ none
        → (opened : Option ℕ) (d : D)
        → Returns
            (λ reply t.
              (reply ≡ (open_in fresh num σ s.driver none (opened, d)).0)
              × Refines (suc n) t (open_in fresh num σ s.driver none (opened, d)).1
              × (t.driver ≡ (open_in fresh num σ s.driver none (opened, d)).2))
            (opened_midi_in lua w fresh num opened (record s { driver = d }))
    unfolding opened_midi_in add_midi_in
    after_open e none d =
        returns (refl, Refines-le (suc n) (omega arith) (Refines-driver d r), refl)
    after_open e (some handle) d = elim (Bool-cases (fresh == null)) [
      | inl t ↦ rw t (
          returns
            (refl, Refines-le (suc n) (omega arith) (Refines-driver (w.in_close handle d) r), refl))
      | inr f ↦
          let ne : fresh ≢ null = ground arith in
          let dev : InDev = record { number = num; handle = handle; events = null } in
          rw
            (
              f,
              add-ok s.ins.heap s.ins.head fresh dev ne,
              load-ok (Points-with_head s.ins.heap s.ins.head fresh dev ne),
            )
            (returns (
              refl,
              with_device-Refines r num handle fresh (w.in_start handle d) ne unused
                  (sym (r.ins_of num) ∙ ap (input_of r.view.queue) e),
              refl,
            ))
    ]

    -- `plOpenMidiIn` with a numeric argument replies -2 if the device is open already, -3 if the
    -- driver refuses, -4 with no memory, when the driver's device is closed again, and else 0, with
    -- the device open, started and without events. `malloc` is assumed to return NULL or an unused
    -- address.
    pub pl_open_midi_in-Refines :
        Returns
          (λ reply t.
            (reply ≡ (open_in_spec fresh num σ s.driver).0)
            × Refines (suc n) t (open_in_spec fresh num σ s.driver).1
            × (t.driver ≡ (open_in_spec fresh num σ s.driver).2))
          (pl_open_midi_in lua w k fresh (v ∷ []) s)
    unfolding pl_open_midi_in get_midi_in_entry add_midi_in
    pl_open_midi_in-Refines = elim (Option-cases (entry in_num num r.view.ins)) [
      | inl e ↦
          let closed : σ.ins num ≡ none = sym (r.ins_of num) ∙ ap (input_of r.view.queue) e in
          let missed = find-entry in_num num r.view.ins ∙ ap (address in_num) e in
          rw
            (
              numeric,
              get_entry-find (in_number num) k s.ins r.holds.ins (omega (arith, r.ins_size)),
              missed,
              closed,
            )
            (after_open e (w.in_open num s.driver).0 (w.in_open num s.driver).1)
      | inr ((dev, d), e) ↦
          let is = entry-IsEntry in_num num dev d r.holds.ins e in
          let known = sym (r.ins_of num) ∙ ap (input_of r.view.queue) e in
          let at = find-entry in_num num r.view.ins ∙ ap (address in_num) e in
          let ne : (dev == null) ≡ false = ground (arith, is.ne_null) in
          rw
            (
              numeric,
              get_entry-find (in_number num) k s.ins r.holds.ins (omega (arith, r.ins_size)),
              at,
              ne,
              known,
            )
            (returns (refl, Refines-le (suc n) (omega arith) r, refl))
    ]
