-- ===== src/Midi/Spec/Frame.antt =====
-- Changes of a state or of a promise that keep the one true of the other.
use profi_lua.Base.{ℕ, ◌≤◌, ◌≡◌, ◌∙◌, Option, arith}
use profi_lua.Midi.State.{Midi}
use profi_lua.Midi.View.{Holds, View}
use profi_lua.Midi.Spec.{Spec, Refines, Input}

module _ {D : Type 0} where
  unfoldable pub Refines-le :
      {n : ℕ} (k : ℕ) {s : Midi D} {σ : Spec} → n ≤ k → Refines n s σ → Refines k s σ
  Refines-le k le r = record {
    view = r.view;
    holds = r.holds;
    out_distinct = r.out_distinct;
    in_distinct = r.in_distinct;
    outs_of = r.outs_of;
    ins_of = r.ins_of;
    outs_size = omega (arith, r.outs_size);
    ins_size = omega (arith, r.ins_size);
    queue_size = λ p d l. omega (arith, r.queue_size p d l);
  }

  pub Holds-driver : {s : Midi D} {v : View} (d : D) → Holds s v → Holds (record s { driver = d }) v
  Holds-driver d h = record { outs = h.outs; ins = h.ins; queued = h.queued; apart = h.apart }

  -- The driver's own state is no part of the promise.
  unfoldable pub Refines-driver :
      {n : ℕ} {s : Midi D} {σ : Spec} (d : D)
      → Refines n s σ
      → Refines n (record s { driver = d }) σ
  Refines-driver d r = record {
    view = r.view;
    holds = Holds-driver d r.holds;
    out_distinct = r.out_distinct;
    in_distinct = r.in_distinct;
    outs_of = r.outs_of;
    ins_of = r.ins_of;
    outs_size = r.outs_size;
    ins_size = r.ins_size;
    queue_size = r.queue_size;
  }

  -- A promise is known by its values.
  unfoldable pub Refines-ins :
      {n : ℕ} {s : Midi D} {σ : Spec} (f : ℕ → Option Input)
      → ((m : ℕ) → σ.ins m ≡ f m)
      → Refines n s σ
      → Refines n s (record σ { ins = f })
  Refines-ins f e r = record {
    view = r.view;
    holds = r.holds;
    out_distinct = r.out_distinct;
    in_distinct = r.in_distinct;
    outs_of = r.outs_of;
    ins_of = λ m. r.ins_of m ∙ e m;
    outs_size = r.outs_size;
    ins_size = r.ins_size;
    queue_size = r.queue_size;
  }
