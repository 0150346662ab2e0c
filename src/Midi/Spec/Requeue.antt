-- ===== src/Midi/Spec/Requeue.antt =====
-- New events for one input device, on the level of the promises.
use profi_lua.Base.{
  ℕ, ◌≤◌, ◌≡◌, refl, some, [], ◌∷◌, ◌==◌, if◌then◌else◌, length, arith, Bool-cases, inl, inr, ◌∙◌,
  ap, Option-cases, ==_iff,
}
use profi_lua.Heap.{Ptr, Heap, null}
use profi_lua.Heap.Seg.{Seg}
use profi_lua.Heap.Cells.{lookup, set_at, lookup-set_at, has-lookup, length-set_at}
use profi_lua.Heap.Ends.{front, last?}
use profi_lua.Heap.Keyed.{entry, entry-IsEntry, entry-set_at, Distinct-set_at}
use profi_lua.Midi.State.{InDev, Event, Midi}
use profi_lua.Midi.View.{View, Holds, Events, requeue, override}
use profi_lua.Midi.Spec.{Spec, Refines, change, input_of, in_num, contents, init, last}

pub contents-front : (q : Events) → contents (front q) ≡ init (contents q)
contents-front [] = refl
contents-front (x ∷ []) = refl
contents-front (x ∷ y ∷ q) = ap (λ t. x.1 ∷ t) (contents-front (y ∷ q))

pub last-contents :
    (q : Events) (a : Ptr) (e : Event) → last? q ≡ some (a, e) → last (contents q) ≡ some e
last-contents [] a e l = ground (arith)
last-contents (x ∷ []) a e l = ground (arith)
last-contents (x ∷ y ∷ q) a e l = last-contents (y ∷ q) a e l

module _ (v : View) (num : ℕ) {h : Heap InDev} {p dev : Ptr} {d : InDev} (seg : Seg h null p v.ins)
    (found : entry in_num num v.ins ≡ some (dev, d)) where
  pub input_of-requeue :
      (first : Ptr) (q : Events) (m : ℕ)
      → input_of
          (override v.queue dev q)
          (entry in_num m (set_at dev (record d { events = first }) v.ins))
        ≡ (if m == num
            then some (record { handle = d.handle; queue = contents q })
            else input_of v.queue (entry in_num m v.ins))
  input_of-requeue first q m =
      let is = entry-IsEntry in_num num dev d seg found in
      rw (entry-set_at in_num m dev d (record d { events = first }) seg is.at refl)
        (elim (Bool-cases (m == num)) [
          | inl t ↦
              let e : entry in_num m v.ins ≡ some (dev, d) = rw ((==_iff m num).0 t) found in
              rw (t, e) (ground arith)
          | inr f ↦ elim (Option-cases (entry in_num m v.ins)) [
            | inl e ↦ rw (f, e)
            | inr ((r, x), e) ↦
                let other = entry-IsEntry in_num m r x seg e in
                rw (f, e) (ground (arith, other.at, is.at, other.numbered, is.numbered))
          ]
        ])

module _ {D : Type 0} {n : ℕ} {s : Midi D} {σ : Spec} (num dev first : ℕ) (d : InDev) (q : Events)
    (r : Refines n s σ) (found : entry in_num num r.view.ins ≡ some (dev, d)) where
  pub requeue-ins_of :
      (m : ℕ)
      → input_of
          (override r.view.queue dev q)
          (entry in_num m (set_at dev (record d { events = first }) r.view.ins))
        ≡ change σ.ins num (some (record { handle = d.handle; queue = contents q })) m
  requeue-ins_of m =
      input_of-requeue r.view num r.holds.ins found first q m ∙ ground (arith, r.ins_of m)

  pub requeue-queue_size :
      {k : ℕ}
      → n ≤ k
      → length q ≤ k
      → (p : Ptr) (e : InDev)
      → lookup p (set_at dev (record d { events = first }) r.view.ins) ≡ some e
      → length (override r.view.queue dev q p) ≤ k
  requeue-queue_size le size p e l =
      let is = entry-IsEntry in_num num dev d r.holds.ins found in
      let d' : InDev = record d { events = first } in
      let inside = has-lookup dev r.view.ins d is.at in
      elim (Bool-cases (p == dev)) [
        | inl t ↦ rw t size
        | inr f ↦ rw f (
            omega
              (arith, r.queue_size p e (ground (arith, lookup-set_at p dev d' r.view.ins inside))))
      ]

-- The device of the number `num` gets the events `q`, of which there are at most `k`.
unfoldable pub requeue-Refines :
    {D : Type 0} {n k : ℕ} {s t : Midi D} {σ : Spec} (num dev first : ℕ) (d : InDev) (q : Events)
    (r : Refines n s σ)
    → entry in_num num r.view.ins ≡ some (dev, d)
    → Holds t (requeue dev d first q r.view)
    → n ≤ k
    → length q ≤ k
    → Refines k t (record σ {
      ins = change σ.ins num (some (record { handle = d.handle; queue = contents q }));
    })
requeue-Refines {n} {k} num dev first d q r found h le size =
    let is = entry-IsEntry in_num num dev d r.holds.ins found in
    let d' : InDev = record d { events = first } in
    record {
      view = requeue dev d first q r.view;
      holds = h;
      out_distinct = r.out_distinct;
      in_distinct = Distinct-set_at in_num dev d d' r.holds.ins is.at refl r.in_distinct;
      outs_of = r.outs_of;
      ins_of = requeue-ins_of num dev first d q r found;
      outs_size = omega (arith, r.outs_size);
      ins_size = omega (arith, r.ins_size, length-set_at dev d' r.view.ins);
      queue_size = requeue-queue_size num dev first d q r found le size;
    }
