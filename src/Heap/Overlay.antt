-- ===== src/Heap/Overlay.antt =====
-- Changes of a heap at a few addresses, which commute with writes at others.
use profi_lua.Base.{
  ◌≡◌, refl, Option, none, some, List, ◌==◌, if◌then◌else◌, arith, fun_ext, Bool-cases, inl, inr,
}
use profi_lua.Heap.{Ptr, Node, Heap, write, node}
use profi_lua.Heap.Seg.{Points, Seg, ◌∈◌, frame}

-- New contents, at the addresses that have one.
abbrev pub Layer : Type 0 → Type 0
Layer A = Ptr → Option (Option (Node A))

module _ {A : Type 0} where
  abbrev pub blank : Layer A
  blank b = none

  abbrev pub at_one : Ptr → Option (Node A) → Layer A
  at_one a x b = if b == a then some x else none

  abbrev over : Option (Option (Node A)) → Option (Node A) → Option (Node A)
  over none old = old
  over (some new) old = new

  unfoldable pub overlay : Layer A → Heap A → Heap A
  overlay o h b = over (o b) (h b)

  pub overlay-blank : (h : Heap A) → overlay blank h ≡ h
  unfolding overlay
  overlay-blank h = refl

  pub overlay-at_one :
      (a : Ptr) (x : Option (Node A)) (h : Heap A) → overlay (at_one a x) h ≡ write h a x
  unfolding overlay write
  overlay-at_one a x h = fun_ext λ b. ground arith

  pub overlay-write :
      (o : Layer A) (h : Heap A) (a : Ptr) (x : Option (Node A))
      → o a ≡ none
      → overlay o (write h a x) ≡ write (overlay o h) a x
  unfolding overlay write
  overlay-write o h a x apart = fun_ext λ b. elim (Bool-cases (b == a)) [
    | inl t ↦ let same : o b ≡ none = ground (arith, t, apart) in rw (same, t)
    | inr f ↦ rw f
  ]

  pub overlay-Points :
      {h : Heap A} {p q : Ptr} {v : A} (o : Layer A)
      → o p ≡ none
      → Points h p v q
      → Points (overlay o h) p v q
  unfolding overlay
  overlay-Points o apart e = record { ne_null = e.ne_null; holds = rw (apart, e.holds) }

  pub overlay-Seg :
      {h : Heap A} {stop p : Ptr} {xs : List (Ptr × A)} (o : Layer A)
      → ((b : Ptr) → b ∈ xs → o b ≡ none)
      → Seg h stop p xs
      → Seg (overlay o h) stop p xs
  unfolding overlay
  overlay-Seg {h} o apart s = frame (overlay o h) s λ b i. rw (apart b i)

  -- A new content at an address, with the same successor, changes no successor.
  pub overlay-same_next :
      {h : Heap A} {p q r next : Ptr} {v e : A} (w : A)
      → Points h r e next
      → Points h p v q
      → (x : A) × Points (overlay (at_one r (some (node w next))) h) p x q
  unfolding overlay
  overlay-same_next {p} {r} {v} w at e = elim (Bool-cases (p == r)) [
    | inl t ↦ (w, record { ne_null = e.ne_null; holds = ground (arith, t, at.holds, e.holds) })
    | inr f ↦ (v, record { ne_null = e.ne_null; holds = ground (arith, f, e.holds) })
  ]
