-- ===== src/Heap/Seg.antt =====
-- Cells of a heap, and the segments of cells that its `next` pointers lead through.
use profi_lua.Base.{
  ◌≡◌, ◌≢◌, Bool, true, false, ◌||◌, Option, none, some, List, [], ◌∷◌, arith, ◌==◌, ok,
}
use profi_lua.Heap.{Ptr, null, Node, node, Heap, write, load, set_next, set_value, free}

module _ {A : Type 0} where
  -- The address and the content of each node, in order.
  infix 40 ◌∈◌ ◌∉◌
  abbrev pub has : (address : Ptr) (cells : List (Ptr × A)) → Bool
  has address [] = false
  has address ((p, v) ∷ cells) = address == p || has address cells

  abbrev pub ◌∉◌ : (address : Ptr) (cells : List (Ptr × A)) → Type 0
  address ∉ cells = has address cells ≡ false

  abbrev pub ◌∈◌ : (address : Ptr) (cells : List (Ptr × A)) → Type 0
  address ∈ cells = has address cells ≡ true

  -- `p` holds the content `v` and the successor `q`.
  pub record Points (h : Heap A) (p : Ptr) (v : A) (q : Ptr) : Type 0 where
    pub ne_null : p ≢ null
    pub holds : h p ≡ some (node v q)

  -- From `p` the pointers lead through the distinct nodes `xs` to `stop`.
  pub data Seg (h : Heap A) (stop : Ptr) : Ptr → List (Ptr × A) → Type 0 where
    nil : Seg h stop stop []
    cons :
        {p q : Ptr} {v : A} {xs : List (Ptr × A)}
        → Points h p v q
        → p ∉ xs
        → Seg h stop q xs
        → Seg h stop p ((p, v) ∷ xs)

  module _ {h : Heap A} {p q : Ptr} {v : A} (e : Points h p v q) where
    pub not_null : (p == null) ≡ false
    not_null = ground (arith, e.ne_null)

    pub load-ok : load p h ≡ ok (node v q) h
    unfolding load
    load-ok = rw (not_null, e.holds)

    pub free-ok : free p h ≡ ok tt (write h p none)
    unfolding free
    free-ok = rw (not_null, load-ok)

    pub set_value-ok : (w : A) → set_value p w h ≡ ok tt (write h p (some (node w q)))
    unfolding set_value
    set_value-ok w = rw load-ok

    pub set_next-ok : (to : Ptr) → set_next p to h ≡ ok tt (write h p (some (node v to)))
    unfolding set_next
    set_next-ok to = rw load-ok

    pub Points-write : (w : A) (r : Ptr) → Points (write h p (some (node w r))) p w r
    unfolding write
    Points-write w r = record { ne_null = e.ne_null; holds = ground arith }

  pub Points-fresh :
      (h : Heap A) (p : Ptr) (v : A) (q : Ptr)
      → p ≢ null
      → Points (write h p (some (node v q))) p v q
  unfolding write
  Points-fresh h p v q ne = record { ne_null = ne; holds = ground arith }

  -- A segment survives a change that spares its own addresses.
  pub frame :
      {h : Heap A} (g : Heap A) {stop p : Ptr} {xs : List (Ptr × A)}
      → Seg h stop p xs
      → ((b : Ptr) → b ∈ xs → g b ≡ h b)
      → Seg g stop p xs
  frame g nil same = nil
  frame g (cons {p} e out s) same =
      cons (record { ne_null = e.ne_null; holds = ground (arith, same p, e.holds) }) out
        (frame g s λ a i. same a (ground arith))

  pub frame-write :
      {h : Heap A} {stop p : Ptr} {xs : List (Ptr × A)} (a : Ptr) (c : Option (Node A))
      → Seg h stop p xs
      → a ∉ xs
      → Seg (write h a c) stop p xs
  unfolding write
  frame-write {h} a c s out = frame (write h a c) s (λ b i. ground arith)
