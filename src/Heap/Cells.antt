-- ===== src/Heap/Cells.antt =====
-- What the cells of a segment hold, by address.
use profi_lua.Base.{
  ◌≡◌, refl, Bool, Option, none, some, List, [], ◌∷◌, arith, ◌==◌, if◌then◌else◌, length,
  Bool-cases, inl, inr, sym, true, false, ◌≢◌,
}
use profi_lua.Heap.{Ptr, null, Heap, node, write}
use profi_lua.Heap.Seg.{Seg, nil, cons, Points, ◌∈◌, ◌∉◌, has, frame-write}

module _ {A : Type 0} where
  abbrev pub lookup : Ptr → List (Ptr × A) → Option A
  lookup a [] = none
  lookup a ((p, v) ∷ xs) = if a == p then some v else lookup a xs

  -- The cells less the one at an address.
  abbrev pub erase : Ptr → List (Ptr × A) → List (Ptr × A)
  erase a [] = []
  erase a ((p, v) ∷ xs) = if p == a then xs else (p, v) ∷ erase a xs

  -- The cells with a new content at an address.
  abbrev pub set_at : Ptr → A → List (Ptr × A) → List (Ptr × A)
  set_at a w [] = []
  set_at a w ((p, v) ∷ xs) = if p == a then (p, w) ∷ xs else (p, v) ∷ set_at a w xs

  -- The address of the first cell whose content passes a test.
  abbrev pub find : (A → Bool) → List (Ptr × A) → Ptr
  find is [] = null
  find is ((p, v) ∷ xs) = if is v then p else find is xs

  pub has-lookup : (a : Ptr) (xs : List (Ptr × A)) (v : A) → lookup a xs ≡ some v → a ∈ xs
  has-lookup a [] v e = ground (arith)
  has-lookup a ((p, w) ∷ xs) v e = ground (arith, has-lookup a xs v)

  pub lookup-not_mem : (a : Ptr) (xs : List (Ptr × A)) → a ∉ xs → lookup a xs ≡ none
  lookup-not_mem a [] e = refl
  lookup-not_mem a ((p, w) ∷ xs) e = ground (arith, lookup-not_mem a xs)

  pub lookup-set_at :
      (b a : Ptr) (w : A) (xs : List (Ptr × A))
      → a ∈ xs
      → lookup b (set_at a w xs) ≡ (if b == a then some w else lookup b xs)
  lookup-set_at b a w [] i = ground (arith)
  lookup-set_at b a w ((p, v) ∷ xs) i = ground (arith, lookup-set_at b a w xs)

  pub has-set_at : (b a : Ptr) (w : A) (xs : List (Ptr × A)) → has b (set_at a w xs) ≡ has b xs
  has-set_at b a w [] = refl
  has-set_at b a w ((p, v) ∷ xs) = ground (arith, has-set_at b a w xs)

  pub length-set_at : (a : Ptr) (w : A) (xs : List (Ptr × A)) → length (set_at a w xs) ≡ length xs
  length-set_at a w [] = refl
  length-set_at a w ((p, v) ∷ xs) = ground (arith, length-set_at a w xs)

  pub not_mem-erase : (b a : Ptr) (xs : List (Ptr × A)) → b ∉ xs → b ∉ erase a xs
  not_mem-erase b a [] out = refl
  not_mem-erase b a ((p, v) ∷ xs) out = ground (arith, not_mem-erase b a xs)

  -- An address in a segment is a node.
  pub Points-lookup :
      {h : Heap A} {stop p : Ptr} {xs : List (Ptr × A)} (a : Ptr) {v : A}
      → Seg h stop p xs
      → lookup a xs ≡ some v
      → (q : Ptr) × Points h a v q
  Points-lookup a nil e = ground (arith)
  Points-lookup a (cons {p} {q} pt out s) e = elim (Bool-cases (a == p)) [
    | inl t ↦
        (q, record { ne_null = λ z. pt.ne_null (ground arith); holds = ground (arith, pt.holds) })
    | inr f ↦ Points-lookup a s (ground arith)
  ]

  -- The addresses of a segment are distinct: what is erased is gone.
  pub lookup-erase :
      {h : Heap A} {stop p : Ptr} {xs : List (Ptr × A)} (b a : Ptr)
      → Seg h stop p xs
      → lookup b (erase a xs) ≡ (if b == a then none else lookup b xs)
  lookup-erase b a nil = ground (arith)
  lookup-erase b a (cons {p} {q} {v} {xs} pt out s) =
      ground (arith, lookup-erase b a s, lookup-not_mem p xs out)

  -- A new content at an address of the segment.
  pub Seg-set_value :
      {h : Heap A} {stop p : Ptr} {xs : List (Ptr × A)} {a q : Ptr} {v : A} (w : A)
      → Seg h stop p xs
      → Points h a v q
      → Seg (write h a (some (node w q))) stop p (set_at a w xs)
  unfolding write
  Seg-set_value w nil e = nil
  Seg-set_value {a} {q} w (cons {p} {q = r} {xs} pt out s) e = elim (Bool-cases (p == a)) [
    | inl t ↦ rw t (
        cons {q = r} (record { ne_null = pt.ne_null; holds = ground arith }) out
          (frame-write a (some (node w q)) s (ground arith)))
    | inr f ↦ rw f (
        cons {q = r} (record { ne_null = pt.ne_null; holds = ground arith })
          (rw (has-set_at p a w xs) out) (Seg-set_value w s e))
  ]

  -- An address that holds no node is in no segment.
  pub not_mem_of_none :
      {h : Heap A} {stop p : Ptr} {xs : List (Ptr × A)} (a : Ptr)
      → Seg h stop p xs
      → h a ≡ none
      → a ∉ xs
  not_mem_of_none a nil unused = refl
  not_mem_of_none a (cons pt out s) unused = ground (arith, not_mem_of_none a s unused, pt.holds)

  -- A search that finds an entry finds one that passes the test.
  pub find-lookup :
      {h : Heap A} {stop p : Ptr} {xs : List (Ptr × A)} (is : A → Bool) (a : Ptr)
      → Seg h stop p xs
      → find is xs ≡ a
      → a ≢ null
      → (d : A) × (lookup a xs ≡ some d) × (is d ≡ true)
  find-lookup is a nil e ne = absurd (ne (sym e))
  find-lookup is a (cons {p} {v} {xs} pt out s) e ne = elim (Bool-cases (is v)) [
    | inl t ↦ let same : p ≡ a = rw t at e in (v, ground arith, t)
    | inr f ↦
        let (d, l, t) = find-lookup is a s (rw f at e) ne in
        (d, ground (arith, has-lookup a xs d l), t)
  ]

  -- No entry passes the test, if the search finds none.
  pub find-null :
      {h : Heap A} {stop p : Ptr} {xs : List (Ptr × A)} (is : A → Bool)
      → Seg h stop p xs
      → find is xs ≡ null
      → (a : Ptr) (d : A) → lookup a xs ≡ some d
      → is d ≡ false
  find-null is nil e a d l = ground (arith)
  find-null is (cons {p} {v} {xs} pt out s) e a d l = elim (Bool-cases (is v)) [
    | inl t ↦ absurd (pt.ne_null (rw t at e))
    | inr f ↦ ground (arith, find-null is s (rw f at e) a d)
  ]

  -- The addresses of a segment are distinct: an erased one is gone.
  pub not_mem-erase_self :
      {h : Heap A} {stop p : Ptr} {xs : List (Ptr × A)} (a : Ptr) → Seg h stop p xs → a ∉ erase a xs
  not_mem-erase_self a nil = refl
  not_mem-erase_self a (cons {p} {xs} pt out s) = ground (arith, not_mem-erase_self a s, out)
