-- ===== src/Heap/Keyed.antt =====
-- Cells whose contents carry a number, by which they are looked up.
use profi_lua.Base.{
  ℕ, ◌≤◌, ◌≡◌, ◌≢◌, refl, Option, none, some, List, [], ◌∷◌, arith, ◌==◌, if◌then◌else◌, length,
  Bool-cases, inl, inr, ◌∙◌, ap, sym,
}
use profi_lua.Heap.{Ptr, null, Heap}
use profi_lua.Heap.Seg.{Seg, nil, cons, ◌∉◌}
use profi_lua.Heap.Cells.{lookup, erase, set_at, find, has-lookup}

module _ {A : Type 0} (num : A → ℕ) where
  -- The first cell with the number `n`.
  abbrev pub entry : ℕ → List (Ptr × A) → Option (Ptr × A)
  entry n [] = none
  entry n ((p, d) ∷ xs) = if num d == n then some (p, d) else entry n xs

  -- No number occurs twice.
  abbrev pub Distinct : List (Ptr × A) → Type 0
  Distinct [] = Unit {0}
  Distinct ((p, d) ∷ xs) = (entry (num d) xs ≡ none) × Distinct xs

  abbrev pub address : Option (Ptr × A) → Ptr
  address none = null
  address (some (p, d)) = p

  pub find-entry : (n : ℕ) (xs : List (Ptr × A)) → find (λ d. num d == n) xs ≡ address (entry n xs)
  find-entry n [] = refl
  find-entry n ((p, d) ∷ xs) = ground (arith, find-entry n xs)

  pub record IsEntry (n : ℕ) (xs : List (Ptr × A)) (p : Ptr) (d : A) : Type 0 where
    pub at : lookup p xs ≡ some d
    pub numbered : num d ≡ n
    pub ne_null : p ≢ null

  pub entry-IsEntry :
      {h : Heap A} {stop r : Ptr} {xs : List (Ptr × A)} (n p : ℕ) (d : A)
      → Seg h stop r xs
      → entry n xs ≡ some (p, d)
      → IsEntry n xs p d
  entry-IsEntry n p d nil e = ground (arith)
  entry-IsEntry n p d (cons {p = r} {v = w} {xs} pt out s) e = elim (Bool-cases (num w == n)) [
    | inl t ↦ record {
      at = ground arith;
      numbered = ground arith;
      ne_null = λ z. pt.ne_null (ground arith);
    }
    | inr f ↦
        let rest = entry-IsEntry n p d s (ground arith) in
        record {
          at = ground (arith, rest.at, has-lookup p xs d rest.at, out);
          numbered = rest.numbered;
          ne_null = rest.ne_null;
        }
  ]

  -- New content with the same number at an address.
  abbrev pub replaced : Ptr → A → Option (Ptr × A) → Option (Ptr × A)
  replaced a w none = none
  replaced a w (some (p, d)) = some (p, if p == a then w else d)

  replaced-entry :
      (n a : ℕ) (w : A) (xs : List (Ptr × A)) → a ∉ xs → replaced a w (entry n xs) ≡ entry n xs
  replaced-entry n a w [] out = refl
  replaced-entry n a w ((p, v) ∷ xs) out = ground (arith, replaced-entry n a w xs)

  none-replaced : (a : ℕ) (w : A) (o : Option (Ptr × A)) → o ≡ none → replaced a w o ≡ none
  none-replaced a w o e = rw e

  none-entry-erase :
      (n a : ℕ) (xs : List (Ptr × A)) → entry n xs ≡ none → entry n (erase a xs) ≡ none
  none-entry-erase n a [] e = refl
  none-entry-erase n a ((p, v) ∷ xs) e = ground (arith, none-entry-erase n a xs)

  some-entry :
      (a : ℕ) (d : A) (xs : List (Ptr × A)) → lookup a xs ≡ some d → entry (num d) xs ≢ none
  some-entry a d [] l e = ground (arith)
  some-entry a d ((p, v) ∷ xs) l e = elim (Bool-cases (a == p)) [
    | inl t ↦ ground arith
    | inr f ↦ some-entry a d xs (ground arith) (ground arith)
  ]

  pub entry-set_at :
      {h : Heap A} {stop r : Ptr} {xs : List (Ptr × A)} (n a : ℕ) (d w : A)
      → Seg h stop r xs
      → lookup a xs ≡ some d
      → num w ≡ num d
      → entry n (set_at a w xs) ≡ replaced a w (entry n xs)
  entry-set_at n a d w nil l e = ground (arith)
  entry-set_at n a d w (cons {p} {v} {xs} pt out s) l e = elim (Bool-cases (p == a)) [
    | inl t ↦ rw t (ground (arith, replaced-entry n a w xs))
    | inr f ↦ rw f (ground (arith, entry-set_at n a d w s))
  ]

  address-replaced : (a : ℕ) (w : A) (o : Option (Ptr × A)) → address (replaced a w o) ≡ address o
  address-replaced a w none = refl
  address-replaced a w (some c) = refl

  -- The same cell is found.
  pub find-set_at :
      {h : Heap A} {stop r : Ptr} {xs : List (Ptr × A)} (n a : ℕ) (d w : A)
      → Seg h stop r xs
      → lookup a xs ≡ some d
      → num w ≡ num d
      → find (λ d. num d == n) (set_at a w xs) ≡ find (λ d. num d == n) xs
  find-set_at {xs} n a d w seg l e =
      find-entry n (set_at a w xs)
      ∙ ap address (entry-set_at n a d w seg l e)
      ∙ address-replaced a w (entry n xs)
      ∙ sym (find-entry n xs)

  pub Distinct-set_at :
      {h : Heap A} {stop r : Ptr} {xs : List (Ptr × A)} (a : ℕ) (d w : A)
      → Seg h stop r xs
      → lookup a xs ≡ some d
      → num w ≡ num d
      → Distinct xs
      → Distinct (set_at a w xs)
  Distinct-set_at a d w nil l e u = u
  Distinct-set_at a d w (cons {p} {v} {xs} pt out s) l e u = elim (Bool-cases (p == a)) [
    | inl t ↦ let same : num w ≡ num v = ground (arith, e) in rw t (rw same u.0, u.1)
    | inr f ↦
        let l' : lookup a xs ≡ some d = ground arith in
        rw f (
          rw (entry-set_at (num v) a d w s l' e) (none-replaced a w (entry (num v) xs) u.0),
          Distinct-set_at a d w s l' e u.1,
        )
  ]

  -- In a list of distinct numbers, the entry that is erased is the only one with its number.
  pub entry-erase :
      {h : Heap A} {stop r : Ptr} {xs : List (Ptr × A)} (n a : ℕ) (d : A)
      → Seg h stop r xs
      → lookup a xs ≡ some d
      → Distinct xs
      → entry n (erase a xs) ≡ (if num d == n then none else entry n xs)
  entry-erase n a d nil l u = ground (arith)
  entry-erase n a d (cons {p} {v} {xs} pt out s) l u = elim (Bool-cases (p == a)) [
    | inl t ↦ rw t (ground (arith, u.0))
    | inr f ↦
        let l' : lookup a xs ≡ some d = ground arith in
        rw f (ground (arith, entry-erase n a d s l' u.1, some-entry a d xs l', u.0))
  ]

  pub Distinct-erase :
      {h : Heap A} {stop r : Ptr} {xs : List (Ptr × A)} (a : ℕ) (d : A)
      → Seg h stop r xs
      → lookup a xs ≡ some d
      → Distinct xs
      → Distinct (erase a xs)
  Distinct-erase a d nil l u = u
  Distinct-erase a d (cons {p} {v} {xs} pt out s) l u = elim (Bool-cases (p == a)) [
    | inl t ↦ rw t u.1
    | inr f ↦ rw f (none-entry-erase (num v) a xs u.0, Distinct-erase a d s (ground arith) u.1)
  ]

  pub length-erase : (a : Ptr) (xs : List (Ptr × A)) → length (erase a xs) ≤ length xs
  length-erase a [] = omega arith
  length-erase a (x ∷ xs) = ground (arith, length-erase a xs)
