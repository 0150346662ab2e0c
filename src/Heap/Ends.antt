-- ===== src/Heap/Ends.antt =====
-- The last cell of a segment, and the segment without it.
use profi_lua.Base.{◌≡◌, refl, false, Option, none, some, List, [], ◌∷◌, ◌++◌, arith, ◌==◌, ap}
use profi_lua.Heap.{Ptr, null, Heap, node, write}
use profi_lua.Heap.Seg.{Seg, nil, cons, Points, Points-write, ◌∈◌, ◌∉◌}

module _ {A : Type 0} where
  abbrev pub front : List (Ptr × A) → List (Ptr × A)
  front [] = []
  front (x ∷ []) = []
  front (x ∷ y ∷ xs) = x ∷ front (y ∷ xs)

  abbrev pub last? : List (Ptr × A) → Option (Ptr × A)
  last? [] = none
  last? (x ∷ []) = some x
  last? (x ∷ y ∷ xs) = last? (y ∷ xs)

  -- The addresses of the last cell but one and of the last cell; `prev` stands before the list.
  abbrev pub last_two : Ptr → List (Ptr × A) → Ptr × Ptr
  last_two prev [] = (prev, null)
  last_two prev ((p, _) ∷ []) = (prev, p)
  last_two prev ((p, _) ∷ y ∷ xs) = last_two p (y ∷ xs)

  pub front-append-last? :
      (xs : List (Ptr × A)) {c : Ptr × A} → last? xs ≡ some c → front xs ++ c ∷ [] ≡ xs
  front-append-last? [] e = ground (arith)
  front-append-last? (x ∷ []) e = ground (arith)
  front-append-last? (x ∷ y ∷ xs) e = ap (λ t. x ∷ t) (front-append-last? (y ∷ xs) e)

  pub not_mem-front : (a : Ptr) (xs : List (Ptr × A)) → a ∉ xs → a ∉ front xs
  not_mem-front a [] out = refl
  not_mem-front a ((p, v) ∷ []) out = refl
  not_mem-front a ((p, v) ∷ y ∷ xs) out = ground (arith, not_mem-front a (y ∷ xs))

  pub last_two-last? :
      (prev : Ptr) (xs : List (Ptr × A)) {a : Ptr} {v : A}
      → last? xs ≡ some (a, v)
      → (last_two prev xs).1 ≡ a
  last_two-last? prev [] e = ground (arith)
  last_two-last? prev ((p, w) ∷ []) e = ground (arith)
  last_two-last? prev ((p, w) ∷ y ∷ xs) e = last_two-last? p (y ∷ xs) e

  pub Points-last? :
      {h : Heap A} {p : Ptr} {xs : List (Ptr × A)} (a : Ptr) (v : A)
      → Seg h null p xs
      → last? xs ≡ some (a, v)
      → Points h a v null
  Points-last? a v nil e = ground (arith)
  Points-last? {h} a v (cons {p} {v = w} pt out nil) e = record {
    ne_null = λ z. pt.ne_null (ground arith);
    holds = ground (arith, pt.holds);
  }
  Points-last? a v (cons pt out (cons pt' out' s)) e = Points-last? a v (cons pt' out' s) e

  pub eq_null_of_nil :
      {h : Heap A} {p : Ptr} {xs : List (Ptr × A)} → Seg h null p xs → xs ≡ [] → p ≡ null
  eq_null_of_nil nil e = refl
  eq_null_of_nil (cons pt out s) e = absurd (ground arith)

  pub mem-last? : (a : Ptr) (xs : List (Ptr × A)) (v : A) → last? xs ≡ some (a, v) → a ∈ xs
  mem-last? a [] v e = ground (arith)
  mem-last? a ((p, w) ∷ []) v e = ground (arith)
  mem-last? a ((p, w) ∷ y ∷ xs) v e = ground (arith, mem-last? a (y ∷ xs) v e)

  pub last?-not_mem-front :
      {h : Heap A} {stop p : Ptr} {xs : List (Ptr × A)} (a : Ptr) (v : A)
      → Seg h stop p xs
      → last? xs ≡ some (a, v)
      → a ∉ front xs
  last?-not_mem-front a v nil e = ground (arith)
  last?-not_mem-front a v (cons pt out nil) e = refl
  last?-not_mem-front a v (cons {p} pt out (cons {p = q} {v = w} {xs} pt' out' s)) e =
      ground
        (arith, last?-not_mem-front a v (cons pt' out' s) e, mem-last? a ((q, w) ∷ xs) v e, out)

  -- What `set_next prev null` does to a segment of two cells or more.
  pub record IsCut (h : Heap A) (p b : Ptr) (ys : List (Ptr × A)) : Type 0 where
    pub value : A
    pub next : Ptr
    pub points : Points h b value next
    pub inside : b ∈ ys
    pub chain : Seg (write h b (some (node value null))) null p ys

  pub cut :
      {h : Heap A} {p q r : Ptr} {v w : A} {xs : List (Ptr × A)}
      → Points h p v q
      → p ∉ ((q, w) ∷ xs)
      → Points h q w r
      → q ∉ xs
      → Seg h null r xs
      → IsCut h p (last_two p ((q, w) ∷ xs)).0 ((p, v) ∷ front ((q, w) ∷ xs))
  unfolding write
  cut {q} {v} e out e' out' nil = record {
    value = v;
    next = q;
    points = e;
    inside = ground arith;
    chain = cons (Points-write e v null) refl nil;
  }
  cut {h} {p} {q} {v} {w} e out e' out' (cons {p = r} {q = t} {v = u} {xs} e'' out'' s) =
      let rest = cut {p = q} {q = r} {r = t} {v = w} {w = u} {xs = xs} e' out' e'' out'' s in
      let b = (last_two q ((r, u) ∷ xs)).0 in
      let apart : (p == b) ≡ false =
        ground (arith, rest.inside, not_mem-front p ((r, u) ∷ xs), out) in
      record {
        value = rest.value;
        next = rest.next;
        points = rest.points;
        inside = ground (arith, rest.inside);
        chain =
            cons {q = q} {v = v} (record { ne_null = e.ne_null; holds = ground (arith, e.holds) })
              (ground (arith, not_mem-front p ((r, u) ∷ xs), out)) rest.chain;
      }
