-- ===== src/Midi/Chain/Detach.antt =====
-- How `RemoveMidiOut` and `RemoveMidiIn` unlink a device from its list.
use profi_lua.Base.{
  ℕ, zero, suc, ◌<◌, ◌≡◌, refl, List, ◌∷◌, arith, ◌==◌, length, Bool-cases, inl, inr, Returns,
  returns, Returns-put_back, ◌∙◌, Returns-mono, some,
}
use profi_lua.Heap.{Ptr, null, Heap, write, node}
use profi_lua.Heap.Seg.{
  Seg, nil, cons, Points, ◌∈◌, ◌∉◌, not_null, load-ok, set_next-ok, Points-write, frame-write,
}
use profi_lua.Heap.Cells.{erase, not_mem-erase}
use profi_lua.Midi.State.{Chain}
use profi_lua.Midi.Chain.{unlink_loop, detach}

module _ {A : Type 0} where
  abbrev pub SameOutside : List (Ptr × A) → Heap A → Heap A → Type 0
  SameOutside xs h g = (a : Ptr) → a ∉ xs → g a ≡ h a

  unlink_loop-erase :
      (k : ℕ) (tmp : Ptr) {h : Heap A} {p q : Ptr} {v : A} {xs : List (Ptr × A)}
      → Points h p v q
      → p ∉ xs
      → Seg h null q xs
      → tmp ∈ xs
      → length xs < k
      → Returns
          (λ _ g. Seg g null p ((p, v) ∷ erase tmp xs) × SameOutside ((p, v) ∷ erase tmp xs) h g)
          (unlink_loop k tmp p h)
  unfolding unlink_loop
  unlink_loop-erase zero tmp e out s i fuel = absurd (omega arith)
  unlink_loop-erase (suc k) tmp e out nil i fuel = absurd (ground arith)
  unlink_loop-erase (suc k) tmp {h} {p} {v = v} e out (cons {p = q} {q = r} {v = w} {xs} e' out' s)
        i fuel =
      rw (not_null e, load-ok e)
        (elim (Bool-cases (q == tmp)) [
          | inl t ↦
              let here : Points h tmp w r = record {
                ne_null = λ z. e'.ne_null (ground arith);
                holds = ground (arith, e'.holds);
              } in
              rw (t, load-ok here, set_next-ok e r)
                (returns (
                  cons (Points-write e v r) (ground arith)
                      (frame-write p (some (node v r)) s (ground arith)),
                  λ a o. unfold write in ground arith,
                ))
          | inr f ↦ rw f (
              Returns-mono (unlink_loop-erase k tmp e' out' s (ground arith) (omega arith))
                λ _ g (chain, same).
                  let apart : p ∉ ((q, w) ∷ erase tmp xs) =
                    ground (arith, not_mem-erase p tmp xs) in
                  (
                    cons (record { ne_null = e.ne_null; holds = same p apart ∙ e.holds }) apart
                        chain,
                    λ a o. same a (ground arith),
                  ))
        ])

  detach-Seg :
      (k : ℕ) (tmp : Ptr) {h : Heap A} {p : Ptr} {xs : List (Ptr × A)}
      → Seg h null p xs
      → tmp ∈ xs
      → length xs < k
      → Returns
          (λ _ c. Seg c.heap null c.head (erase tmp xs) × SameOutside (erase tmp xs) h c.heap)
          (detach k tmp (record { head = p; heap = h }))
  unfolding detach
  detach-Seg k tmp nil i fuel = absurd (ground arith)
  detach-Seg k tmp {h} (cons {p} {q} {v} {xs} e out s) i fuel = elim (Bool-cases (p == tmp)) [
    | inl t ↦
        let here : Points h tmp v q = record {
          ne_null = λ z. e.ne_null (ground arith);
          holds = ground (arith, e.holds);
        } in
        rw (t, load-ok here) (returns (s, λ a o. refl))
    | inr f ↦ rw f (
        Returns-put_back (λ g. record { head = p; heap = g })
          (unlink_loop-erase k tmp e out s (ground arith) (omega arith)) (λ _ g r. r))
  ]

  -- The loops of `RemoveMidiOut` and `RemoveMidiIn` take the cell at `tmp` out of a list that has
  -- it, wherever it stands, and write no cell but those that stay. The fuel exceeds the length of
  -- the list.
  pub detach-erase :
      (k : ℕ) (tmp : Ptr) (c : Chain A) {xs : List (Ptr × A)}
      → Seg c.heap null c.head xs
      → tmp ∈ xs
      → length xs < k
      → Returns
          (λ _ d. Seg d.heap null d.head (erase tmp xs) × SameOutside (erase tmp xs) c.heap d.heap)
          (detach k tmp c)
  detach-erase k tmp c = detach-Seg k tmp
