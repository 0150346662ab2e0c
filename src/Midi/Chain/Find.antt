-- ===== src/Midi/Chain/Find.antt =====
-- `GetMidiOutEntry` and `GetMidiInEntry` on a list of devices.
use profi_lua.Base.{
  ℕ, zero, suc, ◌<◌, ◌≡◌, refl, Bool, List, ◌∷◌, arith, length, ok, Bool-cases, inl, inr,
}
use profi_lua.Heap.{Ptr, null, Heap}
use profi_lua.Heap.Seg.{Seg, nil, cons, Points, not_null, load-ok}
use profi_lua.Heap.Cells.{find}
use profi_lua.Midi.State.{Chain}
use profi_lua.Midi.Chain.{find_loop, get_entry}

module _ {A : Type 0} (is : A → Bool) where
  find_loop-eq :
      (k : ℕ) {h : Heap A} {p q : Ptr} {v : A} {xs : List (Ptr × A)}
      → Points h p v q
      → Seg h null q xs
      → length xs < k
      → find_loop k is p h ≡ ok (find is ((p, v) ∷ xs)) h
  unfolding find_loop
  find_loop-eq zero e s fuel = absurd (omega arith)
  find_loop-eq (suc k) {v} e nil fuel =
      rw (load-ok e) (elim (Bool-cases (is v)) [ inl t ↦ rw t | inr f ↦ rw f ])
  find_loop-eq (suc k) {v} e (cons {v = w} e' out s) fuel =
      rw (load-ok e) (elim (Bool-cases (is v)) [
        | inl t ↦ rw t
        | inr f ↦ rw (f, not_null e') (find_loop-eq k e' s (omega arith))
      ])

  get_entry-Seg :
      (k : ℕ) {h : Heap A} {p : Ptr} {xs : List (Ptr × A)}
      → Seg h null p xs
      → length xs < k
      → get_entry k is (record { head = p; heap = h })
        ≡ ok (find is xs) (record { head = p; heap = h })
  unfolding get_entry
  get_entry-Seg k nil fuel = refl
  get_entry-Seg k (cons e out s) fuel = rw (not_null e, find_loop-eq k e s (omega arith))

  -- `GetMidiOutEntry` and `GetMidiInEntry` return the address of the first device on the list that
  -- has the number, or NULL, and change nothing. The fuel exceeds the length of the list.
  pub get_entry-find :
      (k : ℕ) (c : Chain A) {xs : List (Ptr × A)}
      → Seg c.heap null c.head xs
      → length xs < k
      → get_entry k is c ≡ ok (find is xs) c
  get_entry-find k c = get_entry-Seg k
