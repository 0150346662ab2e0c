-- ===== src/Midi/Queue/Last.antt =====
-- The walk of `RemoveMidiInEvent` to the last event.
use profi_lua.Base.{ℕ, zero, suc, ◌<◌, ◌≡◌, List, ◌∷◌, arith, length, ok}
use profi_lua.Heap.{Ptr, null, Heap}
use profi_lua.Heap.Seg.{Seg, nil, cons, Points, not_null, load-ok}
use profi_lua.Heap.Ends.{last_two}
use profi_lua.Midi.State.{Event}
use profi_lua.Midi.Devices.{last_loop}

pub last_loop-last_two :
    (k : ℕ) (prev : Ptr) {h : Heap Event} {p q : Ptr} {v : Event} {xs : List (Ptr × Event)}
    → Points h p v q
    → Seg h null q xs
    → length xs < k
    → last_loop k prev p h ≡ ok (last_two prev ((p, v) ∷ xs)) h
unfolding last_loop
last_loop-last_two zero prev e s fuel = absurd (omega arith)
last_loop-last_two (suc k) prev e nil fuel = rw (load-ok e)
last_loop-last_two (suc k) prev {p} e (cons e' out s) fuel =
    rw (load-ok e, not_null e') (last_loop-last_two k p e' s (omega arith))
