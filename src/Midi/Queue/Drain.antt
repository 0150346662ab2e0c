-- ===== src/Midi/Queue/Drain.antt =====
-- The loop of `RemoveMidiIn` that frees all events of a device.
use profi_lua.Base.{
  ℕ, zero, suc, ◌≤◌, ◌<◌, ◌≡◌, refl, none, some, [], ◌∷◌, arith, length, Returns, returns,
  Returns-mono, Returns-bind, ◌∙◌, ◌⊎◌, inl, inr,
}
use profi_lua.Heap.{Ptr, null, write}
use profi_lua.Heap.Seg.{Seg, Points, ◌∈◌, ◌∉◌, Points-write}
use profi_lua.Heap.Ends.{eq_null_of_nil, front, last?, not_mem-front, last?-not_mem-front}
use profi_lua.Midi.State.{InDev, Event, Midi}
use profi_lua.Midi.View.{Events}
use profi_lua.Midi.Devices.{drain_loop}
use profi_lua.Midi.Queue.Remove.{remove_midi_in_event-Removed, remove_midi_in_event-none}

pub last?-cons : (c : Ptr × Event) (q : Events) → (b : Ptr × Event) × (last? (c ∷ q) ≡ some b)
last?-cons c [] = (c, refl)
last?-cons c (d ∷ q) = last?-cons d q

pub length-front : (c : Ptr × Event) (q : Events) → suc (length (front (c ∷ q))) ≡ length (c ∷ q)
length-front c [] = refl
length-front c (d ∷ q) = omega (arith, length-front d q)

pub mem-front :
    (a b : Ptr) (e : Event) (q : Events) → last? q ≡ some (b, e) → a ∈ q → (a ∈ front q) ⊎ (a ≡ b)
mem-front a b e [] l i = inl i
mem-front a b e ((p, w) ∷ []) l i = inr (ground arith)
mem-front a b e ((p, w) ∷ y ∷ q) l i = ground (arith, mem-front a b e (y ∷ q) l)

module _ {D : Type 0} where
  -- The cells `q` are freed, and of the other nodes only the device at `dev` changes.
  pub record Drained (s : Midi D) (dev next : Ptr) (q : Events) (t : Midi D) : Type 0 where
    pub last : InDev
    pub at : Points t.ins.heap dev last next
    pub head : t.ins.head ≡ s.ins.head
    pub devices : (b : Ptr) → (b ≡ dev → ⊥) → t.ins.heap b ≡ s.ins.heap b
    pub freed : (a : Ptr) → a ∈ q → t.events a ≡ none
    pub others : (a : Ptr) → a ∉ q → t.events a ≡ s.events a
    pub outs : t.outs ≡ s.outs
    pub driver : t.driver ≡ s.driver

  -- The loop of `RemoveMidiIn` ends after at most one round more than there are events, and frees
  -- every event of the device; of the other nodes only the device itself changes.
  pub drain_loop-Drained :
      (rounds : ℕ) {s : Midi D} (k dev next : Ptr) (d : InDev) (q : Events)
      → Points s.ins.heap dev d next
      → Seg s.events null d.events q
      → length q < rounds
      → length q ≤ k
      → Returns (λ _. Drained s dev next q) (drain_loop rounds k dev s)
  unfolding drain_loop write
  drain_loop-Drained zero k dev next d q points seg enough fuel = absurd (omega arith)
  drain_loop-Drained (suc rounds) {s} k dev next d [] points seg enough fuel =
      rw (remove_midi_in_event-none {s = s} k dev next d points (eq_null_of_nil seg refl)) (
        returns record {
          last = d;
          at = points;
          head = refl;
          devices = λ b n. refl;
          freed = λ a i. ground arith;
          others = λ a o. refl;
          outs = refl;
          driver = refl;
        })
  drain_loop-Drained (suc rounds) {s} k dev next d (c ∷ q) points seg enough fuel =
      let ((a, e), l) = last?-cons c q in
      Returns-bind (remove_midi_in_event-Removed k dev next d a e points seg l fuel) λ r t m.
        rw (m.result, m.state)
          (Returns-mono
            (drain_loop-Drained rounds k dev next (record d { events = m.first }) (front (c ∷ q))
              (Points-write points (record d { events = m.first }) next) m.seg
              (omega (arith, length-front c q)) (omega (arith, length-front c q)))
            λ _ u rest. record {
              last = rest.last;
              at = rest.at;
              head = rest.head;
              devices = λ b n. rest.devices b n ∙ ground (arith, n);
              freed = λ b i. elim (mem-front b a e (c ∷ q) l i) [
                | inl j ↦ rest.freed b j
                | inr same ↦ rw same (rest.others a (last?-not_mem-front a e seg l) ∙ m.freed)
              ];
              others = λ b o. rest.others b (not_mem-front b (c ∷ q) o) ∙ m.others b o;
              outs = rest.outs;
              driver = rest.driver;
            })
