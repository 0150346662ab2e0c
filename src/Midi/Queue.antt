-- ===== src/Midi/Queue.antt =====
-- `AddMidiInEvent` and `RemoveMidiInEvent` on what the lists hold.
pub mod Last
pub mod Remove
pub mod Dequeue
pub mod Drain
pub mod Receive
pub mod Interrupt
use profi_lua.Base.{
  ℕ, ◌≡◌, ◌≢◌, ◌⊎◌, refl, Bool, true, false, Option, none, some, List, [], ◌∷◌, ◌==◌, if◌then◌else◌,
  length, ◌<◌, arith, Bool-cases, inl, inr, ok, ap, sym, ◌∙◌, subst,
}
use profi_lua.Heap.{Ptr, null, Heap, write, node}
use profi_lua.Heap.Seg.{Seg, Points, ◌∈◌, ◌∉◌, frame}
use profi_lua.Heap.Cells.{lookup, erase, set_at, Seg-set_value, lookup-set_at, has-lookup}
use profi_lua.Midi.State.{OutDev, InDev, Event, Chain, Midi}
use profi_lua.Midi.View.{View, Holds, Events, requeue, override}

module _ {D : Type 0} where
  -- A device's event list is replaced by another, whose cells are old ones of this device or at
  -- addresses that no device uses; all other event cells of devices stay as they are.
  pub requeue-Holds :
      {s : Midi D} {v : View} (dev first next : Ptr) (d : InDev) (q : Events) (g : Heap Event)
      → Holds s v
      → lookup dev v.ins ≡ some d
      → Points s.ins.heap dev d next
      → Seg g null first q
      → ((r : Ptr) (e : InDev)
          → lookup r v.ins ≡ some e
          → r ≢ dev
          → (a : Ptr) → a ∈ v.queue r
          → (g a ≡ s.events a) × (a ∉ q))
      → Holds
          (record s {
            ins = record s.ins {
              heap = write s.ins.heap dev (some (node (record d { events = first }) next));
            };
            events = g;
          })
          (requeue dev d first q v)
  requeue-Holds {s} {v} dev first next d q g h found points seg spared = record {
    outs = h.outs;
    ins = Seg-set_value (record d { events = first }) h.ins points;
    queued = λ p e l. queued p e l (Bool-cases (p == dev));
    apart = λ p r e f le lf ne a i.
        apart p r e f le lf ne a i (Bool-cases (p == dev)) (Bool-cases (r == dev));
  }
    where
      inside : dev ∈ v.ins
      inside = has-lookup dev v.ins d found

      d' : InDev
      d' = record d { events = first }

      old :
          (p : Ptr) (e : InDev)
          → lookup p (set_at dev d' v.ins) ≡ some e
          → (p == dev) ≡ false
          → lookup p v.ins ≡ some e
      old p e l f = ground (arith, lookup-set_at p dev d' v.ins inside)

      queued :
          (p : Ptr) (e : InDev)
          → lookup p (set_at dev d' v.ins) ≡ some e
          → ((p == dev) ≡ true) ⊎ ((p == dev) ≡ false)
          → Seg g null e.events (override v.queue dev q p)
      queued p e l (inl t) =
          let same : first ≡ e.events = ground (arith, lookup-set_at p dev d' v.ins inside) in
          rw t (subst (λ x. Seg g null x q) same seg)
      queued p e l (inr f) =
          let was = old p e l f in
          rw f (frame g (h.queued p e was) (λ a i. (spared p e was (ground arith) a i).0))

      apart :
          (p r : Ptr) (e f : InDev)
          → lookup p (set_at dev d' v.ins) ≡ some e
          → lookup r (set_at dev d' v.ins) ≡ some f
          → p ≢ r
          → (a : Ptr) → a ∈ override v.queue dev q p
          → ((p == dev) ≡ true) ⊎ ((p == dev) ≡ false)
          → ((r == dev) ≡ true) ⊎ ((r == dev) ≡ false)
          → a ∉ override v.queue dev q r
      apart p r e f le lf ne a i (inl t) (inl t') = absurd (ne (ground arith))
      apart p r e f le lf ne a i (inl t) (inr f') =
          let i' : a ∈ q = rw t at i in
          ground (arith, spared r f (old r f lf f') (ground arith) a, i')
      apart p r e f le lf ne a i (inr f') (inl t) =
          let i' : a ∈ v.queue p = rw f' at i in
          rw t ((spared p e (old p e le f') (ground arith) a i').1)
      apart p r e f le lf ne a i (inr f') (inr f'') =
          let i' : a ∈ v.queue p = rw f' at i in
          rw f'' (h.apart p r e f (old p e le f') (old r f lf f'') ne a i')
