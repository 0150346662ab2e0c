-- ===== src/Midi/Spec/GetEvent.antt =====
-- `plGetEvent` and the promise.
use profi_lua.Base.{
  ℕ, ◌≤◌, ◌<◌, ◌≡◌, ◌⊎◌, refl, Option, none, some, [], ◌∷◌, length, arith, inl, inr, ◌∙◌, ap, sym,
  Option-cases, Returns, returns, Returns-bind, Returns-mono, Cmd, pos,
}
use profi_lua.Lua.{Lua, Value, as_number, Number, unsigned_of, nil}
use profi_lua.Lua.Stack.{Reply, one}
use profi_lua.Heap.{Ptr}
use profi_lua.Heap.Cells.{find}
use profi_lua.Heap.Ends.{last?, front}
use profi_lua.Heap.Keyed.{entry, entry-IsEntry, find-entry, address}
use profi_lua.Midi.State.{Event, Midi, Winmm}
use profi_lua.Midi.View.{Events}
use profi_lua.Midi.Devices.{get_midi_in_entry, remove_midi_in_event, in_number}
use profi_lua.Midi.Api.{pl_get_event, get_event_by, event_table}
use profi_lua.Midi.Chain.Find.{get_entry-find}
use profi_lua.Midi.Queue.Dequeue.{remove_midi_in_event-last, remove_midi_in_event-nil}
use profi_lua.Midi.Spec.{Spec, Refines, change, oldest, drop_oldest, input_of, in_num}
use profi_lua.Midi.Spec.Requeue.{requeue-Refines, contents-front, last-contents}
use profi_lua.Midi.Spec.Frame.{Refines-ins}

-- What a script gets for the oldest event, if there is one.
abbrev pub event_reply : Option Event → Reply
event_reply none = one nil
event_reply (some e) = record { pushed = event_table e ∷ []; count = pos 1 }

-- The promise: the oldest event of the device is taken out.
abbrev pub taken : ℕ → Spec → Spec
taken num σ = record σ { ins = change σ.ins num (drop_oldest (σ.ins num)) }

last?-cases : (q : Events) → (q ≡ []) ⊎ ((a : Ptr) × (e : Event) × (last? q ≡ some (a, e)))
last?-cases [] = inl refl
last?-cases ((a, e) ∷ []) = inr (a, e, refl)
last?-cases (x ∷ y ∷ q) = elim (last?-cases (y ∷ q)) [
  | inl e ↦ absurd (ground arith)
  | inr r ↦ inr r
]

length-front-le : (q : Events) → length (front q) ≤ length q
length-front-le [] = omega arith
length-front-le (x ∷ []) = omega arith
length-front-le (x ∷ y ∷ q) = omega (arith, length-front-le (y ∷ q))

module _ {D : Type 0} {n : ℕ} {s : Midi D} {σ : Spec} (k num : ℕ) (r : Refines n s σ)
    (fuel : n ≤ k) where
  pub nothing :
      oldest (σ.ins num) ≡ none
      → drop_oldest (σ.ins num) ≡ σ.ins num
      → (none ≡ oldest (σ.ins num)) × Refines n s (taken num σ) × (s.driver ≡ s.driver)
  nothing o e = (
    sym o,
    Refines-ins (change σ.ins num (drop_oldest (σ.ins num))) (λ m. ground (arith, e)) r,
    refl,
  )

  -- `RemoveMidiInEvent` on what the list holds for a number, which is NULL for a device that is not
  -- open.
  pub remove_midi_in_event-Refines :
      Returns
        (λ got t. (got ≡ oldest (σ.ins num)) × Refines n t (taken num σ) × (t.driver ≡ s.driver))
        (remove_midi_in_event k (find (in_number num) r.view.ins) s)
  unfolding remove_midi_in_event
  remove_midi_in_event-Refines = elim (Option-cases (entry in_num num r.view.ins)) [
    | inl e ↦
        let unknown : σ.ins num ≡ none = sym (r.ins_of num) ∙ ap (input_of r.view.queue) e in
        let missed = find-entry in_num num r.view.ins ∙ ap (address in_num) e in
        rw missed (returns (nothing (rw unknown) (rw unknown)))
    | inr ((dev, d), e) ↦
        let is = entry-IsEntry in_num num dev d r.holds.ins e in
        let known = sym (r.ins_of num) ∙ ap (input_of r.view.queue) e in
        let at = find-entry in_num num r.view.ins ∙ ap (address in_num) e in
        rw at (elim (last?-cases (r.view.queue dev)) [
          | inl empty ↦
              rw (remove_midi_in_event-nil k dev d r.holds is.at empty)
                (returns (nothing (rw (known, empty)) (rw (known, empty))))
          | inr (a, ev, l) ↦
              Returns-mono
                (remove_midi_in_event-last k dev d r.holds a ev is.at l
                  (omega (arith, r.queue_size dev d is.at)))
                λ got t q. (
                  rw (q.result, known, last-contents (r.view.queue dev) a ev l),
                  rw (known, ← contents-front (r.view.queue dev))
                      (requeue-Refines num dev q.first d (front (r.view.queue dev)) r e q.holds
                        (omega arith)
                        (omega
                          (arith, length-front-le (r.view.queue dev), r.queue_size dev d is.at))),
                  q.driver,
                )
        ])
  ]

-- What `plGetEvent` does with the result of `RemoveMidiInEvent`.
pub get_event_by-Returns :
    {D : Type 0} {n : ℕ} {s : Midi D} {σ : Spec} (lua : Lua) (w : Winmm D) (k : ℕ)
    (remove : Ptr → Cmd (Midi D) (Option Event)) (v : Value) (x : Number) (r : Refines n s σ)
    (Q : Option Event → Midi D → Type 0)
    → n < k
    → as_number lua v ≡ some x
    → Returns Q (remove (find (in_number (unsigned_of lua x)) r.view.ins) s)
    → Returns
        (λ reply t. (got : Option Event) × (reply ≡ event_reply got) × Q got t)
        (get_event_by lua w k remove (v ∷ []) s)
unfolding get_midi_in_entry
get_event_by-Returns {s} lua w k remove v x r Q fuel numeric run =
    rw
      (
        numeric,
        get_entry-find (in_number (unsigned_of lua x)) k s.ins r.holds.ins
            (omega (arith, r.ins_size)),
      )
      (Returns-bind run λ got t q. elim (Option-cases got) [
        | inl e ↦ rw e (returns (none, refl, rw e at q))
        | inr (ev, e) ↦ rw e (returns (some ev, refl, rw e at q))
      ])

module _ {D : Type 0} {n : ℕ} {s : Midi D} {σ : Spec} (lua : Lua) (w : Winmm D) (k : ℕ) (v : Value)
    (x : Number) (r : Refines n s σ) (fuel : n < k) (numeric : as_number lua v ≡ some x) where
  abbrev num : ℕ
  num = unsigned_of lua x

  -- `plGetEvent` with a numeric argument hands out the oldest event of the device as a table of
  -- four numbers, and takes it out of the queue; it returns nil when the device is not open or has
  -- no event. Other devices and the driver stay as they are.
  pub pl_get_event-Refines :
      Returns
        (λ reply t.
          (reply ≡ event_reply (oldest (σ.ins num)))
          × Refines n t (taken num σ)
          × (t.driver ≡ s.driver))
        (pl_get_event lua w k (v ∷ []) s)
  unfolding pl_get_event
  pl_get_event-Refines =
      Returns-mono
        (get_event_by-Returns lua w k (remove_midi_in_event k) v x r _ fuel numeric
          (remove_midi_in_event-Refines k num r (omega arith)))
        λ reply t (got, e, q). (e ∙ ap event_reply q.0, q.1, q.2)
