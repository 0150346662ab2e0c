-- ===== src/Midi/Spec/Receive.antt =====
-- `MidiReceive` and the promise.
use profi_lua.Base.{
  ℕ, suc, ◌<◌, ◌≡◌, ◌≢◌, refl, none, some, List, [], ◌∷◌, ◌==◌, if◌then◌else◌, arith, Bool-cases,
  inl, inr, true, false, ◌∙◌, ap, sym, Option-cases, Returns, returns, Returns-mono, not, ◌&&◌,
  ◌||◌, ok, Bool,
}
use profi_lua.Heap.{Ptr, null, write, node}
use profi_lua.Heap.Seg.{frame-write}
use profi_lua.Heap.Cells.{find, not_mem_of_none}
use profi_lua.Heap.Keyed.{entry, entry-IsEntry, find-entry, find-set_at, address}
use profi_lua.Midi.State.{Event, Midi}
use profi_lua.Midi.Wire.{midi_receive, is_kept, byte_of}
use profi_lua.Midi.Devices.{get_midi_in_entry, add_midi_in_event, in_number}
use profi_lua.Midi.Chain.Find.{get_entry-find}
use profi_lua.Midi.Queue.Receive.{event_of, midi_receive-Enqueued}
use profi_lua.Midi.Spec.{Spec, Refines, change, push, input_of, in_num}
use profi_lua.Midi.Spec.Frame.{Refines-le, Refines-ins}
use profi_lua.Midi.Spec.Requeue.{requeue-Refines}

abbrev pub contains : List ℕ → ℕ → Bool
contains [] c = false
contains (x ∷ xs) c = x == c || contains xs c

-- Note off, note on, control change and pitch bend, all of the first channel.
abbrev pub statuses : List ℕ
statuses = 0x80 ∷ 0x90 ∷ 0xB0 ∷ 0xE0 ∷ []

pub is_kept-contains : (c : ℕ) → is_kept c ≡ contains statuses c
unfolding is_kept
is_kept-contains c = ground arith

-- The promise: a message of one of four statuses is put in front of the events of its device.
abbrev pub received : (fresh num msgpar : ℕ) → Spec → Spec
received fresh num msgpar σ =
    if not (fresh == null) && contains statuses (byte_of 0 msgpar)
    then record σ { ins = change σ.ins num (push (event_of msgpar) (σ.ins num)) }
    else σ

module _ {D : Type 0} where
  -- A node at an unused address, which no list has.
  unfoldable stray :
      {n : ℕ} {s : Midi D} {σ : Spec} (fresh : Ptr) (e : Event)
      → s.events fresh ≡ none
      → Refines n s σ
      → Refines n (record s { events = write s.events fresh (some (node e null)) }) σ
  stray fresh e unused r = record {
    view = r.view;
    holds = record {
      outs = r.holds.outs;
      ins = r.holds.ins;
      queued = λ p d l.
          let seg = r.holds.queued p d l in
          frame-write fresh (some (node e null)) seg (not_mem_of_none fresh seg unused);
      apart = r.holds.apart;
    };
    out_distinct = r.out_distinct;
    in_distinct = r.in_distinct;
    outs_of = r.outs_of;
    ins_of = r.ins_of;
    outs_size = r.outs_size;
    ins_size = r.ins_size;
    queue_size = r.queue_size;
  }

  module _ {n : ℕ} {s : Midi D} {σ : Spec} (k fresh num msgpar : ℕ) (r : Refines n s σ)
      (fuel : n < k) (unused : s.events fresh ≡ none) where
    -- The promise is kept, and the same devices are found.
    abbrev pub Kept : Spec → Midi D → Type 0
    Kept τ t =
        (r' : Refines (suc n) t τ) × ((m : ℕ)
          → find (in_number m) r'.view.ins ≡ find (in_number m) r.view.ins)
        × (t.driver ≡ s.driver)

    message-Kept :
        is_kept (byte_of 0 msgpar) ≡ true
        → fresh ≢ null
        → Returns
            (λ _. Kept (record σ { ins = change σ.ins num (push (event_of msgpar) (σ.ins num)) }))
            (midi_receive k fresh num msgpar s)
    unfolding midi_receive get_midi_in_entry add_midi_in_event Refines-le Refines-ins
        requeue-Refines stray
    message-Kept kept ne = elim (Option-cases (entry in_num num r.view.ins)) [
      | inl e ↦
          let nz : (fresh == null) ≡ false = ground (arith, ne) in
          let unknown : σ.ins num ≡ none = sym (r.ins_of num) ∙ ap (input_of r.view.queue) e in
          let missed = find-entry in_num num r.view.ins ∙ ap (address in_num) e in
          rw
            (
              kept,
              nz,
              get_entry-find (in_number num) k s.ins r.holds.ins (omega (arith, r.ins_size)),
              missed,
            )
            (returns (
              Refines-ins (change σ.ins num (push (event_of msgpar) (σ.ins num)))
                  (λ m. ground (arith, unknown))
                  (Refines-le (suc n) (omega arith) (stray fresh (event_of msgpar) unused r)),
              (λ m. refl),
              refl,
            ))
      | inr ((dev, d), e) ↦
          let is = entry-IsEntry in_num num dev d r.holds.ins e in
          let known = sym (r.ins_of num) ∙ ap (input_of r.view.queue) e in
          let at = find-entry in_num num r.view.ins ∙ ap (address in_num) e in
          Returns-mono
            (midi_receive-Enqueued k fresh num msgpar dev d r.holds at is.at
              (omega (arith, r.ins_size)) kept ne unused)
            λ _ t q. rw known (
              requeue-Refines num dev fresh d ((fresh, event_of msgpar) ∷ r.view.queue dev) r e
                  q.holds (omega arith) (omega (arith, r.queue_size dev d is.at)),
              (λ m.
                  find-set_at in_num m dev d (record d { events = fresh }) r.holds.ins is.at refl),
              q.driver,
            )
    ]

    skip_case :
        not (fresh == null) && is_kept (byte_of 0 msgpar) ≡ false
        → midi_receive k fresh num msgpar s ≡ ok tt s
    unfolding midi_receive
    skip_case e = ground arith

    pub midi_receive-Kept :
        Returns (λ _. Kept (received fresh num msgpar σ)) (midi_receive k fresh num msgpar s)
    unfolding Refines-le
    midi_receive-Kept = elim (Bool-cases (not (fresh == null) && is_kept (byte_of 0 msgpar))) [
      | inl t ↦
          let kept : is_kept (byte_of 0 msgpar) ≡ true = ground arith in
          rw (← is_kept-contains (byte_of 0 msgpar)) (rw t (message-Kept kept (ground arith)))
      | inr f ↦
          rw (← is_kept-contains (byte_of 0 msgpar), f, skip_case f)
            (returns (Refines-le (suc n) (omega arith) r, (λ m. refl), refl))
    ]

    -- `MidiReceive` puts the message in front of the events of the device with the number `num`, if
    -- `malloc` returns memory, the status byte is one of 0x80, 0x90, 0xB0 and 0xE0, and such a
    -- device is open; otherwise no device changes. The lists stay well formed and the driver is not
    -- called. `malloc` is assumed to return NULL or an unused address.
    pub midi_receive-Refines :
        Returns
          (λ _ t. Refines (suc n) t (received fresh num msgpar σ) × (t.driver ≡ s.driver))
          (midi_receive k fresh num msgpar s)
    midi_receive-Refines = Returns-mono midi_receive-Kept λ _ t q. (q.0, q.2)
