-- ===== src/Midi/Spec/Closing/Heard.antt =====
-- `RemoveMidiIn` with a message from the driver in its middle, and the promise.
use profi_lua.Base.{
  ℕ, suc, ◌<◌, ◌≡◌, none, some, ◌∷◌, ◌==◌, arith, inl, inr, ◌∙◌, ap, sym, Option-cases, Returns,
  Returns-bind, Returns-mono, u32_of, List, Bool-cases, not, ◌&&◌, ==_iff,
}
use profi_lua.Lua.{Lua, Value, as_number, Number}
use profi_lua.Heap.{Ptr, null}
use profi_lua.Heap.Cells.{not_mem_of_none}
use profi_lua.Heap.Keyed.{entry, entry-IsEntry, find-entry, address}
use profi_lua.Midi.State.{InDev, Event, Midi, Winmm}
use profi_lua.Midi.Spec.{Spec, Refines, input_of, in_num, change}
use profi_lua.Midi.Spec.CloseIn.{removed}
use profi_lua.Midi.Spec.Receive.{contains, statuses, received, midi_receive-Kept}
use profi_lua.Midi.Wire.{midi_receive, byte_of}
use profi_lua.Midi.Queue.Receive.{event_of}
use profi_lua.Midi.Close.{remove_midi_in-InRemoved}
use profi_lua.Midi.Queue.Interrupt.Closing.{interrupted_removal, closing-sequential}
use profi_lua.Midi.Queue.Interrupt.Unlinking.{
  Moment, removal_amid, interrupted_unlinking, unlinking-sequential,
}

-- An open device has the same handle after a message.
receives :
    (fresh num msgpar m : ℕ) (σ : Spec) (h : ℕ) (q : List Event)
    → σ.ins m ≡ some (record { handle = h; queue = q })
    → (q' : List Event) × ((received fresh num msgpar σ).ins m
        ≡ some (record { handle = h; queue = q' }))
receives fresh num msgpar m σ h q known =
    elim (Bool-cases (not (fresh == null) && contains statuses (byte_of 0 msgpar))) [
      | inr f ↦ (q, rw (f, known))
      | inl t ↦ elim (Bool-cases (m == num)) [
        | inl same ↦
            let at : σ.ins num ≡ some (record { handle = h; queue = q }) =
              rw (← (==_iff m num).0 same) known in
            (event_of msgpar ∷ q, rw (t, same, at))
        | inr other ↦ (q, rw (t, other, known))
      ]
    ]

abbrev less : ℕ → Spec → Spec
less m σ = record σ { ins = change σ.ins m none }

-- The device `m` has gone. The message counts before that, or after it when the device has left the
-- list already.
abbrev pub gone : Moment → (fresh num msgpar m : ℕ) → Spec → Spec
gone (Moment.unlinking _) fresh num msgpar m σ = less m (received fresh num msgpar σ)
gone (Moment.draining _) fresh num msgpar m σ = received fresh num msgpar (less m σ)

module _ {D : Type 0} (lua : Lua) (w : Winmm D) where
  module _ {n : ℕ} {s : Midi D} {σ : Spec} (k fresh num msgpar : ℕ) (v : Value) (x : Number)
      (r : Refines n s σ) (fuel : n < k) (unused : s.events fresh ≡ none)
      (numeric : as_number lua v ≡ some x) where
    abbrev m : ℕ
    m = u32_of (lua.number_to_integer x)

    module _ (dev : Ptr) (d : InDev) (e : entry in_num m r.view.ins ≡ some (dev, d)) where
      heard_after :
          (rounds : ℕ)
          → Returns
              (λ _ u.
                Refines
                  (suc n)
                  u
                  (received fresh num msgpar (record σ { ins = change σ.ins m none }))
                × (u.driver ≡ s.driver))
              (interrupted_removal (midi_receive k fresh num msgpar) rounds (suc k) dev s)
      heard_after rounds =
          let is = entry-IsEntry in_num m dev d r.holds.ins e in
          let out = not_mem_of_none fresh (r.holds.queued dev d is.at) unused in
          rw
            (closing-sequential {s = s} rounds k (suc k) fresh num msgpar dev d r.holds is.at
              (omega (arith, r.ins_size, fuel)) (omega (arith, r.ins_size, fuel))
              (omega (arith, r.queue_size dev d is.at, fuel)) unused)
            (Returns-bind
              (remove_midi_in-InRemoved r.view s (suc k) dev d r.holds is.at
                (omega (arith, r.ins_size, fuel)) (omega (arith, r.queue_size dev d is.at, fuel)))
              λ _ t q.
                Returns-mono
                  (midi_receive-Kept k fresh num msgpar
                    (removed lua w k v x r fuel numeric dev d e q.holds) fuel
                    (q.events_kept fresh out ∙ unused))
                  λ _ u p. (p.0, p.2 ∙ q.driver))

      heard_before :
          (rounds h : ℕ) (q : List Event)
          → σ.ins m ≡ some (record { handle = h; queue = q })
          → Returns
              (λ _ u.
                Refines (suc n) u (record (received fresh num msgpar σ) {
                  ins = change (received fresh num msgpar σ).ins m none;
                })
                × (u.driver ≡ s.driver))
              (interrupted_unlinking (midi_receive k fresh num msgpar) rounds (suc k) dev s)
      heard_before rounds h q known =
          let is = entry-IsEntry in_num m dev d r.holds.ins e in
          let (q', known') = receives fresh num msgpar m σ h q known in
          rw
            (unlinking-sequential {s = s} rounds k (suc k) fresh num msgpar dev d r.holds is.at
              (omega (arith, r.ins_size, fuel)))
            (Returns-bind (midi_receive-Kept k fresh num msgpar r fuel unused)
              λ _ t (r', found, kept). elim (Option-cases (entry in_num m r'.view.ins)) [
                | inl gone ↦
                    let none_known = sym (r'.ins_of m) ∙ ap (input_of r'.view.queue) gone in
                    absurd (ground (arith, known', none_known))
                | inr ((dev', d'), e') ↦
                    let is' = entry-IsEntry in_num m dev' d' r'.holds.ins e' in
                    let same : dev' ≡ dev =
                      sym (find-entry in_num m r'.view.ins ∙ ap (address in_num) e')
                      ∙ found m
                      ∙ find-entry in_num m r.view.ins
                      ∙ ap (address in_num) e in
                    rw (← same) (
                      Returns-mono
                        (remove_midi_in-InRemoved r'.view t (suc k) dev' d' r'.holds is'.at
                          (omega (arith, r'.ins_size, fuel))
                          (omega (arith, r'.queue_size dev' d' is'.at, fuel)))
                        λ _ u p. (
                          removed lua w (suc k) v x r' (omega (arith, fuel)) numeric dev' d' e'
                              p.holds,
                          p.driver ∙ kept,
                        ))
              ])

      pub heard :
          (moment : Moment) (h : ℕ) (q : List Event)
          → σ.ins m ≡ some (record { handle = h; queue = q })
          → Returns
              (λ _ u. Refines (suc n) u (gone moment fresh num msgpar m σ) × (u.driver ≡ s.driver))
              (removal_amid (midi_receive k fresh num msgpar) moment (suc k) dev s)
      heard (Moment.unlinking rounds) h q known = heard_before rounds h q known
      heard (Moment.draining rounds) h q known = heard_after rounds
