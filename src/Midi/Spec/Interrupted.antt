-- ===== src/Midi/Spec/Interrupted.antt =====
-- `plGetEvent` with a message from the driver in the middle of `RemoveMidiInEvent`, and the promise.
use profi_lua.Base.{
  ok, ℕ, suc, ◌≤◌, ◌<◌, ◌≡◌, inl, inr, true, false, refl, Bool, not, ◌&&◌, Option, none, some, List,
  [], ◌∷◌, length, arith, ◌∙◌, ap, sym, Bool-cases, ==_iff, Option-cases, Returns, returns,
  Returns-bind, Returns-mono, ◌==◌, if◌then◌else◌, ◌>>◌,
}
use profi_lua.Lua.{Lua, Value, as_number, Number, unsigned_of}
use profi_lua.Heap.{Ptr, null}
use profi_lua.Heap.Seg.{load-ok, not_null}
use profi_lua.Heap.Ends.{eq_null_of_nil}
use profi_lua.Heap.Cells.{find, find-lookup, Points-lookup}
use profi_lua.Heap.Keyed.{entry, entry-IsEntry, find-entry, address}
use profi_lua.Midi.State.{Event, InDev, Midi, Winmm}
use profi_lua.Midi.View.{Events}
use profi_lua.Midi.Devices.{in_number, remove_midi_in_event}
use profi_lua.Midi.Wire.{midi_receive, is_kept, byte_of}
use profi_lua.Midi.Api.{get_event_by}
use profi_lua.Midi.Queue.Interrupt.{interrupted}
use profi_lua.Midi.Queue.Interrupt.Sequential.{interrupted-sequential}
use profi_lua.Midi.Queue.Interrupt.Lost.{interrupted-Lost}
use profi_lua.Midi.Spec.{Spec, Refines, Input, oldest, drop_oldest, input_of, in_num, contents}
use profi_lua.Midi.Spec.Frame.{Refines-le}
use profi_lua.Midi.Spec.Requeue.{requeue-Refines}
use profi_lua.Midi.Spec.Receive.{received, midi_receive-Kept, is_kept-contains}
use profi_lua.Midi.Spec.GetEvent.{
  nothing, event_reply, taken, remove_midi_in_event-Refines, get_event_by-Returns,
}

-- The message has an effect if the device has an event, and at least two if the message is for the
-- device itself.
abbrev waits : (own : Bool) → List Event → Bool
waits own [] = false
waits own (e ∷ []) = not own
waits own (e ∷ f ∷ q) = true

abbrev reaches : (own : Bool) → Option Input → Bool
reaches own none = false
reaches own (some i) = waits own i.queue

-- The promise for `plGetEvent` on the number `m`, with a message in its middle.
abbrev pub taken_amid : (fresh num msgpar m : ℕ) → Spec → Spec
taken_amid fresh num msgpar m σ =
    if reaches (m == num) (σ.ins m) then taken m (received fresh num msgpar σ) else taken m σ

-- A new event in front of others is not the oldest one.
oldest-received :
    (fresh num msgpar m : ℕ) (σ : Spec) (h : ℕ) (e : Event) (q : List Event)
    → σ.ins m ≡ some (record { handle = h; queue = e ∷ q })
    → oldest ((received fresh num msgpar σ).ins m) ≡ oldest (σ.ins m)
oldest-received fresh num msgpar m σ h e q known = elim (Bool-cases (m == num)) [
  | inl t ↦
      let at : σ.ins num ≡ some (record { handle = h; queue = e ∷ q }) =
        rw (← (==_iff m num).0 t) known in
      ground (arith, known, at)
  | inr f ↦ ground (arith, f)
]

module _ {D : Type 0} {n : ℕ} {s : Midi D} {σ : Spec} (rounds k fresh num msgpar m : ℕ)
    (r : Refines n s σ) (fuel : n < k) (unused : s.events fresh ≡ none) where
  abbrev Outcome : Spec → Option Event → Midi D → Type 0
  Outcome τ got t = (got ≡ oldest (σ.ins m)) × Refines (suc n) t τ × (t.driver ≡ s.driver)

  sequential :
      (dev : Ptr)
      → find (in_number m) r.view.ins ≡ dev
      → oldest ((received fresh num msgpar σ).ins m) ≡ oldest (σ.ins m)
      → Returns
          (Outcome (taken m (received fresh num msgpar σ)))
          ((midi_receive k fresh num msgpar >> remove_midi_in_event k dev) s)
  sequential dev at same =
      Returns-bind (midi_receive-Kept k fresh num msgpar r fuel unused) λ _ t (r', found, kept).
        rw (← found m ∙ at) (
          Returns-mono (remove_midi_in_event-Refines k m r' (omega arith))
            λ got u q. (q.0 ∙ same, q.1, q.2 ∙ kept))

  unheard :
      (dev : Ptr)
      → interrupted (midi_receive k fresh num msgpar) rounds k dev s ≡ ok none s
      → oldest (σ.ins m) ≡ none
      → drop_oldest (σ.ins m) ≡ σ.ins m
      → reaches (m == num) (σ.ins m) ≡ false
      → Returns
          (Outcome (taken_amid fresh num msgpar m σ))
          (interrupted (midi_receive k fresh num msgpar) rounds k dev s)
  unheard dev runs o same missed =
      let (e, r', kept) = nothing k m r (omega arith) o same in
      rw (runs, missed) (returns (e, Refines-le (suc n) (omega arith) r', kept))

  module _ (dev : Ptr) (d : InDev) (entered : entry in_num m r.view.ins ≡ some (dev, d)) where
    known : σ.ins m ≡ some (record { handle = d.handle; queue = contents (r.view.queue dev) })
    known = sym (r.ins_of m) ∙ ap (input_of r.view.queue) entered

    found : find (in_number m) r.view.ins ≡ dev
    found = find-entry in_num m r.view.ins ∙ ap (address in_num) entered

    -- The device that the message is for.
    own : m ≡ num → find (in_number num) r.view.ins ≡ dev
    own e = rw (← e) found

    other : find (in_number num) r.view.ins ≡ dev → m ≡ num
    other at =
        let is = entry-IsEntry in_num m dev d r.holds.ins entered in
        let (e, at_e, numbered) = find-lookup (in_number num) dev r.holds.ins at is.ne_null in
        ground (arith, at_e, numbered, is.at, is.numbered)

    by_queue :
        (q : Events)
        → r.view.queue dev ≡ q
        → Returns
            (Outcome (taken_amid fresh num msgpar m σ))
            (interrupted (midi_receive k fresh num msgpar) rounds k dev s)
    unfolding interrupted
    by_queue [] empty =
        let is = entry-IsEntry in_num m dev d r.holds.ins entered in
        let (next, points) = Points-lookup dev r.holds.ins is.at in
        unheard dev
          (rw (not_null points, load-ok points, eq_null_of_nil (r.holds.queued dev d is.at) empty))
          (rw (known, empty)) (rw (known, empty)) (rw (known, empty))
    by_queue (c ∷ c' ∷ q) two =
        let is = entry-IsEntry in_num m dev d r.holds.ins entered in
        let heard : reaches (m == num) (σ.ins m) ≡ true = rw (known, two) in
        let same =
          oldest-received fresh num msgpar m σ d.handle c.1 (contents (c' ∷ q)) (rw two at known) in
        rw
          (
            interrupted-sequential rounds k fresh num msgpar dev d r.holds is.at
                (omega (arith, r.ins_size)) (omega (arith, r.queue_size dev d is.at)) unused
                (rw two (omega arith)) (λ _ _. rw two (omega arith)),
            heard,
          )
          (sequential dev found same)
    by_queue ((p, e) ∷ []) one =
        let is = entry-IsEntry in_num m dev d r.holds.ins entered in
        let same = oldest-received fresh num msgpar m σ d.handle e [] (rw one at known) in
        let missed : (m == num) ≡ true → reaches (m == num) (σ.ins m) ≡ false =
          λ t. rw (known, one, t) in
        let as_if_before =
          λ (apart : not (fresh == null) && is_kept (byte_of 0 msgpar) ≡ true
              → find (in_number num) r.view.ins ≡ dev
              → 2 ≤ length (r.view.queue dev)).
            interrupted-sequential rounds k fresh num msgpar dev d r.holds is.at
              (omega (arith, r.ins_size)) (omega (arith, r.queue_size dev d is.at)) unused
              (rw one (omega arith)) apart in
        elim (Bool-cases (m == num)) [
          | inr f ↦
              let heard : reaches (m == num) (σ.ins m) ≡ true = rw (known, one, f) in
              rw (as_if_before (λ _ at. absurd (ground (arith, other at, f))), heard)
                (sequential dev found same)
          | inl t ↦ elim (Bool-cases (not (fresh == null) && is_kept (byte_of 0 msgpar))) [
            | inr dropped ↦
                let skipped : received fresh num msgpar σ ≡ σ =
                  rw (← is_kept-contains (byte_of 0 msgpar), dropped) in
                rw (as_if_before (λ kept _. absurd (ground (arith, kept, dropped))), missed t)
                  (rw skipped at (sequential dev found same))
            | inl kept ↦ rw (missed t) (
                Returns-mono
                  (interrupted-Lost k fresh num msgpar dev d r.holds (own (ground arith)) is.at
                    (omega (arith, r.ins_size)) (ground arith) (ground arith) unused rounds p e one)
                  λ got u q. (
                    rw (q.result, known, one),
                    rw (known, one)
                        (requeue-Refines m dev null d [] r entered q.holds (omega arith)
                          (omega arith)),
                    q.driver,
                  ))
          ]
        ]

  interrupted-Refines :
      Returns
        (Outcome (taken_amid fresh num msgpar m σ))
        (interrupted (midi_receive k fresh num msgpar) rounds k (find (in_number m) r.view.ins) s)
  unfolding interrupted
  interrupted-Refines = elim (Option-cases (entry in_num m r.view.ins)) [
    | inl e ↦
        let unknown : σ.ins m ≡ none = sym (r.ins_of m) ∙ ap (input_of r.view.queue) e in
        let missed : find (in_number m) r.view.ins ≡ null =
          find-entry in_num m r.view.ins ∙ ap (address in_num) e in
        rw missed (unheard null refl (rw unknown) (rw unknown) (rw unknown))
    | inr ((dev, d), e) ↦ rw (found dev d e) (by_queue dev d e (r.view.queue dev) refl)
  ]

-- `plGetEvent` with a numeric argument, while a message of the driver arrives inside
-- `RemoveMidiInEvent`, at any round of its loop or after the loop and before the event is taken off
-- the list: the oldest event is handed out and taken out of the queue, as if no message had arrived,
-- and the message is put in front of the events of its device. It is not if the queue holds no
-- event, since the message then comes before or after the call, and it is lost if the event handed
-- out was the only one of the device that the message is for. The lists stay well formed and the
-- driver is not called. `malloc` is assumed to return NULL or an unused address.
pub get_event_by-interrupted :
    {D : Type 0} {n : ℕ} {s : Midi D} {σ : Spec} (lua : Lua) (w : Winmm D)
    (rounds k fresh num msgpar : ℕ) (v : Value) (x : Number)
    → Refines n s σ
    → n < k
    → s.events fresh ≡ none
    → as_number lua v ≡ some x
    → Returns
        (λ reply t.
          (reply ≡ event_reply (oldest (σ.ins (unsigned_of lua x))))
          × Refines (suc n) t (taken_amid fresh num msgpar (unsigned_of lua x) σ)
          × (t.driver ≡ s.driver))
        (get_event_by lua w k (interrupted (midi_receive k fresh num msgpar) rounds k) (v ∷ []) s)
get_event_by-interrupted lua w rounds k fresh num msgpar v x r fuel unused numeric =
    Returns-mono
      (get_event_by-Returns lua w k (interrupted (midi_receive k fresh num msgpar) rounds k) v x r _
        fuel numeric
        (interrupted-Refines rounds k fresh num msgpar (unsigned_of lua x) r fuel unused))
      λ reply t (got, e, q). (e ∙ ap event_reply q.0, q.1, q.2)
