-- ===== src/Midi/Session/Order.antt =====
-- Sequences of messages from the driver, and of `plGetEvent` by a script.
use profi_lua.Base.{
  append_assoc, append-nil, ℕ, zero, suc, ◌+◌, ◌<◌, ◌≡◌, refl, sym, ap, ◌∙◌, true, not, ◌&&◌, none,
  some, List, [], ◌∷◌, ◌++◌, map, ◌==◌, length, arith, Cmd, pure, ◌>>=◌, ◌>>◌, Returns, returns,
  Returns-bind, Returns-mono, Returns-result, After,
}
use profi_lua.Lua.{Lua, Value, Number, unsigned_of, as_number}
use profi_lua.Lua.Stack.{Reply}
use profi_lua.Heap.{Ptr, null}
use profi_lua.Midi.State.{Midi, Winmm, Event}
use profi_lua.Midi.Wire.{midi_receive, byte_of}
use profi_lua.Midi.Api.{pl_get_event}
use profi_lua.Midi.Queue.Receive.{event_of}
use profi_lua.Midi.Spec.{Spec, Refines, Input, init, last, change, push}
use profi_lua.Midi.Spec.Frame.{Refines-le}
use profi_lua.Midi.Spec.Receive.{midi_receive-Refines, contains, statuses}
use profi_lua.Midi.Spec.GetEvent.{pl_get_event-Refines, event_reply, taken}

-- The oldest first.
abbrev in_order : List Event → List Event
in_order [] = []
in_order (e ∷ q) = in_order q ++ e ∷ []

abbrev arrived : List (Ptr × ℕ) → List Event → List Event
arrived [] q = q
arrived ((fresh, m) ∷ ms) q = arrived ms (event_of m ∷ q)

abbrev pub events_of : List (Ptr × ℕ) → List Event
events_of ms = map (λ m. event_of m.1) ms

length-events_of : (ms : List (Ptr × ℕ)) → length (events_of ms) ≡ length ms
length-events_of [] = refl
length-events_of (m ∷ ms) = ap suc (length-events_of ms)

in_order-arrived :
    (ms : List (Ptr × ℕ)) (q : List Event) → in_order (arrived ms q) ≡ in_order q ++ events_of ms
in_order-arrived [] q = sym (append-nil (in_order q))
in_order-arrived ((fresh, m) ∷ ms) q =
    in_order-arrived ms (event_of m ∷ q)
    ∙ append_assoc (in_order q) (event_of m ∷ []) (events_of ms)

-- A queue splits into its oldest event and the others.
oldest_first :
    (x : Event) (q : List Event)
    → (e : Event) × (last (x ∷ q) ≡ some e) × (in_order (x ∷ q) ≡ e ∷ in_order (init (x ∷ q)))
oldest_first x [] = (x, refl, refl)
oldest_first x (y ∷ q) = let (e, l, o) = oldest_first y q in (e, l, ap (λ z. z ++ x ∷ []) o)

module _ {D : Type 0} (lua : Lua) (w : Winmm D) (k : ℕ) where
  abbrev pub receive_all : (num : ℕ) → List (Ptr × ℕ) → Cmd (Midi D) (Unit {0})
  receive_all num [] = pure tt
  receive_all num ((fresh, m) ∷ ms) = midi_receive k fresh num m >> receive_all num ms

  abbrev pub get_all : (count : ℕ) → Value → Cmd (Midi D) (List Reply)
  get_all zero v = pure []
  get_all (suc count) v = do
    reply ← pl_get_event lua w k (v ∷ [])
    rest ← get_all count v
    pure (reply ∷ rest)

  -- For each message there is memory at an unused address, and its status is one that is kept.
  abbrev pub Accepted : (num : ℕ) → List (Ptr × ℕ) → Midi D → Type 0
  Accepted num [] s = Unit {0}
  Accepted num ((fresh, m) ∷ ms) s =
      (s.events fresh ≡ none)
      × (not (fresh == null) && contains statuses (byte_of 0 m) ≡ true)
      × After (Accepted num ms) (midi_receive k fresh num m s)

  receive_all-arrived :
      (num : ℕ) (ms : List (Ptr × ℕ)) {n : ℕ} {s : Midi D} {σ : Spec} (i : Input)
      → Refines n s σ
      → length ms + n < k
      → Accepted num ms s
      → σ.ins num ≡ some i
      → Returns
          (λ _ t.
            (τ : Spec) × Refines (length ms + n) t τ
            × (τ.ins num ≡ some (record i { queue = arrived ms i.queue })))
          (receive_all num ms s)
  receive_all-arrived num [] {n} {σ} i r fuel a known =
      returns (σ, Refines-le (0 + n) (omega arith) r, known)
  receive_all-arrived num ((fresh, m) ∷ ms) {n} {σ} i r fuel a known =
      let (u, t, e, p) = Returns-result (midi_receive-Refines k fresh num m r (omega arith) a.0) in
      let later : Accepted num ms t = rw e at a.2 in
      let now : Refines (suc n) t
          (record σ { ins = change σ.ins num (push (event_of m) (σ.ins num)) }) =
        rw a.1 at p.0 in
      rw e (
        Returns-mono
          (receive_all-arrived num ms (record i { queue = event_of m ∷ i.queue }) now (omega arith)
            later (ground (arith, known)))
          λ _ x q. (q.0, Refines-le (suc (length ms) + n) (omega arith) q.1, q.2))

  module _ (v : Value) (x : Number) (numeric : as_number lua v ≡ some x) where
    abbrev num : ℕ
    num = unsigned_of lua x

    get_all-in_order :
        (q : List Event) (es : List Event) {n : ℕ} {s : Midi D} {σ : Spec} (h : ℕ)
        → Refines n s σ
        → n < k
        → σ.ins num ≡ some (record { handle = h; queue = q })
        → in_order q ≡ es
        → Returns
            (λ replies _. replies ≡ map (λ e. event_reply (some e)) es)
            (get_all (length es) v s)
    get_all-in_order q [] h r fuel known o = returns refl
    get_all-in_order [] (e ∷ es) h r fuel known o = absurd (ground arith)
    get_all-in_order (y ∷ q) (e ∷ es) {σ} h r fuel known o =
        let (first, l, split) = oldest_first y q in
        let same : first ≡ e = ground (arith, split, o) in
        let others : in_order (init (y ∷ q)) ≡ es = ground (arith, split, o) in
        let next : (taken num σ).ins num ≡ some (record { handle = h; queue = init (y ∷ q) }) =
          ground (arith, known) in
        Returns-bind (pl_get_event-Refines lua w k v x r fuel numeric) λ reply t p.
          Returns-bind (get_all-in_order (init (y ∷ q)) es h p.1 fuel next others)
            λ rest _ e'. returns (rw (p.0, known, l, same, e'))

    -- Any messages that the driver hands over to an open input device with no events, each with a
    -- status that is kept and memory for it, come out of as many calls of `plGetEvent` with the
    -- device's number, in the order in which they arrived.
    pub receive_all-get_all :
        (ms : List (Ptr × ℕ)) {n : ℕ} {s : Midi D} {σ : Spec} (h : ℕ)
        → Refines n s σ
        → length ms + n < k
        → σ.ins num ≡ some (record { handle = h; queue = [] })
        → Accepted num ms s
        → Returns
            (λ replies _. replies ≡ map (λ e. event_reply (some e)) (events_of ms))
            ((receive_all num ms >> get_all (length ms) v) s)
    receive_all-get_all ms {n} h r fuel known a =
        Returns-bind (receive_all-arrived num ms (record { handle = h; queue = [] }) r fuel a known)
          λ _ t p. rw (length-events_of ms) at (
            get_all-in_order (arrived ms []) (events_of ms) h p.1 fuel p.2 (in_order-arrived ms []))
