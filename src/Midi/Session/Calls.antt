-- ===== src/Midi/Session/Calls.antt =====
-- The calls of a session with one argument, on all arguments.
use profi_lua.Base.{
  ℕ, suc, ◌<◌, ◌≡◌, ◌⊎◌, refl, none, some, List, [], ◌∷◌, ◌==◌, length, arith, inl, inr, false,
  Option-cases, Cmd, ok, raised, Ends, Returns-Ends, pos, negsuc,
}
use profi_lua.Lua.{Lua, Value, as_number, Number, int, nil}
use profi_lua.Lua.Stack.{Reply, one}
use profi_lua.Midi.State.{Midi, Winmm}
use profi_lua.Midi.Api.{
  close_midi_in_by, pl_open_midi_out, pl_open_midi_in, pl_close_midi_out, pl_close_midi_in,
  pl_count_devices, pl_get_midi_out_name, pl_get_midi_in_name, pl_get_event, get_event_by,
}
use profi_lua.Midi.Spec.{Spec, Refines}
use profi_lua.Midi.Spec.Frame.{Refines-le}
use profi_lua.Midi.Spec.OpenOut.{pl_open_midi_out-Refines}
use profi_lua.Midi.Spec.OpenIn.{pl_open_midi_in-Refines}
use profi_lua.Midi.Spec.CloseOut.{pl_close_midi_out-Refines}
use profi_lua.Midi.Spec.CloseIn.{pl_close_midi_in-Refines}
use profi_lua.Midi.Spec.Closing.{close_midi_in_by-interrupted}
use profi_lua.Midi.Queue.Interrupt.Unlinking.{Moment, removal_amid}
use profi_lua.Midi.Spec.GetEvent.{pl_get_event-Refines}
use profi_lua.Midi.Spec.Interrupted.{get_event_by-interrupted}
use profi_lua.Midi.Wire.{midi_receive}
use profi_lua.Midi.Queue.Interrupt.{interrupted}

abbrev pub Promised : {D : Type 0} → ℕ → Midi D → Type 0
Promised n s = (σ : Spec) × Refines n s σ

unary-cases : (args : List Value) → ((v : Value) × (args ≡ v ∷ [])) ⊎ ((length args == 1) ≡ false)
unary-cases [] = inr refl
unary-cases (v ∷ []) = inl (v, refl)
unary-cases (v ∷ w ∷ args) = inr (ground arith)

module _ {D : Type 0} (lua : Lua) (f : List Value → Cmd (Midi D) Reply) (s : Midi D)
    (Q : Midi D → Type 0) (at_start : Q s) (refusal : Reply)
    (wrong : (args : List Value) → (length args == 1) ≡ false → f args s ≡ ok refusal s)
    (bad : (v : Value) → as_number lua v ≡ none → f (v ∷ []) s ≡ raised s)
    (good : (v : Value) (x : Number) → as_number lua v ≡ some x → Ends Q (f (v ∷ []) s)) where
  -- A function of one number ends well, if it ends well at a number and does nothing otherwise.
  unary-Ends : (args : List Value) → Ends Q (f args s)
  unary-Ends args = elim (unary-cases args) [
    | inl (v, e) ↦ rw e (elim (Option-cases (as_number lua v)) [
      | inl z ↦ rw (bad v z) at_start
      | inr (x, e') ↦ good v x e'
    ])
    | inr ne ↦ rw (wrong args ne) at_start
  ]

module _ {D : Type 0} {n : ℕ} {s : Midi D} {σ : Spec} (lua : Lua) (w : Winmm D) (k : ℕ)
    (r : Refines n s σ) (fuel : n < k) where
  abbrev pub Good : Midi D → Type 0
  Good = Promised (suc n)

  pub same : Good s
  same = (σ, Refines-le (suc n) (omega arith) r)

  pub pl_open_midi_out-Ends :
      (fresh : ℕ)
      → s.outs.heap fresh ≡ none
      → (args : List Value) → Ends Good (pl_open_midi_out lua w k fresh args s)
  unfolding pl_open_midi_out
  pl_open_midi_out-Ends fresh unused =
      unary-Ends lua (pl_open_midi_out lua w k fresh) s Good same (one (int (negsuc 0)))
        (λ args e. rw e) (λ v e. rw e)
        λ v x e.
          Returns-Ends Good (pl_open_midi_out-Refines lua w k fresh v x r fuel e unused)
            λ _ t q. (_, q.1)

  pub pl_open_midi_in-Ends :
      (fresh : ℕ)
      → s.ins.heap fresh ≡ none
      → (args : List Value) → Ends Good (pl_open_midi_in lua w k fresh args s)
  unfolding pl_open_midi_in
  pl_open_midi_in-Ends fresh unused =
      unary-Ends lua (pl_open_midi_in lua w k fresh) s Good same (one (int (negsuc 0)))
        (λ args e. rw e) (λ v e. rw e)
        λ v x e.
          Returns-Ends Good (pl_open_midi_in-Refines lua w k fresh v x r fuel e unused)
            λ _ t q. (_, q.1)

  pub pl_close_midi_out-Ends : (args : List Value) → Ends Good (pl_close_midi_out lua w k args s)
  unfolding pl_close_midi_out
  pl_close_midi_out-Ends =
      unary-Ends lua (pl_close_midi_out lua w k) s Good same (one (int (negsuc 0))) (λ args e. rw e)
        (λ v e. rw e)
        λ v x e.
          Returns-Ends Good (pl_close_midi_out-Refines lua w k v x r fuel e)
            λ _ t q. (_, Refines-le (suc n) (omega arith) q.1)

  pub pl_close_midi_in-Ends : (args : List Value) → Ends Good (pl_close_midi_in lua w k args s)
  unfolding pl_close_midi_in
  pl_close_midi_in-Ends =
      unary-Ends lua (pl_close_midi_in lua w k) s Good same (one (int (negsuc 0))) (λ args e. rw e)
        (λ v e. rw e)
        λ v x e.
          Returns-Ends Good (pl_close_midi_in-Refines lua w k v x r fuel e)
            λ _ t q. (_, Refines-le (suc n) (omega arith) q.1)

  pub pl_get_event-Ends : (args : List Value) → Ends Good (pl_get_event lua w k args s)
  unfolding pl_get_event
  pl_get_event-Ends =
      unary-Ends lua (pl_get_event lua w k) s Good same (one nil) (λ args e. rw e) (λ v e. rw e)
        λ v x e.
          Returns-Ends Good (pl_get_event-Refines lua w k v x r fuel e)
            λ _ t q. (_, Refines-le (suc n) (omega arith) q.1)

  pub get_event_amid-Ends :
      (rounds fresh num msgpar : ℕ)
      → s.events fresh ≡ none
      → (args : List Value)
      → Ends Good
          (get_event_by lua w k (interrupted (midi_receive k fresh num msgpar) rounds k) args s)
  get_event_amid-Ends rounds fresh num msgpar unused =
      unary-Ends lua (get_event_by lua w k (interrupted (midi_receive k fresh num msgpar) rounds k))
        s Good same (one nil) (λ args e. rw e) (λ v e. rw e)
        λ v x e.
          Returns-Ends Good
            (get_event_by-interrupted lua w rounds k fresh num msgpar v x r fuel unused e)
            λ _ t q. (_, q.1)

  pub close_in_amid-Ends :
      (moment : Moment) (fresh num msgpar : ℕ)
      → s.events fresh ≡ none
      → (args : List Value)
      → Ends Good (
          close_midi_in_by lua w k
            (removal_amid (midi_receive k fresh num msgpar) moment (suc k))
            args
            s)
  close_in_amid-Ends moment fresh num msgpar unused =
      unary-Ends lua
        (close_midi_in_by lua w k (removal_amid (midi_receive k fresh num msgpar) moment (suc k))) s
        Good same (one (int (negsuc 0))) (λ args e. rw e) (λ v e. rw e)
        λ v x e.
          Returns-Ends Good
            (close_midi_in_by-interrupted lua w k fresh num msgpar v x r fuel unused e moment)
            λ _ t q. (_, q.1)

  pub pl_count_devices-Ends : (args : List Value) → Ends Good (pl_count_devices lua w args s)
  unfolding pl_count_devices
  pl_count_devices-Ends =
      unary-Ends lua (pl_count_devices lua w) s Good same (one (int (pos 0))) (λ args e. rw e)
        (λ v e. rw e) λ v x e. rw e same

  pub pl_get_midi_out_name-Ends :
      (args : List Value) → Ends Good (pl_get_midi_out_name lua w args s)
  unfolding pl_get_midi_out_name
  pl_get_midi_out_name-Ends =
      unary-Ends lua (pl_get_midi_out_name lua w) s Good same (one nil) (λ args e. rw e)
        (λ v e. rw e) λ v x e. rw e same

  pub pl_get_midi_in_name-Ends : (args : List Value) → Ends Good (pl_get_midi_in_name lua w args s)
  unfolding pl_get_midi_in_name
  pl_get_midi_in_name-Ends =
      unary-Ends lua (pl_get_midi_in_name lua w) s Good same (one nil) (λ args e. rw e)
        (λ v e. rw e) λ v x e. rw e same
