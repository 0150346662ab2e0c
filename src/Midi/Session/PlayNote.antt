-- ===== src/Midi/Session/PlayNote.antt =====
-- `plPlayNote` in a session, on all arguments.
use profi_lua.Base.{
  ℕ, suc, ◌<◌, ◌≡◌, ◌⊎◌, refl, some, List, [], ◌∷◌, ◌==◌, length, arith, Bool-cases, inl, inr,
  false, Option-cases, Ends, pos, ◌∙◌, ap, u32_of, ◌||◌, ltb_ℤ,
}
use profi_lua.Heap.{Ptr, null}
use profi_lua.Heap.Cells.{Points-lookup}
use profi_lua.Heap.Keyed.{entry, entry-IsEntry, find-entry, address}
use profi_lua.Midi.Chain.Find.{get_entry-find}
use profi_lua.Midi.Devices.{get_midi_out_entry, out_number}
use profi_lua.Lua.{Lua, Value, as_number, Number}
use profi_lua.Midi.State.{Midi, Winmm, OutDev}
use profi_lua.Midi.Api.{pl_play_note}
use profi_lua.Midi.Spec.{Spec, Refines, out_num}
use profi_lua.Midi.Spec.Frame.{Refines-le, Refines-driver}
use profi_lua.Midi.Spec.PlayNote.{sent}
use profi_lua.Midi.Session.Calls.{Promised, same}

five-cases :
    (args : List Value)
    → ((a b c d e : Value) × (args ≡ a ∷ b ∷ c ∷ d ∷ e ∷ [])) ⊎ ((length args == 5) ≡ false)
five-cases [] = inr refl
five-cases (a ∷ []) = inr refl
five-cases (a ∷ b ∷ []) = inr refl
five-cases (a ∷ b ∷ c ∷ []) = inr refl
five-cases (a ∷ b ∷ c ∷ d ∷ []) = inr refl
five-cases (a ∷ b ∷ c ∷ d ∷ e ∷ []) = inl (a, b, c, d, e, refl)
five-cases (a ∷ b ∷ c ∷ d ∷ e ∷ f ∷ args) = inr (ground arith)

module _ {D : Type 0} {n : ℕ} {s : Midi D} {σ : Spec} (lua : Lua) (w : Winmm D) (k : ℕ)
    (r : Refines n s σ) (fuel : n < k) where
  -- With the device found, an argument that is no number raises an error before anything is sent.
  module _ (a b c d e : Value) (xa : Number) (ea : as_number lua a ≡ some xa) (dev : Ptr)
      (o : OutDev)
      (known : entry out_num (u32_of (lua.number_to_integer xa)) r.view.outs ≡ some (dev, o)) where
    play_note_on : Ends (Promised (suc n)) (pl_play_note lua w k (a ∷ b ∷ c ∷ d ∷ e ∷ []) s)
    unfolding pl_play_note get_midi_out_entry
    play_note_on =
        let num = u32_of (lua.number_to_integer xa) in
        let is = entry-IsEntry out_num num dev o r.holds.outs known in
        let at = find-entry out_num num r.view.outs ∙ ap (address out_num) known in
        let ne : (dev == null) ≡ false = ground (arith, is.ne_null) in
        let (next, points) = Points-lookup dev r.holds.outs is.at in
        rw
          (
            ea,
            get_entry-find (out_number num) k s.outs r.holds.outs (omega (arith, r.outs_size)),
            at,
            ne,
          )
          (elim (Option-cases (as_number lua b)) [
            | inl z ↦ rw z (same lua w k r fuel)
            | inr (xb, eb) ↦
                rw eb
                  (elim (Bool-cases (
                    ltb_ℤ (lua.number_to_integer xb) (pos 1)
                    || ltb_ℤ (pos 16) (lua.number_to_integer xb))) [
                      | inl t ↦ rw t (same lua w k r fuel)
                      | inr f ↦ rw f (elim (Option-cases (as_number lua e)) [
                        | inl z ↦ rw z (same lua w k r fuel)
                        | inr (xe, ee) ↦ rw ee (elim (Option-cases (as_number lua c)) [
                          | inl z ↦ rw z (same lua w k r fuel)
                          | inr (xc, ec) ↦ rw ec (elim (Option-cases (as_number lua d)) [
                            | inl z ↦ rw z (same lua w k r fuel)
                            | inr (xd, ed) ↦
                                rw
                                  (
                                    ed,
                                    sent lua w k a b c d e xa xb xc xd xe r fuel ea eb ec ed ee dev
                                        next o points f,
                                  )
                                  (elim (Bool-cases (o.handle == 0)) [
                                    | inl z ↦ rw z (same lua w k r fuel)
                                    | inr nz ↦
                                        rw nz
                                          (σ, Refines-le (suc n) (omega arith) (Refines-driver _ r))
                                  ])
                          ])
                        ])
                      ])
                    ])
          ])

  pub pl_play_note-Ends :
      (args : List Value) → Ends (Promised (suc n)) (pl_play_note lua w k args s)
  unfolding pl_play_note get_midi_out_entry
  pl_play_note-Ends args = elim (five-cases args) [
    | inr ne ↦ rw ne (same lua w k r fuel)
    | inl (a, b, c, d, e, eq) ↦ rw eq (elim (Option-cases (as_number lua a)) [
      | inl z ↦ rw z (same lua w k r fuel)
      | inr (xa, ea) ↦
          elim (Option-cases (entry out_num (u32_of (lua.number_to_integer xa)) r.view.outs)) [
            | inl none_at ↦
                rw
                  (
                    ea,
                    get_entry-find (out_number (u32_of (lua.number_to_integer xa))) k s.outs
                        r.holds.outs (omega (arith, r.outs_size)),
                    find-entry out_num (u32_of (lua.number_to_integer xa)) r.view.outs
                        ∙ ap (address out_num) none_at,
                  )
                  (same lua w k r fuel)
            | inr ((dev, o), known) ↦ play_note_on a b c d e xa ea dev o known
          ]
    ])
  ]
