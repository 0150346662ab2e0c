-- ===== src/Libraries/Constants.antt =====
-- The globals against what the functions, and the simulation host, take them for.
use profi_lua.Base.{
  ℕ, ◌*◌, ◌^◌, ◌≡◌, ◌∙◌, refl, sym, ap, ◌↔◌, ◌⊎◌, inl, inr, Bool, true, false, [], ◌∷◌, ltb, arith,
  ok, ℤ, pos, pos_part, neg_part, negsuc, ◌+◌,
}
use profi_lua.Lua.{Lua, Value, Number, int, integer, above_halves}
use profi_lua.Lua.Stack.{one}
use profi_lua.Midi.State.{Midi, Winmm}
use profi_lua.Midi.Api.{pl_count_devices}
use profi_lua.Midi.Wire.{is_kept, note_on, note_off, ctrl, pitch}
use profi_lua.Sim.Calculate.{wants_console}
use profi_lua.Libraries.{Registry, Function}
use profi_lua.Libraries.Open.{open_libs, logic_high, logic_low, logic_high_thres, midi_in, midi_out}
use profi_lua.Libraries.Fields.{open_libs-constant}

int_inj : (a c : ℕ) → int (pos a) ≡ int (pos c) → a ≡ c
int_inj a c e = ground arith

is_kept-cases :
    (c : ℕ) → is_kept c ≡ true → (note_on ≡ c) ⊎ ((note_off ≡ c) ⊎ ((ctrl ≡ c) ⊎ (pitch ≡ c)))
unfolding is_kept
is_kept-cases c kept = ground arith

-- `a > b` for numbers.
abbrev pub greater : Number → Number → Bool
greater a b =
    ltb (pos_part b.mantissa * 2 ^ a.scale + neg_part a.mantissa * 2 ^ b.scale)
      (pos_part a.mantissa * 2 ^ b.scale + neg_part b.mantissa * 2 ^ a.scale)

number_inj : (a b : Number) → Value.number a ≡ Value.number b → a ≡ b
number_inj a b e = ap number_or e
  where
    number_or : Value → Number
    number_or (Value.number n) = n
    number_or _ = a

above-greater :
    (z : ℤ) (k : ℕ)
    → above_halves 5 (record { mantissa = z; scale = k })
      ≡ greater (record { mantissa = z; scale = k }) logic_high_thres
above-greater (pos n) k = let x = 2 ^ k in ground arith
above-greater (negsuc n) k = let x = 2 ^ k in ground arith

module _ {G : Type 0} (r : Registry G Function) (standard : G → G) (g : G) where
  midi_in-global : r.global "MIDIIN" (open_libs r standard g) ≡ int (pos midi_in)
  midi_in-global = open_libs-constant r standard g "MIDIIN" refl refl refl refl

  midi_out-global : r.global "MIDIOUT" (open_libs r standard g) ≡ int (pos midi_out)
  midi_out-global = open_libs-constant r standard g "MIDIOUT" refl refl refl refl

  pl_count_devices-global :
      {D : Type 0} (lua : Lua) (w : Winmm D) (s : Midi D)
      → ((z : ℤ) → lua.number_to_integer (integer z) ≡ z)
      → (pl_count_devices lua w (r.global "MIDIIN" (open_libs r standard g) ∷ []) s
          ≡ ok (one (int (pos (w.in_num_devs s.driver)))) s)
        × (pl_count_devices lua w (r.global "MIDIOUT" (open_libs r standard g) ∷ []) s
            ≡ ok (one (int (pos (w.out_num_devs s.driver)))) s)
  unfolding pl_count_devices
  pl_count_devices-global lua w s exact =
      (rw (midi_in-global, exact (pos 0)), rw (midi_out-global, exact (pos 1)))

  -- The status byte `c` is the value of one of the globals for events.
  abbrev pub IsNamed : ℕ → Type 0
  IsNamed c =
      (r.global "NOTEON" (open_libs r standard g) ≡ int (pos c))
      ⊎ ((r.global "NOTEOFF" (open_libs r standard g) ≡ int (pos c))
          ⊎ ((r.global "CTRL" (open_libs r standard g) ≡ int (pos c))
              ⊎ (r.global "PITCH" (open_libs r standard g) ≡ int (pos c))))

  is_kept-IsNamed : (c : ℕ) → (is_kept c ≡ true) ↔ IsNamed c
  unfolding is_kept
  is_kept-IsNamed c =
      rw
        (
          open_libs-constant r standard g "NOTEON" refl refl refl refl,
          open_libs-constant r standard g "NOTEOFF" refl refl refl refl,
          open_libs-constant r standard g "CTRL" refl refl refl refl,
          open_libs-constant r standard g "PITCH" refl refl refl refl,
        )
        (
          (λ kept. elim (is_kept-cases c kept) [
            | inl e ↦ inl (ap (λ n. int (pos n)) e)
            | inr (inl e) ↦ inr (inl (ap (λ n. int (pos n)) e))
            | inr (inr (inl e)) ↦ inr (inr (inl (ap (λ n. int (pos n)) e)))
            | inr (inr (inr e)) ↦ inr (inr (inr (ap (λ n. int (pos n)) e)))
          ]),
          (λ named. elim named [
            | inl e ↦ let same = int_inj note_on c e in ground arith
            | inr (inl e) ↦ let same = int_inj note_off c e in ground arith
            | inr (inr (inl e)) ↦ let same = int_inj ctrl c e in ground arith
            | inr (inr (inr e)) ↦ let same = int_inj pitch c e in ground arith
          ]),
        )

  -- With the globals as `luaL_openlibs` sets them, `promidi.CountDevices(MIDIIN)` counts the
  -- driver's inputs, `CountDevices(MIDIOUT)` its outputs, and the callback keeps a message exactly
  -- when its status byte is the value of `NOTEON`, `NOTEOFF`, `CTRL` or `PITCH`. Lua's conversion
  -- of a whole number to an integer is exact.
  pub midi_globals_agree :
      {D : Type 0} (lua : Lua) (w : Winmm D) (s : Midi D)
      → ((z : ℤ) → lua.number_to_integer (integer z) ≡ z)
      → ((c : ℕ) → (is_kept c ≡ true) ↔ IsNamed c)
        × (pl_count_devices lua w (r.global "MIDIIN" (open_libs r standard g) ∷ []) s
            ≡ ok (one (int (pos (w.in_num_devs s.driver)))) s)
        × (pl_count_devices lua w (r.global "MIDIOUT" (open_libs r standard g) ∷ []) s
            ≡ ok (one (int (pos (w.out_num_devs s.driver)))) s)
  midi_globals_agree lua w s exact =
      let (ins, outs) = pl_count_devices-global lua w s exact in (is_kept-IsNamed, ins, outs)

  -- The host's test of the console input is whether it is above the value of the global `gISHIGH`
  -- that `luaL_openlibs` sets: not at this value itself, though profilua.h has it included. The
  -- value of `gHIGH` passes the test, and that of `gLOW` does not.
  pub wants_console-global :
      (t high low : Number)
      → r.global "gISHIGH" (open_libs r standard g) ≡ Value.number t
      → r.global "gHIGH" (open_libs r standard g) ≡ Value.number high
      → r.global "gLOW" (open_libs r standard g) ≡ Value.number low
      → ((input : ℕ → Number) → wants_console input ≡ greater (input 0) t)
        × (wants_console (λ _. t) ≡ false)
        × (wants_console (λ _. high) ≡ true)
        × (wants_console (λ _. low) ≡ false)
  wants_console-global t high low is_t is_high is_low =
      let t_is : logic_high_thres ≡ t =
        number_inj logic_high_thres t
          (sym (open_libs-constant r standard g "gISHIGH" refl refl refl refl) ∙ is_t) in
      let high_is : logic_high ≡ high =
        number_inj logic_high high
          (sym (open_libs-constant r standard g "gHIGH" refl refl refl refl) ∙ is_high) in
      let low_is : logic_low ≡ low =
        number_inj logic_low low
          (sym (open_libs-constant r standard g "gLOW" refl refl refl refl) ∙ is_low) in
      rw (← t_is, ← high_is, ← low_is)
        ((λ input. above-greater (input 0).mantissa (input 0).scale), refl, refl, refl)
