-- ===== src/Libraries/Fields.antt =====
-- The functions that a script finds in the libraries, and the values of the globals.
use profi_lua.Base.{
  arith, ◌≡◌, ◌∙◌, refl, ap, Bool, true, false, not, ◌&&◌, List, [], ◌∷◌, if◌then◌else◌, pos,
  Bool-cases, inl, inr,
}
use profi_lua.Lua.{Value, int}
use profi_lua.Libraries.{Registry, Function, entry}
use profi_lua.Libraries.Open.{
  midi_funcs, serial_funcs, bit_funcs, profilua, open_libs, luaopen_profilua, luaopen_profibit,
  luaopen_profimidi, luaopen_profiserial, logic_high, logic_low, logic_high_thres, version, midi_in,
  midi_out,
}
use profi_lua.Midi.Wire.{note_on, note_off, ctrl, pitch}
use Prim.Native.String.{String}
use text.Mathlib.Text.{◌==◌}

-- The globals that a library sets, in order.
abbrev pub Constants : Type 0
Constants = List (String × Value)

abbrev pub profilua_constants : Constants
profilua_constants =
    ("PROFILUAVERSION", Value.string version)
    ∷ ("gHIGH", Value.number logic_high)
    ∷ ("gLOW", Value.number logic_low)
    ∷ ("gISHIGH", Value.number logic_high_thres)
    ∷ []

abbrev pub midi_constants : Constants
midi_constants =
    ("MIDIIN", int (pos midi_in))
    ∷ ("MIDIOUT", int (pos midi_out))
    ∷ ("NOTEOFF", int (pos note_off))
    ∷ ("NOTEON", int (pos note_on))
    ∷ ("CTRL", int (pos ctrl))
    ∷ ("PITCH", int (pos pitch))
    ∷ []

abbrev pub serial_constants : Constants
serial_constants =
    ("PARITY_NONE", int (pos 0)) ∷ ("PARITY_ODD", int (pos 1)) ∷ ("PARITY_EVEN", int (pos 2)) ∷ []

-- No constant has the name.
abbrev spares : String → Constants → Bool
spares m [] = true
spares m ((n, v) ∷ cs) = not (n == m) && spares m cs

abbrev pub constant : String → Constants → Value → Value
constant m [] old = old
constant m ((n, v) ∷ cs) old = constant m cs (if n == m then v else old)

module _ {G : Type 0} (r : Registry G Function) where
  abbrev set_all : Constants → G → G
  set_all [] g = g
  set_all ((n, v) ∷ cs) g = set_all cs (r.set_global n v g)

  -- What each opener does.
  abbrev opened : String → List (String × Function) → Constants → G → G
  opened lib fs cs g = set_all cs (r.register lib fs g)

  field-set_all :
      (m key : String) (cs : Constants) (g : G)
      → spares m cs ≡ true
      → r.field m key (set_all cs g) ≡ r.field m key g
  field-set_all m key [] g s = refl
  field-set_all m key ((n, v) ∷ cs) g s = elim (Bool-cases (n == m)) [
    | inl t ↦ let bad : false ≡ true = rw t at s in absurd (ground arith)
    | inr f ↦
        field-set_all m key cs (r.set_global n v g) (rw f at s) ∙ r.field-set_global n m key v g f
  ]

  global-set_all :
      (m : String) (cs : Constants) (g : G)
      → r.global m (set_all cs g) ≡ constant m cs (r.global m g)
  global-set_all m [] g = refl
  global-set_all m ((n, v) ∷ cs) g =
      global-set_all m cs (r.set_global n v g) ∙ ap (constant m cs) (r.global-set_global n m v g)

  pub global-opened :
      (m lib : String) (fs : List (String × Function)) (cs : Constants) (g : G)
      → (lib == m) ≡ false
      → r.global m (opened lib fs cs g) ≡ constant m cs (r.global m g)
  global-opened m lib fs cs g other =
      global-set_all m cs (r.register lib fs g)
      ∙ ap (constant m cs) (r.global-register lib m fs g other)

  field-opened :
      (m key lib : String) (fs : List (String × Function)) (cs : Constants) (g : G)
      → spares m cs ≡ true
      → r.field m key (opened lib fs cs g)
        ≡ (if lib == m then entry key fs (r.field m key g) else r.field m key g)
  field-opened m key lib fs cs g s =
      field-set_all m key cs (r.register lib fs g) s ∙ r.field-register lib m key fs g

  module _ (standard : G → G) (g : G) (key : String) where
    -- After `luaL_openlibs`, in every Lua state, each of the four libraries has its own functions at
    -- the keys of its table, and none of another: what is at any other key is as before. The last
    -- entry of a table for a key counts. The libraries of Lua are opened first.
    pub open_libs-entry :
        (r.field "promidi" key (open_libs r standard g)
          ≡ entry key midi_funcs (r.field "promidi" key (standard g)))
        × (r.field "proserial" key (open_libs r standard g)
            ≡ entry key serial_funcs (r.field "proserial" key (standard g)))
        × (r.field "probit" key (open_libs r standard g)
            ≡ entry key bit_funcs (r.field "probit" key (standard g)))
        × (r.field "prolua" key (open_libs r standard g)
            ≡ entry key profilua (r.field "prolua" key (standard g)))
    unfolding open_libs luaopen_profilua luaopen_profibit luaopen_profimidi luaopen_profiserial
    open_libs-entry =
        let g₁ = opened "prolua" profilua profilua_constants (standard g) in
        let g₂ = opened "probit" bit_funcs [] g₁ in
        let g₃ = opened "promidi" midi_funcs midi_constants g₂ in
        let lua_at = λ (m : String) (s : spares m profilua_constants ≡ true).
          field-opened m key "prolua" profilua profilua_constants (standard g) s in
        let bit_at = λ (m : String). field-opened m key "probit" bit_funcs [] g₁ refl in
        let midi_at = λ (m : String) (s : spares m midi_constants ≡ true).
          field-opened m key "promidi" midi_funcs midi_constants g₂ s in
        let serial_at = λ (m : String) (s : spares m serial_constants ≡ true).
          field-opened m key "proserial" serial_funcs serial_constants g₃ s in
        (
          serial_at "promidi" refl
              ∙ midi_at "promidi" refl
              ∙ ap (entry key midi_funcs) (bit_at "promidi" ∙ lua_at "promidi" refl),
          serial_at "proserial" refl
              ∙ ap (entry key serial_funcs)
                  (midi_at "proserial" refl ∙ bit_at "proserial" ∙ lua_at "proserial" refl),
          serial_at "probit" refl
              ∙ midi_at "probit" refl
              ∙ bit_at "probit"
              ∙ ap (entry key bit_funcs) (lua_at "probit" refl),
          serial_at "prolua" refl ∙ midi_at "prolua" refl ∙ bit_at "prolua" ∙ lua_at "prolua" refl,
        )

  -- The value of a global that has not the name of a library.
  pub open_libs-constant :
      (standard : G → G) (g : G) (m : String)
      → ("prolua" == m) ≡ false
      → ("probit" == m) ≡ false
      → ("promidi" == m) ≡ false
      → ("proserial" == m) ≡ false
      → r.global m (open_libs r standard g)
        ≡ constant m serial_constants
            (constant m midi_constants (constant m profilua_constants (r.global m (standard g))))
  unfolding open_libs luaopen_profilua luaopen_profibit luaopen_profimidi luaopen_profiserial
  open_libs-constant standard g m lua bit midi serial =
      let g₁ = opened "prolua" profilua profilua_constants (standard g) in
      let g₂ = opened "probit" bit_funcs [] g₁ in
      let g₃ = opened "promidi" midi_funcs midi_constants g₂ in
      global-opened m "proserial" serial_funcs serial_constants g₃ serial
      ∙ ap (constant m serial_constants) (
          global-opened m "promidi" midi_funcs midi_constants g₂ midi
          ∙ ap (constant m midi_constants) (
              global-opened m "probit" bit_funcs [] g₁ bit
              ∙ global-opened m "prolua" profilua profilua_constants (standard g) lua))
