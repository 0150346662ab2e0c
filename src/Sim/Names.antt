-- ===== src/Sim/Names.antt =====
-- The names of the pins, for a script that gives a name to each.
pub mod Inputs
pub mod Outputs
use profi_lua.Base.{
  ℕ, zero, suc, ◌+◌, ◌≤◌, ◌<◌, ◌≡◌, ◌∙◌, ap, fun_ext, Bool, true, false, ◌&&◌, none, some, List,
  ltb, leb, length, ◌==◌, if◌then◌else◌, arith, Cmd, ok, Bool-cases, inl, inr, pos,
}
use profi_lua.Lua.{Lua, Value, int}
use profi_lua.Lua.Stack.{value}
use profi_lua.Sim.State.{Name, Script, Sim}
use profi_lua.Sim.Vm.{string_of}
use profi_lua.Sim.Script.{
  c_string, is_marked, change, open_lua_script, close_lua_script, script_name, get_input_name,
  get_output_name, console_name, error_pin_name,
}
use profi_lua.Sim.Calculate.{each_name}

-- The pins from 1 to `count - 1` whose name starts with '$'.
abbrev pub marks : (text : ℕ → List ℕ) (count : ℕ) → ℕ → Bool
marks text count m = leb 1 m && ltb m count && is_marked (c_string (text m))

-- One more pin has its mark.
pub marks-suc :
    (text : ℕ → List ℕ) (j m : ℕ)
    → 1 ≤ j
    → (if is_marked (c_string (text j)) then change (marks text j) j true else marks text j) m
      ≡ marks text (suc j) m
marks-suc text j m from = elim (Bool-cases (m == j)) [
  | inl e ↦
      let same : m ≡ j = ground arith in
      rw same (elim (Bool-cases (is_marked (c_string (text j)))) [
        | inl t ↦ rw t (ground arith)
        | inr f ↦ rw f (ground arith)
      ])
  | inr ne ↦ elim (Bool-cases (is_marked (c_string (text j)))) [
    | inl t ↦ rw t (ground arith)
    | inr f ↦ rw f (ground arith)
  ]
]

pub marks-zero : (text : ℕ → List ℕ) (m : ℕ) → false ≡ marks text 0 m
marks-zero text m = ground arith

pub marks-one : (text : ℕ → List ℕ) (m : ℕ) → marks text 0 m ≡ marks text 1 m
marks-one text m = ground arith

module _ {W : Type 0} where
  -- In a Lua state that is opened after `idle` and has run its file, the script's function `name`
  -- gives the pins from 1 to `count - 1` the names `text`, that fit into a buffer of 100 bytes. What
  -- is left when this state is closed has `I`.
  pub record NamesAfter (lua : Lua) (script : Script W) (I : W → Type 0) (name : Name)
      (file count : ℕ) (text : ℕ → List ℕ) (idle : W) : Type 0 where
    pub world : W
    pub memory : script.open_lua idle ≡ some world
    pub function : ℕ
    pub defined : script.global name (script.run_file file world).1 ≡ Value.function function
    pub names :
        (i : ℕ)
        → 1 ≤ i
        → i < count
        → (v : Value) × (w : W) × (script.call function
              (value (int (pos i)))
              (script.run_file file world).1
            ≡ some (v, w))
          × (string_of lua (value v) ≡ some (text i))
          × (length (c_string (text i)) < 100)
          × I (script.close_lua w)

  -- It does so after anything with `I` that a closed script has left.
  abbrev pub Names :
      Lua → Script W → (I : W → Type 0) → Name → (file count : ℕ) → (text : ℕ → List ℕ) → Type 0
  Names lua script I name file count text =
      (idle : W) → I idle → NamesAfter lua script I name file count text idle

  pub each_name-states :
      (I : W → Type 0) (name : ℕ → Cmd (Sim W) (List ℕ)) (state : ℕ → W → Sim W) (count i : ℕ)
      (u : W)
      → I u
      → ((j : ℕ) (v : W)
          → i ≤ j
          → j < i + count
          → I v
          → (a : List ℕ) × (w : W) × (name j (state j v) ≡ ok a (state (suc j) w)) × I w)
      → (w : W) × (each_name name count i (state i u) ≡ ok tt (state (i + count) w)) × I w
  unfolding each_name
  each_name-states I name state zero i u left named =
      (u, ap (λ j. ok tt (state j u)) (omega arith), left)
  each_name-states I name state (suc count) i u left named =
      let (a, v, e, left') = named i u (omega arith) (omega arith) left in
      let (w, e', left'') =
        each_name-states I name state count (suc i) v left'
          (λ j v from to. named j v (omega arith) (omega arith)) in
      (w, rw e (e' ∙ ap (λ j. ok tt (state j w)) (omega arith)), left'')
