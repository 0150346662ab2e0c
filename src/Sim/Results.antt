-- ===== src/Sim/Results.antt =====
-- The loop that reads the results of a script back, when every output has a value of its kind.
use profi_lua.Base.{
  ℕ, zero, suc, ◌+◌, ◌≤◌, ◌<◌, ◌≡◌, refl, ap, ◌∙◌, fun_ext, Bool, true, false, not, ◌&&◌, Option,
  none, some, List, ◌∷◌, ltb, leb, ◌==◌, if◌then◌else◌, arith, ok, Bool-cases, inl, inr, Run,
}
use profi_lua.Lua.{Lua, Value, Number}
use profi_lua.Lua.Stack.{Pushed, value}
use profi_lua.Sim.State.{Script, Vm, Sim}
use profi_lua.Sim.Vm.{number_of, string_of}
use profi_lua.Sim.Script.{c_string, change}
use profi_lua.Sim.Outputs.{read_outputs}

-- The index is one of the `count` from `i` on.
abbrev pub within : (i count m : ℕ) → Bool
within i count m = leb i m && ltb m (i + count)

abbrev pub or_old : {A B : Type 0} → (B → A) → A → Option B → A
or_old h old none = old
or_old h old (some x) = h x

module _ {A B : Type 0} (h : B → A) (chosen : ℕ → Bool) (r : ℕ → Option B) where
  -- The chosen elements of an array, of the `count` from `i` on, get new values where there are any.
  abbrev pub updated : (i count : ℕ) → (ℕ → A) → ℕ → A
  updated i count old m = if within i count m && chosen m then or_old h (old m) (r m) else old m

  pub updated-zero : (i : ℕ) (old : ℕ → A) (m : ℕ) → old m ≡ updated i 0 old m
  updated-zero i old m = ground arith

  pub updated-hit :
      (i count : ℕ) (old : ℕ → A) (x : B) (m : ℕ)
      → chosen i ≡ true
      → r i ≡ some x
      → updated (suc i) count (change old i (h x)) m ≡ updated i (suc count) old m
  updated-hit i count old x m c e = elim (Bool-cases (m == i)) [
    | inl t ↦ let same : m ≡ i = ground arith in rw (t, same, c, e) (ground arith)
    | inr f ↦ rw f (ground arith)
  ]

  pub updated-miss :
      (i count : ℕ) (old : ℕ → A) (m : ℕ)
      → chosen i ≡ false
      → updated (suc i) count old m ≡ updated i (suc count) old m
  updated-miss i count old m c = elim (Bool-cases (m == i)) [
    | inl t ↦ let same : m ≡ i = ground arith in rw (same, c) (ground arith)
    | inr f ↦ ground arith
  ]

module _ {W : Type 0} (lua : Lua) (script : Script W) (t : ℕ) (w : W) where
  abbrev pub result : ℕ → Pushed
  result m = value (script.entry t m w)

  -- An output marked by '$' gets a string, and any other a number.
  abbrev pub Fits : (marked : Bool) → ℕ → Type 0
  Fits true m = (str : List ℕ) × (string_of lua (result m) ≡ some str)
  Fits false m = (n : Number) × (number_of lua (result m) ≡ some n)

  -- The outputs from `i` on get the entries of the table, each by its kind.
  abbrev pub new_outputs : (i count : ℕ) → Sim W → ℕ → Number
  new_outputs i count s =
      updated (λ n. n) (λ m. not (s.out_marker m)) (λ m. number_of lua (result m)) i count s.output

  abbrev pub new_strings : (i count : ℕ) → Sim W → ℕ → List ℕ
  new_strings i count s =
      updated c_string s.out_marker (λ m. string_of lua (result m)) i count s.strings

  -- The outputs from `i` on get the entries of the table, each by its kind.
  abbrev pub read_back : (i count : ℕ) → Sim W → Sim W
  read_back i count s = record s { output = new_outputs i count s; strings = new_strings i count s }

  abbrev pub vm : List Pushed → Option (Vm W)
  vm rest = some (record { stack = value (Value.table t) ∷ rest; world = w })

  pub same_state :
      (s : Sim W) (l l' : Option (Vm W)) {o o' : ℕ → Number} {z z' : ℕ → List ℕ}
      → l ≡ l'
      → ((m : ℕ) → o m ≡ o' m)
      → ((m : ℕ) → z m ≡ z' m)
      → Path
          (Run (Sim W) (Unit {0}))
          (ok tt (record s { lua = l; output = o; strings = z }))
          (ok tt (record s { lua = l'; output = o'; strings = z' }))
  same_state s l l' el eo ez = rw (el, fun_ext eo, fun_ext ez)

  -- The table's entries from `i` on are read into the outputs, and the stack is as before.
  pub read_outputs-read_back :
      (count i : ℕ) (s : Sim W) (rest : List Pushed)
      → s.lua ≡ vm rest
      → i + count ≤ 100
      → ((m : ℕ) → i ≤ m → m < i + count → Fits (s.out_marker m) m)
      → read_outputs lua script count i s ≡ ok tt (read_back i count s)
  unfolding read_outputs
  read_outputs-read_back zero i s rest is_open bound fits =
      same_state s s.lua s.lua refl
        (updated-zero (λ n. n) (λ m. not (s.out_marker m)) (λ m. number_of lua (result m)) i
          s.output)
        (updated-zero c_string s.out_marker (λ m. string_of lua (result m)) i s.strings)
  read_outputs-read_back (suc count) i s rest is_open bound fits =
      let lt : ltb i 100 ≡ true = ground arith in
      let later : (m : ℕ) → suc i ≤ m → m < suc i + count → Fits (s.out_marker m) m =
        λ m from to. fits m (omega arith) (omega arith) in
      elim (Bool-cases (s.out_marker i)) [
        | inl is ↦
            let (str, f) : Fits true i = rw is at (fits i (omega arith) (omega arith)) in
            rw (is_open, lt, is, f)
              (read_outputs-read_back count (suc i)
                  (record s { lua = vm rest; strings = change s.strings i (c_string str) }) rest
                  refl (omega arith) later
                ∙ same_state s (vm rest) (vm rest) refl
                    (λ m.
                      updated-miss (λ n. n) (λ m. not (s.out_marker m))
                        (λ m. number_of lua (result m)) i count s.output m (ap not is))
                    (λ m.
                      updated-hit c_string s.out_marker (λ m. string_of lua (result m)) i count
                        s.strings str m is f))
        | inr is_not ↦
            let (n, f) : Fits false i = rw is_not at (fits i (omega arith) (omega arith)) in
            rw (is_open, lt, is_not, f)
              (read_outputs-read_back count (suc i)
                  (record s { lua = vm rest; output = change s.output i n }) rest refl (omega arith)
                  later
                ∙ same_state s (vm rest) (vm rest) refl
                    (λ m.
                      updated-hit (λ n. n) (λ m. not (s.out_marker m))
                        (λ m. number_of lua (result m)) i count s.output n m (ap not is_not) f)
                    (λ m.
                      updated-miss c_string s.out_marker (λ m. string_of lua (result m)) i count
                        s.strings m is_not))
      ]
