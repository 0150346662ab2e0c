-- ===== src/Bit/Range/Calls.antt =====
-- The numbers that the functions of `probit` return.
use profi_lua.Base.{
  ℕ, zero, suc, ◌^◌, ◌<◌, ◌≡◌, refl, List, ltb, ◌==◌, arith, length, bit_and, bit_or, bit_xor,
  ◌>>=◌, Cmd, Run, ok, raised, fault, out_of_fuel, and_then, pure, Bool-cases, Option-cases, inl,
  inr, ◌⊎◌, get_elem?, ◌-◌, ℤ, subst, sym,
}
use profi_lua.Lua.{Lua, Value, int}
use profi_lua.Lua.Stack.{Reply, one, arg_number}
use profi_lua.Bit.Word.{barg, signed, bnot, bshl, bshr, bsar, brol, bror, bswap}
use profi_lua.Bit.Api
use profi_lua.Bit.Api.{fold_args, bit_op, bit_sh, bit_rotate, bret}
use profi_lua.Bit.Sum.{low_word, low_word-lt}
use profi_lua.Bit.Rotate.{bit_and-le}
use profi_lua.Bit.Range.{
  InRange, signed-InRange, Keeps, Shifts, bit_and-Keeps, bit_or-Keeps, bit_xor-Keeps, bshl-Shifts,
  bshr-Shifts, bsar-Shifts, brol-Shifts, bror-Shifts, bswap-lt,
}

-- The functions that return a number.
pub data Operation : Type 0 where
  bit_tobit bit_bnot bit_band bit_bor bit_bxor bit_lshift bit_rshift bit_arshift : Operation
  bit_rol bit_ror bit_bswap : Operation

abbrev IsWord : ℕ → Type 0
IsWord b = b < 2 ^ 32

-- The reply is one integer of 32 bits.
abbrev pub IsInt : Reply → Type 0
IsInt r = (z : ℤ) × (r ≡ one (int z)) × InRange z

bret-IsInt : (b : ℕ) → IsWord b → IsInt (bret b)
bret-IsInt b word = (signed b, refl, signed-InRange b word)

module _ {S : Type 0} where
  -- A run that changes nothing: it returns what satisfies `Q`, or raises an error. Only with `F` may
  -- it be undefined.
  abbrev pub Yields : {A : Type 0} (F : Type 0) (Q : A → Type 0) → S → Run S A → Type 0
  Yields F Q s (ok a t) = Q a × (t ≡ s)
  Yields F Q s (raised t) = t ≡ s
  Yields F Q s fault = F
  Yields F Q s out_of_fuel = ⊥

  Yields-bind :
      {A B : Type 0} (F : Type 0) (P : A → Type 0) (Q : B → Type 0) (s : S) (r : Run S A)
      (k : A → Cmd S B)
      → Yields F P s r
      → ((a : A) → P a → Yields F Q s (k a s))
      → Yields F Q s (and_then r k)
  Yields-bind F P Q s (ok a t) k (p, same) next =
      subst (λ u. Yields F Q s (k a u)) (sym same) (next a p)
  Yields-bind F P Q s (raised t) k same next = same
  Yields-bind F P Q s fault k holds next = holds
  Yields-bind F P Q s out_of_fuel k never next = elim never [ ]

  module _ (lua : Lua) where
    unfoldable pub bit_call : Operation → List Value → Cmd S Reply
    bit_call Operation.bit_tobit = Api.bit_tobit lua
    bit_call Operation.bit_bnot = Api.bit_bnot lua
    bit_call Operation.bit_band = Api.bit_band lua
    bit_call Operation.bit_bor = Api.bit_bor lua
    bit_call Operation.bit_bxor = Api.bit_bxor lua
    bit_call Operation.bit_lshift = Api.bit_lshift lua
    bit_call Operation.bit_rshift = Api.bit_rshift lua
    bit_call Operation.bit_arshift = Api.bit_arshift lua
    bit_call Operation.bit_rol = Api.bit_rol lua
    bit_call Operation.bit_ror = Api.bit_ror lua
    bit_call Operation.bit_bswap = Api.bit_bswap lua

    -- A rotation whose count has its low five bits zero.
    abbrev pub Rotates : Operation → List Value → S → Type 0
    Rotates Operation.bit_rol args s = (n : ℕ) × (barg lua args 2 s ≡ ok n s) × (bit_and n 31 ≡ 0)
    Rotates Operation.bit_ror args s = (n : ℕ) × (barg lua args 2 s ≡ ok n s) × (bit_and n 31 ≡ 0)
    Rotates _ args s = ⊥

    barg-cases :
        (args : List Value) (idx : ℕ) (s : S)
        → (barg lua args idx s ≡ raised s) ⊎ ((n : ℕ) × (barg lua args idx s ≡ ok n s) × IsWord n)
    unfolding barg
    barg-cases args idx s = elim (Option-cases (arg_number lua (get_elem? args (idx - 1)))) [
      | inl e ↦ inl (rw e refl)
      | inr (n, e) ↦ inr (low_word n, rw e refl, low_word-lt n)
    ]

    barg-IsWord :
        (F : Type 0) (args : List Value) (idx : ℕ) (s : S) → Yields F IsWord s (barg lua args idx s)
    barg-IsWord F args idx s = elim (barg-cases args idx s) [
      | inl e ↦ rw e refl
      | inr (n, e, word) ↦ rw e (word, refl)
    ]

    -- A function of one word.
    on_word-IsInt :
        (F : Type 0) (fn : ℕ → ℕ) (keeps : (b : ℕ) → IsWord b → IsWord (fn b)) (args : List Value)
        (s : S)
        → Yields F IsInt s (and_then (barg lua args 1 s) (λ b. pure (bret (fn b))))
    on_word-IsInt F fn keeps args s =
        Yields-bind F IsWord IsInt s (barg lua args 1 s) (λ b. pure (bret (fn b)))
          (barg-IsWord F args 1 s) (λ b word. (bret-IsInt (fn b) (keeps b word), refl))

    fold_args-IsWord :
        (F : Type 0) (op : ℕ → ℕ → ℕ) (keeps : Keeps op) (args : List Value) (i b : ℕ) (s : S)
        → IsWord b
        → Yields F IsWord s (fold_args lua op args i b s)
    unfolding fold_args
    fold_args-IsWord F op keeps args zero b s word = (word, refl)
    fold_args-IsWord F op keeps args (suc i) b s word = elim (Bool-cases (ltb 0 i)) [
      | inl t ↦ rw t (
          Yields-bind F IsWord IsWord s (barg lua args (suc i) s)
            (λ c. fold_args lua op args i (op b c)) (barg-IsWord F args (suc i) s)
            (λ c word'. fold_args-IsWord F op keeps args i (op b c) s (keeps b c word word')))
      | inr f ↦ rw f (word, refl)
    ]

    bit_op-IsInt :
        (F : Type 0) (op : ℕ → ℕ → ℕ) (keeps : Keeps op) (args : List Value) (s : S)
        → Yields F IsInt s (bit_op lua op args s)
    unfolding bit_op
    bit_op-IsInt F op keeps args s =
        Yields-bind F IsWord IsInt s (barg lua args 1 s)
          (λ b. fold_args lua op args (length args) b >>= λ r. pure (bret r))
          (barg-IsWord F args 1 s)
          (λ b word.
            Yields-bind F IsWord IsInt s (fold_args lua op args (length args) b s)
              (λ r. pure (bret r)) (fold_args-IsWord F op keeps args (length args) b s word)
              (λ r word'. (bret-IsInt r word', refl)))

    bit_sh-IsInt :
        (F : Type 0) (fn : ℕ → ℕ → ℕ) (shifts : Shifts fn) (args : List Value) (s : S)
        → Yields F IsInt s (bit_sh lua fn args s)
    unfolding bit_sh
    bit_sh-IsInt F fn shifts args s =
        Yields-bind F IsWord IsInt s (barg lua args 1 s)
          (λ b. barg lua args 2 >>= λ n. pure (bret (fn b (bit_and n 31)))) (barg-IsWord F args 1 s)
          (λ b word.
            Yields-bind F IsWord IsInt s (barg lua args 2 s)
              (λ n. pure (bret (fn b (bit_and n 31)))) (barg-IsWord F args 2 s)
              (λ n _. (
                bret-IsInt (fn b (bit_and n 31))
                    (shifts b (bit_and n 31) word (omega (arith, bit_and-le n 31))),
                refl,
              )))

    bit_rotate-IsInt :
        (fn : ℕ → ℕ → ℕ) (shifts : Shifts fn) (args : List Value) (s : S)
        → Yields
            ((n : ℕ) × (barg lua args 2 s ≡ ok n s) × (bit_and n 31 ≡ 0))
            IsInt
            s
            (bit_rotate lua fn args s)
    unfolding bit_rotate
    bit_rotate-IsInt fn shifts args s = elim (barg-cases args 1 s) [
      | inl e ↦ rw e refl
      | inr (b, e, word) ↦ elim (barg-cases args 2 s) [
        | inl e' ↦ rw (e, e') refl
        | inr (n, e', _) ↦ elim (Bool-cases (bit_and n 31 == 0)) [
          | inl z ↦ rw (e, e', z) (n, refl, ground arith)
          | inr turn ↦
              rw (e, e', turn)
                (
                  bret-IsInt (fn b (bit_and n 31))
                      (shifts b (bit_and n 31) word (omega (arith, bit_and-le n 31))),
                  refl,
                )
        ]
      ]
    ]

    -- Every function of `probit` that returns a number returns one signed integer of 32 bits, from
    -- -2 ^ 31 to 2 ^ 31 - 1, for any arguments, or raises an error, and never changes the state. Only
    -- a rotation whose count has its low five bits zero is undefined.
    pub bit_call-IsInt :
        (op : Operation) (args : List Value) (s : S)
        → Yields (Rotates op args s) IsInt s (bit_call op args s)
    unfolding bit_call Api.bit_tobit Api.bit_bnot Api.bit_bswap
    bit_call-IsInt Operation.bit_tobit args s = on_word-IsInt ⊥ (λ b. b) (λ b word. word) args s
    bit_call-IsInt Operation.bit_bnot args s = on_word-IsInt ⊥ bnot (λ b word. omega arith) args s
    bit_call-IsInt Operation.bit_band args s = bit_op-IsInt ⊥ bit_and bit_and-Keeps args s
    bit_call-IsInt Operation.bit_bor args s = bit_op-IsInt ⊥ bit_or bit_or-Keeps args s
    bit_call-IsInt Operation.bit_bxor args s = bit_op-IsInt ⊥ bit_xor bit_xor-Keeps args s
    bit_call-IsInt Operation.bit_lshift args s = bit_sh-IsInt ⊥ bshl bshl-Shifts args s
    bit_call-IsInt Operation.bit_rshift args s = bit_sh-IsInt ⊥ bshr bshr-Shifts args s
    bit_call-IsInt Operation.bit_arshift args s = bit_sh-IsInt ⊥ bsar bsar-Shifts args s
    bit_call-IsInt Operation.bit_rol args s = bit_rotate-IsInt brol brol-Shifts args s
    bit_call-IsInt Operation.bit_ror args s = bit_rotate-IsInt bror bror-Shifts args s
    bit_call-IsInt Operation.bit_bswap args s = on_word-IsInt ⊥ bswap bswap-lt args s
