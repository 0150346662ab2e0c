-- ===== src/Bit/Rotate/Back.antt =====
-- `bit_rol` and `bit_ror` undo each other.
use profi_lua.Base.{
  ℕ, ◌-◌, ◌^◌, ◌≤◌, ◌<◌, ◌≡◌, ◌∙◌, sym, ap, false, some, [], ◌∷◌, ltb, ◌==◌, bit_and, arith, ok,
  Bool-cases, inl, inr,
}
use profi_lua.Lua.{Lua, Value, Number, int, integer, as_number}
use profi_lua.Lua.Stack.{one}
use profi_lua.Bit.Sum.{low_word, low_word-lt, low_word-pos, low_word-negsuc}
use profi_lua.Bit.Word.{barg, signed, brol, bror}
use profi_lua.Bit.Api.{bit_rotate, bit_rol, bit_ror, bit_tobit}
use profi_lua.Bit.Rotate.{brol-back, bror-brol, bit_and-le}

-- A word that goes to Lua as a signed number comes back as the same word.
low_word-signed : (b : ℕ) → b < 2 ^ 32 → low_word (integer (signed b)) ≡ b
low_word-signed b word = elim (Bool-cases (ltb b 2147483648)) [
  | inl t ↦ rw t (low_word-pos b word)
  | inr f ↦ rw f (low_word-negsuc (2 ^ 32 - 1 - b) (omega arith) ∙ omega arith)
]

bror-brol_back : (n b : ℕ) → n ≤ 32 → b < 2 ^ 32 → bror (brol b n) n ≡ b
bror-brol_back n b few word = bror-brol n (brol b n) few ∙ (brol-back n b few word).1

brol-bror_back : (n b : ℕ) → n ≤ 32 → b < 2 ^ 32 → (bror b n < 2 ^ 32) × (brol (bror b n) n ≡ b)
brol-bror_back n b few word =
    let same : 32 - (32 - n) ≡ n = omega arith in
    let (small, turned_back) = brol-back (32 - n) b (omega arith) word in
    rw (bror-brol n b few) (small, ap (brol (brol b (32 - n))) (sym same) ∙ turned_back)

-- What a rotation hands to Lua is turned back by the other one.
module _ {S : Type 0} (lua : Lua) (fn back : ℕ → ℕ → ℕ)
    (lt : (n b : ℕ) → n ≤ 32 → b < 2 ^ 32 → fn b n < 2 ^ 32)
    (undone : (n b : ℕ) → n ≤ 32 → b < 2 ^ 32 → back (fn b n) n ≡ b) where
  bit_rotate-undone :
      (v w : Value) (x y : Number) (s : S)
      → as_number lua v ≡ some x
      → as_number lua w ≡ some y
      → (bit_and (low_word y) 31 == 0) ≡ false
      → (bit_rotate lua fn (v ∷ w ∷ []) s
          ≡ ok (one (int (signed (fn (low_word x) (bit_and (low_word y) 31))))) s)
        × (bit_rotate lua back (int (signed (fn (low_word x) (bit_and (low_word y) 31))) ∷ w ∷ []) s
            ≡ bit_tobit lua (v ∷ []) s)
  unfolding bit_rotate bit_tobit barg
  bit_rotate-undone v w x y s first second some_turn =
      let b = low_word x in
      let n = bit_and (low_word y) 31 in
      let few : n ≤ 32 = omega (arith, bit_and-le (low_word y) 31) in
      let word : b < 2 ^ 32 = low_word-lt x in
      (
        rw (first, second, some_turn),
        rw (first, second, some_turn)
            (ap (λ c. ok (one (int (signed c))) s)
              (ap (λ c. back c n) (low_word-signed (fn b n) (lt n b few word))
                ∙ undone n b few word)),
      )

-- `bit_ror` turns back what `bit_rol` gives, and the other way round: after the two rotations of a
-- number by the same count, the result is what `bit_tobit` gives for the number. The count is a
-- number whose low five bits are not all zero.
pub bit_rol-bit_ror :
    {S : Type 0} (lua : Lua) (v w : Value) (x y : Number) (s : S)
    → as_number lua v ≡ some x
    → as_number lua w ≡ some y
    → (bit_and (low_word y) 31 == 0) ≡ false
    → (left : Value) × (right : Value) × (bit_rol lua (v ∷ w ∷ []) s ≡ ok (one left) s)
      × (bit_ror lua (left ∷ w ∷ []) s ≡ bit_tobit lua (v ∷ []) s)
      × (bit_ror lua (v ∷ w ∷ []) s ≡ ok (one right) s)
      × (bit_rol lua (right ∷ w ∷ []) s ≡ bit_tobit lua (v ∷ []) s)
bit_rol-bit_ror lua v w x y s first second some_turn =
    let (l, l') =
      bit_rotate-undone lua brol bror (λ n b few word. (brol-back n b few word).0) bror-brol_back v
        w x y s first second some_turn in
    let (r, r') =
      bit_rotate-undone lua bror brol (λ n b few word. (brol-bror_back n b few word).0)
        (λ n b few word. (brol-bror_back n b few word).1) v w x y s first second some_turn in
    (_, _, l, l', r, r')
