-- ===== src/Bit/Print.antt =====
-- `bit_tohex` and `bit_tobin`: the lowest digits of a word.
use profi_lua.Base.{
  ℕ, zero, suc, ◌/◌, bit_and, Option, none, some, List, [], ◌∷◌, ltb, ◌==◌, if◌then◌else◌, ℤ, pos,
  negsuc, get_elem?, Cmd, pure, crash, ◌>>=◌, length, min,
}
use profi_lua.Lua.{Lua, Value}
use profi_lua.Lua.Stack.{Reply, one}
use profi_lua.Bit.Word.{barg, signed}

-- "0123456789abcdef" and "0123456789ABCDEF"
abbrev pub lower_digits : List ℕ
lower_digits = 48 ∷ 49 ∷ 50 ∷ 51 ∷ 52 ∷ 53 ∷ 54 ∷ 55 ∷ 56 ∷ 57 ∷ 97 ∷ 98 ∷ 99 ∷ 100 ∷ 101 ∷ 102 ∷ []

abbrev pub upper_digits : List ℕ
upper_digits = 48 ∷ 49 ∷ 50 ∷ 51 ∷ 52 ∷ 53 ∷ 54 ∷ 55 ∷ 56 ∷ 57 ∷ 65 ∷ 66 ∷ 67 ∷ 68 ∷ 69 ∷ 70 ∷ []

-- "01"
abbrev pub binary_digits : List ℕ
binary_digits = 48 ∷ 49 ∷ []

abbrev or_nul : Option ℕ → ℕ
or_nul none = 0
or_nul (some c) = c

-- The character at an index of a string.
abbrev pub char_at : List ℕ → ℕ → ℕ
char_at s i = or_nul (get_elem? s i)

-- for (i = (int)n; --i >= 0; ) { buf[i] = hexdigits[b & 15]; b >>= 4; }
-- With `count` rounds left, `buf` are the characters that stand there already.
unfoldable pub fill : (digits : List ℕ) (mask base : ℕ) → (count b : ℕ) (buf : List ℕ) → List ℕ
fill digits mask base zero b buf = buf
fill digits mask base (suc count) b buf =
    fill digits mask base count (b / base) (char_at digits (bit_and mask b) ∷ buf)

-- A negative count asks for upper case letters. The least integer has no negation.
unfoldable pub hex_string : (b : ℕ) → (n : ℤ) → {S : Type 0} → Cmd S (List ℕ)
unfolding fill
hex_string b (pos n) = pure (fill lower_digits 15 16 (min n 8) b [])
hex_string b (negsuc n) =
    if n == 2147483647 then crash else pure (fill upper_digits 15 16 (min (suc n) 8) b [])

-- A negative count is the length of the string, as a `size_t`, and reads past the buffer.
unfoldable pub bin_string : (b : ℕ) → (n : ℤ) → {S : Type 0} → Cmd S (List ℕ)
unfolding fill
bin_string b (pos n) = pure (fill binary_digits 1 2 (min n 32) b [])
bin_string b (negsuc n) = crash

module _ {S : Type 0} (lua : Lua) where
  -- `lua_isnone(L, 2) ? default : (SBits)barg(L, 2)`
  abbrev count_or : (default : ℕ) → List Value → Cmd S ℤ
  count_or default args =
      if ltb (length args) 2 then pure (pos default) else do n ← barg lua args 2; pure (signed n)

  unfoldable pub bit_tohex : List Value → Cmd S Reply
  unfolding hex_string barg
  bit_tohex args = do
    b ← barg lua args 1
    n ← count_or 2 args
    buf ← hex_string b n
    pure (one (Value.string buf))

  unfoldable pub bit_tobin : List Value → Cmd S Reply
  unfolding bin_string barg
  bit_tobin args = do
    b ← barg lua args 1
    n ← count_or 8 args
    buf ← bin_string b n
    pure (one (Value.string buf))
