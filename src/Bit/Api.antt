-- ===== src/Bit/Api.antt =====
-- The functions of `probit` that return a number.
use profi_lua.Base.{
  ℕ, zero, suc, bit_and, bit_or, bit_xor, ◌==◌, if◌then◌else◌, List, Cmd, pure, crash, ◌>>=◌,
  length, ltb,
}
use profi_lua.Lua.{Lua, Value, int}
use profi_lua.Lua.Stack.{Reply, one}
use profi_lua.Bit.Word.{barg, signed, bnot, bshl, bshr, bsar, brol, bror, bswap}

-- BRET
abbrev pub bret : ℕ → Reply
bret b = one (int (signed b))

module _ {S : Type 0} (lua : Lua) where
  unfoldable pub bit_tobit : List Value → Cmd S Reply
  unfolding barg
  bit_tobit args = do b ← barg lua args 1; pure (bret b)

  unfoldable pub bit_bnot : List Value → Cmd S Reply
  unfolding barg
  bit_bnot args = do b ← barg lua args 1; pure (bret (bnot b))

  -- for (i = lua_gettop(L); i > 1; i--) b opr barg(L, i);
  unfoldable pub fold_args : (op : ℕ → ℕ → ℕ) → List Value → (i b : ℕ) → Cmd S ℕ
  unfolding barg
  fold_args op args zero b = pure b
  fold_args op args (suc i) b =
      if ltb 0 i then (do c ← barg lua args (suc i); fold_args op args i (op b c)) else pure b

  -- BIT_OP
  unfoldable pub bit_op : (op : ℕ → ℕ → ℕ) → List Value → Cmd S Reply
  unfolding fold_args
  bit_op op args = do b ← barg lua args 1; r ← fold_args op args (length args) b; pure (bret r)

  abbrev pub bit_band : List Value → Cmd S Reply
  bit_band = bit_op bit_and

  abbrev pub bit_bor : List Value → Cmd S Reply
  bit_bor = bit_op bit_or

  abbrev pub bit_bxor : List Value → Cmd S Reply
  bit_bxor = bit_op bit_xor

  -- BIT_SH
  unfoldable pub bit_sh : (fn : ℕ → ℕ → ℕ) → List Value → Cmd S Reply
  unfolding barg
  bit_sh fn args = do b ← barg lua args 1; n ← barg lua args 2; pure (bret (fn b (bit_and n 31)))

  abbrev pub bit_lshift : List Value → Cmd S Reply
  bit_lshift = bit_sh bshl

  abbrev pub bit_rshift : List Value → Cmd S Reply
  bit_rshift = bit_sh bshr

  abbrev pub bit_arshift : List Value → Cmd S Reply
  bit_arshift = bit_sh bsar

  -- A rotation by 0 shifts by 32, which C leaves undefined.
  unfoldable pub bit_rotate : (fn : ℕ → ℕ → ℕ) → List Value → Cmd S Reply
  unfolding barg
  bit_rotate fn args = do
    b ← barg lua args 1
    n ← barg lua args 2
    if bit_and n 31 == 0 then crash else pure (bret (fn b (bit_and n 31)))

  abbrev pub bit_rol : List Value → Cmd S Reply
  bit_rol = bit_rotate brol

  abbrev pub bit_ror : List Value → Cmd S Reply
  bit_ror = bit_rotate bror

  unfoldable pub bit_bswap : List Value → Cmd S Reply
  unfolding barg
  bit_bswap args = do b ← barg lua args 1; pure (bret (bswap b))
