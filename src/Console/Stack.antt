-- ===== src/Console/Stack.antt =====
-- DebugLuaStack of src/proficonsole.c, which prints the Lua stack.
use profi_lua.Base.{
  append_assoc, append-nil, ℕ, zero, suc, ◌+◌, ◌-◌, ◌≤◌, ◌<◌, ◌≡◌, ◌∙◌, refl, sym, ap, Option, some,
  List, [], ◌∷◌, ◌++◌, length, get_elem?, if◌then◌else◌, arith, Cmd, ok, pure, modify, ◌>>◌,
}
use profi_lua.Lua.{Value, Number}
use profi_lua.Lua.Stack.{Pushed, value}
use profi_lua.Sim.Script.{c_string}

-- "\nLua stack:\n", "  true", "  false" and a line's start
abbrev pub title : List ℕ
title = 10 ∷ b'L' ∷ b'u' ∷ b'a' ∷ b' ' ∷ b's' ∷ b't' ∷ b'a' ∷ b'c' ∷ b'k' ∷ b':' ∷ 10 ∷ []

abbrev true_text : List ℕ
true_text = b' ' ∷ b' ' ∷ b't' ∷ b'r' ∷ b'u' ∷ b'e' ∷ []

abbrev false_text : List ℕ
false_text = b' ' ∷ b' ' ∷ b'f' ∷ b'a' ∷ b'l' ∷ b's' ∷ b'e' ∷ []

abbrev indent : List ℕ
indent = b' ' ∷ b' ' ∷ []

-- What stdout has received.
abbrev pub Output : Type 0
Output = List ℕ

abbrev pub put : List ℕ → Cmd Output (Unit {0})
put text = modify λ out. out ++ text

-- `type_name` is Lua's name for the type of what stands at an index, and `general` the text that
-- "%g" makes of a number.
module _ (type_name : Option Pushed → List ℕ) (general : Number → List ℕ) where
  -- The switch on the type. A C string ends at its first NUL.
  abbrev pub text_of : Option Pushed → List ℕ
  text_of (some (value (Value.string s))) = indent ++ (b'`' ∷ c_string s ++ b'\'' ∷ [])
  text_of (some (value (Value.boolean b))) = if b then true_text else false_text
  text_of (some (value (Value.number n))) = indent ++ general n
  text_of v = indent ++ type_name v

  -- for( i = 1; i <= top; i++ ), with `count` rounds left. The index 1 is the bottom of the stack.
  unfoldable pub stack_loop : (stack : List Pushed) (count i : ℕ) → Cmd Output (Unit {0})
  stack_loop stack zero i = pure tt
  stack_loop stack (suc count) i = do
    put (text_of (get_elem? stack (length stack - i)))
    put (10 ∷ [])
    stack_loop stack count (suc i)

  unfoldable pub debug_lua_stack : (stack : List Pushed) → Cmd Output (Unit {0})
  unfolding stack_loop
  debug_lua_stack stack = do put title; stack_loop stack (length stack) 1; put (10 ∷ [])

  -- A line for each of the first `count` values, the last of them first.
  abbrev lines : (count : ℕ) → List Pushed → List ℕ
  lines zero vs = []
  lines (suc count) [] = []
  lines (suc count) (v ∷ vs) = lines count vs ++ text_of (some v) ++ 10 ∷ []

  lines-suc :
      (stack : List Pushed) (count : ℕ)
      → count < length stack
      → lines (suc count) stack ≡ (text_of (get_elem? stack count) ++ 10 ∷ []) ++ lines count stack
  lines-suc [] count few = absurd (omega (arith, few))
  lines-suc (v ∷ vs) zero few = sym (append-nil (text_of (some v) ++ 10 ∷ []))
  lines-suc (v ∷ vs) (suc count) few =
      ap (λ l. (l ++ text_of (some v)) ++ 10 ∷ []) (lines-suc vs count (omega (arith, few)))
      ∙ ap (λ l. l ++ 10 ∷ [])
          (append_assoc (text_of (get_elem? vs count) ++ 10 ∷ []) (lines count vs)
            (text_of (some v)))
      ∙ append_assoc (text_of (get_elem? vs count) ++ 10 ∷ []) (lines count vs ++ text_of (some v))
          (10 ∷ [])

  stack_loop-lines :
      (stack : List Pushed) (count i : ℕ) (out : Output)
      → i + count ≡ suc (length stack)
      → 1 ≤ i
      → stack_loop stack count i out ≡ ok tt (out ++ lines count stack)
  unfolding stack_loop
  stack_loop-lines stack zero i out total from = rw (append-nil out) refl
  stack_loop-lines stack (suc count) i out total from =
      let at : length stack - i ≡ count = omega (arith, total) in
      stack_loop-lines stack count (suc i)
        (out ++ text_of (get_elem? stack (length stack - i)) ++ 10 ∷ []) (omega (arith, total))
        (omega arith)
      ∙ ap (λ o. ok tt o)
          (rw at (
            ap (λ l. l ++ lines count stack)
              (append_assoc out (text_of (get_elem? stack count)) (10 ∷ []))
            ∙ append_assoc out (text_of (get_elem? stack count) ++ 10 ∷ []) (lines count stack)
            ∙ ap (λ l. out ++ l) (sym (lines-suc stack count (omega (arith, total))))))

  -- A line for each value, the bottom of the stack first.
  abbrev pub all_lines : List Pushed → List ℕ
  all_lines [] = []
  all_lines (v ∷ vs) = all_lines vs ++ text_of (some v) ++ 10 ∷ []

  lines-all_lines : (stack : List Pushed) → lines (length stack) stack ≡ all_lines stack
  lines-all_lines [] = refl
  lines-all_lines (v ∷ vs) = ap (λ l. (l ++ text_of (some v)) ++ 10 ∷ []) (lines-all_lines vs)

  -- `DebugLuaStack` prints its title, one line for each value of the stack, the bottom of the stack
  -- first, and an empty line. The line of a value is its text by type.
  pub debug_lua_stack-all_lines :
      (stack : List Pushed) (out : Output)
      → debug_lua_stack stack out ≡ ok tt (out ++ (title ++ all_lines stack ++ 10 ∷ []))
  unfolding debug_lua_stack
  debug_lua_stack-all_lines stack out =
      rw
        (
          stack_loop-lines stack (length stack) 1 (out ++ title) (omega arith) (omega arith),
          lines-all_lines stack,
        )
        (ap (λ o. ok tt o)
          (ap (λ l. l ++ 10 ∷ []) (append_assoc out title (all_lines stack))
            ∙ append_assoc out (title ++ all_lines stack) (10 ∷ [])))
