-- ===== src/Lua.antt =====
-- The boundary to Lua: the values that cross it, the numbers of type `double`, and the conversions
-- of the Lua library that the C functions rely on.
mod Double
pub mod Stack
pub use Double.{Number, integer, truncate, above_halves}
use profi_lua.Base.{
  ℕ, Bool, false, Option, none, some, List, ℤ, pos, negsuc, ltb, if◌then◌else◌, u32_of, ◌^◌,
}

-- Functions and tables are references into the Lua heap.
pub data Value : Type 0 where
  nil : Value
  boolean : Bool → Value
  number : Number → Value
  string : List ℕ → Value
  table : ℕ → Value
  function : ℕ → Value
  other : ℕ → Value

-- What the Lua library does with a string in place of a number, a number in place of a string, and
-- how it makes a `lua_Integer` of a `lua_Number`; and the value that the compiled code gets when it
-- converts a `double` that does not fit into the C type, which C leaves undefined.
pub record Lua : Type 0 where
  pub str_to_number : List ℕ → Option Number
  pub number_to_str : Number → List ℕ
  pub number_to_integer : Number → ℤ
  pub number_out_of_range : Number → ℤ

abbrev fits_unsigned : ℤ → Bool
fits_unsigned (pos n) = ltb n (2 ^ 32)
fits_unsigned (negsuc n) = false

abbrev fits_int : ℤ → Bool
fits_int (pos n) = ltb n (2 ^ 31)
fits_int (negsuc n) = ltb n (2 ^ 31)

-- The conversions of a `double` to `unsigned int` and to `int`: a fraction is dropped.
abbrev pub unsigned_of : Lua → Number → ℕ
unsigned_of lua x =
    u32_of (if fits_unsigned (truncate x) then truncate x else lua.number_out_of_range x)

abbrev pub int_of : Lua → Number → ℤ
int_of lua x = if fits_int (truncate x) then truncate x else lua.number_out_of_range x

abbrev pub int : ℤ → Value
int z = number (integer z)

module _ (lua : Lua) where
  -- The number that a value converts to, if it does.
  abbrev pub as_number : Value → Option Number
  as_number (number n) = some n
  as_number (string s) = lua.str_to_number s
  as_number _ = none
