-- ===== src/Serial/Ports.antt =====
-- The serial library that src/profiserial.c calls (asSerialCollectCWrap.h), and how a script's
-- values become its arguments.
use profi_lua.Base.{
  ℕ, ◌-◌, Bool, true, false, Option, none, some, List, ℤ, pos, negsuc, ltb, get_elem?,
  if◌then◌else◌,
}
use profi_lua.Lua.{Lua, Value, Number, integer, as_number, int_of}

pub record Ports (D : Type 0) : Type 0 where
  pub mount : D → ℤ × D
  pub unmount : (handle : ℤ) → D → Bool × D
  pub check : (handle port : ℤ) → D → Bool × D
  pub open_port : (handle port : ℤ) → D → Bool × D
  pub close_port : (handle : ℤ) → D → Bool × D
  pub send_byte : (handle byte : ℤ) → D → Bool × D
  pub buffer_count : (handle : ℤ) → D → ℤ × D
  pub config : (handle baud bits parity stop : ℤ) → D → Bool × D
  pub read_byte : (handle : ℤ) → D → ℤ × D
  pub buffer_flush : (handle : ℤ) → D → Bool × D

-- The value of a C `bool` as a number.
abbrev pub bit_of : Bool → ℕ
bit_of true = 1
bit_of false = 0

-- A `char` is signed.
abbrev pub signed_char : ℕ → ℤ
signed_char b = if ltb b 128 then pos b else negsuc (255 - b)

abbrev pub or_zero : Option Number → Number
or_zero none = integer (pos 0)
or_zero (some n) = n

abbrev pub converted : Lua → Option Value → Number
converted lua none = integer (pos 0)
converted lua (some v) = or_zero (as_number lua v)

-- `lua_tonumber` as an `int` or a `long`: what is no number counts as 0, and a fraction is dropped.
-- Both types have 32 bits.
abbrev pub to_int : Lua → List Value → ℕ → ℤ
to_int lua args i = int_of lua (converted lua (get_elem? args (i - 1)))
