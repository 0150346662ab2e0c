-- ===== src/Libraries.antt =====
-- What a script sees of the program: src/profilualib.c, and the functions `luaopen_profimidi`,
-- `luaopen_profiserial` and `luaopen_profibit`, which src/linit.c calls for each Lua state.
pub mod Open
pub mod Fields
pub mod Constants
pub mod Loopback
pub mod Messages
mod Examples
use profi_lua.Base.{Bool, false, Option, some, List, [], ◌∷◌, ◌≡◌, if◌then◌else◌, Cmd, ok, ℤ}
use profi_lua.Lua.{Value, int}
use profi_lua.Lua.Stack.{Reply, one}
use Prim.Native.String.{String}
use text.Mathlib.Text.{◌==◌}

-- The entry of a table of names; the last one counts.
abbrev pub entry {ℓ} : {F : Type ℓ} → String → List (String × F) → Option F → Option F
entry key [] old = old
entry key ((k, f) ∷ fs) old = entry key fs (if k == key then some f else old)

-- The globals of a Lua state, of which some are tables of C functions: `luaL_register`,
-- `lua_setglobal` of a value that is no such table, the value of a global, and the function at a
-- key of a table.
pub record Registry (G F : Type 0) : Type 0 where
  pub register : String → List (String × F) → G → G
  pub set_global : String → Value → G → G
  pub global : String → G → Value
  pub field : String → String → G → Option F
  pub global-set_global :
      (n m : String) (v : Value) (g : G)
      → global m (set_global n v g) ≡ (if n == m then v else global m g)
  pub global-register :
      (n m : String) (fs : List (String × F)) (g : G)
      → (n == m) ≡ false
      → global m (register n fs g) ≡ global m g
  pub field-register :
      (n m key : String) (fs : List (String × F)) (g : G)
      → field m key (register n fs g)
        ≡ (if n == m then entry key fs (field m key g) else field m key g)
  pub field-set_global :
      (n m key : String) (v : Value) (g : G)
      → (n == m) ≡ false
      → field m key (set_global n v g) ≡ field m key g

-- The C functions, less the prefix `pl`.
pub data Function : Type 0 where
  get_key : Function
  open_midi_out close_midi_out open_midi_in close_midi_in : Function
  get_midi_out_name get_midi_in_name play_note get_event count_devices : Function
  serial_mount serial_unmount serial_check serial_open serial_close : Function
  serial_send serial_buffer_count serial_config : Function
  serial_read_byte serial_buffer_flush : Function
  bit_tobit bit_bnot bit_band bit_bor bit_bxor bit_lshift bit_rshift bit_arshift : Function
  bit_rol bit_ror bit_bswap bit_tohex bit_tobin : Function

-- `_kbhit` and `getch` of the C runtime.
pub record Keyboard (S : Type 0) : Type 0 where
  pub kbhit : S → Bool
  pub getch : S → ℤ × S

unfoldable pub pl_getkey : {S : Type 0} → Keyboard S → Cmd S Reply
pl_getkey k s =
    if k.kbhit s then (let (c, t) = k.getch s in ok (one (int c)) t) else ok (one Value.nil) s
