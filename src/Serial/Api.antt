-- ===== src/Serial/Api.antt =====
-- The functions of the library `proserial`, each with its check of the number of arguments.
use profi_lua.Base.{ℕ, Bool, List, ℤ, pos, negsuc, Cmd, ok, length, ◌==◌, if◌then◌else◌}
use profi_lua.Lua.{Lua, Value, int}
use profi_lua.Lua.Stack.{Reply, one}
use profi_lua.Serial.Ports.{Ports, bit_of, to_int}

module _ {D : Type 0} (lua : Lua) (p : Ports D) where
  abbrev with_bool : Bool × D → ℤ × D
  with_bool (b, d) = (pos (bit_of b), d)

  -- A call of the serial library when the number of arguments is `arity`, and `ret` otherwise.
  abbrev checked_call : (arity : ℕ) (ret : ℤ) → List Value → (D → ℤ × D) → Cmd D Reply
  checked_call arity ret args call d =
      if length args == arity then ok (one (int (call d).0)) (call d).1 else ok (one (int ret)) d

  unfoldable pub pl_serial_mount : List Value → Cmd D Reply
  pl_serial_mount args = checked_call 0 (pos 0) args p.mount

  unfoldable pub pl_serial_unmount : List Value → Cmd D Reply
  pl_serial_unmount args =
      checked_call 1 (pos 0) args λ d. with_bool (p.unmount (to_int lua args 1) d)

  unfoldable pub pl_serial_check : List Value → Cmd D Reply
  pl_serial_check args =
      checked_call 2 (pos 0) args λ d. with_bool (p.check (to_int lua args 1) (to_int lua args 2) d)

  unfoldable pub pl_serial_open : List Value → Cmd D Reply
  pl_serial_open args =
      checked_call 2 (pos 0) args
        λ d. with_bool (p.open_port (to_int lua args 1) (to_int lua args 2) d)

  unfoldable pub pl_serial_close : List Value → Cmd D Reply
  pl_serial_close args =
      checked_call 1 (pos 0) args λ d. with_bool (p.close_port (to_int lua args 1) d)

  unfoldable pub pl_serial_buffer_count : List Value → Cmd D Reply
  pl_serial_buffer_count args = checked_call 1 (negsuc 0) args (p.buffer_count (to_int lua args 1))

  unfoldable pub pl_serial_config : List Value → Cmd D Reply
  pl_serial_config args = checked_call 5 (pos 0) args λ d. with_bool (
      p.config (to_int lua args 1) (to_int lua args 2) (to_int lua args 3) (to_int lua args 4)
        (to_int lua args 5) d)

  unfoldable pub pl_serial_read_byte : List Value → Cmd D Reply
  pl_serial_read_byte args = checked_call 1 (negsuc 0) args (p.read_byte (to_int lua args 1))

  unfoldable pub pl_serial_buffer_flush : List Value → Cmd D Reply
  pl_serial_buffer_flush args =
      checked_call 1 (pos 0) args λ d. with_bool (p.buffer_flush (to_int lua args 1) d)
