-- ===== src/Serial/Send.antt =====
-- `plSerialSend`: a number, a string or the entries of a table go to the port byte by byte.
use profi_lua.Base.{
  ℕ, zero, suc, ◌+◌, List, [], ◌∷◌, ℤ, pos, Cmd, ok, pure, out_of_fuel, ◌>>=◌, length, ◌==◌,
  if◌then◌else◌, get_elem?, Option, none, some,
}
use profi_lua.Lua.{Lua, Value, int_of, int}
use profi_lua.Lua.Stack.{Reply, one}
use profi_lua.Serial.Ports.{Ports, bit_of, signed_char, to_int}

module _ {D : Type 0} (p : Ports D) where
  abbrev send_one : (handle byte : ℤ) → Cmd D ℕ
  send_one handle byte d = ok (bit_of (p.send_byte handle byte d).0) (p.send_byte handle byte d).1

  -- for( i = 0; i < strLen; ++i ) ret += SendByte( handle, *pData++ );
  unfoldable pub send_string : (handle : ℤ) → List ℕ → (ret : ℕ) → Cmd D ℕ
  send_string handle [] ret = pure ret
  send_string handle (b ∷ bs) ret = do
    sent ← send_one handle (signed_char b)
    send_string handle bs (ret + sent)

  module _ (lua : Lua) where
    -- What is done with the value at the table's key `i`: `none` ends the loop. A number's result
    -- replaces `ret`, and a string's results are added to it.
    unfoldable pub send_entry : (handle : ℤ) → Value → (ret : ℕ) → Cmd D (Option ℕ)
    unfolding send_string
    send_entry handle (Value.number n) ret = do
      sent ← send_one handle (int_of lua n)
      pure (some sent)
    send_entry handle (Value.string s) ret = do sent ← send_string handle s ret; pure (some sent)
    send_entry handle _ ret = pure none

    unfoldable pub send_table : ℕ → (handle : ℤ) → (ℕ → Value) → (i ret : ℕ) → Cmd D ℕ
    unfolding send_entry
    send_table zero handle read i ret = λ _. out_of_fuel
    send_table (suc k) handle read i ret = do
      sent ← send_entry handle (read i) ret
      elim sent [ none ↦ pure ret | some r ↦ send_table k handle read (suc i) r ]

    module _ (tables : ℕ → ℕ → Value) where
      -- The switch on the type of the second argument. `tables t i` is the value of the table `t` at
      -- the key `i`.
      unfoldable pub send_value : ℕ → (handle : ℤ) → Option Value → Cmd D ℕ
      unfolding send_table
      send_value k handle (some (Value.number n)) = send_one handle (int_of lua n)
      send_value k handle (some (Value.string s)) = send_string handle s 0
      send_value k handle (some (Value.table t)) = send_table k handle (tables t) 1 0
      send_value k handle _ = pure 0

      unfoldable pub pl_serial_send : ℕ → List Value → Cmd D Reply
      unfolding send_value
      pl_serial_send k args =
          if length args == 2
          then (do
            ret ← send_value k (to_int lua args 1) (get_elem? args 1)
            pure (one (int (pos ret))))
          else pure (one (int (pos 0)))
