-- ===== src/Serial/Examples.antt =====
-- Runs of the library `proserial`, over a port that keeps what it is sent, the newest first, and
-- refuses the byte 13.
use profi_lua.Base.{
  ℕ, ◌≡◌, refl, ◌==◌, true, not, none, List, [], ◌∷◌, ℤ, pos, negsuc, pos_part, ok, arith,
  if◌then◌else◌,
}
use profi_lua.Lua.{Lua, Value, int, truncate}
use profi_lua.Lua.Stack.{one}
use profi_lua.Serial.Ports.{Ports}
use profi_lua.Serial.Send.{pl_serial_send}
use profi_lua.Serial.Payload.{pl_serial_send-payload, pl_serial_send-table}

abbrev lua : Lua
lua = record {
  str_to_number = λ _. none;
  number_to_str = λ _. [];
  number_to_integer = truncate;
  number_out_of_range = truncate;
}

abbrev ports : Ports (List ℤ)
ports = record {
  mount = λ d. (pos 1, d);
  unmount = λ h d. (true, d);
  check = λ h p d. (true, d);
  open_port = λ h p d. (true, d);
  close_port = λ h d. (true, d);
  send_byte = λ h b d. (not (pos_part b == 13), b ∷ d);
  buffer_count = λ h d. (pos 0, d);
  config = λ h a b c e d. (true, d);
  read_byte = λ h d. (negsuc 0, d);
  buffer_flush = λ h d. (true, []);
}

-- The table 3 is `{ "AB", 7, "C" }`.
abbrev tables : ℕ → ℕ → Value
tables t i =
    if i == 1
    then Value.string (65 ∷ 66 ∷ [])
    else if i == 2
    then int (pos 7)
    else if i == 3
    then Value.string (67 ∷ [])
    else Value.nil

pl_serial_send-payload_example :
    pl_serial_send ports lua tables 9 (int (pos 1) ∷ Value.string (65 ∷ 13 ∷ 200 ∷ []) ∷ []) []
    ≡ ok (one (int (pos 2))) (negsuc 55 ∷ pos 13 ∷ pos 65 ∷ [])
pl_serial_send-payload_example =
    pl_serial_send-payload ports lua tables 9 (int (pos 1)) (Value.string (65 ∷ 13 ∷ 200 ∷ [])) []
      refl

-- Four bytes are sent, and the reply is 2.
pl_serial_send-table_example :
    pl_serial_send ports lua tables 9 (int (pos 1) ∷ Value.table 3 ∷ []) []
    ≡ ok (one (int (pos 2))) (pos 67 ∷ pos 7 ∷ pos 66 ∷ pos 65 ∷ [])
pl_serial_send-table_example =
    pl_serial_send-table ports lua tables 9 (int (pos 1)) 3
      (Value.string (65 ∷ 66 ∷ []) ∷ int (pos 7) ∷ Value.string (67 ∷ []) ∷ []) []
      (refl, refl, (refl, refl, (refl, refl, refl))) (omega arith)
