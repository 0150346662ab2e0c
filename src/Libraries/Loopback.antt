-- ===== src/Libraries/Loopback.antt =====
-- What a script gets from `proserial` by the names of its functions, with the port's output wired to
-- its input.
pub mod Bytes
use profi_lua.Base.{
  ℕ, zero, suc, ◌-◌, ◌%◌, ◌<◌, ◌≡◌, refl, ◌∙◌, sym, ltb, ◌&&◌, append-nil, append_assoc, Bool-cases,
  inl, inr, ap, true, Bool, Option, none, some, List, [], ◌∷◌, ◌++◌, map, length, arith, ℤ, pos,
  negsuc, Cmd, ok, pure, raise, ◌>>=◌, Returns, returns, Returns-bind, length-append,
}
use profi_lua.Lua.{Lua, Value, int}
use profi_lua.Lua.Stack.{Reply, one}
use profi_lua.Serial.Ports.{Ports, bit_of, signed_char, to_int}
use profi_lua.Serial.Send.{pl_serial_send}
use profi_lua.Serial.Api.{
  pl_serial_mount, pl_serial_unmount, pl_serial_check, pl_serial_open, pl_serial_close,
  pl_serial_buffer_count, pl_serial_config, pl_serial_read_byte, pl_serial_buffer_flush,
}
use profi_lua.Serial.Payload.{
  deliver, payloads, from_last_number, before_last_number, Listed, pl_serial_send-table,
}
use profi_lua.Libraries.{Registry, Function, entry}
use profi_lua.Libraries.Open.{open_libs, serial_funcs}
use profi_lua.Libraries.Fields.{open_libs-entry}
use Prim.Native.String.{String}
use profi_lua.Libraries.Loopback.Bytes.{
  low_byte, wire_bytes, are_bytes, map-payloads, length-payloads,
}

-- The port `handle` receives what it sends: a byte that is sent joins the end of the receive buffer
-- as its low eight bits, and is accepted. The buffer is counted, and read from its front; a read
-- of the empty buffer gives a negative number.
pub record Loopback {D : Type 0} (p : Ports D) (handle : ℤ) : Type 0 where
  pub buffer : D → List ℕ
  pub accepted : (b : ℤ) (d : D) → (p.send_byte handle b d).0 ≡ true
  pub sent : (b : ℤ) (d : D) → buffer (p.send_byte handle b d).1 ≡ buffer d ++ low_byte b ∷ []
  pub counted : (d : D) → (p.buffer_count handle d).0 ≡ pos (length (buffer d))
  pub counting : (d : D) → buffer (p.buffer_count handle d).1 ≡ buffer d
  pub first : (b : ℕ) (bs : List ℕ) (d : D) → buffer d ≡ b ∷ bs → (p.read_byte handle d).0 ≡ pos b
  pub rest :
      (b : ℕ) (bs : List ℕ) (d : D) → buffer d ≡ b ∷ bs → buffer (p.read_byte handle d).1 ≡ bs
  pub empty : (d : D) → buffer d ≡ [] → (n : ℕ) × ((p.read_byte handle d).0 ≡ negsuc n)
  pub stays_empty : (d : D) → buffer d ≡ [] → buffer (p.read_byte handle d).1 ≡ []

module _ {D : Type 0} (lua : Lua) (p : Ports D) (tables : ℕ → ℕ → Value) (k : ℕ)
    (others : Function → List Value → Cmd D Reply) where
  -- A call of a C function by Lua; `others` are those of the other libraries.
  unfoldable pub serial_call : Function → List Value → Cmd D Reply
  serial_call Function.serial_mount args = pl_serial_mount lua p args
  serial_call Function.serial_unmount args = pl_serial_unmount lua p args
  serial_call Function.serial_check args = pl_serial_check lua p args
  serial_call Function.serial_open args = pl_serial_open lua p args
  serial_call Function.serial_close args = pl_serial_close lua p args
  serial_call Function.serial_send args = pl_serial_send p lua tables k args
  serial_call Function.serial_buffer_count args = pl_serial_buffer_count lua p args
  serial_call Function.serial_config args = pl_serial_config lua p args
  serial_call Function.serial_read_byte args = pl_serial_read_byte lua p args
  serial_call Function.serial_buffer_flush args = pl_serial_buffer_flush lua p args
  serial_call f args = others f args

  -- A call of nil is an error.
  abbrev called : Option Function → List Value → Cmd D Reply
  called none args = raise
  called (some f) args = serial_call f args

  module _ {G : Type 0} (r : Registry G Function) (g : G) where
    -- A script that calls functions of `proserial` by their names, one after another.
    abbrev pub run : List (String × List Value) → Cmd D (List Reply)
    run [] = pure []
    run ((name, args) ∷ calls) = do
      reply ← called (r.field "proserial" name g) args
      replies ← run calls
      pure (reply ∷ replies)

abbrev pub reads : (handle : Value) → ℕ → List (String × List Value)
reads handle zero = ("ReadByte", handle ∷ []) ∷ []
reads handle (suc n) = ("ReadByte", handle ∷ []) ∷ reads handle n

-- The replies of `ReadByte` for the bytes, and then a negative number.
abbrev pub bytes_then : List ℕ → ℕ → List Reply
bytes_then [] n = one (int (negsuc n)) ∷ []
bytes_then (b ∷ bs) n = one (int (pos b)) ∷ bytes_then bs n

module _ {D : Type 0} (p : Ports D) (handle : ℤ) (w : Loopback p handle) where
  deliver-loopback :
      (bs : List ℤ) (d : D)
      → ((deliver p handle bs d).0 ≡ length bs)
        × (w.buffer (deliver p handle bs d).1 ≡ w.buffer d ++ map low_byte bs)
  deliver-loopback [] d = (refl, sym (append-nil (w.buffer d)))
  deliver-loopback (b ∷ bs) d =
      let (n, e) = deliver-loopback bs (p.send_byte handle b d).1 in
      (
        rw (w.accepted b d) (omega (arith, n)),
        e
            ∙ ap (λ t. t ++ map low_byte bs) (w.sent b d)
            ∙ append_assoc (w.buffer d) (low_byte b ∷ []) (map low_byte bs),
      )

module _ {D : Type 0} (lua : Lua) (p : Ports D) (tables : ℕ → ℕ → Value) (k : ℕ)
    (others : Function → List Value → Cmd D Reply) {G : Type 0} (r : Registry G Function)
    (standard : G → G) (g : G) (v : Value) (w : Loopback p (to_int lua (v ∷ []) 1)) where
  abbrev script : List (String × List Value) → Cmd D (List Reply)
  script = run lua p tables k others r (open_libs r standard g)

  abbrev found : String → Option Function
  found name = r.field "proserial" name (open_libs r standard g)

  is_read : found "ReadByte" ≡ some Function.serial_read_byte
  is_read = (open_libs-entry r standard g "ReadByte").1

  is_send : found "Send" ≡ some Function.serial_send
  is_send = (open_libs-entry r standard g "Send").1

  is_count : found "BufferCount" ≡ some Function.serial_buffer_count
  is_count = (open_libs-entry r standard g "BufferCount").1

  reads-bytes :
      (bs : List ℕ) (d : D)
      → w.buffer d ≡ bs
      → Returns
          (λ replies u. ((n : ℕ) × (replies ≡ bytes_then bs n)) × (w.buffer u ≡ []))
          (script (reads v (length bs)) d)
  unfolding serial_call pl_serial_read_byte
  reads-bytes [] d held =
      let (n, e) = w.empty d held in rw (is_read, e) (returns ((n, refl), w.stays_empty d held))
  reads-bytes (b ∷ bs) d held =
      rw (is_read, w.first b bs d held)
        (Returns-bind
          (reads-bytes bs (p.read_byte (to_int lua (v ∷ []) 1) d).1 (w.rest b bs d held))
          λ replies u ((n, e), left). returns ((n, ap (λ t. one (int (pos b)) ∷ t) e), left))

  -- A script that calls `proserial.Send` with a table of numbers and strings `vs`, then
  -- `BufferCount`, and `ReadByte` once more than there are bytes, on a port whose output is wired to
  -- its input and whose buffer is empty: `BufferCount` replies the number of all bytes, `ReadByte`
  -- the bytes in order, a number by its low eight bits and a string by its characters, and at last a
  -- negative number, when the buffer is empty again. `Send` replies the number of bytes from the
  -- last number of the table on. The functions are those that `luaL_openlibs` sets under these
  -- names, in any Lua state. Characters are less than 256, and the fuel exceeds the number of
  -- entries.
  pub send-read :
      (t : ℕ) (vs : List Value) (d : D)
      → w.buffer d ≡ []
      → Listed (tables t) 1 vs
      → are_bytes vs ≡ true
      → length vs < k
      → Returns
          (λ replies u.
            ((n : ℕ) × (replies
                ≡ one (int (pos (length (wire_bytes lua (from_last_number vs)))))
                  ∷ one (int (pos (length (wire_bytes lua vs))))
                  ∷ bytes_then (wire_bytes lua vs) n))
            × (w.buffer u ≡ []))
          (script
            (("Send", v ∷ Value.table t ∷ [])
              ∷ ("BufferCount", v ∷ [])
              ∷ reads v (length (wire_bytes lua vs)))
            d)
  unfolding serial_call pl_serial_buffer_count
  send-read t vs d empty listed small fuel =
      let h = to_int lua (v ∷ []) 1 in
      let d' = (deliver p h (payloads lua vs) d).1 in
      let held : w.buffer d' ≡ wire_bytes lua vs =
        (deliver-loopback p h w (payloads lua vs) d).1 ∙ rw (empty, map-payloads lua vs small) in
      rw
        (
          is_send,
          pl_serial_send-table p lua tables k v t vs d listed fuel,
          (deliver-loopback p h w (payloads lua (from_last_number vs))
              (deliver p h (payloads lua (before_last_number vs)) d).1).0,
          length-payloads lua (from_last_number vs),
          is_count,
          w.counted d',
          held,
        )
        (Returns-bind
          {P = λ replies u.
            ((n : ℕ) × (replies
                ≡ one (int (pos (length (wire_bytes lua vs)))) ∷ bytes_then (wire_bytes lua vs) n))
            × (w.buffer u ≡ [])}
          (Returns-bind
            (reads-bytes (wire_bytes lua vs) (p.buffer_count h d').1 (w.counting d' ∙ held))
            λ replies u ((n, e), left).
              returns ((n, ap (λ t. one (int (pos (length (wire_bytes lua vs)))) ∷ t) e), left))
          λ replies u ((n, e), left). returns (
            (n, ap (λ t. one (int (pos (length (wire_bytes lua (from_last_number vs))))) ∷ t) e),
            left,
          ))
