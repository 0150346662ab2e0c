-- ===== src/Serial/Payload.antt =====
-- Which bytes `plSerialSend` hands to the port, and the number that it returns.
use profi_lua.Base.{
  ℕ, zero, suc, ◌+◌, ◌<◌, ◌≡◌, refl, ◌∙◌, ap, Bool, true, false, ◌||◌, none, some, List, [], ◌∷◌,
  ◌++◌, map, ℤ, pos, length, arith, ok, Bool-cases, inl, inr, if◌then◌else◌,
}
use profi_lua.Lua.{Lua, Value, int_of, int}
use profi_lua.Lua.Stack.{one}
use profi_lua.Serial.Ports.{Ports, bit_of, signed_char, to_int}
use profi_lua.Serial.Send.{send_string, send_entry, send_table, send_value, pl_serial_send}

-- The bytes of a value: a number is one, a string has its own.
abbrev pub payload : Lua → Value → List ℤ
payload lua (Value.number n) = int_of lua n ∷ []
payload lua (Value.string s) = map signed_char s
payload lua _ = []

abbrev pub payloads : Lua → List Value → List ℤ
payloads lua [] = []
payloads lua (v ∷ vs) = payload lua v ++ payloads lua vs

abbrev pub is_number : Value → Bool
is_number (Value.number n) = true
is_number _ = false

abbrev pub is_sendable : Value → Bool
is_sendable (Value.number n) = true
is_sendable (Value.string s) = true
is_sendable _ = false

abbrev pub is_table : Value → Bool
is_table (Value.table t) = true
is_table _ = false

abbrev pub has_number : List Value → Bool
has_number [] = false
has_number (v ∷ vs) = is_number v || has_number vs

-- The entries before the last number, and those from it on. With no number that is all of them.
abbrev pub before_last_number : List Value → List Value
before_last_number [] = []
before_last_number (v ∷ vs) = if has_number vs then v ∷ before_last_number vs else []

abbrev pub from_last_number : List Value → List Value
from_last_number [] = []
from_last_number (v ∷ vs) = if has_number vs then from_last_number vs else v ∷ vs

-- From the key `i` on, the table has the entries `vs`, and then one that is not sent.
abbrev pub Listed : (ℕ → Value) → ℕ → List Value → Type 0
Listed read i [] = is_sendable (read i) ≡ false
Listed read i (v ∷ vs) = (read i ≡ v) × (is_sendable v ≡ true) × Listed read (suc i) vs

before-eq : (vs : List Value) → has_number vs ≡ false → before_last_number vs ≡ []
before-eq [] e = refl
before-eq (v ∷ vs) e = ground arith

from-eq : (vs : List Value) → has_number vs ≡ false → from_last_number vs ≡ vs
from-eq [] e = refl
from-eq (v ∷ vs) e = ground arith

module _ {D : Type 0} (p : Ports D) (handle : ℤ) where
  -- The bytes go to the port in order. The result is the number of those that it accepts.
  abbrev pub deliver : List ℤ → D → ℕ × D
  deliver [] d = (0, d)
  deliver (b ∷ bs) d =
      let r = p.send_byte handle b d in let rest = deliver bs r.1 in (bit_of r.0 + rest.0, rest.1)

  deliver-append-state :
      (bs cs : List ℤ) (d : D) → (deliver (bs ++ cs) d).1 ≡ (deliver cs (deliver bs d).1).1
  deliver-append-state [] cs d = refl
  deliver-append-state (b ∷ bs) cs d = deliver-append-state bs cs (p.send_byte handle b d).1

  deliver-append-count :
      (bs cs : List ℤ) (d : D)
      → (deliver (bs ++ cs) d).0 ≡ (deliver bs d).0 + (deliver cs (deliver bs d).1).0
  deliver-append-count [] cs d = omega arith
  deliver-append-count (b ∷ bs) cs d =
      omega (arith, deliver-append-count bs cs (p.send_byte handle b d).1)

  send_string-deliver :
      (s : List ℕ) (ret : ℕ) (d : D)
      → send_string p handle s ret d
        ≡ ok (ret + (deliver (map signed_char s) d).0) (deliver (map signed_char s) d).1
  unfolding send_string
  send_string-deliver [] ret d = ap (λ n. ok n d) (omega arith)
  send_string-deliver (b ∷ bs) ret d =
      let r = p.send_byte handle (signed_char b) d in
      send_string-deliver bs (ret + bit_of r.0) r.1
      ∙ ap (λ n. ok n (deliver (map signed_char bs) r.1).1) (omega arith)

  module _ (lua : Lua) where
    abbrev carried : Bool → ℕ → ℕ
    carried true ret = 0
    carried false ret = ret

    send_entry-deliver :
        (v : Value) (ret : ℕ) (d : D)
        → is_sendable v ≡ true
        → send_entry p lua handle v ret d
          ≡ ok
              (some (carried (is_number v) ret + (deliver (payload lua v) d).0))
              (deliver (payload lua v) d).1
    unfolding send_entry
    send_entry-deliver (Value.number n) ret d e =
        ap (λ n'. ok (some n') (p.send_byte handle (int_of lua n) d).1) (omega arith)
    send_entry-deliver (Value.string s) ret d e = rw (send_string-deliver s ret d)
    send_entry-deliver (Value.nil) ret d e = absurd (ground arith)
    send_entry-deliver (Value.boolean b) ret d e = absurd (ground arith)
    send_entry-deliver (Value.table b) ret d e = absurd (ground arith)
    send_entry-deliver (Value.function b) ret d e = absurd (ground arith)
    send_entry-deliver (Value.other b) ret d e = absurd (ground arith)

    send_entry-none :
        (v : Value) (ret : ℕ) (d : D)
        → is_sendable v ≡ false
        → send_entry p lua handle v ret d ≡ ok none d
    unfolding send_entry
    send_entry-none (Value.number n) ret d e = absurd (ground arith)
    send_entry-none (Value.string s) ret d e = absurd (ground arith)
    send_entry-none (Value.nil) ret d e = refl
    send_entry-none (Value.boolean b) ret d e = refl
    send_entry-none (Value.table b) ret d e = refl
    send_entry-none (Value.function b) ret d e = refl
    send_entry-none (Value.other b) ret d e = refl

    -- The number that the loop returns, when it starts with `ret`.
    abbrev counted : List Value → ℕ → D → ℕ
    counted vs ret d =
        carried (has_number vs) ret
        + (deliver (payloads lua (from_last_number vs))
            (deliver (payloads lua (before_last_number vs)) d).1).0

    counted-cons :
        (v : Value) (vs : List Value) (ret : ℕ) (d : D)
        → counted vs
            (carried (is_number v) ret + (deliver (payload lua v) d).0)
            (deliver (payload lua v) d).1
          ≡ counted (v ∷ vs) ret d
    counted-cons v vs ret d = elim (Bool-cases (has_number vs)) [
      | inl t ↦ elim (Bool-cases (is_number v)) [
        | inl n ↦
            rw (t, n, deliver-append-state (payload lua v) (payloads lua (before_last_number vs)) d)
        | inr n ↦
            rw (t, n, deliver-append-state (payload lua v) (payloads lua (before_last_number vs)) d)
      ]
      | inr f ↦ elim (Bool-cases (is_number v)) [
        | inl n ↦
            rw
              (
                f,
                n,
                before-eq vs f,
                from-eq vs f,
                deliver-append-count (payload lua v) (payloads lua vs) d,
              )
              (omega arith)
        | inr n ↦
            rw
              (
                f,
                n,
                before-eq vs f,
                from-eq vs f,
                deliver-append-count (payload lua v) (payloads lua vs) d,
              )
              (omega arith)
      ]
    ]

    counted-zero :
        (vs : List Value) (d : D)
        → counted vs 0 d
          ≡ (deliver
              (payloads lua (from_last_number vs))
              (deliver (payloads lua (before_last_number vs)) d).1).0
    counted-zero vs d = elim (Bool-cases (has_number vs)) [
      | inl t ↦ rw t (omega arith)
      | inr f ↦ rw f (omega arith)
    ]

    send_table-deliver :
        (k : ℕ) (read : ℕ → Value) (i ret : ℕ) (vs : List Value) (d : D)
        → Listed read i vs
        → length vs < k
        → send_table p lua k handle read i ret d
          ≡ ok (counted vs ret d) (deliver (payloads lua vs) d).1
    unfolding send_table
    send_table-deliver zero read i ret vs d l fuel = absurd (omega arith)
    send_table-deliver (suc k) read i ret [] d l fuel =
        rw (send_entry-none (read i) ret d l) (ap (λ n. ok n d) (omega arith))
    send_table-deliver (suc k) read i ret (v ∷ vs) d l fuel =
        rw (l.0, send_entry-deliver v ret d l.1)
          (send_table-deliver k read (suc i) _ vs _ l.2 (omega arith)
            ∙ rw
                (counted-cons v vs ret d, deliver-append-state (payload lua v) (payloads lua vs) d))

module _ {D : Type 0} (p : Ports D) (lua : Lua) (tables : ℕ → ℕ → Value) (k : ℕ) (v : Value) where
  abbrev handle : ℤ
  handle = to_int lua (v ∷ []) 1

  pl_serial_send-string :
      (s : List ℕ) (d : D)
      → pl_serial_send p lua tables k (v ∷ Value.string s ∷ []) d
        ≡ ok
            (one (int (pos (deliver p handle (map signed_char s) d).0)))
            (deliver p handle (map signed_char s) d).1
  unfolding pl_serial_send send_value
  pl_serial_send-string s d =
      rw (send_string-deliver p handle s 0 d)
        (ap (λ n. ok (one (int (pos n))) (deliver p handle (map signed_char s) d).1) (omega arith))

  -- `plSerialSend` of a value that is no table hands its bytes to the port in order and replies with
  -- the number of those that the port accepts. A number is one byte, its fraction dropped, a string
  -- has its own as signed characters, and any other value has none: the reply is 0, and the port
  -- is not called.
  pub pl_serial_send-payload :
      (x : Value) (d : D)
      → is_table x ≡ false
      → pl_serial_send p lua tables k (v ∷ x ∷ []) d
        ≡ ok
            (one (int (pos (deliver p handle (payload lua x) d).0)))
            (deliver p handle (payload lua x) d).1
  unfolding pl_serial_send send_value
  pl_serial_send-payload (Value.number n) d scalar =
      ap (λ m. ok (one (int (pos m))) (p.send_byte handle (int_of lua n) d).1) (omega arith)
  pl_serial_send-payload (Value.string s) d scalar = pl_serial_send-string s d
  pl_serial_send-payload (Value.nil) d scalar = refl
  pl_serial_send-payload (Value.boolean b) d scalar = refl
  pl_serial_send-payload (Value.table t) d scalar = absurd (ground arith)
  pl_serial_send-payload (Value.function f) d scalar = refl
  pl_serial_send-payload (Value.other o) d scalar = refl

  -- `plSerialSend` of a table whose entries from 1 on are the numbers and strings `vs`, and then a
  -- value of another type, hands all their bytes to the port in order. It replies with the number
  -- of accepted bytes from the last number of the table on, and not of all. The fuel exceeds the
  -- number of entries.
  pub pl_serial_send-table :
      (t : ℕ) (vs : List Value) (d : D)
      → Listed (tables t) 1 vs
      → length vs < k
      → pl_serial_send p lua tables k (v ∷ Value.table t ∷ []) d
        ≡ ok
            (one (
              int (
                pos
                  (deliver p handle
                    (payloads lua (from_last_number vs))
                    (deliver p handle (payloads lua (before_last_number vs)) d).1).0)))
            (deliver p handle (payloads lua vs) d).1
  unfolding pl_serial_send send_value
  pl_serial_send-table t vs d listed fuel =
      rw (send_table-deliver p handle lua k (tables t) 1 0 vs d listed fuel) (
        ap (λ n. ok (one (int (pos n))) (deliver p handle (payloads lua vs) d).1)
          (counted-zero p handle lua vs d))
