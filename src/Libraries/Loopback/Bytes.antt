-- ===== src/Libraries/Loopback/Bytes.antt =====
-- The bytes that `proserial` sends, as the eight bits that reach the line.
use profi_lua.Base.{
  ℕ, suc, ◌-◌, ◌%◌, ◌≡◌, refl, ◌∙◌, sym, ltb, ◌&&◌, Bool-cases, inl, inr, ap, true, Bool, List, [],
  ◌∷◌, ◌++◌, map, length, arith, ℤ, pos, negsuc, length-append,
}
use profi_lua.Lua.{Lua, Value, int_of}
use profi_lua.Serial.Ports.{signed_char}
use profi_lua.Serial.Payload.{payloads}

-- The low eight bits of an `int`.
abbrev pub low_byte : ℤ → ℕ
low_byte (pos n) = n % 256
low_byte (negsuc n) = 255 - n % 256

-- The bytes of the numbers and strings of a list. A string has characters less than 256.
abbrev pub wire_bytes : Lua → List Value → List ℕ
wire_bytes lua [] = []
wire_bytes lua (Value.number n ∷ vs) = low_byte (int_of lua n) ∷ wire_bytes lua vs
wire_bytes lua (Value.string s ∷ vs) = s ++ wire_bytes lua vs
wire_bytes lua (_ ∷ vs) = wire_bytes lua vs

abbrev pub all_bytes : List ℕ → Bool
all_bytes [] = true
all_bytes (b ∷ bs) = ltb b 256 && all_bytes bs

abbrev pub are_bytes : List Value → Bool
are_bytes [] = true
are_bytes (Value.string s ∷ vs) = all_bytes s && are_bytes vs
are_bytes (_ ∷ vs) = are_bytes vs

low_byte-signed_char : (b : ℕ) → ltb b 256 ≡ true → low_byte (signed_char b) ≡ b
low_byte-signed_char b small = elim (Bool-cases (ltb b 128)) [
  | inl t ↦ rw t (ground (arith, t))
  | inr f ↦ rw f (ground (arith, f, small))
]

map-signed_char : (s : List ℕ) → all_bytes s ≡ true → map low_byte (map signed_char s) ≡ s
map-signed_char [] small = refl
map-signed_char (b ∷ bs) small = elim (Bool-cases (ltb b 256)) [
  | inl t ↦ rw (low_byte-signed_char b t, map-signed_char bs (rw t at small))
  | inr f ↦ absurd (ground (arith, f, small))
]

map-append-low : (bs cs : List ℤ) → map low_byte (bs ++ cs) ≡ map low_byte bs ++ map low_byte cs
map-append-low [] cs = refl
map-append-low (b ∷ bs) cs = ap (λ t. low_byte b ∷ t) (map-append-low bs cs)

pub map-payloads :
    (lua : Lua) (vs : List Value)
    → are_bytes vs ≡ true
    → map low_byte (payloads lua vs) ≡ wire_bytes lua vs
map-payloads lua [] small = refl
map-payloads lua (Value.number n ∷ vs) small =
    ap (λ t. low_byte (int_of lua n) ∷ t) (map-payloads lua vs small)
map-payloads lua (Value.string s ∷ vs) small = elim (Bool-cases (all_bytes s)) [
  | inl t ↦
      map-append-low (map signed_char s) (payloads lua vs)
      ∙ rw (map-signed_char s t, map-payloads lua vs (rw t at small))
  | inr f ↦ absurd (ground (arith, f, small))
]
map-payloads lua (Value.nil ∷ vs) small = map-payloads lua vs small
map-payloads lua (Value.boolean b ∷ vs) small = map-payloads lua vs small
map-payloads lua (Value.table t ∷ vs) small = map-payloads lua vs small
map-payloads lua (Value.function f ∷ vs) small = map-payloads lua vs small
map-payloads lua (Value.other o ∷ vs) small = map-payloads lua vs small

length-map : {A B : Type 0} (f : A → B) (xs : List A) → length (map f xs) ≡ length xs
length-map f [] = refl
length-map f (x ∷ xs) = ap suc (length-map f xs)

pub length-payloads :
    (lua : Lua) (vs : List Value) → length (payloads lua vs) ≡ length (wire_bytes lua vs)
length-payloads lua [] = refl
length-payloads lua (Value.number n ∷ vs) = ap suc (length-payloads lua vs)
length-payloads lua (Value.string s ∷ vs) =
    length-append (map signed_char s) (payloads lua vs)
    ∙ rw (length-map signed_char s, length-payloads lua vs)
        (sym (length-append s (wire_bytes lua vs)))
length-payloads lua (Value.nil ∷ vs) = length-payloads lua vs
length-payloads lua (Value.boolean b ∷ vs) = length-payloads lua vs
length-payloads lua (Value.table t ∷ vs) = length-payloads lua vs
length-payloads lua (Value.function f ∷ vs) = length-payloads lua vs
length-payloads lua (Value.other o ∷ vs) = length-payloads lua vs
