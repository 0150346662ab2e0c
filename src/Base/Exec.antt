-- ===== src/Base/Exec.antt =====
-- Runs of C code over a state: a normal return, a Lua error that unwinds the C frames, undefined
-- behaviour, and a loop that has used up its fuel.
use mathlib.Core.Path.{◌≡◌, refl}

pub data Run (S A : Type 0) : Type 0 where
  ok : A → S → Run S A
  raised : S → Run S A
  fault : Run S A
  out_of_fuel : Run S A

abbrev pub Cmd : Type 0 → Type 0 → Type 0
Cmd S A = S → Run S A

module _ {S : Type 0} where
  abbrev pub pure : {A : Type 0} → A → Cmd S A
  pure = ok

  abbrev pub get : Cmd S S
  get s = ok s s

  abbrev pub modify : (S → S) → Cmd S (Unit {0})
  modify f s = ok tt (f s)

  abbrev pub raise : {A : Type 0} → Cmd S A
  raise = raised

  abbrev pub crash : {A : Type 0} → Cmd S A
  crash _ = fault

module _ {S A B : Type 0} where
  abbrev pub and_then : Run S A → (A → Cmd S B) → Run S B
  and_then (ok a s) k = k a s
  and_then (raised s) k = raised s
  and_then fault k = fault
  and_then out_of_fuel k = out_of_fuel

  infixl 5 ◌>>=◌ ◌>>◌
  abbrev pub ◌>>=◌ : Cmd S A → (A → Cmd S B) → Cmd S B
  m >>= k = λ s. and_then (m s) k

  abbrev pub ◌>>◌ : Cmd S A → Cmd S B → Cmd S B
  m >> n = m >>= λ _. n

-- A command on a part of the state.
abbrev pub put_back : {S T A : Type 0} → (T → S) → Run T A → Run S A
put_back up (ok a t) = ok a (up t)
put_back up (raised t) = raised (up t)
put_back up fault = fault
put_back up out_of_fuel = out_of_fuel

-- `returns`: the run returns, and its result and final state satisfy `P`.
pub data Returns {S A : Type 0} (P : A → S → Type 0) : Run S A → Type 0 where
  returns : {a : A} {s : S} → P a s → Returns P (ok a s)

module _ {S A : Type 0} {P : A → S → Type 0} where
  pub Returns-bind :
      {B : Type 0} {Q : B → S → Type 0} {r : Run S A} {k : A → Cmd S B}
      → Returns P r
      → ((a : A) (s : S) → P a s → Returns Q (k a s))
      → Returns Q (and_then r k)
  Returns-bind (returns p) next = next _ _ p

  pub Returns-mono :
      {Q : A → S → Type 0} {r : Run S A}
      → Returns P r
      → ((a : A) (s : S) → P a s → Q a s)
      → Returns Q r
  Returns-mono (returns p) weaken = returns (weaken _ _ p)

  -- A command on a part of the state changes only that part.
  pub Returns-put_back :
      {T : Type 0} {Q : A → T → Type 0} {r : Run S A} (up : S → T)
      → Returns P r
      → ((a : A) (s : S) → P a s → Q a (up s))
      → Returns Q (put_back up r)
  Returns-put_back up (returns p) lift = returns (lift _ _ p)

-- The run ends, by a return or by a Lua error, in a state that satisfies `P`.
abbrev pub Ends : {S A : Type 0} → (S → Type 0) → Run S A → Type 0
Ends P (ok a s) = P s
Ends P (raised s) = P s
Ends P fault = ⊥
Ends P out_of_fuel = ⊥

pub Returns-Ends :
    {S A : Type 0} {P : A → S → Type 0} {r : Run S A} (Q : S → Type 0)
    → Returns P r
    → ((a : A) (s : S) → P a s → Q s)
    → Ends Q r
Returns-Ends Q (returns p) weaken = weaken _ _ p

-- If the run ends, then in a state that satisfies `P`.
abbrev pub After : {S A : Type 0} → (S → Type 0) → Run S A → Type 0
After P (ok a s) = P s
After P (raised s) = P s
After P fault = Unit {0}
After P out_of_fuel = Unit {0}

pub After-mono :
    {S A : Type 0} {P Q : S → Type 0} (r : Run S A) → After P r → ((s : S) → P s → Q s) → After Q r
After-mono (ok a s) p weaken = weaken s p
After-mono (raised s) p weaken = weaken s p
After-mono fault p weaken = tt
After-mono out_of_fuel p weaken = tt

-- A run that returns, as an equation.
pub Returns-result :
    {S A : Type 0} {P : A → S → Type 0} {r : Run S A}
    → Returns P r
    → (a : A) × (t : S) × (r ≡ ok a t) × P a t
Returns-result (returns p) = (_, _, refl, p)

pub and_then-ok :
    {S B : Type 0} {b : B} {t : S} (r : Run S (Unit {0})) (m : Cmd S B)
    → and_then r (λ _. m) ≡ ok b t
    → (s : S) × (r ≡ ok tt s) × (m s ≡ ok b t)
and_then-ok (ok a s) m e = (s, refl, e)
and_then-ok (raised s) m e = cc
and_then-ok fault m e = cc
and_then-ok out_of_fuel m e = cc

pub Returns-ok : {S A : Type 0} {P : A → S → Type 0} {a : A} {s : S} → Returns P (ok a s) → P a s
Returns-ok (returns p) = p

pub After-both :
    {S A : Type 0} (P Q : S → Type 0) (r : Run S A)
    → After P r
    → After Q r
    → After (λ s. P s × Q s) r
After-both P Q (ok a s) p q = (p, q)
After-both P Q (raised s) p q = (p, q)
After-both P Q fault p q = tt
After-both P Q out_of_fuel p q = tt
