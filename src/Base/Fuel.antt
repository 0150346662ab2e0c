-- ===== src/Base/Fuel.antt =====
-- Runs of the same code with more fuel.
use mathlib.Core.Path.{◌≡◌, refl}
use mathlib.Core.Bool.{Bool, true, false}
use mathlib.Core.Option.{Option, none, some}
use profi_lua.Base.Exec.{Run, Cmd, ok, raised, fault, out_of_fuel, and_then, ◌>>=◌, put_back}
use profi_lua.Base.Tests.{if◌then◌else◌}

-- A run that does not use up its fuel stays as it is.
abbrev pub Extended : {S A : Type 0} → Run S A → Run S A → Type 0
Extended (ok a s) r = r ≡ ok a s
Extended (raised s) r = r ≡ raised s
Extended fault r = r ≡ fault
Extended out_of_fuel r = Unit {0}

pub record Extends {S A : Type 0} (m m' : Cmd S A) : Type 0 where
  pub runs : (s : S) → Extended (m s) (m' s)

Extended-same : {S A : Type 0} (r : Run S A) → Extended r r
Extended-same (ok a s) = refl
Extended-same (raised s) = refl
Extended-same fault = refl
Extended-same out_of_fuel = tt

module _ {S A : Type 0} where
  pub same-Extends : {m : Cmd S A} → Extends m m
  same-Extends {m} = record { runs = λ s. Extended-same (m s) }

  pub if-Extends :
      {m m' n n' : Cmd S A} (b : Bool)
      → Extends m m'
      → Extends n n'
      → Extends (if b then m else n) (if b then m' else n')
  if-Extends true p q = p
  if-Extends false p q = q

  pub option-Extends :
      {B : Type 0} {m m' : Cmd S A} {n n' : B → Cmd S A} (o : Option B)
      → Extends m m'
      → ((b : B) → Extends (n b) (n' b))
      → Extends (elim o [ none ↦ m | some b ↦ n b ]) (elim o [ none ↦ m' | some b ↦ n' b ])
  option-Extends none p q = p
  option-Extends (some b) p q = q b

  Extended-bind :
      {B : Type 0} (r r' : Run S A) {k k' : A → Cmd S B}
      → Extended r r'
      → ((a : A) → Extends (k a) (k' a))
      → Extended (and_then r k) (and_then r' k')
  Extended-bind (ok a s) r' e later = rw e ((later a).runs s)
  Extended-bind (raised s) r' e later = rw e refl
  Extended-bind fault r' e later = rw e refl
  Extended-bind out_of_fuel r' e later = tt

  pub bind-Extends :
      {B : Type 0} {m m' : Cmd S A} {k k' : A → Cmd S B}
      → Extends m m'
      → ((a : A) → Extends (k a) (k' a))
      → Extends (m >>= k) (m' >>= k')
  bind-Extends {m} {m'} p later = record { runs = λ s. Extended-bind (m s) (m' s) (p.runs s) later }

  pub then-Extends :
      {B : Type 0} (m : Cmd S A) {k k' : A → Cmd S B}
      → ((a : A) → Extends (k a) (k' a))
      → Extends (m >>= k) (m >>= k')
  then-Extends m later = bind-Extends (same-Extends {m = m}) later

  Extended-put_back :
      {T : Type 0} (up : S → T) (r r' : Run S A)
      → Extended r r'
      → Extended (put_back up r) (put_back up r')
  Extended-put_back up (ok a s) r' e = rw e refl
  Extended-put_back up (raised s) r' e = rw e refl
  Extended-put_back up fault r' e = rw e refl
  Extended-put_back up out_of_fuel r' e = tt

  -- A command on a part of the state.
  pub part-Extends :
      {T : Type 0} {m m' : Cmd S A} (down : T → S) (up : T → S → T)
      → Extends m m'
      → Extends (λ t. put_back (up t) (m (down t))) (λ t. put_back (up t) (m' (down t)))
  part-Extends {m} {m'} down up p = record {
    runs = λ t. Extended-put_back (up t) (m (down t)) (m' (down t)) (p.runs (down t));
  }
