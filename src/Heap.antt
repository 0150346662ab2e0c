-- ===== src/Heap.antt =====
-- The heap of one node type: nodes with a `next` pointer at addresses.
pub mod Cells
pub mod Ends
pub mod Keyed
pub mod Overlay
pub mod Seg
use profi_lua.Base.{
  ◌≡◌, fun_ext, arith, ℕ, Option, none, some, ◌==◌, if◌then◌else◌, Run, ok, fault, Cmd, pure, ◌>>=◌,
  ◌>>◌, and_then,
}

abbrev pub Ptr : Type 0
Ptr = ℕ

abbrev pub null : Ptr
null = 0

module _ (A : Type 0) where
  pub record Node : Type 0 where
    pub value : A
    pub next : Ptr

  abbrev pub Heap : Type 0
  Heap = Ptr → Option Node

abbrev pub node : {A : Type 0} → A → Ptr → Node A
node v q = record { value = v; next = q }

module _ {A : Type 0} where
  unfoldable pub write : Heap A → Ptr → Option (Node A) → Heap A
  write h p c a = if a == p then c else h a

  pub write_twice :
      (h : Heap A) (p : Ptr) (c d : Option (Node A)) → write (write h p c) p d ≡ write h p d
  unfolding write
  write_twice h p c d = fun_ext λ a. ground arith

  -- A write of `some n` fills the address, one of `none` gives it back.
  abbrev pub store : Ptr → Option (Node A) → Cmd (Heap A) (Unit {0})
  store p c h = ok tt (write h p c)

  -- `*p` is undefined at `NULL` and at an address that holds no node.
  unfoldable pub load : Ptr → Cmd (Heap A) (Node A)
  load p h = if p == null then fault else elim (h p) [ none ↦ fault | some n ↦ ok n h ]

  unfoldable pub set_next : Ptr → Ptr → Cmd (Heap A) (Unit {0})
  set_next p q = do n ← load p; store p (some (record n { next = q }))

  unfoldable pub set_value : Ptr → A → Cmd (Heap A) (Unit {0})
  set_value p v = do n ← load p; store p (some (record n { value = v }))

  -- `free(NULL)` does nothing.
  unfoldable pub free : Ptr → Cmd (Heap A) (Unit {0})
  free p = if p == null then pure tt else load p >> store p none
