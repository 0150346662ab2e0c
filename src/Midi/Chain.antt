-- ===== src/Midi/Chain.antt =====
-- The operations on a list of opened devices, which src/profimidi.c has once for the output and
-- once for the input devices. `tmp` is a node, and the loops run on fuel.
pub mod Add
pub mod Find
pub mod Detach
use profi_lua.Base.{
  ℕ, zero, suc, Bool, ◌==◌, if◌then◌else◌, Cmd, out_of_fuel, pure, get, modify, ◌>>=◌, ◌>>◌,
}
use profi_lua.Heap.{Ptr, null, Heap, load, set_next}
use profi_lua.Midi.State.{Chain, on_heap}

module _ {A : Type 0} where
  -- for(;;){ if( p->Number == num ) break; if( p->next == NULL ) return NULL; p = p->next; }
  unfoldable pub find_loop : ℕ → (A → Bool) → Ptr → Cmd (Heap A) Ptr
  find_loop zero is p = λ _. out_of_fuel
  find_loop (suc k) is p = do
    n ← load p
    if is n.value then pure p else if n.next == null then pure null else find_loop k is n.next

  unfoldable pub get_entry : ℕ → (A → Bool) → Cmd (Chain A) Ptr
  unfolding find_loop
  get_entry k is = do c ← get; if c.head == null then pure null else on_heap (find_loop k is c.head)

  unfoldable pub add : Ptr → Cmd (Chain A) (Unit {0})
  add tmp =
      if tmp == null
      then pure tt
      else do c ← get; on_heap (set_next tmp c.head); modify λ c. record c { head = tmp }

  -- while( p != NULL ){ if( p->next == tmp ){ p->next = tmp->next; break; } p = p->next; }
  unfoldable pub unlink_loop : ℕ → (tmp p : Ptr) → Cmd (Heap A) (Unit {0})
  unlink_loop zero tmp p = λ _. out_of_fuel
  unlink_loop (suc k) tmp p = if p == null then pure tt else do
    n ← load p
    if n.next == tmp then (do t ← load tmp; set_next p t.next) else unlink_loop k tmp n.next

  unfoldable pub detach : ℕ → Ptr → Cmd (Chain A) (Unit {0})
  unfolding unlink_loop
  detach k tmp = do
    c ← get
    if c.head == tmp
        then (do t ← on_heap (load tmp); modify λ c. record c { head = t.next })
        else on_heap (unlink_loop k tmp c.head)
