-- ===== src/Midi/Chain/Add.antt =====
-- `AddMidiOut` and `AddMidiIn` of a new node.
use profi_lua.Base.{◌≡◌, ◌≢◌, none, some, List, ◌∷◌, ok}
use profi_lua.Heap.{Ptr, null, Heap, write, node}
use profi_lua.Heap.Seg.{
  Seg, cons, Points, Points-fresh, Points-write, not_null, set_next-ok, frame-write,
}
use profi_lua.Heap.Cells.{not_mem_of_none}
use profi_lua.Midi.Chain.{add}

module _ {A : Type 0} (h : Heap A) (head fresh : Ptr) (v : A) where
  -- The heap after `malloc` and after the node is put in front of the list.
  abbrev pub with_node : Heap A
  with_node = write h fresh (some (node v null))

  abbrev pub with_head : Heap A
  with_head = write with_node fresh (some (node v head))

module _ {A : Type 0} (h : Heap A) (head fresh : Ptr) (v : A) (ne : fresh ≢ null) where
  pub add-ok :
      add fresh (record { head = head; heap = with_node h head fresh v })
      ≡ ok tt (record { head = fresh; heap = with_head h head fresh v })
  unfolding add
  add-ok = let new = Points-fresh h fresh v null ne in rw (not_null new, set_next-ok new head)

  pub Points-with_head : Points (with_head h head fresh v) fresh v head
  Points-with_head = Points-write (Points-fresh h fresh v null ne) v head

  pub Seg-with_head :
      {xs : List (Ptr × A)}
      → Seg h null head xs
      → h fresh ≡ none
      → Seg (with_head h head fresh v) null fresh ((fresh, v) ∷ xs)
  Seg-with_head s unused =
      let out = not_mem_of_none fresh s unused in
      cons Points-with_head out
        (frame-write fresh (some (node v head)) (frame-write fresh (some (node v null)) s out) out)
