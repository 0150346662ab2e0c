-- ===== src/Sim/Outputs.antt =====
-- The loops of src/profilua.c over the pins: the table of inputs, and the results read back.
use profi_lua.Base.{
  ℕ, zero, suc, ◌-◌, Bool, true, Option, none, some, List, [], ◌∷◌, ltb, ◌==◌, if◌then◌else◌, Cmd,
  ok, pure, get, modify, raise, crash, ◌>>=◌, ◌>>◌, pos,
}
use profi_lua.Lua.{Lua, Value, Number, integer, int}
use profi_lua.Lua.Stack.{new_table}
use profi_lua.Sim.State.{Script, Sim, on_vm}
use profi_lua.Sim.Vm.{number_of, string_of, push, top, pop, push_entry}
use profi_lua.Sim.Script.{c_string, change}

module _ {W : Type 0} where
  -- gInStrMarker[i] and gOutStrMarker[i], in arrays of 100 elements.
  abbrev pub in_marked : ℕ → Cmd (Sim W) Bool
  in_marked i s = if ltb i 100 then ok (s.in_marker i) s else crash s

  abbrev pub out_marked : ℕ → Cmd (Sim W) Bool
  out_marked i s = if ltb i 100 then ok (s.out_marker i) s else crash s

  -- What the script gets for input `i`. `text` is PString[i], or 0 where there is no PString.
  abbrev pub input_at : (text : ℕ → Value) (input : ℕ → Number) → ℕ → Cmd (Sim W) Value
  input_at text input i = do
    marked ← in_marked i
    pure (if marked then text i else Value.number (input i))

  -- for(i=1;i<gNumInputs;i++), with `count` rounds left
  unfoldable pub input_entries :
      (text : ℕ → Value) (input : ℕ → Number) (count i : ℕ) → Cmd (Sim W) (List (Value × Value))
  input_entries text input zero i = pure []
  input_entries text input (suc count) i = do
    v ← input_at text input i
    rest ← input_entries text input count (suc i)
    pure ((int (pos i), v) ∷ rest)

  -- A table for -1 elements, when there is no pin at all, makes Lua fail for lack of memory.
  unfoldable pub push_inputs : (text : ℕ → Value) (input : ℕ → Number) → Cmd (Sim W) (Unit {0})
  unfolding input_entries
  push_inputs text input = do
    s ← get
    if s.num_inputs == 0 then raise else do
      entries ← input_entries text input (s.num_inputs - 1) 1
      on_vm (push (new_table entries))

  module _ (lua : Lua) (script : Script W) where
    -- A value that is no number, or no string, is removed here, and then once more.
    abbrev pub store_number : ℕ → Option Number → Cmd (Sim W) (Unit {0})
    store_number i (some n) = modify λ s. record s { output = change s.output i n }
    store_number i none = do
      modify λ s. record s { output = change s.output i (integer (pos 0)) }
      on_vm pop
      modify λ s. record s { error = true }

    abbrev pub store_string : ℕ → Option (List ℕ) → Cmd (Sim W) (Unit {0})
    store_string i (some str) = modify λ s. record s { strings = change s.strings i (c_string str) }
    store_string i none = do
      modify λ s. record s { strings = change s.strings i [] }
      on_vm pop
      modify λ s. record s { error = true }

    -- The loop of CCalculateEx over the table on top of the stack.
    unfoldable pub read_outputs : (count i : ℕ) → Cmd (Sim W) (Unit {0})
    read_outputs zero i = pure tt
    read_outputs (suc count) i = do
      on_vm (push_entry script i)
      marked ← out_marked i
      v ← on_vm top
      if marked then store_string i (string_of lua v) else store_number i (number_of lua v)
      on_vm pop
      read_outputs count (suc i)

    -- The loop of CSimStartFlaw, which leaves the string outputs as they are.
    unfoldable pub read_numbers : (count i : ℕ) → Cmd (Sim W) (Unit {0})
    read_numbers zero i = pure tt
    read_numbers (suc count) i = do
      on_vm (push_entry script i)
      marked ← out_marked i
      v ← on_vm top
      if marked then pure tt else store_number i (number_of lua v)
      on_vm pop
      read_numbers count (suc i)

    abbrev pub store_user : ℕ → Option Number → Cmd (Sim W) (Unit {0})
    store_user i (some n) = modify λ s. record s { user = change s.user i n }
    store_user i none =
        modify (λ s. record s { user = change s.user i (integer (pos 0)) }) >> on_vm pop

    -- The loop of CSimStop over the table `gPUser`. Lua counts from 1.
    unfoldable pub read_user : (count i : ℕ) → Cmd (Sim W) (Unit {0})
    read_user zero i = pure tt
    read_user (suc count) i = do
      on_vm (push_entry script (suc i))
      v ← on_vm top
      store_user i (number_of lua v)
      on_vm pop
      read_user count (suc i)
