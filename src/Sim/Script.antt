-- ===== src/Sim/Script.antt =====
-- Opening and closing the script, the counts of pins, and their names.
use profi_lua.Base.{
  ℕ, ◌+◌, ◌%◌, Bool, true, false, Option, none, some, List, [], ◌∷◌, ◌++◌, ltb, length, ◌==◌,
  if◌then◌else◌, Cmd, ok, pure, get, modify, crash, ◌>>=◌, ◌>>◌, pos, u8_of,
}
use profi_lua.Lua.{Lua, Number, integer, int, truncate}
use profi_lua.Lua.Stack.{Pushed, value}
use profi_lua.Sim.State.{Name, Script, Vm, Sim, on_vm}
use profi_lua.Sim.Vm.{
  is_nil, is_function, number_of, string_of, push, top, pop, push_global, call_one,
}

-- "!ERROR!", "CONSOLE" and "ERROR"
abbrev pub error_name : List ℕ
error_name = 33 ∷ 69 ∷ 82 ∷ 82 ∷ 79 ∷ 82 ∷ 33 ∷ []

abbrev pub console_name : List ℕ
console_name = 67 ∷ 79 ∷ 78 ∷ 83 ∷ 79 ∷ 76 ∷ 69 ∷ []

abbrev pub error_pin_name : List ℕ
error_pin_name = 69 ∷ 82 ∷ 82 ∷ 79 ∷ 82 ∷ []

-- A C string ends at its first NUL.
abbrev pub c_string : List ℕ → List ℕ
c_string [] = []
c_string (c ∷ cs) = if c == 0 then [] else c ∷ c_string cs

-- '$' is 36.
abbrev pub is_marked : List ℕ → Bool
is_marked [] = false
is_marked (c ∷ cs) = c == 36

abbrev pub change {ℓ} : {A : Type ℓ} → (ℕ → A) → ℕ → A → ℕ → A
change f n a m = if m == n then a else f m

abbrev pub or_zero : Option Number → Number
or_zero none = integer (pos 0)
or_zero (some n) = n

module _ {W : Type 0} (lua : Lua) (script : Script W) where
  abbrev run_script : Vm W → Cmd (Sim W) Bool
  run_script vm s =
      let (left, w) = script.run_file s.file_num vm.world in
      ok true (record s { lua = some (record { stack = left ++ vm.stack; world = w }) })

  abbrev opened : Option W → Cmd (Sim W) Bool
  opened none = pure false
  opened (some w) = run_script (record { stack = []; world = w })

  -- A state that is open runs the file once more.
  abbrev open_or_run : Option (Vm W) → Cmd (Sim W) Bool
  open_or_run none s = opened (script.open_lua s.idle) s
  open_or_run (some vm) s = run_script vm s

  unfoldable pub open_lua_script : Cmd (Sim W) Bool
  open_lua_script s = open_or_run s.lua s

  abbrev close_or_not : Option (Vm W) → Cmd (Sim W) (Unit {0})
  close_or_not none = pure tt
  close_or_not (some vm) = modify λ s. record s { lua = none; idle = script.close_lua vm.world }

  unfoldable pub close_lua_script : Cmd (Sim W) (Unit {0})
  close_lua_script s = close_or_not s.lua s

  -- (uchar)lua_tonumber(L, -1) + 1, as an `uchar`.
  abbrev pub pins : Pushed → ℕ
  pins v = (u8_of (truncate (or_zero (number_of lua v))) + 1) % 256

  unfoldable pub c_num_inputs_ex : (user : ℕ → Number) → Cmd (Sim W) ℕ
  unfolding open_lua_script close_lua_script
  c_num_inputs_ex user = do
    modify λ s. record s { file_num = u8_of (truncate (user 100)) }
    is_open ← open_lua_script
    if is_open
        then (do
          on_vm (push_global script Name.num_inputs)
          v ← on_vm top
          if is_nil v then pure tt else modify (λ s. record s { num_inputs = pins v })
          close_lua_script)
        else modify (λ s. record s { error = true })
    s ← get
    pure s.num_inputs

  unfoldable pub c_num_outputs_ex : (user : ℕ → Number) → Cmd (Sim W) ℕ
  unfolding open_lua_script close_lua_script
  c_num_outputs_ex user = do
    modify λ s. record s { file_num = u8_of (truncate (user 100)) }
    is_open ← open_lua_script
    if is_open
        then (do
          on_vm (push_global script Name.num_outputs)
          v ← on_vm top
          if is_nil v then pure tt else modify (λ s. record s { num_outputs = pins v })
          close_lua_script)
        else modify (λ s. record s { error = true })
    s ← get
    pure s.num_outputs

  -- gInStrMarker[channel] = 1, and the same for the outputs. The arrays have 100 elements.
  abbrev pub mark_in : ℕ → Cmd (Sim W) (Unit {0})
  mark_in channel =
      if ltb channel 100
      then modify (λ s. record s { in_marker = change s.in_marker channel true })
      else crash

  abbrev pub mark_out : ℕ → Cmd (Sim W) (Unit {0})
  mark_out channel =
      if ltb channel 100
      then modify (λ s. record s { out_marker = change s.out_marker channel true })
      else crash

  -- strcpy(Name, lua_tostring(L, -1)) for a buffer of `room` bytes, and the test of its first
  -- character. What is no string leaves the name.
  abbrev pub copied : (room : ℕ) → Cmd (Sim W) (Unit {0}) → Option (List ℕ) → Cmd (Sim W) (List ℕ)
  copied room mark none = pure error_name
  copied room mark (some str) =
      let name = c_string str in
      if ltb (length name) room
      then if is_marked name then mark >> pure name else pure name
      else crash

  -- The part that GetInputName and GetOutputName share: the name of a pin from the script.
  unfoldable pub script_name :
      Name → (mark : Cmd (Sim W) (Unit {0})) → (channel room : ℕ) → Cmd (Sim W) (List ℕ)
  unfolding open_lua_script close_lua_script
  script_name name mark channel room = do
    is_open ← open_lua_script
    if is_open
        then (do
          on_vm (push_global script name)
          f ← on_vm top
          result ←
              (if is_function f
                then (do
                  on_vm (push (value (int (pos channel))))
                  on_vm (call_one script)
                  v ← on_vm top
                  str ← copied room mark (string_of lua v)
                  on_vm pop
                  pure str)
                else pure error_name)
          close_lua_script
          pure result)
        else pure error_name

  -- The result is what `Name` holds in the end. `error_name` is copied first, and no other constant
  -- is longer.
  unfoldable pub get_input_name : (channel room : ℕ) → Cmd (Sim W) (List ℕ)
  unfolding script_name
  get_input_name channel room =
      if ltb (length error_name) room
      then (if channel == 0
          then pure console_name
          else script_name Name.input_name (mark_in channel) channel room)
      else crash

  unfoldable pub get_output_name : (channel room : ℕ) → Cmd (Sim W) (List ℕ)
  unfolding script_name
  get_output_name channel room =
      if ltb (length error_name) room
      then (if channel == 0
          then pure error_pin_name
          else script_name Name.output_name (mark_out channel) channel room)
      else crash
