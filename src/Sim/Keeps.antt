-- ===== src/Sim/Keeps.antt =====
-- Commands that leave the console as it is.
pub mod Start
use profi_lua.Base.{
  ℕ, zero, suc, ◌-◌, ◌≡◌, refl, ◌∙◌, Bool, true, false, Option, none, some, List, [], ◌∷◌, ltb,
  ◌==◌, if◌then◌else◌, length, Cmd, Run, ok, raised, fault, out_of_fuel, pure, get, modify, raise,
  crash, and_then, ◌>>=◌, ◌>>◌, After, put_back, Option-cases, Bool-cases, inl, inr, pos,
}
use profi_lua.Lua.{Lua, Value, Number, int, integer}
use profi_lua.Lua.Stack.{value, new_table}
use profi_lua.Sim.State.{Name, Script, Vm, Sim, on_vm}
use profi_lua.Sim.Worlds.{
  Runs, Turn, world_of, Runs-trans, Moves, here, next, push-Moves, top-Moves, pop-Moves,
  push_global-Moves, push_entry-Moves, call_one-Moves,
}
use profi_lua.Sim.Vm.{
  is_function, is_table, string_of, number_of, push, top, pop, push_global, call_one,
}
use profi_lua.Sim.Script.{
  open_lua_script, close_lua_script, get_input_name, get_output_name, script_name, c_string,
  is_marked, change,
}
use profi_lua.Sim.Outputs.{
  input_entries, push_inputs, read_outputs, read_numbers, read_user, store_number, store_string,
  store_user, in_marked, out_marked, input_at,
}
use profi_lua.Sim.Calculate.{
  step, calculate_results, start_results, stop_script, each_name, set_error, set_output, pl_error,
}

module _ {W : Type 0} (script : Script W) where
  abbrev pub Same : Sim W → Sim W → Type 0
  Same s t =
      (t.console ≡ s.console) × (t.windows ≡ s.windows) × Runs script (world_of s) (world_of t)

  -- However the command ends, the console is as before, and the world has changed by the Lua library
  -- only.
  pub record Keeps {A : Type 0} (m : Cmd (Sim W) A) : Type 0 where
    pub same : (s : Sim W) → After (Same s) (m s)

module _ {W : Type 0} {script : Script W} where
  After-Same :
      {B : Type 0} (s t : Sim W) (r : Run (Sim W) B)
      → Same script s t
      → After (Same script t) r
      → After (Same script s) r
  After-Same s t (ok b u) p q = (q.0 ∙ p.0, q.1 ∙ p.1, Runs-trans p.2 q.2)
  After-Same s t (raised u) p q = (q.0 ∙ p.0, q.1 ∙ p.1, Runs-trans p.2 q.2)
  After-Same s t fault p q = tt
  After-Same s t out_of_fuel p q = tt

  After-bind :
      {A B : Type 0} (s : Sim W) (r : Run (Sim W) A) (k : A → Cmd (Sim W) B)
      → After (Same script s) r
      → ((a : A) → Keeps script (k a))
      → After (Same script s) (and_then r k)
  After-bind s (ok a t) k p rest = After-Same s t (k a t) p ((rest a).same t)
  After-bind s (raised t) k p rest = p
  After-bind s fault k p rest = tt
  After-bind s out_of_fuel k p rest = tt

  pub bind-Keeps :
      {A B : Type 0} {m : Cmd (Sim W) A} {k : A → Cmd (Sim W) B}
      → Keeps script m
      → ((a : A) → Keeps script (k a))
      → Keeps script (m >>= k)
  bind-Keeps {m} {k} p rest = record { same = λ s. After-bind s (m s) k (p.same s) rest }

  pub if-Keeps :
      {A : Type 0} (b : Bool) {m n : Cmd (Sim W) A}
      → Keeps script m
      → Keeps script n
      → Keeps script (if b then m else n)
  if-Keeps true p q = p
  if-Keeps false p q = q

  pub on_vm-Keeps : {A : Type 0} {m : Cmd (Vm W) A} → Moves script m → Keeps script (on_vm m)
  on_vm-Keeps {m} moves = record {
    same = λ s. elim (Option-cases s.lua) [
      | inl e ↦ rw e tt
      | inr (vm, e) ↦ rw e (put_back-Same s vm (m vm) (moves.runs vm))
    ];
  }
    where
      put_back-Same :
          {A : Type 0} (s : Sim W) (vm : Vm W) (r : Run (Vm W) A)
          → After (λ t. Runs script vm.world t.world) r
          → After
              (Same script (record s { lua = some vm }))
              (put_back (λ v. record s { lua = some v }) r)
      put_back-Same s vm (ok a v) p = (refl, refl, p)
      put_back-Same s vm (raised v) p = (refl, refl, p)
      put_back-Same s vm fault p = tt
      put_back-Same s vm out_of_fuel p = tt

  pub get-Keeps : Keeps script get
  get-Keeps = record { same = λ s. (refl, refl, here) }

  pub pure-Keeps : {A : Type 0} (a : A) → Keeps script (pure a)
  pure-Keeps a = record { same = λ s. (refl, refl, here) }

module _ {W : Type 0} (lua : Lua) (script : Script W) where
  pub open_lua_script-Keeps : Keeps script (open_lua_script lua script)
  unfolding open_lua_script
  open_lua_script-Keeps = record {
    same = λ s. elim (Option-cases s.lua) [
      | inl e ↦ elim (Option-cases (script.open_lua s.idle)) [
        | inl e' ↦ rw (e, e') (refl, refl, here)
        | inr (w, e') ↦
            rw (e, e') (refl, refl, next (next here (Turn.opens e')) (Turn.runs_file s.file_num w))
      ]
      | inr (vm, e) ↦ rw e (refl, refl, next here (Turn.runs_file s.file_num vm.world))
    ];
  }

  pub close_lua_script-Keeps : Keeps script (close_lua_script lua script)
  unfolding close_lua_script
  close_lua_script-Keeps = record {
    same = λ s. elim (Option-cases s.lua) [
      | inl e ↦ rw e (refl, refl, here)
      | inr (vm, e) ↦ rw e (refl, refl, next here (Turn.closes vm.world))
    ];
  }

  pub in_marked-Keeps : (i : ℕ) → Keeps script (in_marked i)
  in_marked-Keeps i = record {
    same = λ s. elim (Bool-cases (ltb i 100)) [ inl t ↦ rw t (refl, refl, here) | inr f ↦ rw f tt ];
  }

  pub out_marked-Keeps : (i : ℕ) → Keeps script (out_marked i)
  out_marked-Keeps i = record {
    same = λ s. elim (Bool-cases (ltb i 100)) [ inl t ↦ rw t (refl, refl, here) | inr f ↦ rw f tt ];
  }

  pub set_error-Keeps : (b : Bool) → Keeps script (set_error b)
  set_error-Keeps b = record { same = λ s. (refl, refl, here) }

  pub set_output-Keeps : (i : ℕ) (n : Number) → Keeps script (set_output i n)
  set_output-Keeps i n = record { same = λ s. (refl, refl, here) }

  set_string-Keeps :
      (i : ℕ) (n : List ℕ) → Keeps script (modify λ s. record s { strings = change s.strings i n })
  set_string-Keeps i n = record { same = λ s. (refl, refl, here) }

  set_user-Keeps :
      (i : ℕ) (n : Number) → Keeps script (modify λ s. record s { user = change s.user i n })
  set_user-Keeps i n = record { same = λ s. (refl, refl, here) }

  pub store_number-Keeps : (i : ℕ) (o : Option Number) → Keeps script (store_number lua script i o)
  store_number-Keeps i (some n) = set_output-Keeps i n
  store_number-Keeps i none =
      bind-Keeps (set_output-Keeps i (integer (pos 0)))
        λ _. bind-Keeps (on_vm-Keeps (pop-Moves script)) λ _. set_error-Keeps true

  store_string-Keeps : (i : ℕ) (o : Option (List ℕ)) → Keeps script (store_string lua script i o)
  store_string-Keeps i (some str) = set_string-Keeps i (c_string str)
  store_string-Keeps i none =
      bind-Keeps (set_string-Keeps i [])
        λ _. bind-Keeps (on_vm-Keeps (pop-Moves script)) λ _. set_error-Keeps true

  store_user-Keeps : (i : ℕ) (o : Option Number) → Keeps script (store_user lua script i o)
  store_user-Keeps i (some n) = set_user-Keeps i n
  store_user-Keeps i none =
      bind-Keeps (set_user-Keeps i (integer (pos 0))) λ _. on_vm-Keeps (pop-Moves script)

  read_outputs-Keeps : (count i : ℕ) → Keeps script (read_outputs lua script count i)
  unfolding read_outputs
  read_outputs-Keeps zero i = pure-Keeps tt
  read_outputs-Keeps (suc count) i = bind-Keeps (on_vm-Keeps (push_entry-Moves script i)) λ _.
      bind-Keeps (out_marked-Keeps i) λ m. bind-Keeps (on_vm-Keeps (top-Moves script)) λ v.
        bind-Keeps
          (if-Keeps m (store_string-Keeps i (string_of lua v))
            (store_number-Keeps i (number_of lua v)))
          λ _. bind-Keeps (on_vm-Keeps (pop-Moves script)) λ _. read_outputs-Keeps count (suc i)

  read_user-Keeps : (count i : ℕ) → Keeps script (read_user lua script count i)
  unfolding read_user
  read_user-Keeps zero i = pure-Keeps tt
  read_user-Keeps (suc count) i = bind-Keeps (on_vm-Keeps (push_entry-Moves script (suc i))) λ _.
      bind-Keeps (on_vm-Keeps (top-Moves script)) λ v.
        bind-Keeps (store_user-Keeps i (number_of lua v))
          λ _. bind-Keeps (on_vm-Keeps (pop-Moves script)) λ _. read_user-Keeps count (suc i)

  input_entries-Keeps :
      (text : ℕ → Value) (input : ℕ → Number) (count i : ℕ)
      → Keeps script (input_entries text input count i)
  unfolding input_entries
  input_entries-Keeps text input zero i = pure-Keeps []
  input_entries-Keeps text input (suc count) i =
      bind-Keeps (bind-Keeps (in_marked-Keeps i) λ m. pure-Keeps _)
        λ v. bind-Keeps (input_entries-Keeps text input count (suc i)) λ rest. pure-Keeps _

  pub push_inputs-Keeps :
      (text : ℕ → Value) (input : ℕ → Number) → Keeps script (push_inputs text input)
  unfolding push_inputs
  push_inputs-Keeps text input = bind-Keeps get-Keeps λ s.
      if-Keeps (s.num_inputs == 0) (record { same = λ s. (refl, refl, here) })
        (bind-Keeps (input_entries-Keeps text input (s.num_inputs - 1) 1)
          λ entries. on_vm-Keeps (push-Moves script (new_table entries)))

  pub stop_script-Keeps : (input : ℕ → Number) → Keeps script (stop_script lua script input)
  unfolding stop_script
  stop_script-Keeps input = bind-Keeps (on_vm-Keeps (push_global-Moves script Name.sim_stop)) λ _.
      bind-Keeps (on_vm-Keeps (top-Moves script)) λ f.
        bind-Keeps
          (if-Keeps (is_function f)
            (bind-Keeps (push_inputs-Keeps (λ i. int (pos 0)) input) λ _.
              bind-Keeps (on_vm-Keeps (call_one-Moves script)) λ _. on_vm-Keeps (pop-Moves script))
            (set_error-Keeps true))
          λ _. bind-Keeps (on_vm-Keeps (push_global-Moves script Name.user_table)) λ _.
            bind-Keeps (on_vm-Keeps (top-Moves script)) λ v.
              if-Keeps (is_table v)
                (bind-Keeps (read_user-Keeps 100 0) λ _. on_vm-Keeps (pop-Moves script))
                (pure-Keeps tt)

  pub step-Keeps : (input : ℕ → Number) → Keeps script (step lua script input)
  unfolding step calculate_results
  step-Keeps input = bind-Keeps get-Keeps λ s. if-Keeps s.error (set_output-Keeps 0 pl_error) (
      bind-Keeps (on_vm-Keeps (push_global-Moves script Name.calculate)) λ _.
        bind-Keeps (on_vm-Keeps (top-Moves script)) λ f.
          if-Keeps (is_function f)
            (bind-Keeps (push_inputs-Keeps (λ i. Value.string (s.strings i)) input) λ _.
              bind-Keeps (on_vm-Keeps (call_one-Moves script)) λ _.
                bind-Keeps (on_vm-Keeps (top-Moves script)) λ v.
                  if-Keeps (is_table v)
                    (bind-Keeps get-Keeps λ t.
                      bind-Keeps (read_outputs-Keeps (t.num_outputs - 1) 1)
                        λ _. on_vm-Keeps (pop-Moves script))
                    (set_error-Keeps true))
            (set_error-Keeps true))
