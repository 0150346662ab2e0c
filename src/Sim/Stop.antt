-- ===== src/Sim/Stop.antt =====
-- The stop of a simulation with a script that answers properly, and PUser read back.
use profi_lua.Base.{
  ℕ, zero, suc, ◌-◌, ◌+◌, ◌≤◌, ◌<◌, ◌≡◌, ◌∙◌, refl, ap, fun_ext, true, false, none, some, List, ◌∷◌,
  if◌then◌else◌, arith, Run, ok, Bool-cases, inl, inr, pos,
}
use profi_lua.Lua.{Lua, Value, Number, int}
use profi_lua.Lua.Stack.{Pushed, value, new_table}
use profi_lua.Sim.State.{Name, Script, Sim, ConsoleCall}
use profi_lua.Sim.Vm.{number_of}
use profi_lua.Sim.Script.{change, close_lua_script}
use profi_lua.Sim.Outputs.{read_user}
use profi_lua.Sim.Calculate.{c_sim_stop, stop_script}
use profi_lua.Sim.Results.{updated, updated-zero, updated-hit, vm, within}
use profi_lua.Sim.Step.{inputs_of, push_inputs-inputs_of}

module _ {W : Type 0} (lua : Lua) (script : Script W) (t : ℕ) (w : W) where
  -- The entry for PUser[i]. Lua counts from 1.
  abbrev pub user_entry : ℕ → Pushed
  user_entry i = value (script.entry t (suc i) w)

  -- PUser from the index `i` on gets the numbers of the table.
  abbrev pub new_user : (i count : ℕ) → (ℕ → Number) → ℕ → Number
  new_user i count = updated (λ n. n) (λ _. true) (λ m. number_of lua (user_entry m)) i count

  same_user :
      (s : Sim W) {u u' : ℕ → Number}
      → ((m : ℕ) → u m ≡ u' m)
      → Path
          (Run (Sim W) (Unit {0}))
          (ok tt (record s { user = u }))
          (ok tt (record s { user = u' }))
  same_user s e = ap (λ f. ok tt (record s { user = f })) (fun_ext e)

  read_user-new_user :
      (count i : ℕ) (s : Sim W) (rest : List Pushed)
      → s.lua ≡ vm lua script t w rest
      → ((m : ℕ) → i ≤ m → m < i + count → (n : Number) × (number_of lua (user_entry m) ≡ some n))
      → read_user lua script count i s ≡ ok tt (record s { user = new_user i count s.user })
  unfolding read_user
  read_user-new_user zero i s rest is_open numbers =
      same_user s (updated-zero (λ n. n) (λ _. true) (λ m. number_of lua (user_entry m)) i s.user)
  read_user-new_user (suc count) i s rest is_open numbers =
      let (n, f) = numbers i (omega arith) (omega arith) in
      rw (is_open, f)
        (read_user-new_user count (suc i)
            (record s { lua = vm lua script t w rest; user = change s.user i n }) rest refl
            (λ m from to. numbers m (omega arith) (omega arith))
          ∙ same_user (record s { lua = vm lua script t w rest })
              (λ m.
                updated-hit (λ n. n) (λ _. true) (λ m. number_of lua (user_entry m)) i count s.user
                  n m refl f))

  pub new_user-number :
      (user : ℕ → Number) (i : ℕ)
      → i < 100
      → (n : Number) × (number_of lua (user_entry i) ≡ some n)
      → number_of lua (user_entry i) ≡ some (new_user 0 100 user i)
  new_user-number user i to (n, f) =
      let inside : within 0 100 i ≡ true = ground arith in rw (f, inside)

module _ {W : Type 0} where
  -- A proper answer at the stop, of a script in the state `w`: `gSimStop` is a function that takes
  -- the inputs, and then `gPUser` is a table with a number for each of its first 100 indices.
  pub record Stops (lua : Lua) (script : Script W) (s : Sim W) (input : ℕ → Number) (w : W)
      : Type 0 where
    pub function : ℕ
    pub result : Value
    pub world : W
    pub table : ℕ
    pub defined : script.global Name.sim_stop w ≡ Value.function function
    pub answer :
        script.call function
          (new_table (inputs_of s.in_marker (λ i. int (pos 0)) input (s.num_inputs - 1) 1))
          w
        ≡ some (result, world)
    pub user_table : script.global Name.user_table world ≡ Value.table table
    pub numbers :
        (i : ℕ)
        → i < 100
        → (n : Number) × (number_of lua (user_entry lua script table world i) ≡ some n)

  -- What CSimStop does with the console.
  abbrev pub closed : Sim W → Sim W
  closed s =
      if s.console
      then record s {
        windows = ConsoleCall.turned_off ∷ s.windows;
        console = false;
        console_top = 0;
      }
      else s

  -- The console is closed after it, and only the console changes.
  pub record IsClosed (s z : Sim W) : Type 0 where
    pub console_top : ℕ
    pub windows : List ConsoleCall
    pub state : z ≡ record s { console = false; console_top = console_top; windows = windows }

  pub closed-IsClosed : (s : Sim W) → IsClosed s (closed s)
  closed-IsClosed s = elim (Bool-cases s.console) [
    | inl t ↦
        rw t
          (record { console_top = 0; windows = ConsoleCall.turned_off ∷ s.windows; state = refl })
    | inr f ↦ rw f (record { console_top = s.console_top; windows = s.windows; state = refl })
  ]

  -- `CSimStop` of a simulation without an error, when the script's `gSimStop` is a function that
  -- takes the table of inputs, and its `gPUser` then is a table of at least 100 numbers: PUser[0] to
  -- PUser[99] get these numbers, the script is closed, what it leaves behind is kept, and the console is
  -- closed if it is open. There are at most 100 inputs, and at least the console input.
  pub c_sim_stop-closed :
      (lua : Lua) (script : Script W) (s : Sim W) (input : ℕ → Number) (stack : List Pushed) (w : W)
      → s.error ≡ false
      → s.lua ≡ some (record { stack = stack; world = w })
      → 1 ≤ s.num_inputs
      → s.num_inputs ≤ 100
      → (a : Stops lua script s input w)
      → c_sim_stop lua script input s
        ≡ ok tt (
            closed (record s {
              lua = none;
              idle = script.close_lua a.world;
              user = new_user lua script a.table a.world 0 100 s.user;
            }))
  unfolding c_sim_stop stop_script close_lua_script
  c_sim_stop-closed lua script s input stack w no_error is_open some_in few_in a =
      rw
        (
          no_error,
          is_open,
          a.defined,
          push_inputs-inputs_of (λ i. int (pos 0)) input
              (record s {
                error = false;
                lua =
                    some (record { stack = value (Value.function a.function) ∷ stack; world = w });
              })
              (record { stack = value (Value.function a.function) ∷ stack; world = w }) refl some_in
              few_in,
          a.answer,
          a.user_table,
          read_user-new_user lua script a.table a.world 100 0
              (record s { error = false; lua = vm lua script a.table a.world stack }) stack refl
              (λ m from to. a.numbers m (omega arith)),
        )
        (elim (Bool-cases s.console) [ inl t ↦ rw t | inr f ↦ rw f ])
