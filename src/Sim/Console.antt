-- ===== src/Sim/Console.antt =====
-- The host's flag for the debug console against what it has asked of the console.
use profi_lua.Base.{
  ℕ, ◌≡◌, refl, sym, ◌∙◌, pos, Bool, true, false, not, ◌&&◌, List, [], ◌∷◌, Cmd, Run, ok, raised,
  fault, out_of_fuel, and_then, After, After-mono, ◌>>=◌, ◌>>◌, get, modify, pure, Bool-cases, inl,
  inr, if◌then◌else◌, ◌==◌,
}
use profi_lua.Lua.{Lua, Number, int}
use profi_lua.Sim.State.{Name, Script, Sim, ConsoleCall}
use profi_lua.Sim.Worlds.{
  Runs, Turn, world_of, Runs-trans, Moves, here, next, top-Moves, push_global-Moves, call_one-Moves,
}
use profi_lua.Sim.Vm.{is_function}
use profi_lua.Sim.Script.{get_input_name, get_output_name}
use profi_lua.Sim.Calculate.{
  c_calculate_ex, c_sim_start_flaw, start_script, c_sim_stop, show_console, wants_console, window,
  pl_error, values_from,
}
use profi_lua.Sim.Keeps.{
  Same, Keeps, bind-Keeps, if-Keeps, on_vm-Keeps, get-Keeps, pure-Keeps, open_lua_script-Keeps,
  close_lua_script-Keeps, push_inputs-Keeps, stop_script-Keeps, step-Keeps, set_error-Keeps,
  set_output-Keeps,
}
use profi_lua.Sim.Keeps.Start.{
  get_input_name-Keeps, get_output_name-Keeps, each_name-Keeps, start_results-Keeps,
}

-- Whether the console is open after the calls, of which the last stands first.
abbrev pub is_shown : List ConsoleCall → Bool
is_shown [] = false
is_shown (ConsoleCall.turned_on ∷ cs) = true
is_shown (ConsoleCall.topped ∷ cs) = is_shown cs
is_shown (ConsoleCall.turned_off ∷ cs) = false

-- The console is closed only when it is open: DebugConsoleOff closes the files that DebugConsoleOn
-- has opened, and `fclose(NULL)` is undefined.
abbrev pub ClosesOpen : List ConsoleCall → Type 0
ClosesOpen [] = Unit {0}
ClosesOpen (ConsoleCall.turned_on ∷ cs) = ClosesOpen cs
ClosesOpen (ConsoleCall.topped ∷ cs) = ClosesOpen cs
ClosesOpen (ConsoleCall.turned_off ∷ cs) = (is_shown cs ≡ true) × ClosesOpen cs

module _ {W : Type 0} where
  -- gConsole says whether the console is open, and it was only closed when open.
  pub record Agrees (s : Sim W) : Type 0 where
    pub flag : s.console ≡ is_shown s.windows
    pub closes : ClosesOpen s.windows

module _ {W : Type 0} (script : Script W) where
  -- However the command ends, the two still agree, and the world has changed by the Lua library only.
  pub record Maintains {A : Type 0} (m : Cmd (Sim W) A) : Type 0 where
    pub agrees : (s : Sim W) → Agrees s → After Agrees (m s)
    pub runs : (s : Sim W) → After (λ t. Runs script (world_of s) (world_of t)) (m s)

  Same-Agrees :
      {A : Type 0} (s : Sim W) (r : Run (Sim W) A)
      → Agrees s
      → After (Same script s) r
      → After Agrees r
  Same-Agrees s (ok b t) a p = record { flag = rw (p.0, p.1) a.flag; closes = rw p.1 a.closes }
  Same-Agrees s (raised t) a p = record { flag = rw (p.0, p.1) a.flag; closes = rw p.1 a.closes }
  Same-Agrees s fault a p = tt
  Same-Agrees s out_of_fuel a p = tt

module _ {W : Type 0} {script : Script W} where
  pub Keeps-Maintains : {A : Type 0} {m : Cmd (Sim W) A} → Keeps script m → Maintains script m
  Keeps-Maintains {m} p = record {
    agrees = λ s a. Same-Agrees script s (m s) a (p.same s);
    runs = λ s. After-mono (m s) (p.same s) (λ t q. q.2);
  }

  After-bind :
      {A B : Type 0} (r : Run (Sim W) A) (k : A → Cmd (Sim W) B)
      → After Agrees r
      → ((a : A) → Maintains script (k a))
      → After Agrees (and_then r k)
  After-bind (ok a t) k p later = (later a).agrees t p
  After-bind (raised t) k p later = p
  After-bind fault k p later = tt
  After-bind out_of_fuel k p later = tt

  Runs-bind :
      {A B : Type 0} (w : W) (r : Run (Sim W) A) (k : A → Cmd (Sim W) B)
      → After (λ t. Runs script w (world_of t)) r
      → ((a : A) → Maintains script (k a))
      → After (λ t. Runs script w (world_of t)) (and_then r k)
  Runs-bind w (ok a t) k p later = After-mono (k a t) ((later a).runs t) (λ u q. Runs-trans p q)
  Runs-bind w (raised t) k p later = p
  Runs-bind w fault k p later = tt
  Runs-bind w out_of_fuel k p later = tt

  pub bind-Maintains :
      {A B : Type 0} {m : Cmd (Sim W) A} {k : A → Cmd (Sim W) B}
      → Maintains script m
      → ((a : A) → Maintains script (k a))
      → Maintains script (m >>= k)
  bind-Maintains {m} {k} p later = record {
    agrees = λ s a. After-bind (m s) k (p.agrees s a) later;
    runs = λ s. Runs-bind (world_of s) (m s) k (p.runs s) later;
  }

  if-Maintains :
      {A : Type 0} (b : Bool) {m n : Cmd (Sim W) A}
      → Maintains script m
      → Maintains script n
      → Maintains script (if b then m else n)
  if-Maintains true p q = p
  if-Maintains false p q = q

  show_console-Maintains : (input : ℕ → Number) → Maintains script (show_console input)
  unfolding show_console
  show_console-Maintains input = bind-Maintains (Keeps-Maintains get-Keeps) λ s.
      bind-Maintains
        (if-Maintains (wants_console input && not s.console)
          (record { agrees = λ s a. record { flag = refl; closes = a.closes }; runs = λ s. here })
          (Keeps-Maintains (pure-Keeps tt)))
        λ _. bind-Maintains (Keeps-Maintains get-Keeps) λ t.
          if-Maintains (t.console && (t.console_top == 0))
            (record {
              agrees = λ s a. record { flag = a.flag; closes = a.closes };
              runs = λ s. here;
            })
            (Keeps-Maintains (pure-Keeps tt))

  turn_on-Maintains : Maintains script (do
    window ConsoleCall.turned_on
    window ConsoleCall.topped
    modify λ s. record s { console = true; console_top = 0 })
  turn_on-Maintains = record {
    agrees = λ s a. record { flag = refl; closes = a.closes };
    runs = λ s. here;
  }

module _ {W : Type 0} (lua : Lua) (script : Script W) where
  start_script-Keeps : (input : ℕ → Number) → Keeps script (start_script lua script input)
  unfolding start_script
  start_script-Keeps input = bind-Keeps no_marks-Keeps λ _. bind-Keeps get-Keeps λ s.
      bind-Keeps
        (each_name-Keeps lua script (λ i. get_input_name lua script i 100) s.num_inputs 0
          (λ i. get_input_name-Keeps lua script i 100))
        λ _. bind-Keeps get-Keeps λ s.
          bind-Keeps
            (each_name-Keeps lua script (λ i. get_output_name lua script i 100) s.num_outputs 0
              (λ i. get_output_name-Keeps lua script i 100))
            λ _. bind-Keeps (open_lua_script-Keeps lua script) λ is_open.
              if-Keeps is_open
                (bind-Keeps get-Keeps λ s.
                  bind-Keeps (on_vm-Keeps (user-Moves (values_from s.user 101 0))) λ _.
                    bind-Keeps (on_vm-Keeps (push_global-Moves script Name.sim_start)) λ _.
                      bind-Keeps (on_vm-Keeps (top-Moves script)) λ f.
                        if-Keeps (is_function f)
                          (bind-Keeps (push_inputs-Keeps lua script (λ i. int (pos 0)) input) λ _.
                            bind-Keeps (on_vm-Keeps (call_one-Moves script))
                              λ _. start_results-Keeps lua script)
                          (pure-Keeps tt))
                (pure-Keeps tt)
    where
      user-Moves :
          (user : List Number)
          → Moves script (λ vm. ok tt (record vm { world = script.set_user user vm.world }))
      user-Moves user = record { runs = λ vm. next here (Turn.sets_user user vm.world) }

      no_marks-Keeps :
          Keeps script (modify λ s. record s { in_marker = λ _. false; out_marker = λ _. false })
      no_marks-Keeps = record { same = λ s. (refl, refl, here) }

  c_sim_start_flaw-Maintains :
      (input : ℕ → Number) → Maintains script (c_sim_start_flaw lua script input)
  unfolding c_sim_start_flaw
  c_sim_start_flaw-Maintains input =
      bind-Maintains (Keeps-Maintains (set_error-Keeps lua script true)) λ _.
        bind-Maintains (Keeps-Maintains (set_output-Keeps lua script 0 pl_error)) λ _.
          bind-Maintains
            (if-Maintains (wants_console input) turn_on-Maintains (Keeps-Maintains (pure-Keeps tt)))
            λ _. Keeps-Maintains (start_script-Keeps input)

  pub c_calculate_ex-Maintains :
      (input : ℕ → Number) → Maintains script (c_calculate_ex lua script input)
  unfolding c_calculate_ex
  c_calculate_ex-Maintains input = bind-Maintains (Keeps-Maintains get-Keeps) λ s.
      bind-Maintains
        (if-Maintains s.override
          (bind-Maintains (c_sim_start_flaw-Maintains input) λ _. Keeps-Maintains started-Keeps)
          (Keeps-Maintains (pure-Keeps tt)))
        λ _.
          bind-Maintains (show_console-Maintains input)
            λ _. Keeps-Maintains (step-Keeps lua script input)
    where
      started-Keeps : Keeps script (modify λ s. record s { override = false })
      started-Keeps = record { same = λ s. (refl, refl, here) }

  turn_off-Maintains : Maintains script (
      get >>= λ t.
      if t.console
      then (window ConsoleCall.turned_off
          >> modify λ s. record s { console = false; console_top = 0 })
      else pure tt)
  turn_off-Maintains = record {
    agrees = λ s a. elim (Bool-cases s.console) [
      | inl t ↦ rw t (record { flag = refl; closes = (sym a.flag ∙ t, a.closes) })
      | inr f ↦ rw f (record { flag = sym f ∙ a.flag; closes = a.closes })
    ];
    runs = λ s. elim (Bool-cases s.console) [ inl t ↦ rw t here | inr f ↦ rw f here ];
  }

  pub c_sim_stop-Maintains : (input : ℕ → Number) → Maintains script (c_sim_stop lua script input)
  unfolding c_sim_stop
  c_sim_stop-Maintains input = bind-Maintains (Keeps-Maintains get-Keeps) λ s.
      bind-Maintains
        (Keeps-Maintains (if-Keeps s.error (pure-Keeps tt) (stop_script-Keeps lua script input)))
        λ _.
          bind-Maintains (Keeps-Maintains (close_lua_script-Keeps lua script))
            λ _. turn_off-Maintains
