-- ===== src/Sim/Whole/Shown.antt =====
-- What CCalculateEx does with the console before a step.
use profi_lua.Base.{
  ℕ, ◌≡◌, Bool, true, false, not, ◌&&◌, List, ◌∷◌, ◌+◌, ◌%◌, ◌==◌, ok, Bool-cases, inl, inr,
}
use profi_lua.Lua.{Number}
use profi_lua.Sim.State.{Sim, ConsoleCall}
use profi_lua.Sim.Calculate.{show_console, wants_console}

module _ {W : Type 0} where
  -- Only the console and its flags change.
  pub record Shown (s : Sim W) (input : ℕ → Number) : Type 0 where
    pub console : Bool
    pub console_top : ℕ
    pub windows : List ConsoleCall
    pub result :
        show_console input s
        ≡ ok tt (record s { console = console; console_top = console_top; windows = windows })

  raised_once :
      (s : Sim W) (input : ℕ → Number)
      → wants_console input && not s.console ≡ false
      → Shown s input
  unfolding show_console
  raised_once s input off = elim (Bool-cases (s.console && (s.console_top == 0))) [
    | inl t ↦ record {
      console = s.console;
      console_top = (s.console_top + 1) % 256;
      windows = ConsoleCall.topped ∷ s.windows;
      result = rw (off, t);
    }
    | inr f ↦ record {
      console = s.console;
      console_top = s.console_top;
      windows = s.windows;
      result = rw (off, f);
    }
  ]

  pub show_console-Shown : (s : Sim W) (input : ℕ → Number) → Shown s input
  unfolding show_console
  show_console-Shown s input = elim (Bool-cases (wants_console input && not s.console)) [
    | inl t ↦ record {
      console = true;
      console_top = 1;
      windows = ConsoleCall.topped ∷ ConsoleCall.topped ∷ ConsoleCall.turned_on ∷ s.windows;
      result = rw t;
    }
    | inr f ↦ raised_once s input f
  ]
