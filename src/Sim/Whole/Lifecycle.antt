-- ===== src/Sim/Whole/Lifecycle.antt =====
-- The simulator's questions for the pins, and one simulation after another.
use profi_lua.Base.{
  ℕ, ◌+◌, ◌%◌, ◌≤◌, ◌≡◌, none, ok, some, List, [], ◌∷◌, ◌++◌, map, Returns, Returns-mono, u8_of,
}
use profi_lua.Lua.{Lua, Value, Number, truncate}
use profi_lua.Sim.State.{Name, Script, Sim}
use profi_lua.Sim.Pins.{c_num_ex-counts}
use profi_lua.Sim.Host.{Arrays, Call, host, serve}
use profi_lua.Sim.Whole.{Proper}
use profi_lua.Sim.Whole.Complete.{Completed, host-Completed}

-- The number of the script, which stands in `PUser[100]`.
abbrev pub file_of : (ℕ → Number) → ℕ
file_of user = u8_of (truncate (user 100))

-- One more than the script's number.
abbrev pub pins_of : Number → ℕ
pins_of x = (u8_of (truncate x) + 1) % 256

-- The inputs of one simulation: of its first step, of the others, and of its stop.
pub record Inputs : Type 0 where
  pub first : Arrays
  pub others : List Arrays
  pub last : ℕ → Number

abbrev pub simulation : Inputs → List Call
simulation r =
    Call.start ∷ Call.calculate r.first ∷ map Call.calculate r.others ++ Call.stop r.last ∷ []

module _ {W : Type 0} (lua : Lua) (script : Script W) (I : W → Type 0) where
  -- Opened after anything with `I`, the script has the numbers `x` and `y` for its counts of pins,
  -- and what is left when it is closed has `I`.
  pub record CountsAfter (file_num : ℕ) (x y : Number) (idle : W) : Type 0 where
    pub world : W
    pub memory : script.open_lua idle ≡ some world
    pub inputs : script.global Name.num_inputs (script.run_file file_num world).1 ≡ Value.number x
    pub outputs : script.global Name.num_outputs (script.run_file file_num world).1 ≡ Value.number y
    pub leaves : I (script.close_lua (script.run_file file_num world).1)

  module _ (P : W → Type 0) where
    -- The simulations run one after another, each to its end, which is the start of the next.
    abbrev pub Completes :
        List Inputs
        → (s : Sim W) → Proper lua script I P s.file_num s.num_inputs s.num_outputs
        → Type 0
    Completes [] s p = Unit {0}
    Completes (r ∷ rs) s p =
        Returns
          (λ _ z.
            (p' : Proper lua script I P z.file_num z.num_inputs z.num_outputs) × Completed lua
              script I P s p z
            × Completes rs z p')
          (host lua script (simulation r) s)

    simulations-Completes :
        (rs : List Inputs) (s : Sim W)
        (p : Proper lua script I P s.file_num s.num_inputs s.num_outputs)
        → 1 ≤ s.num_inputs
        → s.num_inputs ≤ 100
        → s.num_outputs ≤ 100
        → s.lua ≡ none
        → I s.idle
        → Completes rs s p
    simulations-Completes [] s p some_in few_in few_out no_lua left = tt
    simulations-Completes (r ∷ rs) s p some_in few_in few_out no_lua left =
        Returns-mono
          (host-Completed lua script I P s p some_in few_in few_out r.first r.others r.last no_lua
            left)
          λ _ z c.
            let p' : Proper lua script I P z.file_num z.num_inputs z.num_outputs =
              rw (c.file_num, c.num_inputs, c.num_outputs) p in
            (
              p',
              c,
              simulations-Completes rs z p' (rw c.num_inputs some_in) (rw c.num_inputs few_in)
                  (rw c.num_outputs few_out) c.closed_lua c.left,
            )

    module _ (user : ℕ → Number) (s : Sim W) (x y : Number) where
      -- The host with the counts of the script's pins.
      abbrev pub counted : W → Sim W
      counted idle = record s {
        idle = idle;
        file_num = file_of user;
        num_inputs = pins_of x;
        num_outputs = pins_of y;
      }

      -- The simulator asks for the counts of the pins, and then runs any number of simulations, each
      -- a start, at least one step and a stop: all calls return, for any inputs and texts, and each
      -- simulation ends `Completed`: no error, POutput[0] is OK, the outputs are the script's last answer,
      -- PUser has its table `gPUser`, and the script and the console are closed. No Lua state is
      -- open before, and what the last one has left has `I`; opened after anything with `I`, the
      -- script with the number in `PUser[100]` gives numbers for its counts and keeps the promises
      -- of `Proper`, and when it is closed what is left has `I`. There are at most 100 pins of each
      -- kind, the console input among them.
      pub host-counts-Completes :
          (p : Proper lua script I P (file_of user) (pins_of x) (pins_of y)) (rs : List Inputs)
          → s.lua ≡ none
          → I s.idle
          → ((idle : W) → I idle → CountsAfter (file_of user) x y idle)
          → 1 ≤ pins_of x
          → pins_of x ≤ 100
          → pins_of y ≤ 100
          → (idle : W) × (host lua script (Call.num_inputs user ∷ Call.num_outputs user ∷ []) s
              ≡ ok tt (counted idle))
            × Completes rs (counted idle) p
      unfolding host serve
      host-counts-Completes p rs no_lua left counts some_in few_in few_out =
          let a = counts s.idle left in
          let u = script.close_lua (script.run_file (file_of user) a.world).1 in
          let b = counts u a.leaves in
          let s₁ : Sim W = record s { idle = u; file_num = file_of user; num_inputs = pins_of x } in
          (
            script.close_lua (script.run_file (file_of user) b.world).1,
            rw (
              (c_num_ex-counts lua script user s a.world x y no_lua a.memory a.inputs a.outputs).0,
              (c_num_ex-counts lua script user s₁ b.world x y no_lua b.memory b.inputs b.outputs).1,
            ),
            simulations-Completes rs
                (counted (script.close_lua (script.run_file (file_of user) b.world).1)) p some_in
                few_in few_out no_lua b.leaves,
          )
