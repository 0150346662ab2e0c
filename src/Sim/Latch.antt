-- ===== src/Sim/Latch.antt =====
-- What gERROR does to the calls that follow, until the next start.
use profi_lua.Base.{
  ℕ, ◌≡◌, refl, true, false, none, List, [], ◌∷◌, ◌++◌, ◌==◌, ◌∙◌, map, Bool-cases, Option-cases,
  ok, inl, inr, Returns, returns, Returns-bind,
}
use profi_lua.Lua.{Lua, Number}
use profi_lua.Sim.State.{Script, Sim}
use profi_lua.Sim.Script.{change, close_lua_script}
use profi_lua.Sim.Calculate.{c_calculate_ex, c_sim_stop, step, pl_error}
use profi_lua.Sim.Host.{Arrays, Call, host, serve}
use profi_lua.Sim.Whole.Shown.{show_console-Shown}

-- The texts that were handed over last, `texts` if there is no step.
abbrev pub handed : (texts : ℕ → List ℕ) → List Arrays → ℕ → List ℕ
handed texts [] = texts
handed texts (a ∷ rest) = handed a.texts rest

module _ {W : Type 0} where
  -- The error is set, and of the simulator's arrays only the error pin may differ from `s`.
  pub record Latched (s z : Sim W) : Type 0 where
    pub error : z.error ≡ true
    pub override : z.override ≡ false
    pub same_lua : z.lua ≡ s.lua
    pub output : (i : ℕ) → z.output i ≡ change s.output 0 pl_error i
    pub user : z.user ≡ s.user
    pub strings : z.strings ≡ s.strings

  -- The same after CSimStop, which closes the script and the console.
  pub record Abandoned (s z : Sim W) : Type 0 where
    pub error : z.error ≡ true
    pub closed_lua : z.lua ≡ none
    pub closed_console : z.console ≡ false
    pub output : (i : ℕ) → z.output i ≡ change s.output 0 pl_error i
    pub user : z.user ≡ s.user
    pub strings : z.strings ≡ s.strings

  Latched-Latched : {s z z' : Sim W} → Latched s z → Latched z z' → Latched s z'
  Latched-Latched {s} {z} a b = record {
    error = b.error;
    override = b.override;
    same_lua = b.same_lua ∙ a.same_lua;
    output = λ i.
        b.output i
        ∙ elim (Bool-cases (i == 0)) [ inl t ↦ rw t refl | inr f ↦ rw f (a.output i ∙ rw f refl) ];
    user = b.user ∙ a.user;
    strings = b.strings ∙ a.strings;
  }

  -- The simulator hands over new texts.
  Latched-texts :
      {s z : Sim W} (texts : ℕ → List ℕ)
      → Latched s z
      → Latched (record s { strings = texts }) (record z { strings = texts })
  Latched-texts texts l = record {
    error = l.error;
    override = l.override;
    same_lua = l.same_lua;
    output = l.output;
    user = l.user;
    strings = refl;
  }

  module _ (lua : Lua) (script : Script W) where
    close_lua_script-none :
        (s : Sim W)
        → (u : W) × (close_lua_script lua script s ≡ ok tt (record s { lua = none; idle = u }))
    unfolding close_lua_script
    close_lua_script-none s = elim (Option-cases s.lua) [
      | inl e ↦ (s.idle, rw e)
      | inr (vm, e) ↦ (script.close_lua vm.world, rw e)
    ]

    c_calculate_ex-Latched :
        (s : Sim W) (input : ℕ → Number)
        → s.error ≡ true
        → s.override ≡ false
        → Returns (λ _ z. Latched s z) (c_calculate_ex lua script input s)
    unfolding c_calculate_ex step
    c_calculate_ex-Latched s input error override =
        let shown = show_console-Shown (record s { override = false }) input in
        rw (override, shown.result, error)
          (returns (record {
            error = refl;
            override = refl;
            same_lua = refl;
            output = λ i. refl;
            user = refl;
            strings = refl;
          }))

    c_sim_stop-Abandoned :
        (s z : Sim W) (input : ℕ → Number)
        → Latched s z
        → Returns (λ _ z'. Abandoned s z') (c_sim_stop lua script input z)
    unfolding c_sim_stop
    c_sim_stop-Abandoned s z input a =
        let (u, e) = close_lua_script-none (record z { error = true }) in
        rw (a.error, e)
          (elim (Bool-cases z.console) [
            | inl t ↦ rw t (
                returns (record {
                  error = refl;
                  closed_lua = refl;
                  closed_console = refl;
                  output = a.output;
                  user = a.user;
                  strings = a.strings;
                }))
            | inr f ↦ rw f (
                returns (record {
                  error = refl;
                  closed_lua = refl;
                  closed_console = refl;
                  output = a.output;
                  user = a.user;
                  strings = a.strings;
                }))
          ])

    steps-Abandoned :
        (s z : Sim W) (inputs : List Arrays) (last : ℕ → Number)
        → Latched s z
        → Returns
            (λ _ z'. Abandoned (record s { strings = handed s.strings inputs }) z')
            (host lua script (map Call.calculate inputs ++ Call.stop last ∷ []) z)
    unfolding host serve
    steps-Abandoned s z [] last a =
        Returns-bind (c_sim_stop-Abandoned s z last a) (λ _ z' c. returns c)
    steps-Abandoned s z (a ∷ inputs) last l =
        Returns-bind
          (c_calculate_ex-Latched (record z { strings = a.texts }) a.input l.error l.override)
          (λ _ z' b.
            steps-Abandoned (record s { strings = a.texts }) z' inputs last
              (Latched-Latched (Latched-texts a.texts l) b))

    -- Once `gERROR` is set in a simulation that has started, any further steps, at least one, and
    -- the stop return for any inputs, with any Lua state and any script, even one that raises
    -- errors. POutput[0] is the error value 5, the other outputs and PUser are as before, PString is
    -- as it was handed over for the last step, and the stop closes the script and the console.
    pub host-Abandoned :
        (s : Sim W) (first : Arrays) (inputs : List Arrays) (last : ℕ → Number)
        → s.error ≡ true
        → s.override ≡ false
        → Returns
            (λ _ z. Abandoned (record s { strings = handed first.texts inputs }) z)
            (host lua script
              (Call.calculate first ∷ map Call.calculate inputs ++ Call.stop last ∷ [])
              s)
    unfolding host serve
    host-Abandoned s first inputs last error override =
        let s' : Sim W = record s { strings = first.texts } in
        Returns-bind (c_calculate_ex-Latched s' first.input error override)
          (λ _ z a. steps-Abandoned s' z inputs last a)
