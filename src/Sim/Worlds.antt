-- ===== src/Sim/Worlds.antt =====
-- What the host does to the world of a script: the state of Lua and of the libraries.
use profi_lua.Base.{Option-cases, inl, inr, [], ◌∷◌, ℕ, ◌≡◌, Option, none, some, List, Cmd, After}
use profi_lua.Lua.{Value, Number}
use profi_lua.Lua.Stack.{Pushed, value}
use profi_lua.Sim.State.{Name, Script, Vm, Sim}
use profi_lua.Sim.Vm.{
  push, top, top_of, pop, popped, push_global, push_entry, entry_of, call_one, called,
}

module _ {W : Type 0} where
  -- The world of the Lua state that is open, or what the last one has left.
  abbrev world_in : Option (Vm W) → W → W
  world_in none idle = idle
  world_in (some vm) idle = vm.world

  abbrev pub world_of : Sim W → W
  world_of s = world_in s.lua s.idle

  -- The ways in which the Lua library changes the world.
  pub data Turn (script : Script W) : W → W → Type 0 where
    opens : {u v : W} → script.open_lua u ≡ some v → Turn script u v
    closes : (u : W) → Turn script u (script.close_lua u)
    runs_file : (file : ℕ) (u : W) → Turn script u (script.run_file file u).1
    sets_user : (user : List Number) (u : W) → Turn script u (script.set_user user u)
    calls :
        {u v : W} (f : ℕ) (arg : Pushed) (r : Value)
        → script.call f arg u ≡ some (r, v)
        → Turn script u v

  pub data Runs (script : Script W) (u : W) : W → Type 0 where
    here : Runs script u u
    next : {v w : W} → Runs script u v → Turn script v w → Runs script u w

  module _ {script : Script W} where
    pub Runs-trans : {u v w : W} → Runs script u v → Runs script v w → Runs script u w
    Runs-trans p here = p
    Runs-trans p (next q t) = next (Runs-trans p q) t

    -- What holds of a world, and is kept by each change, is kept by all.
    pub Runs-inv :
        (J : W → Type 0) {u v : W}
        → ((a b : W) → Turn script a b → J a → J b)
        → Runs script u v
        → J u
        → J v
    Runs-inv J keep here j = j
    Runs-inv J keep (next {v} {w} r t) j = keep v w t (Runs-inv J keep r j)

  -- However a command on the Lua stack ends, the world has changed by the Lua library only.
  pub record Moves (script : Script W) {A : Type 0} (m : Cmd (Vm W) A) : Type 0 where
    pub runs : (vm : Vm W) → After (λ t. Runs script vm.world t.world) (m vm)

  module _ (script : Script W) where
    pub push-Moves : (v : Pushed) → Moves script (push v)
    push-Moves v = record { runs = λ vm. here }

    top_of-Moves : (vs : List Pushed) → Moves script (top_of vs)
    top_of-Moves [] = record { runs = λ vm. tt }
    top_of-Moves (v ∷ vs) = record { runs = λ vm. here }

    pub top-Moves : Moves script top
    top-Moves = record { runs = λ vm. (top_of-Moves vm.stack).runs vm }

    popped-Moves : (vs : List Pushed) → Moves script (popped vs)
    popped-Moves [] = record { runs = λ vm. tt }
    popped-Moves (v ∷ vs) = record { runs = λ vm. here }

    pub pop-Moves : Moves script pop
    pop-Moves = record { runs = λ vm. (popped-Moves vm.stack).runs vm }

    pub push_global-Moves : (name : Name) → Moves script (push_global script name)
    push_global-Moves name = record { runs = λ vm. here }

    entry_of-Moves : (vs : List Pushed) (i : ℕ) → Moves script (entry_of script vs i)
    entry_of-Moves [] i = record { runs = λ vm. tt }
    entry_of-Moves (value (Value.table t) ∷ vs) i = record { runs = λ vm. here }
    entry_of-Moves (value (Value.string t) ∷ vs) i = record { runs = λ vm. here }
    entry_of-Moves (_ ∷ vs) i = record { runs = λ vm. here }

    pub push_entry-Moves : (i : ℕ) → Moves script (push_entry script i)
    push_entry-Moves i = record { runs = λ vm. (entry_of-Moves vm.stack i).runs vm }

    called-Moves : (vs : List Pushed) → Moves script (called script vs)
    called-Moves (arg ∷ value (Value.function f) ∷ vs) = record {
      runs = λ vm. elim (Option-cases (script.call f arg vm.world)) [
        | inl e ↦ rw e here
        | inr ((v, w), e) ↦ rw e (next here (Turn.calls f arg v e))
      ];
    }
    called-Moves (arg ∷ f ∷ vs) = record { runs = λ vm. here }
    called-Moves _ = record { runs = λ vm. tt }

    pub call_one-Moves : Moves script (call_one script)
    call_one-Moves = record { runs = λ vm. (called-Moves vm.stack).runs vm }
