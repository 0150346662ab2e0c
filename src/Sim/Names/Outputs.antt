-- ===== src/Sim/Names/Outputs.antt =====
-- The names of the output pins, for a script that gives a name to each.
use profi_lua.Base.{
  ℕ, suc, ◌≤◌, ◌<◌, ◌≡◌, ◌∙◌, ap, fun_ext, true, false, none, List, ltb, length, ◌==◌, arith, ok,
  Bool-cases, inl, inr,
}
use profi_lua.Lua.{Lua}
use profi_lua.Sim.State.{Name, Script, Sim}
use profi_lua.Sim.Script.{
  c_string, is_marked, open_lua_script, close_lua_script, script_name, get_output_name,
  error_pin_name,
}
use profi_lua.Sim.Calculate.{each_name}
use profi_lua.Sim.Names.{Names, marks, marks-suc, marks-zero, marks-one, each_name-states}

module _ {W : Type 0} where
  -- The state in which the names of the outputs before `j` have been asked for.
  abbrev out_state : Sim W → (ℕ → List ℕ) → ℕ → W → Sim W
  out_state s text j u = record s { lua = none; idle = u; out_marker = marks text j }

  module _ (lua : Lua) (script : Script W) (I : W → Type 0) (s : Sim W) {count : ℕ}
      {text : ℕ → List ℕ} (few : count ≤ 100)
      (n : Names lua script I Name.output_name s.file_num count text) where
    out_name-named :
        (j : ℕ) (u : W)
        → I u
        → 1 ≤ j
        → j < count
        → (w : W) × (get_output_name lua script j 100 (out_state s text j u)
            ≡ ok (c_string (text j)) (out_state s text (suc j) w))
          × I w
    unfolding get_output_name script_name open_lua_script close_lua_script
    out_name-named j u left from to =
        let pin : (j == 0) ≡ false = ground arith in
        let lt : ltb j 100 ≡ true = ground arith in
        let after = n u left in
        let (v, w, answer, str, fits, left') = after.names j from to in
        let room : ltb (length (c_string (text j))) 100 ≡ true = ground arith in
        let one_more = fun_ext λ m. marks-suc text j m from in
        (
          script.close_lua w,
          rw (pin, after.memory, after.defined, answer, str, room)
              (elim (Bool-cases (is_marked (c_string (text j)))) [
                | inl m ↦
                    rw (m, lt)
                      (ap
                        (λ f.
                          ok (c_string (text j))
                            (record s { lua = none; idle = script.close_lua w; out_marker = f }))
                        (rw m at one_more))
                | inr m ↦ rw m (
                    ap
                      (λ f.
                        ok (c_string (text j))
                          (record s { lua = none; idle = script.close_lua w; out_marker = f }))
                      (rw m at one_more))
              ]),
          left',
        )

    out_name-state :
        (j : ℕ) (u : W)
        → I u
        → j < count
        → (a : List ℕ) × (w : W) × (get_output_name lua script j 100 (out_state s text j u)
            ≡ ok a (out_state s text (suc j) w))
          × I w
    unfolding get_output_name
    out_name-state j u left to = elim (Bool-cases (j == 0)) [
      | inl z ↦
          let first : j ≡ 0 = ground arith in
          rw first (
            error_pin_name,
            u,
            ap (λ f. ok error_pin_name (record s { lua = none; idle = u; out_marker = f }))
                (fun_ext (marks-one text)),
            left,
          )
      | inr pin ↦
          let (w, e, left') = out_name-named j u left (ground arith) to in
          (c_string (text j), w, e, left')
    ]

    -- From no marks, the names of all outputs are asked for, and their marks are set.
    pub each_name-out :
        s.lua ≡ none
        → s.out_marker ≡ (λ _. false)
        → I s.idle
        → (w : W) × (each_name (λ i. get_output_name lua script i 100) count 0 s
            ≡ ok tt (out_state s text count w))
          × I w
    each_name-out no_lua no_mark left =
        let first : s ≡ out_state s text 0 s.idle =
          λ i. record s { lua = no_lua i; out_marker = (no_mark ∙ fun_ext (marks-zero text)) i } in
        let (w, e, left') =
          each_name-states I (λ i. get_output_name lua script i 100) (out_state s text) count 0
            s.idle left (λ j v from to left'. out_name-state j v left' (omega arith)) in
        (
          w,
          ap (each_name (λ i. get_output_name lua script i 100) count 0) first
              ∙ e
              ∙ ap (λ j. ok tt (out_state s text j w)) (omega arith),
          left',
        )
