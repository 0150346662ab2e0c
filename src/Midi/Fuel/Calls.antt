-- ===== src/Midi/Fuel/Calls.antt =====
-- The calls of the library `promidi`, and sessions of them, with more fuel than they need.
use profi_lua.Base.{
  ℕ, suc, arith, ◌≤◌, ◌≡◌, refl, Option, negsuc, List, [], ◌∷◌, ◌==◌, length, Cmd, Run, ok, raised,
  fault, out_of_fuel, pure, and_then-ok, Extends, Extended, same-Extends, if-Extends, bind-Extends,
  then-Extends, pos, u32_of,
}
use profi_lua.Lua.{Lua, Value, int, unsigned_of}
use profi_lua.Lua.Stack.{one, check_integer, check_number}
use profi_lua.Heap.{Ptr, null, load}
use profi_lua.Midi.State.{Midi, Winmm, Event, on_outs, on_ins, on_heap}
use profi_lua.Midi.Api.{
  drive, pl_open_midi_out, pl_open_midi_in, pl_close_midi_out, pl_close_midi_in, pl_play_note,
  pl_get_event, get_event_by, close_midi_in_by,
}
use profi_lua.Midi.Session.{Op, caught, perform, session, Unused, Allocates}
use profi_lua.Midi.Fuel.Amid.{interrupted-Extends, removal_amid-Extends}
use profi_lua.Midi.Fuel.{
  get_midi_out_entry-Extends, get_midi_in_entry-Extends, remove_midi_in_event-Extends,
  remove_midi_out-Extends, remove_midi_in-Extends, midi_receive-Extends,
}

module _ {D : Type 0} (lua : Lua) (w : Winmm D) (k k' : ℕ) (le : k ≤ k') where
  pl_open_midi_out-Extends :
      (fresh : Ptr) (args : List Value)
      → Extends (pl_open_midi_out lua w k fresh args) (pl_open_midi_out lua w k' fresh args)
  unfolding pl_open_midi_out
  pl_open_midi_out-Extends fresh args =
      if-Extends (length args == 1)
        (then-Extends (check_integer lua 1 args) λ num.
          bind-Extends (get_midi_out_entry-Extends k k' le (u32_of num)) λ found. same-Extends)
        same-Extends

  pl_open_midi_in-Extends :
      (fresh : Ptr) (args : List Value)
      → Extends (pl_open_midi_in lua w k fresh args) (pl_open_midi_in lua w k' fresh args)
  unfolding pl_open_midi_in
  pl_open_midi_in-Extends fresh args =
      if-Extends (length args == 1)
        (then-Extends (check_integer lua 1 args) λ num.
          bind-Extends (get_midi_in_entry-Extends k k' le (u32_of num)) λ found. same-Extends)
        same-Extends

  pl_close_midi_out-Extends :
      (args : List Value)
      → Extends (pl_close_midi_out lua w k args) (pl_close_midi_out lua w k' args)
  unfolding pl_close_midi_out
  pl_close_midi_out-Extends args =
      if-Extends (length args == 1)
        (then-Extends (check_integer lua 1 args) λ num.
          bind-Extends (get_midi_out_entry-Extends k k' le (u32_of num)) λ tmp.
            if-Extends {m = pure (one (int (negsuc 1)))} (tmp == null) same-Extends (
              then-Extends (on_outs (on_heap (load tmp))) λ d.
                then-Extends (drive lua w (w.out_reset d.value.handle)) λ _.
                  then-Extends (drive lua w (w.out_close d.value.handle)) λ _.
                    bind-Extends (remove_midi_out-Extends k k' le tmp)
                      λ _. same-Extends {m = pure (one (int (pos 0)))}))
        same-Extends

  close_midi_in_by-Extends :
      {remove remove' : Ptr → Cmd (Midi D) (Unit {0})} (args : List Value)
      → ((tmp : Ptr) → Extends (remove tmp) (remove' tmp))
      → Extends (close_midi_in_by lua w k remove args) (close_midi_in_by lua w k' remove' args)
  close_midi_in_by-Extends args more =
      if-Extends (length args == 1)
        (then-Extends (check_integer lua 1 args) λ num.
          bind-Extends (get_midi_in_entry-Extends k k' le (u32_of num)) λ tmp.
            if-Extends {m = pure (one (int (negsuc 1)))} (tmp == null) same-Extends (
              then-Extends (on_ins (on_heap (load tmp))) λ d.
                then-Extends (drive lua w (w.in_reset d.value.handle)) λ _.
                  then-Extends (drive lua w (w.in_close d.value.handle))
                    λ _. bind-Extends (more tmp) λ _. same-Extends {m = pure (one (int (pos 0)))}))
        same-Extends

  pl_close_midi_in-Extends :
      (args : List Value) → Extends (pl_close_midi_in lua w k args) (pl_close_midi_in lua w k' args)
  unfolding pl_close_midi_in
  pl_close_midi_in-Extends args = close_midi_in_by-Extends args (remove_midi_in-Extends k k' le)

  pl_play_note-Extends :
      (args : List Value) → Extends (pl_play_note lua w k args) (pl_play_note lua w k' args)
  unfolding pl_play_note
  pl_play_note-Extends args =
      if-Extends (length args == 5)
        (then-Extends (check_integer lua 1 args)
          λ num. bind-Extends (get_midi_out_entry-Extends k k' le (u32_of num)) λ tmp. same-Extends)
        same-Extends

  get_event_by-Extends :
      {remove remove' : Ptr → Cmd (Midi D) (Option Event)} (args : List Value)
      → ((dev : Ptr) → Extends (remove dev) (remove' dev))
      → Extends (get_event_by lua w k remove args) (get_event_by lua w k' remove' args)
  get_event_by-Extends args more =
      if-Extends (length args == 1)
        (then-Extends (check_number lua 1 args) λ num.
          bind-Extends (get_midi_in_entry-Extends k k' le (unsigned_of lua num))
            λ dev. bind-Extends (more dev) λ got. same-Extends)
        same-Extends

  pl_get_event-Extends :
      (args : List Value) → Extends (pl_get_event lua w k args) (pl_get_event lua w k' args)
  unfolding pl_get_event
  pl_get_event-Extends args = get_event_by-Extends args (remove_midi_in_event-Extends k k' le)

  caught-Extended :
      {A : Type 0} (r r' : Run (Midi D) A)
      → Extended r r'
      → Extended (caught lua w k r) (caught lua w k' r')
  caught-Extended (ok a s) r' e = rw e refl
  caught-Extended (raised s) r' e = rw e refl
  caught-Extended fault r' e = rw e refl
  caught-Extended out_of_fuel r' e = tt

  perform-Extends : (o : Op) → Extends (perform lua w k o) (perform lua w k' o)
  unfolding perform
  perform-Extends (Op.open_out fresh args) = record {
    runs = λ s. caught-Extended _ _ ((pl_open_midi_out-Extends fresh args).runs s);
  }
  perform-Extends (Op.open_in fresh args) = record {
    runs = λ s. caught-Extended _ _ ((pl_open_midi_in-Extends fresh args).runs s);
  }
  perform-Extends (Op.close_out args) = record {
    runs = λ s. caught-Extended _ _ ((pl_close_midi_out-Extends args).runs s);
  }
  perform-Extends (Op.close_in args) = record {
    runs = λ s. caught-Extended _ _ ((pl_close_midi_in-Extends args).runs s);
  }
  perform-Extends (Op.play_note args) = record {
    runs = λ s. caught-Extended _ _ ((pl_play_note-Extends args).runs s);
  }
  perform-Extends (Op.count_devices args) = same-Extends
  perform-Extends (Op.out_name args) = same-Extends
  perform-Extends (Op.in_name args) = same-Extends
  perform-Extends (Op.get_event args) = record {
    runs = λ s. caught-Extended _ _ ((pl_get_event-Extends args).runs s);
  }
  perform-Extends (Op.receive fresh num msgpar) = record {
    runs = λ s. caught-Extended _ _ ((midi_receive-Extends k k' le fresh num msgpar).runs s);
  }
  perform-Extends (Op.get_event_amid rounds fresh num msgpar args) = record {
    runs = λ s. caught-Extended _ _ (
        (get_event_by-Extends args (
            interrupted-Extends k k' le (midi_receive-Extends k k' le fresh num msgpar)
              rounds)).runs
          s);
  }
  perform-Extends (Op.close_in_amid moment fresh num msgpar args) = record {
    runs = λ s. caught-Extended _ _ (
        (close_midi_in_by-Extends args (
            removal_amid-Extends (suc k) (suc k') (omega (arith, le))
              (midi_receive-Extends k k' le fresh num msgpar) moment)).runs
          s);
  }

  session-Extends : (ops : List Op) → Extends (session lua w k ops) (session lua w k' ops)
  unfolding session
  session-Extends [] = same-Extends
  session-Extends (o ∷ ops) = bind-Extends (perform-Extends o) λ _. session-Extends ops

  -- The fuel is no part of what the code does: a session that returns with some fuel returns the
  -- same with more.
  pub session-more :
      (ops : List Op) (s t : Midi D)
      → session lua w k ops s ≡ ok tt t
      → session lua w k' ops s ≡ ok tt t
  session-more ops s t e = rw e at ((session-Extends ops).runs s)

  Unused-more : (o : Op) (s : Midi D) → Unused lua w k o s → Unused lua w k' o s
  Unused-more (Op.open_out fresh args) s u = u
  Unused-more (Op.open_in fresh args) s u = u
  Unused-more (Op.close_out args) s u = tt
  Unused-more (Op.close_in args) s u = tt
  Unused-more (Op.play_note args) s u = tt
  Unused-more (Op.count_devices args) s u = tt
  Unused-more (Op.out_name args) s u = tt
  Unused-more (Op.in_name args) s u = tt
  Unused-more (Op.get_event args) s u = tt
  Unused-more (Op.receive fresh num msgpar) s u = u
  Unused-more (Op.get_event_amid rounds fresh num msgpar args) s u = u
  Unused-more (Op.close_in_amid moment fresh num msgpar args) s u = u

  -- Each `malloc` of a session that returns is one of the session with more fuel.
  pub Allocates-more :
      (ops : List Op) (s t : Midi D)
      → session lua w k ops s ≡ ok tt t
      → Allocates lua w k ops s
      → Allocates lua w k' ops s
  unfolding session Allocates
  Allocates-more [] s t e a = tt
  Allocates-more (o ∷ ops) s t e (u, a) =
      let (v, first, rest) = and_then-ok (perform lua w k o s) (session lua w k ops) e in
      let later : Allocates lua w k ops v = rw first at a in
      (
        Unused-more o s u,
        rw (rw first at ((perform-Extends o).runs s)) (Allocates-more ops v t rest later),
      )
