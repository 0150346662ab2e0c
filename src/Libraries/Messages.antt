-- ===== src/Libraries/Messages.antt =====
-- What a script gets from `promidi` by the names of its functions: a device that it opens, and the
-- messages that arrive there.
use profi_lua.Base.{
  ℕ, zero, suc, ◌+◌, ◌<◌, ◌≡◌, refl, false, Option, none, some, List, [], ◌∷◌, map, ◌==◌, length,
  arith, pos, Cmd, pure, raise, ◌>>=◌, ◌>>◌, Returns, returns, Returns-bind, Returns-result, After,
  u32_of,
}
use profi_lua.Lua.{Lua, Value, Number, int, unsigned_of, as_number}
use profi_lua.Lua.Stack.{Reply, one}
use profi_lua.Heap.{Ptr, null}
use profi_lua.Midi.State.{Midi, Winmm}
use profi_lua.Midi.Api.{
  pl_open_midi_out, pl_open_midi_in, pl_close_midi_out, pl_close_midi_in, pl_play_note,
  pl_count_devices, pl_get_midi_out_name, pl_get_midi_in_name, pl_get_event,
}
use profi_lua.Midi.Spec.{Spec, Refines}
use profi_lua.Midi.Spec.OpenIn.{pl_open_midi_in-Refines, opened_in}
use profi_lua.Midi.Spec.GetEvent.{event_reply}
use profi_lua.Midi.Session.Order.{receive_all, get_all, Accepted, events_of, receive_all-get_all}
use profi_lua.Libraries.{Registry, Function}
use profi_lua.Libraries.Open.{open_libs}
use profi_lua.Libraries.Fields.{open_libs-entry}
use Prim.Native.String.{String}

module _ {D : Type 0} (lua : Lua) (w : Winmm D) (k : ℕ)
    (others : Function → List Value → Cmd (Midi D) Reply) where
  -- A call of a C function by Lua, with `fresh` for what `malloc` returns; `others` are those of the
  -- other libraries.
  unfoldable pub midi_call : (fresh : Ptr) → Function → List Value → Cmd (Midi D) Reply
  midi_call fresh Function.open_midi_out args = pl_open_midi_out lua w k fresh args
  midi_call fresh Function.close_midi_out args = pl_close_midi_out lua w k args
  midi_call fresh Function.open_midi_in args = pl_open_midi_in lua w k fresh args
  midi_call fresh Function.close_midi_in args = pl_close_midi_in lua w k args
  midi_call fresh Function.get_midi_out_name args = pl_get_midi_out_name lua w args
  midi_call fresh Function.get_midi_in_name args = pl_get_midi_in_name lua w args
  midi_call fresh Function.play_note args = pl_play_note lua w k args
  midi_call fresh Function.get_event args = pl_get_event lua w k args
  midi_call fresh Function.count_devices args = pl_count_devices lua w args
  midi_call fresh f args = others f args

  -- A call of nil is an error.
  abbrev called : (fresh : Ptr) → Option Function → List Value → Cmd (Midi D) Reply
  called fresh none args = raise
  called fresh (some f) args = midi_call fresh f args

  module _ {G : Type 0} (r : Registry G Function) (g : G) where
    abbrev pub fetch : (count : ℕ) → Value → Cmd (Midi D) (List Reply)
    fetch zero v = pure []
    fetch (suc count) v = do
      reply ← called null (r.field "promidi" "GetMessage" g) (v ∷ [])
      rest ← fetch count v
      pure (reply ∷ rest)

    -- A script that opens the device `v`, waits until the messages have arrived, and fetches them.
    abbrev pub listen : (fresh num : ℕ) → List (Ptr × ℕ) → Value → Cmd (Midi D) (Reply × List Reply)
    listen fresh num ms v = do
      reply ← called fresh (r.field "promidi" "OpenMidiIn" g) (v ∷ [])
      replies ← receive_all lua w k num ms >> fetch (length ms) v
      pure (reply, replies)

module _ {D : Type 0} (lua : Lua) (w : Winmm D) (k : ℕ)
    (others : Function → List Value → Cmd (Midi D) Reply) {G : Type 0} (r : Registry G Function)
    (standard : G → G) (g : G) where
  abbrev found : String → Option Function
  found name = r.field "promidi" name (open_libs r standard g)

  is_open : found "OpenMidiIn" ≡ some Function.open_midi_in
  is_open = (open_libs-entry r standard g "OpenMidiIn").0

  is_get : found "GetMessage" ≡ some Function.get_event
  is_get = (open_libs-entry r standard g "GetMessage").0

  fetch-get_all :
      (count : ℕ) (v : Value)
      → fetch lua w k others r (open_libs r standard g) count v ≡ get_all lua w k count v
  unfolding midi_call
  fetch-get_all zero v = refl
  fetch-get_all (suc count) v = rw (is_get, fetch-get_all count v) refl

  -- A script that calls `promidi.OpenMidiIn` with the number of a device that is not open, which the
  -- driver opens and `malloc` has memory for, gets 0; and when messages have arrived there, each with
  -- a status that is kept and memory for it, as many calls of `promidi.GetMessage` with this number
  -- reply their events in order. The functions are those that `luaL_openlibs` sets under these
  -- names, in any Lua state. The number converts to the same `unsigned int` by way of `lua_Integer`,
  -- as `OpenMidiIn` does it, and directly, and the fuel exceeds the lengths of the lists.
  pub listen-in_order :
      (fresh h : ℕ) (v : Value) (x : Number) (ms : List (Ptr × ℕ)) {n : ℕ} {s : Midi D} {σ : Spec}
      → as_number lua v ≡ some x
      → u32_of (lua.number_to_integer x) ≡ unsigned_of lua x
      → Refines n s σ
      → length ms + suc n < k
      → s.ins.heap fresh ≡ none
      → (fresh == null) ≡ false
      → σ.ins (unsigned_of lua x) ≡ none
      → (w.in_open (unsigned_of lua x) s.driver).0 ≡ some h
      → After (Accepted lua w k (unsigned_of lua x) ms) (pl_open_midi_in lua w k fresh (v ∷ []) s)
      → Returns
          (λ replies _.
            (replies.0 ≡ one (int (pos 0)))
            × (replies.1 ≡ map (λ e. event_reply (some e)) (events_of ms)))
          (listen lua w k others r (open_libs r standard g) fresh (unsigned_of lua x) ms v s)
  unfolding midi_call
  listen-in_order fresh h v x ms {n} {s} {σ} numeric exact now fuel unused ne known opens a =
      let (reply, t, e, p) =
        Returns-result
          (pl_open_midi_in-Refines lua w k fresh v x now (omega (arith, fuel)) numeric unused) in
      let num = unsigned_of lua x in
      let replied : reply ≡ one (int (pos 0)) = rw (exact, known, opens, ne) at p.0 in
      let opened : Refines (suc n) t (opened_in num h σ) = rw (exact, known, opens, ne) at p.1 in
      let empty : (opened_in num h σ).ins num ≡ some (record { handle = h; queue = [] }) =
        ground arith in
      let accepted : Accepted lua w k num ms t = rw e at a in
      rw (is_open, e, fetch-get_all (length ms) v)
        (Returns-bind (receive_all-get_all lua w k v x numeric ms h opened fuel empty accepted)
          λ replies _ q. returns (replied, q))
