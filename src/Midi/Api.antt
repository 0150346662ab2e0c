-- ===== src/Midi/Api.antt =====
-- The functions of the library `promidi`, as scripts call them: `args` are the arguments, which
-- stand alone on the stack of a C function.
use profi_lua.Base.{
  ℕ, zero, suc, ◌-◌, bit_and, bit_or, ◌||◌, Option, none, some, List, [], ◌∷◌, ◌==◌, if◌then◌else◌,
  Cmd, pure, get, modify, ◌>>=◌, ◌>>◌, ℤ, pos, negsuc, ltb_ℤ, u8_of, u32_of, pos_part, length, ◌+◌,
}
use profi_lua.Lua.{Lua, int, unsigned_of, Value}
use profi_lua.Lua.Stack.{Reply, Pushed, value, new_table, one, check_integer, check_number}
use profi_lua.Heap.{Ptr, null, node, load, store}
use profi_lua.Midi.State.{Event, Midi, Winmm, on_heap, on_outs, on_ins}
use profi_lua.Midi.Devices.{
  add_midi_out, add_midi_in, remove_midi_out, remove_midi_in, get_midi_out_entry, get_midi_in_entry,
  remove_midi_in_event,
}
use profi_lua.Midi.Wire.{midi_send}

-- The table that a script gets for an event: status, channel and the two data bytes.
abbrev pub event_table : Event → Pushed
event_table ev = new_table (
    (int (pos 1), int (pos (bit_and ev.status 0xf0)))
    ∷ (int (pos 2), int (pos (bit_and ev.status 0x0f + 1)))
    ∷ (int (pos 3), int (pos ev.dat1))
    ∷ (int (pos 4), int (pos ev.dat2))
    ∷ [])

module _ {D : Type 0} (lua : Lua) (w : Winmm D) where
  abbrev pub drive : (D → D) → Cmd (Midi D) (Unit {0})
  drive f = modify λ s. record s { driver = f s.driver }

  abbrev open_result : Option ℕ × D → Cmd (Midi D) (Option ℕ)
  open_result (r, d) = modify (λ s. record s { driver = d }) >> pure r

  -- What follows `midiOutOpen`: `opened` is its result, and `fresh` is what `malloc` returns. A new
  -- node's `next` is set when it is added to the list.
  unfoldable pub opened_midi_out : (fresh num : ℕ) (opened : Option ℕ) → Cmd (Midi D) Reply
  opened_midi_out fresh num none = pure (one (int (negsuc 2)))
  opened_midi_out fresh num (some handle) =
      if fresh == null then pure (one (int (negsuc 3))) else do
        on_outs
            (on_heap (store fresh (some (node (record { number = num; handle = handle }) null))))
        add_midi_out fresh
        pure (one (int (pos 0)))

  unfoldable pub pl_open_midi_out : ℕ → (fresh : Ptr) → List Value → Cmd (Midi D) Reply
  unfolding opened_midi_out
  pl_open_midi_out k fresh args =
      if length args == 1
      then (do
        num ← check_integer lua 1 args
        found ← get_midi_out_entry k (u32_of num)
        if found == null
            then (do
              s ← get
              opened ← open_result (w.out_open (u32_of num) s.driver)
              opened_midi_out fresh (u32_of num) opened)
            else pure (one (int (negsuc 1))))
      else pure (one (int (negsuc 0)))

  -- What follows `midiInOpen`. With no memory the driver's device is closed again.
  unfoldable pub opened_midi_in : (fresh num : ℕ) (opened : Option ℕ) → Cmd (Midi D) Reply
  opened_midi_in fresh num none = pure (one (int (negsuc 2)))
  opened_midi_in fresh num (some handle) =
      if fresh == null then drive (w.in_close handle) >> pure (one (int (negsuc 3))) else do
        on_ins (
            on_heap (
              store fresh
                (some (node (record { number = num; handle = handle; events = null }) null))))
        add_midi_in fresh
        d ← on_ins (on_heap (load fresh))
        drive (w.in_start d.value.handle)
        pure (one (int (pos 0)))

  unfoldable pub pl_open_midi_in : ℕ → (fresh : Ptr) → List Value → Cmd (Midi D) Reply
  unfolding opened_midi_in
  pl_open_midi_in k fresh args =
      if length args == 1
      then (do
        num ← check_integer lua 1 args
        found ← get_midi_in_entry k (u32_of num)
        if found == null
            then (do
              s ← get
              opened ← open_result (w.in_open (u32_of num) s.driver)
              opened_midi_in fresh (u32_of num) opened)
            else pure (one (int (negsuc 1))))
      else pure (one (int (negsuc 0)))

  unfoldable pub pl_close_midi_out : ℕ → List Value → Cmd (Midi D) Reply
  pl_close_midi_out k args =
      if length args == 1
      then (do
        num ← check_integer lua 1 args
        tmp ← get_midi_out_entry k (u32_of num)
        if tmp == null then pure (one (int (negsuc 1))) else do
          d ← on_outs (on_heap (load tmp))
          drive (w.out_reset d.value.handle)
          drive (w.out_close d.value.handle)
          remove_midi_out k tmp
          pure (one (int (pos 0))))
      else pure (one (int (negsuc 0)))

  -- The code of `plCloseMidiIn`, with `remove` for its call of `RemoveMidiIn`.
  abbrev pub close_midi_in_by :
      ℕ → (remove : Ptr → Cmd (Midi D) (Unit {0})) → List Value → Cmd (Midi D) Reply
  close_midi_in_by k remove args =
      if length args == 1
      then (do
        num ← check_integer lua 1 args
        tmp ← get_midi_in_entry k (u32_of num)
        if tmp == null then pure (one (int (negsuc 1))) else do
          d ← on_ins (on_heap (load tmp))
          drive (w.in_reset d.value.handle)
          drive (w.in_close d.value.handle)
          remove tmp
          pure (one (int (pos 0))))
      else pure (one (int (negsuc 0)))

  unfoldable pub pl_close_midi_in : ℕ → List Value → Cmd (Midi D) Reply
  pl_close_midi_in k args = close_midi_in_by k (remove_midi_in k) args

  -- The wrong number of arguments makes this function return -1, and not 1.
  unfoldable pub pl_play_note : ℕ → List Value → Cmd (Midi D) Reply
  pl_play_note k args =
      if length args == 5
      then (do
        num ← check_integer lua 1 args
        tmp ← get_midi_out_entry k (u32_of num)
        if tmp == null then pure (one (int (negsuc 1))) else do
          channel ← check_integer lua 2 args
          if ltb_ℤ channel (pos 1) || ltb_ℤ (pos 16) channel
              then pure (one (int (negsuc 1)))
              else (do
                status ← check_integer lua 5 args
                key ← check_integer lua 3 args
                vel ← check_integer lua 4 args
                midi_send w tmp (bit_or (bit_and (u8_of status) 0xf0) (pos_part channel - 1))
                    (u8_of key) (u8_of vel)
                pure (one (int (pos 0)))))
      else pure (record { pushed = value (int (negsuc 0)) ∷ []; count = negsuc 0 })

  -- MIDIIN is 0 and MIDIOUT is 1.
  count_of : ℤ → D → ℕ
  count_of (pos zero) d = w.in_num_devs d
  count_of (pos (suc zero)) d = w.out_num_devs d
  count_of _ d = 0

  unfoldable pub pl_count_devices : List Value → Cmd (Midi D) Reply
  unfolding count_of
  pl_count_devices args =
      if length args == 1
      then (do
        which ← check_integer lua 1 args
        s ← get
        pure (one (int (pos (count_of which s.driver)))))
      else pure (one (int (pos 0)))

  abbrev name_reply : Option (List ℕ) → Reply
  name_reply none = one Value.nil
  name_reply (some name) = one (Value.string name)

  unfoldable pub pl_get_midi_out_name : List Value → Cmd (Midi D) Reply
  pl_get_midi_out_name args =
      if length args == 1
      then (do
        num ← check_integer lua 1 args
        s ← get
        pure (name_reply (w.out_name (u32_of num) s.driver)))
      else pure (one Value.nil)

  unfoldable pub pl_get_midi_in_name : List Value → Cmd (Midi D) Reply
  pl_get_midi_in_name args =
      if length args == 1
      then (do
        num ← check_integer lua 1 args
        s ← get
        pure (name_reply (w.in_name (u32_of num) s.driver)))
      else pure (one Value.nil)

  -- The code of `plGetEvent`, with `remove` for its call of `RemoveMidiInEvent`.
  -- A number that is no `unsigned int` becomes whatever the compiled code makes of it.
  abbrev pub get_event_by :
      ℕ → (remove : Ptr → Cmd (Midi D) (Option Event)) → List Value → Cmd (Midi D) Reply
  get_event_by k remove args =
      if length args == 1
      then (do
        num ← check_number lua 1 args
        dev ← get_midi_in_entry k (unsigned_of lua num)
        got ← remove dev
        elim got [
          | none ↦ pure (one Value.nil)
          | some ev ↦ pure (record { pushed = event_table ev ∷ []; count = pos 1 })
        ])
      else pure (one Value.nil)

  unfoldable pub pl_get_event : ℕ → List Value → Cmd (Midi D) Reply
  pl_get_event k args = get_event_by k (remove_midi_in_event k) args
