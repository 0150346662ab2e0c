-- ===== src/Midi/Wire.antt =====
-- `MidiSend`, which packs a message for the driver, and the callback `MidiReceive`, by which the
-- driver hands a message over.
use profi_lua.Base.{
  ℕ, ◌+◌, ◌*◌, ◌/◌, ◌%◌, ◌^◌, bit_and, Bool, ◌||◌, ◌==◌, if◌then◌else◌, Cmd, pure, modify, ◌>>=◌,
  ◌>>◌, ℤ, pos, negsuc, some,
}
use profi_lua.Heap.{Ptr, null, node, load, store}
use profi_lua.Midi.State.{Event, Midi, Winmm, on_heap, on_outs, on_events}
use profi_lua.Midi.Devices.{add_midi_in_event, get_midi_in_entry}

abbrev pub note_on : ℕ
note_on = 0x90

abbrev pub note_off : ℕ
note_off = 0x80

abbrev pub ctrl : ℕ
ctrl = 0xB0

abbrev pub pitch : ℕ
pitch = 0xE0

-- Byte `i` of a little-endian `unsigned long`.
abbrev pub byte_of : ℕ → ℕ → ℕ
byte_of i w = w / 2 ^ (8 * i) % 256

-- The union's `wval`, from the four bytes `cval`.
abbrev pub word_of : ℕ → ℕ → ℕ → ℕ → ℕ
word_of c0 c1 c2 c3 = c0 + c1 * 2 ^ 8 + c2 * 2 ^ 16 + c3 * 2 ^ 24

unfoldable pub is_kept : ℕ → Bool
is_kept c = c == note_on || c == note_off || c == ctrl || c == pitch

module _ {D : Type 0} where
  unfoldable pub midi_send : Winmm D → Ptr → (msg key vel : ℕ) → Cmd (Midi D) ℤ
  midi_send w dev msg key vel = if dev == null then pure (negsuc 0) else do
    d ← on_outs (on_heap (load dev))
    if d.value.handle == 0 then pure (negsuc 0) else do
      let wval = word_of msg (bit_and key 0x7f) (bit_and vel 0x7f) 0
      modify λ s. record s { driver = w.out_short_msg d.value.handle wval s.driver }
      pure (pos 0)

  -- `fresh` is what `malloc` returns, `instdat` the number that the device was opened with.
  unfoldable pub midi_receive : ℕ → (fresh : Ptr) → (instdat msgpar : ℕ) → Cmd (Midi D) (Unit {0})
  unfolding is_kept
  midi_receive k fresh instdat msgpar =
      if is_kept (byte_of 0 msgpar)
      then (if fresh == null then pure tt else do
        let ev : Event = record {
          status = byte_of 0 msgpar;
          dat1 = byte_of 1 msgpar;
          dat2 = byte_of 2 msgpar;
        }
        on_events (store fresh (some (node ev null)))
        dev ← get_midi_in_entry k instdat
        add_midi_in_event dev fresh)
      else pure tt
