-- ===== src/Midi/Spec/PlayNote.antt =====
-- `plPlayNote` and `MidiSend`: what goes over the wire.
use profi_lua.Base.{
  ℕ, ◌<◌, ◌≡◌, refl, Option, none, some, [], ◌∷◌, ◌==◌, if◌then◌else◌, arith, Bool-cases, inl, inr,
  false, ◌∙◌, ap, sym, Option-cases, Returns, returns, ok, pos, negsuc, u32_of,
}
use profi_lua.Lua.{Lua, Value, as_number, Number, int}
use profi_lua.Lua.Stack.{Reply, one}
use profi_lua.Heap.{Ptr, null}
use profi_lua.Heap.Seg.{Points, not_null, load-ok}
use profi_lua.Heap.Cells.{Points-lookup}
use profi_lua.Heap.Keyed.{entry, entry-IsEntry, find-entry, address}
use profi_lua.Midi.State.{OutDev, Midi, Winmm}
use profi_lua.Midi.Chain.Find.{get_entry-find}
use profi_lua.Midi.Spec.{Spec, Refines, output_of, out_num}
use profi_lua.Base.{◌+◌, ◌-◌, ◌*◌, ◌/◌, ◌%◌, ◌||◌, ℤ, ltb_ℤ, pos_part, u8_of, bit_or, bit_and}
use profi_lua.Base.Bits.{bit_and_high, bit_and_seven, bit_or_halves}
use profi_lua.Midi.Devices.{get_midi_out_entry, out_number}
use profi_lua.Midi.Wire.{midi_send, word_of}
use profi_lua.Midi.Api.{pl_play_note}

u8_of-lt : (z : ℤ) → u8_of z < 256
u8_of-lt (pos n) = omega arith
u8_of-lt (negsuc n) = omega arith

-- The three bytes of a message, the first in the lowest place: the status's high half with the
-- channel counted from 0, and seven bits each of the key and the velocity.
abbrev pub wire : (status channel key vel : ℤ) → ℕ
wire status channel key vel =
    u8_of status / 16 * 16
    + (pos_part channel - 1)
    + u8_of key % 128 * 256
    + u8_of vel % 128 * 65536

in_range-lt : (c : ℤ) → (ltb_ℤ c (pos 1) || ltb_ℤ (pos 16) c) ≡ false → pos_part c - 1 < 16
in_range-lt (pos n) e = ground arith
in_range-lt (negsuc n) e = ground arith

word-wire :
    (status channel key vel : ℤ)
    → pos_part channel - 1 < 16
    → word_of
        (bit_or (bit_and (u8_of status) 0xf0) (pos_part channel - 1))
        (bit_and (u8_of key) 0x7f)
        (bit_and (u8_of vel) 0x7f)
        0
      ≡ wire status channel key vel
word-wire status channel key vel lt =
    let s_lt = u8_of-lt status in
    rw
      (
        bit_and_high (u8_of status) s_lt,
        bit_or_halves (u8_of status / 16) (pos_part channel - 1) (omega arith) lt,
        bit_and_seven (u8_of key) (u8_of-lt key),
        bit_and_seven (u8_of vel) (u8_of-lt vel),
      )
      (omega arith)

module _ {D : Type 0} (lua : Lua) (w : Winmm D) where
  -- The reply and the driver's new state. A device whose handle is NULL is sent nothing.
  abbrev pub played : (channel : ℤ) (word : ℕ) → D → Option ℕ → Reply × D
  played channel word d none = (one (int (negsuc 1)), d)
  played channel word d (some h) =
      if ltb_ℤ channel (pos 1) || ltb_ℤ (pos 16) channel
      then (one (int (negsuc 1)), d)
      else (one (int (pos 0)), if h == 0 then d else w.out_short_msg h word d)

  module _ {n : ℕ} {s : Midi D} {σ : Spec} (k : ℕ) (v₁ v₂ v₃ v₄ v₅ : Value)
      (x₁ x₂ x₃ x₄ x₅ : Number) (r : Refines n s σ) (fuel : n < k) (n₁ : as_number lua v₁ ≡ some x₁)
      (n₂ : as_number lua v₂ ≡ some x₂) (n₃ : as_number lua v₃ ≡ some x₃)
      (n₄ : as_number lua v₄ ≡ some x₄) (n₅ : as_number lua v₅ ≡ some x₅) where
    abbrev integer : Number → ℤ
    integer = lua.number_to_integer

    abbrev num : ℕ
    num = u32_of (integer x₁)

    abbrev word : ℕ
    word = wire (integer x₅) (integer x₂) (integer x₃) (integer x₄)

    -- `MidiSend` sends the bytes that `wire` describes, unless the handle is NULL.
    pub sent :
        (dev next : Ptr) (d : OutDev)
        → Points s.outs.heap dev d next
        → (ltb_ℤ (integer x₂) (pos 1) || ltb_ℤ (pos 16) (integer x₂)) ≡ false
        → midi_send w dev
            (bit_or (bit_and (u8_of (integer x₅)) 0xf0) (pos_part (integer x₂) - 1))
            (u8_of (integer x₃))
            (u8_of (integer x₄))
            s
          ≡ (if d.handle == 0
              then ok (negsuc 0) s
              else ok (pos 0) (record s { driver = w.out_short_msg d.handle word s.driver }))
    unfolding midi_send
    sent dev next d points range =
        rw
          (
            not_null points,
            load-ok points,
            word-wire (integer x₅) (integer x₂) (integer x₃) (integer x₄)
                (in_range-lt (integer x₂) range),
          )
          (ground arith)

    -- `plPlayNote` with five numeric arguments sends one message to an open device whose handle is
    -- not NULL, if the channel is between 1 and 16: the status's high half with the channel less 1,
    -- and the low seven bits of the key and of the velocity, from the lowest byte on. Otherwise
    -- nothing is sent, and the reply is -2 for a closed device or a channel out of range. The lists
    -- stay as they are.
    pub pl_play_note-wire :
        Returns
          (λ reply t.
            (reply ≡ (played (integer x₂) word s.driver (σ.outs num)).0)
            × (t ≡ record s { driver = (played (integer x₂) word s.driver (σ.outs num)).1 }))
          (pl_play_note lua w k (v₁ ∷ v₂ ∷ v₃ ∷ v₄ ∷ v₅ ∷ []) s)
    unfolding pl_play_note get_midi_out_entry
    pl_play_note-wire = elim (Option-cases (entry out_num num r.view.outs)) [
      | inl e ↦
          let closed : σ.outs num ≡ none = sym (r.outs_of num) ∙ ap output_of e in
          let missed = find-entry out_num num r.view.outs ∙ ap (address out_num) e in
          rw
            (
              n₁,
              get_entry-find (out_number num) k s.outs r.holds.outs (omega (arith, r.outs_size)),
              missed,
              closed,
            )
            (returns (refl, refl))
      | inr ((dev, d), e) ↦
          let is = entry-IsEntry out_num num dev d r.holds.outs e in
          let known = sym (r.outs_of num) ∙ ap output_of e in
          let at = find-entry out_num num r.view.outs ∙ ap (address out_num) e in
          let ne : (dev == null) ≡ false = ground (arith, is.ne_null) in
          let (next, points) = Points-lookup dev r.holds.outs is.at in
          rw
            (
              n₁,
              get_entry-find (out_number num) k s.outs r.holds.outs (omega (arith, r.outs_size)),
              at,
              ne,
              n₂,
              known,
            )
            (elim (Bool-cases (ltb_ℤ (integer x₂) (pos 1) || ltb_ℤ (pos 16) (integer x₂))) [
              | inl t ↦ rw t (returns (refl, refl))
              | inr f ↦
                  rw (f, n₅, n₃, n₄, sent dev next d points f)
                    (elim (Bool-cases (d.handle == 0)) [
                      | inl z ↦ rw z (returns (refl, refl))
                      | inr nz ↦ rw nz (returns (refl, refl))
                    ])
            ])
    ]
