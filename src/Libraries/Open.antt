-- ===== src/Libraries/Open.antt =====
-- The tables of functions and the openers of the four libraries.
use profi_lua.Base.{ℕ, List, [], ◌∷◌, pos}
use profi_lua.Lua.{Value, Number, int, integer}
use profi_lua.Midi.Wire.{note_on, note_off, ctrl, pitch}
use profi_lua.Libraries.{Registry, Function}
use Prim.Native.String.{String}

abbrev pub midi_funcs : List (String × Function)
midi_funcs =
    ("OpenMidiOut", Function.open_midi_out)
    ∷ ("CloseMidiOut", Function.close_midi_out)
    ∷ ("OpenMidiIn", Function.open_midi_in)
    ∷ ("CloseMidiIn", Function.close_midi_in)
    ∷ ("GetMidiOutName", Function.get_midi_out_name)
    ∷ ("GetMidiInName", Function.get_midi_in_name)
    ∷ ("SendMessage", Function.play_note)
    ∷ ("GetMessage", Function.get_event)
    ∷ ("CountDevices", Function.count_devices)
    ∷ []

abbrev pub serial_funcs : List (String × Function)
serial_funcs =
    ("Mount", Function.serial_mount)
    ∷ ("UnMount", Function.serial_unmount)
    ∷ ("CheckPort", Function.serial_check)
    ∷ ("Open", Function.serial_open)
    ∷ ("Close", Function.serial_close)
    ∷ ("Send", Function.serial_send)
    ∷ ("BufferCount", Function.serial_buffer_count)
    ∷ ("Config", Function.serial_config)
    ∷ ("ReadByte", Function.serial_read_byte)
    ∷ ("BufferFlush", Function.serial_buffer_flush)
    ∷ []

abbrev pub bit_funcs : List (String × Function)
bit_funcs =
    ("tobit", Function.bit_tobit)
    ∷ ("bnot", Function.bit_bnot)
    ∷ ("band", Function.bit_band)
    ∷ ("bor", Function.bit_bor)
    ∷ ("bxor", Function.bit_bxor)
    ∷ ("lshift", Function.bit_lshift)
    ∷ ("rshift", Function.bit_rshift)
    ∷ ("arshift", Function.bit_arshift)
    ∷ ("rol", Function.bit_rol)
    ∷ ("ror", Function.bit_ror)
    ∷ ("bswap", Function.bit_bswap)
    ∷ ("tohex", Function.bit_tohex)
    ∷ ("tobin", Function.bit_tobin)
    ∷ []

abbrev pub profilua : List (String × Function)
profilua = ("GetKey", Function.get_key) ∷ []

abbrev pub midi_in : ℕ
midi_in = 0

abbrev pub midi_out : ℕ
midi_out = 1

-- 5.0, 0 and 2.5
abbrev pub logic_high : Number
logic_high = integer (pos 5)

abbrev pub logic_low : Number
logic_low = integer (pos 0)

abbrev pub logic_high_thres : Number
logic_high_thres = record { mantissa = pos 5; scale = 1 }

-- "v1.0a"
abbrev pub version : List ℕ
version = b'v' ∷ b'1' ∷ b'.' ∷ b'0' ∷ b'a' ∷ []

module _ {G : Type 0} (r : Registry G Function) where
  unfoldable pub luaopen_profilua : G → G
  luaopen_profilua g = r.set_global "gISHIGH" (Value.number logic_high_thres) (
      r.set_global "gLOW" (Value.number logic_low) (
        r.set_global "gHIGH" (Value.number logic_high)
          (r.set_global "PROFILUAVERSION" (Value.string version) (r.register "prolua" profilua g))))

  unfoldable pub luaopen_profibit : G → G
  luaopen_profibit g = r.register "probit" bit_funcs g

  unfoldable pub luaopen_profimidi : G → G
  luaopen_profimidi g = r.set_global "PITCH" (int (pos pitch)) (
      r.set_global "CTRL" (int (pos ctrl)) (
        r.set_global "NOTEON" (int (pos note_on)) (
          r.set_global "NOTEOFF" (int (pos note_off)) (
            r.set_global "MIDIOUT" (int (pos midi_out))
              (r.set_global "MIDIIN" (int (pos midi_in)) (r.register "promidi" midi_funcs g))))))

  unfoldable pub luaopen_profiserial : G → G
  luaopen_profiserial g = r.set_global "PARITY_EVEN" (int (pos 2)) (
      r.set_global "PARITY_ODD" (int (pos 1))
        (r.set_global "PARITY_NONE" (int (pos 0)) (r.register "proserial" serial_funcs g)))

  -- `luaL_openlibs`, whose table has these four after the libraries of Lua, `standard`.
  unfoldable pub open_libs : (standard : G → G) → G → G
  unfolding luaopen_profilua luaopen_profibit luaopen_profimidi luaopen_profiserial
  open_libs standard g =
      luaopen_profiserial (luaopen_profimidi (luaopen_profibit (luaopen_profilua (standard g))))
