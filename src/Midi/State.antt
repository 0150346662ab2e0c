-- ===== src/Midi/State.antt =====
-- The structs and globals of src/profimidi.c, and the part of Windows' `winmm` that it calls.
use profi_lua.Base.{ℕ, Option, List, Cmd, put_back}
use profi_lua.Heap.{Ptr, Heap}

-- `tMidiOutDev`, less its `next`, which is the node's.
pub record OutDev : Type 0 where
  pub number : ℕ
  pub handle : ℕ

-- `tMidiInEvent`
pub record Event : Type 0 where
  pub status : ℕ
  pub dat1 : ℕ
  pub dat2 : ℕ

-- `tMidiInDev`; `events` is `pMidiInEventList`.
pub record InDev : Type 0 where
  pub number : ℕ
  pub handle : ℕ
  pub events : Ptr

-- A list head and the heap that its nodes stand in. Nodes of different types never share memory.
pub record Chain (A : Type 0) : Type 0 where
  pub head : Ptr
  pub heap : Heap A

-- `pMidiOutDevList`, `pMidiInDevList`, the event nodes, and the state of the MIDI driver.
pub record Midi (D : Type 0) : Type 0 where
  pub outs : Chain OutDev
  pub ins : Chain InDev
  pub events : Heap Event
  pub driver : D

-- The driver's functions. An open that fails (a result other than MMSYSERR_NOERROR) gives `none`.
pub record Winmm (D : Type 0) : Type 0 where
  pub out_open : ℕ → D → Option ℕ × D
  pub out_reset : ℕ → D → D
  pub out_close : ℕ → D → D
  pub out_short_msg : ℕ → ℕ → D → D
  pub out_num_devs : D → ℕ
  pub out_name : ℕ → D → Option (List ℕ)
  pub in_open : ℕ → D → Option ℕ × D
  pub in_start : ℕ → D → D
  pub in_reset : ℕ → D → D
  pub in_close : ℕ → D → D
  pub in_num_devs : D → ℕ
  pub in_name : ℕ → D → Option (List ℕ)

module _ {A S : Type 0} where
  abbrev pub on_heap : Cmd (Heap S) A → Cmd (Chain S) A
  on_heap m c = put_back (λ h. record c { heap = h }) (m c.heap)

module _ {A D : Type 0} where
  abbrev pub on_outs : Cmd (Chain OutDev) A → Cmd (Midi D) A
  on_outs m s = put_back (λ c. record s { outs = c }) (m s.outs)

  abbrev pub on_ins : Cmd (Chain InDev) A → Cmd (Midi D) A
  on_ins m s = put_back (λ c. record s { ins = c }) (m s.ins)

  abbrev pub on_events : Cmd (Heap Event) A → Cmd (Midi D) A
  on_events m s = put_back (λ h. record s { events = h }) (m s.events)
