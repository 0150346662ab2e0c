-- ===== src/Midi/View.antt =====
-- What the pointers of src/profimidi.c stand for: two lists of devices, and for each input device
-- the list of its events, the newest first.
use profi_lua.Base.{◌≡◌, ◌≢◌, some, List, ◌==◌, if◌then◌else◌}
use profi_lua.Heap.{Ptr, null}
use profi_lua.Heap.Seg.{Seg, ◌∈◌, ◌∉◌}
use profi_lua.Heap.Cells.{lookup, set_at}
use profi_lua.Midi.State.{OutDev, InDev, Event, Midi}

abbrev pub Events : Type 0
Events = List (Ptr × Event)

-- The cells by address. `queue` gives the events of the input device at an address.
pub record View : Type 0 where
  pub outs : List (Ptr × OutDev)
  pub ins : List (Ptr × InDev)
  pub queue : Ptr → Events

pub record Holds {D : Type 0} (s : Midi D) (v : View) : Type 0 where
  pub outs : Seg s.outs.heap null s.outs.head v.outs
  pub ins : Seg s.ins.heap null s.ins.head v.ins
  pub queued :
      (p : Ptr) (d : InDev) → lookup p v.ins ≡ some d → Seg s.events null d.events (v.queue p)
  -- No two devices share an event.
  pub apart :
      (p r : Ptr) (d e : InDev)
      → lookup p v.ins ≡ some d
      → lookup r v.ins ≡ some e
      → p ≢ r
      → (a : Ptr) → a ∈ v.queue p
      → a ∉ v.queue r

abbrev pub override {ℓ} : {B : Type ℓ} → (Ptr → B) → Ptr → B → Ptr → B
override f p b x = if x == p then b else f x

-- The view with new events for the device `d` at `dev`, the first of them at `first`.
abbrev pub requeue : Ptr → InDev → Ptr → Events → View → View
requeue dev d first q v = record v {
  ins = set_at dev (record d { events = first }) v.ins;
  queue = override v.queue dev q;
}
