-- ===== src/Midi/Spec.antt =====
-- What the library `promidi` promises, with no pointers: by number, the handle of each open output
-- device, and the handle and the events of each open input device.
pub mod CloseIn
pub mod CloseOut
pub mod Closing
pub mod Frame
pub mod OpenOut
pub mod PlayNote
pub mod Receive
pub mod OpenIn
pub mod GetEvent
pub mod Interrupted
pub mod Requeue
use profi_lua.Base.{
  ℕ, suc, ◌≤◌, ◌≡◌, Option, none, some, List, [], ◌∷◌, map, ◌==◌, if◌then◌else◌, length,
}
use profi_lua.Heap.{Ptr}
use profi_lua.Heap.Cells.{lookup}
use profi_lua.Heap.Keyed.{entry, Distinct}
use profi_lua.Midi.State.{OutDev, InDev, Event, Midi}
use profi_lua.Midi.View.{View, Holds, Events}

-- The newest event stands first.
pub record Input : Type 0 where
  pub handle : ℕ
  pub queue : List Event

pub record Spec : Type 0 where
  pub outs : ℕ → Option ℕ
  pub ins : ℕ → Option Input

abbrev pub change {ℓ} : {B : Type ℓ} → (ℕ → B) → ℕ → B → ℕ → B
change f n b m = if m == n then b else f m

-- The list without its last element, and that element.
abbrev pub init : List Event → List Event
init [] = []
init (x ∷ []) = []
init (x ∷ y ∷ xs) = x ∷ init (y ∷ xs)

abbrev pub last : List Event → Option Event
last [] = none
last (x ∷ []) = some x
last (x ∷ y ∷ xs) = last (y ∷ xs)

abbrev pub push : Event → Option Input → Option Input
push e none = none
push e (some i) = some (record i { queue = e ∷ i.queue })

abbrev pub oldest : Option Input → Option Event
oldest none = none
oldest (some i) = last i.queue

abbrev pub drop_oldest : Option Input → Option Input
drop_oldest none = none
drop_oldest (some i) = some (record i { queue = init i.queue })

abbrev pub contents : Events → List Event
contents q = map (λ c. c.1) q

abbrev pub output_of : Option (Ptr × OutDev) → Option ℕ
output_of none = none
output_of (some (p, d)) = some d.handle

abbrev pub input_of : (Ptr → Events) → Option (Ptr × InDev) → Option Input
input_of queue none = none
input_of queue (some (p, d)) = some (record { handle = d.handle; queue = contents (queue p) })

abbrev pub out_num : OutDev → ℕ
out_num d = d.number

abbrev pub in_num : InDev → ℕ
in_num d = d.number

-- The state `s` stands for `σ`, its lists have at most `n` cells each, and no number occurs twice.
pub record Refines {D : Type 0} (n : ℕ) (s : Midi D) (σ : Spec) : Type 0 where
  pub view : View
  pub holds : Holds s view
  pub out_distinct : Distinct out_num view.outs
  pub in_distinct : Distinct in_num view.ins
  pub outs_of : (m : ℕ) → output_of (entry out_num m view.outs) ≡ σ.outs m
  pub ins_of : (m : ℕ) → input_of view.queue (entry in_num m view.ins) ≡ σ.ins m
  pub outs_size : length view.outs ≤ n
  pub ins_size : length view.ins ≤ n
  pub queue_size : (p : Ptr) (d : InDev) → lookup p view.ins ≡ some d → length (view.queue p) ≤ n
