-- ===== src/Midi/Queue/Interrupt/Unlinking.antt =====
-- A message that arrives in the middle of `RemoveMidiIn`, before the device has left the list.
use profi_lua.Base.{
  ℕ, zero, suc, ◌<◌, ◌≡◌, refl, some, [], List, arith, length, ok, ◌==◌, Cmd, pure, get, modify,
  out_of_fuel, ◌>>=◌, ◌>>◌, if◌then◌else◌, Bool-cases, inl, inr,
}
use profi_lua.Heap.{Ptr, null, Heap, load, set_next, free}
use profi_lua.Heap.Seg.{Seg, nil, cons, Points, ◌∉◌, not_null, load-ok}
use profi_lua.Heap.Cells.{lookup, Points-lookup}
use profi_lua.Midi.Queue.Interrupt.Patch.{patched}
use profi_lua.Midi.State.{InDev, Midi, on_ins, on_heap}
use profi_lua.Midi.Chain.{unlink_loop, detach}
use profi_lua.Midi.View.{View, Holds}
use profi_lua.Midi.Devices.{remove_midi_in, drain_loop}
use profi_lua.Midi.Wire.{midi_receive}
use profi_lua.Midi.Queue.Interrupt.Apart.{midi_receive-Apart}
use profi_lua.Midi.Queue.Interrupt.Closing.{interrupted_removal}

null-Seg : {A : Type 0} {h : Heap A} {p : Ptr} {xs : List (Ptr × A)} → Seg h null p xs → null ∉ xs
null-Seg nil = refl
null-Seg (cons pt out s) = ground (arith, pt.ne_null, null-Seg s)

module _ {D : Type 0} where
  -- The loop of `RemoveMidiIn` that looks for the device before `tmp`, with a callback after so many
  -- rounds, or at its end when there are fewer, and at the latest before the device is unlinked.
  unfoldable pub interrupted_unlink :
      (callback : Cmd (Midi D) (Unit {0})) → (at k : ℕ) → (tmp p : Ptr) → Cmd (Midi D) (Unit {0})
  unfolding unlink_loop
  interrupted_unlink callback zero k tmp p = callback >> on_ins (on_heap (unlink_loop k tmp p))
  interrupted_unlink callback (suc at) zero tmp p = λ _. out_of_fuel
  interrupted_unlink callback (suc at) (suc k) tmp p = if p == null then callback else do
    n ← on_ins (on_heap (load p))
    if n.next == tmp
        then (do t ← on_ins (on_heap (load tmp)); callback; on_ins (on_heap (set_next p t.next)))
        else interrupted_unlink callback at k tmp n.next

  -- `RemoveMidiIn`, with a callback before the device is unlinked.
  unfoldable pub interrupted_unlinking :
      (callback : Cmd (Midi D) (Unit {0})) → (at k : ℕ) → Ptr → Cmd (Midi D) (Unit {0})
  unfolding interrupted_unlink
  interrupted_unlinking callback at k tmp = if tmp == null then pure tt else do
    s ← get
    if s.ins.head == tmp
        then (do
          t ← on_ins (on_heap (load tmp))
          callback
          on_ins (modify λ c. record c { head = t.next }))
        else interrupted_unlink callback at k tmp s.ins.head
    drain_loop k k tmp
    on_ins (on_heap (free tmp))

  -- The callback leads to `t`, and changes the order of the devices nowhere.
  module _ (callback : Cmd (Midi D) (Unit {0})) (s t : Midi D) (calls : callback s ≡ ok tt t)
      (same_next : (a b : Ptr) (e : InDev)
        → Points s.ins.heap a e b
        → (x : InDev) × Points t.ins.heap a x b) where
    interrupted_unlink-sequential :
        (at k : ℕ) {tmp p : Ptr} {l : List (Ptr × InDev)} {d : InDev} {next : Ptr}
        → Points s.ins.heap tmp d next
        → Seg s.ins.heap null p l
        → interrupted_unlink callback at k tmp p s ≡ on_ins (on_heap (unlink_loop k tmp p)) t
    unfolding interrupted_unlink
    interrupted_unlink-sequential zero k here seg = rw calls
    interrupted_unlink-sequential (suc at) zero here seg = refl
    interrupted_unlink-sequential (suc at) (suc k) here nil = rw calls
    interrupted_unlink-sequential (suc at) (suc k) {tmp} {p} here (cons {q} pt out seg) =
        let (x, pt') = same_next _ _ _ pt in
        let (y, here') = same_next _ _ _ here in
        elim (Bool-cases (q == tmp)) [
          | inl found ↦
              rw (not_null pt, load-ok pt, load-ok pt', found, load-ok here, load-ok here', calls)
          | inr later ↦
              rw (not_null pt, load-ok pt, load-ok pt', later)
                (interrupted_unlink-sequential at k here seg)
        ]

    interrupted_unlinking-sequential :
        (at k : ℕ) {tmp : Ptr} {l : List (Ptr × InDev)} {d : InDev} {next : Ptr}
        → Points s.ins.heap tmp d next
        → Seg s.ins.heap null s.ins.head l
        → t.ins.head ≡ s.ins.head
        → interrupted_unlinking callback at k tmp s ≡ (callback >> remove_midi_in k tmp) s
    unfolding interrupted_unlinking remove_midi_in detach
    interrupted_unlinking-sequential at k {tmp} here seg head =
        let (x, here') = same_next _ _ _ here in
        elim (Bool-cases (s.ins.head == tmp)) [
          | inl first ↦ rw (not_null here, first, load-ok here, calls, head, first, load-ok here')
          | inr later ↦ rw (
            not_null here,
            later,
            interrupted_unlink-sequential at k here seg,
            calls,
            head,
            later,
          )
        ]

  -- A message that arrives while `RemoveMidiIn` looks for the place of the device on the list, in any
  -- round of the loop or before the device is unlinked, is handled as if it had arrived before the
  -- call. The device is on the list, and the message is for any number. The fuel of the callback
  -- exceeds the number of devices, and `malloc` returns NULL or an unused address.
  pub unlinking-sequential :
      {s : Midi D} {v : View} (at k j fresh num msgpar tmp : ℕ) (d : InDev)
      → Holds s v
      → lookup tmp v.ins ≡ some d
      → length v.ins < k
      → interrupted_unlinking (midi_receive k fresh num msgpar) at j tmp s
        ≡ (midi_receive k fresh num msgpar >> remove_midi_in j tmp) s
  unlinking-sequential {s} {v} at k j fresh num msgpar tmp d h found fuel =
      let (next, points) = Points-lookup tmp h.ins found in
      let p =
        midi_receive-Apart {s = s} {q = []} k fresh num msgpar null h.ins fuel (null-Seg h.ins)
          refl in
      interrupted_unlinking-sequential (midi_receive k fresh num msgpar) s
        (patched p.devices p.events s) (p.acts s refl λ b n. refl) (λ a b e pt. p.same_next pt) at j
        points h.ins refl

-- When the callback runs: in a round of the loop that looks for the device's place on the list, or
-- of the one that frees its events.
pub data Moment : Type 0 where
  unlinking draining : (rounds : ℕ) → Moment

-- `RemoveMidiIn` with a callback in its middle.
abbrev pub removal_amid :
    {D : Type 0} → (callback : Cmd (Midi D) (Unit {0})) → Moment → ℕ → Ptr → Cmd (Midi D) (Unit {0})
removal_amid callback (Moment.unlinking rounds) k tmp = interrupted_unlinking callback rounds k tmp
removal_amid callback (Moment.draining rounds) k tmp = interrupted_removal callback rounds k tmp
