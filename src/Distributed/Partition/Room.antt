-- ===== src/Distributed/Partition/Room.antt =====
-- The placement of browser jobs fails only where the agents have no room left for them.
use emm_go_script.Common.{
  Option-cases, length, All, ok, ℕ, zero, suc, ◌+◌, ◌-◌, ◌%◌, ◌≤◌, ◌<◌, ◌≡◌, refl, ap, inl, inr,
  Bool, true, false, List, [], ◌∷◌, arith,
}
use Prim.Native.Nat.{min}
use native.Mathlib.Nat.{mod-lt}
use emm_go_script.Config.{Protocol, Job}
use emm_go_script.Distributed.Partition.{
  Slot, can_take, fits_at, find_slot, take_job, put_job, assign,
}
use emm_go_script.Distributed.Partition.Slots.{find_slot-fits_at}
use emm_go_script.Distributed.Partition.FirstFit.{find_slot-none}

-- How many more browser jobs the slots hold.
unfoldable pub browser_room : List Slot → ℕ
browser_room [] = 0
browser_room (s ∷ ss) =
    min (s.agent.capacity - s.total_used) (s.agent.browser_capacity - s.browser_used)
    + browser_room ss

browser_room-put_job :
    (j : Job) (slots : List Slot) (i : ℕ)
    → fits_at true j.protocol slots i ≡ true
    → browser_room (put_job true j slots i) + 1 ≡ browser_room slots
unfolding browser_room put_job fits_at take_job can_take
browser_room-put_job j [] i h = cc
browser_room-put_job j (s ∷ ss) zero h = ground arith
browser_room-put_job j (s ∷ ss) (suc i) h = omega (arith, browser_room-put_job j ss i h)

browser_room_full :
    (p : Protocol) (slots : List Slot)
    → All (λ s. can_take true p s ≡ false) slots
    → browser_room slots ≡ 0
unfolding browser_room can_take
browser_room_full p [] h = refl
browser_room_full p (s ∷ ss) h = ground (arith, browser_room_full p ss h.1, h.0)

length-put_job :
    (b : Bool) (j : Job) (slots : List Slot) (i : ℕ) → length (put_job b j slots i) ≡ length slots
unfolding put_job
length-put_job b j [] i = refl
length-put_job b j (s ∷ ss) zero = refl
length-put_job b j (s ∷ ss) (suc i) = ap suc (length-put_job b j ss i)

assign-total :
    (js : List Job) (cursor : ℕ) (slots : List Slot)
    → cursor < length slots
    → length js ≤ browser_room slots
    → (out : List Slot) × (assign true js cursor slots ≡ ok out)
unfolding assign
assign-total [] cursor slots hc h = (slots, refl)
assign-total (j ∷ js) cursor slots hc h =
    elim (Option-cases (find_slot true j.protocol slots cursor 0 (length slots))) [
      | inl n ↦ absurd (
          omega (
            arith,
            browser_room_full j.protocol slots (find_slot-none true j.protocol slots cursor hc n),
          ))
      | inr (i, f) ↦
          let fits = find_slot-fits_at true j.protocol slots cursor 0 (length slots) f in
          rw (f, assign)
            (assign-total js ((i + 1) % length slots) (put_job true j slots i)
              (rw length-put_job (mod-lt (i + 1) (omega arith)))
              (omega (arith, browser_room-put_job j slots i fits)))
    ]

room_nil : browser_room [] ≡ 0
unfolding browser_room
room_nil = refl

-- The placement of the browser jobs succeeds whenever the slots have room for as many.
pub assign_browser-total :
    (js : List Job) (slots : List Slot)
    → length js ≤ browser_room slots
    → (out : List Slot) × (assign true js 0 slots ≡ ok out)
assign_browser-total [] [] h = ([], unfold assign in refl)
assign_browser-total (j ∷ js) [] h = absurd (omega (arith, room_nil))
assign_browser-total js (s ∷ ss) h = assign-total js 0 (s ∷ ss) (omega arith) h
