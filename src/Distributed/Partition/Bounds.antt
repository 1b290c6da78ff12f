-- ===== src/Distributed/Partition/Bounds.antt =====
-- No agent of a partition gets more than it can serve.
use text.Mathlib.TextEquality.{eq_iff}
use emm_go_script.Distributed.Partition.Slots.{assign_inv, classify-modes, entries, partition-parts}
use emm_go_script.Common.Sorting.{sort_by-All}
use emm_go_script.Common.{
  if◌then◌else◌, length, length-append, All, All-append, ok, ◌==◌, nat_eq, string_eq, ℕ, zero, suc,
  ◌+◌, ◌≤◌, String, ◌≡◌, refl, sym, ap, ◌∙◌, subst, ◌≢◌, Bool, true, false, List, [], ◌∷◌, ◌++◌,
  map, arith,
}
use emm_go_script.Config.{ExecutionMode, direct, browser, Job}
use emm_go_script.Distributed.Partition.{
  Agent, normal, supports_direct_protocol, Slot, empty_slot, can_take, fits_at, take_job, put_job,
  assign, by_support, partition,
}

-- The number of jobs in a mode.
pub count_mode : ExecutionMode → List Job → ℕ
count_mode m [] = 0
count_mode m (j ∷ js) = (if j.mode == m then 1 else 0) + count_mode m js

pub count_mode-snoc :
    (m : ExecutionMode) (js : List Job) (j : Job)
    → count_mode m (js ++ j ∷ []) ≡ count_mode m js + (if j.mode == m then 1 else 0)
unfolding count_mode
count_mode-snoc m [] j = omega arith
count_mode-snoc m (i ∷ js) j = omega (arith, count_mode-snoc m js j)

-- What agent `a` serves: its entry is under its ID and within its three capacities, and it supports each direct job's protocol.
pub record Serves (a : Agent) (id : String) (js : List Job) : Type 0 where
  pub same_id : id ≡ a.id
  pub within : length js ≤ a.capacity
  pub within_direct : count_mode direct js ≤ a.direct_capacity
  pub within_browser : count_mode browser js ≤ a.browser_capacity
  pub supported :
      All (λ j. j.mode ≡ direct → supports_direct_protocol a.direct_protocols j.protocol ≡ true) js

-- One entry for each agent, in order.
abbrev pub AllServe : List Agent → List (String × List Job) → Type 0
AllServe [] [] = Unit
AllServe [] (e ∷ es) = ⊥
AllServe (a ∷ rest) [] = ⊥
AllServe (a ∷ rest) ((id, js) ∷ es) = Serves a id js × AllServe rest es

record IsSlot (s : Slot) : Type 0 where
  total_counted : s.total_used ≡ length s.jobs
  direct_counted : s.direct_used ≡ count_mode direct s.jobs
  browser_counted : s.browser_used ≡ count_mode browser s.jobs
  serves : Serves s.agent s.agent.id s.jobs

abbrev IsMode : Bool → Job → Type 0
IsMode b j = j.mode ≡ (if b then browser else direct)

browser-ne-direct : browser ≢ direct
browser-ne-direct = ground (arith, eq_iff browser direct)

mode_tests :
    (b : Bool) (m : ExecutionMode)
    → m ≡ (if b then browser else direct)
    → ((m == direct) ≡ (if b then false else true)) × ((m == browser) ≡ (if b then true else false))
mode_tests true m e = rw e (refl, refl)
mode_tests false m e = rw e (refl, refl)

take_job-IsSlot :
    (b : Bool) (j : Job) (s : Slot)
    → IsMode b j
    → can_take b j.protocol s ≡ true
    → IsSlot s
    → IsSlot (take_job b j s)
unfolding take_job can_take
take_job-IsSlot b j s m c v = record {
  total_counted = ground (arith, v.total_counted, length-append s.jobs (j ∷ []));
  direct_counted = ground (arith, modes, v.direct_counted, count_mode-snoc direct s.jobs j);
  browser_counted = ground (arith, modes, v.browser_counted, count_mode-snoc browser s.jobs j);
  serves = record {
    same_id = refl;
    within = ground (arith, v.total_counted, length-append s.jobs (j ∷ []));
    within_direct =
        ground (arith, modes, v.direct_counted, v.serves, count_mode-snoc direct s.jobs j);
    within_browser =
        ground (arith, modes, v.browser_counted, v.serves, count_mode-snoc browser s.jobs j);
    supported = All-append _ s.jobs (j ∷ []) v.serves.supported (served b m c, tt);
  };
}
  where
    modes :
        ((j.mode == direct) ≡ (if b then false else true))
        × ((j.mode == browser) ≡ (if b then true else false))
    modes = mode_tests b j.mode m

    served :
        (b : Bool)
        → IsMode b j
        → can_take b j.protocol s ≡ true
        → j.mode ≡ direct
        → supports_direct_protocol s.agent.direct_protocols j.protocol ≡ true
    served true m c d = absurd (browser-ne-direct (sym m ∙ d))
    served false m c d = ground arith

empty_slot-IsSlot : (a : Agent) → IsSlot (empty_slot a)
unfolding empty_slot count_mode
empty_slot-IsSlot a = record {
  total_counted = refl;
  direct_counted = refl;
  browser_counted = refl;
  serves = record {
    same_id = refl;
    within = omega arith;
    within_direct = omega arith;
    within_browser = omega arith;
    supported = tt;
  };
}

put_job-IsSlot :
    (b : Bool) (j : Job) (slots : List Slot) (i : ℕ)
    → IsMode b j
    → fits_at b j.protocol slots i ≡ true
    → All IsSlot slots
    → All IsSlot (put_job b j slots i)
unfolding put_job fits_at
put_job-IsSlot b j [] i m f v = tt
put_job-IsSlot b j (s ∷ ss) zero m f v = (take_job-IsSlot b j s m f v.0, v.1)
put_job-IsSlot b j (s ∷ ss) (suc i) m f v = (v.0, put_job-IsSlot b j ss i m f v.1)

put_job-agents :
    (b : Bool) (j : Job) (slots : List Slot) (i : ℕ)
    → map (λ s. s.agent) (put_job b j slots i) ≡ map (λ s. s.agent) slots
unfolding put_job take_job
put_job-agents b j [] i = refl
put_job-agents b j (s ∷ ss) zero = refl
put_job-agents b j (s ∷ ss) (suc i) = ap (◌∷◌ s.agent) (put_job-agents b j ss i)

-- Slots for these agents, each within its bounds.
abbrev SlotsFor : List Agent → List Slot → Type 0
SlotsFor agents slots = All IsSlot slots × (map (λ s. s.agent) slots ≡ agents)

assign-SlotsFor :
    (agents : List Agent) (b : Bool) (js : List Job) (cursor : ℕ) (slots : List Slot)
    {out : List Slot}
    → All (IsMode b) js
    → assign b js cursor slots ≡ ok out
    → SlotsFor agents slots
    → SlotsFor agents out
assign-SlotsFor agents b =
    assign_inv (SlotsFor agents) b (IsMode b)
      (λ j slots i m f v. (put_job-IsSlot b j slots i m f v.0, put_job-agents b j slots i ∙ v.1))

empty_slots-SlotsFor : (agents : List Agent) → SlotsFor agents (map empty_slot agents)
unfolding empty_slot
empty_slots-SlotsFor [] = (tt, refl)
empty_slots-SlotsFor (a ∷ rest) =
    let (v, e) = empty_slots-SlotsFor rest in ((empty_slot-IsSlot a, v), ap (◌∷◌ a) e)

SlotsFor-AllServe :
    (slots : List Slot)
    → All IsSlot slots
    → AllServe (map (λ s. s.agent) slots) (map (λ s. (s.agent.id, s.jobs)) slots)
SlotsFor-AllServe [] v = tt
SlotsFor-AllServe (s ∷ ss) v = (v.0.serves, SlotsFor-AllServe ss v.1)

-- A successful partition has one entry for each agent, in order, under the agent's ID. It holds no more jobs than the agent's
-- capacity, no more direct jobs than its direct capacity (its whole capacity where that is 0), no more browser jobs than
-- its browser capacity, and no direct job of a protocol that the agent does not support.
pub partition-AllServe :
    (jobs : List Job) (agents : List Agent) {parts : List (String × List Job)}
    → partition jobs agents ≡ ok parts
    → AllServe (map normal agents) parts
partition-AllServe jobs agents {parts} e =
    let (split, slots, slots', ec, ed, eb, ep) = partition-parts jobs agents e in
    let (ds, bs) = classify-modes jobs [] [] ec in
    let sorted = sort_by-All (by_support (map normal agents)) _ split.0 ds in
    let (vd, ad) =
      assign-SlotsFor (map normal agents) false _ 0 _ sorted ed (empty_slots-SlotsFor _) in
    let (vb, ab) = assign-SlotsFor (map normal agents) true split.1 0 slots bs eb (vd, ad) in
    subst (AllServe (map normal agents)) ep
      (subst (λ as'. AllServe as' (entries slots')) ab (SlotsFor-AllServe slots' vb))
