-- ===== src/Distributed/Partition/FirstFit.antt =====
-- The search for an agent: the first that fits, in a circle from the cursor, and none only if none fits.
use native.Mathlib.Nat.{add-zero, mod-eq_of_lt, add-mod_right}
use emm_go_script.Common.{
  leb, if◌then◌else◌, Bool-cases, length, All, ℕ, zero, suc, ◌+◌, ◌-◌, ◌%◌, ◌<◌, ◌≡◌, inl, inr,
  Bool, true, false, none, some, List, [], ◌∷◌, arith,
}
use emm_go_script.Config.{Protocol}
use emm_go_script.Distributed.Partition.{Slot, can_take, fits_at, find_slot}

-- The agents `from`, …, `from + n - 1` of the circle refuse.
pub Refused : Bool → Protocol → List Slot → ℕ → ℕ → ℕ → Type 0
Refused b p slots cursor from zero = Unit
Refused b p slots cursor from (suc n) =
    (fits_at b p slots ((cursor + from) % length slots) ≡ false)
    × Refused b p slots cursor (from + 1) n

-- `find_slot` gives the first agent of the circle that fits: those before it refuse.
find_slot_first :
    (b : Bool) (p : Protocol) (slots : List Slot) (cursor checked rounds i : ℕ)
    → find_slot b p slots cursor checked rounds ≡ some i
    → (k : ℕ) × (k < rounds)
      × (i ≡ (cursor + (checked + k)) % length slots)
      × (fits_at b p slots i ≡ true)
      × Refused b p slots cursor checked k
unfolding find_slot Refused
find_slot_first b p slots cursor checked zero i h = cc
find_slot_first b p slots cursor checked (suc rounds) i h =
    elim (Bool-cases (fits_at b p slots ((cursor + checked) % length slots))) [
      | inl t ↦ (0, omega arith, ground arith, ground arith, tt)
      | inr t ↦
          let (k, lt, e, f, r) =
            find_slot_first b p slots cursor (checked + 1) rounds i (rw (t, find_slot) at h) in
          (suc k, omega arith, ground (arith, idx k), f, (t, r))
    ]
  where
    idx : (k : ℕ) → cursor + (checked + 1 + k) ≡ cursor + (checked + suc k)
    idx k = omega arith

none-Refused :
    (b : Bool) (p : Protocol) (slots : List Slot) (cursor checked rounds : ℕ)
    → find_slot b p slots cursor checked rounds ≡ none
    → Refused b p slots cursor checked rounds
unfolding find_slot Refused
none-Refused b p slots cursor checked zero h = tt
none-Refused b p slots cursor checked (suc rounds) h =
    elim (Bool-cases (fits_at b p slots ((cursor + checked) % length slots))) [
      | inl t ↦ absurd (ground arith)
      | inr t ↦ (t, none-Refused b p slots cursor (checked + 1) rounds (rw (t, find_slot) at h))
    ]

Refused-at :
    (b : Bool) (p : Protocol) (slots : List Slot) (cursor from n k : ℕ)
    → Refused b p slots cursor from n
    → k < n
    → fits_at b p slots ((cursor + (from + k)) % length slots) ≡ false
unfolding Refused
Refused-at b p slots cursor from zero k r h = elim h [ ]
Refused-at b p slots cursor from (suc n) zero r h = rw add-zero r.0
Refused-at b p slots cursor from (suc n) (suc k) r h =
    let e : from + suc k ≡ from + 1 + k = omega arith in
    rw e (Refused-at b p slots cursor (from + 1) n k r.1 (omega arith))

-- The round that meets index `i`.
round_of : ℕ → ℕ → ℕ → ℕ
round_of n cursor i = if leb cursor i then i - cursor else i + n - cursor

round_of-lt : (n cursor i : ℕ) → i < n → cursor < n → round_of n cursor i < n
unfolding round_of
round_of-lt n cursor i hi hc = ground arith

round_of-index :
    (n cursor i : ℕ) → i < n → cursor < n → (cursor + (0 + round_of n cursor i)) % n ≡ i
unfolding round_of
round_of-index n cursor i hi hc = elim (Bool-cases (leb cursor i)) [
  | inl t ↦ let e : cursor + (0 + (i - cursor)) ≡ i = ground arith in rw t (rw e (mod-eq_of_lt hi))
  | inr t ↦
      let e : cursor + (0 + (i + n - cursor)) ≡ i + n = ground arith in
      rw t (rw e (rw add-mod_right (mod-eq_of_lt hi)))
]

All-fits_at :
    (b : Bool) (p : Protocol) (slots : List Slot)
    → ((i : ℕ) → i < length slots → fits_at b p slots i ≡ false)
    → All (λ s. can_take b p s ≡ false) slots
unfolding fits_at
All-fits_at b p [] h = tt
All-fits_at b p (s ∷ ss) h =
    (h 0 (omega arith), All-fits_at b p ss (λ i lt. h (suc i) (omega arith)))

-- `find_slot` gives up only where no agent can take the job.
pub find_slot-none :
    (b : Bool) (p : Protocol) (slots : List Slot) (cursor : ℕ)
    → cursor < length slots
    → find_slot b p slots cursor 0 (length slots) ≡ none
    → All (λ s. can_take b p s ≡ false) slots
find_slot-none b p slots cursor hc h = All-fits_at b p slots λ i lt.
    let k = round_of (length slots) cursor i in
    let r =
      Refused-at b p slots cursor 0 (length slots) k
        (none-Refused b p slots cursor 0 (length slots) h)
        (round_of-lt (length slots) cursor i lt hc) in
    rw (round_of-index (length slots) cursor i lt hc) at r
