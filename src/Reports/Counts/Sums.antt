-- ===== src/Reports/Counts/Sums.antt =====
-- Sums of counts over the entries of a map (report.go), by the arithmetic of 64-bit patterns.
use emm_go_script.Common.{
  if◌then◌else◌, Bool-cases, Eq, string_eq, nat_eq, ◌==◌, int_mod, ◌<◌, ◌≡◌, refl, sym, ap, ◌∙◌,
  inl, inr, List, [], ◌∷◌, arith,
}
use emm_go_script.Reports.Counts.{Counts, no_counts, add_counts, derived}

abbrev pub CountsMap {κ} : Type κ → Type κ
CountsMap K = List (K × Counts)

-- Two counts that agree in each field.
pub record Agree (a b : Counts) : Type 0 where
  pub planned : a.planned ≡ b.planned
  pub used : a.used ≡ b.used
  pub duplicates : a.duplicates ≡ b.duplicates
  pub unused : a.unused ≡ b.unused
  pub started : a.started ≡ b.started
  pub start_failures : a.start_failures ≡ b.start_failures
  pub runtime_failures : a.runtime_failures ≡ b.runtime_failures
  pub maintained : a.maintained ≡ b.maintained
  pub connect_retry_attempts : a.connect_retry_attempts ≡ b.connect_retry_attempts
  pub connect_retry_successes : a.connect_retry_successes ≡ b.connect_retry_successes
  pub connect_retry_exhausted : a.connect_retry_exhausted ≡ b.connect_retry_exhausted

pub Agree-eq : {a b : Counts} → Agree a b → a ≡ b
Agree-eq h = λ i. record {
  planned = h.planned i;
  used = h.used i;
  duplicates = h.duplicates i;
  unused = h.unused i;
  started = h.started i;
  start_failures = h.start_failures i;
  runtime_failures = h.runtime_failures i;
  maintained = h.maintained i;
  connect_retry_attempts = h.connect_retry_attempts i;
  connect_retry_successes = h.connect_retry_successes i;
  connect_retry_exhausted = h.connect_retry_exhausted i;
}

pub add_counts_comm : (a b : Counts) → add_counts a b ≡ add_counts b a
unfolding add_counts
add_counts_comm a b = Agree-eq (omega arith)

pub add_counts_assoc :
    (a b c : Counts) → add_counts (add_counts a b) c ≡ add_counts a (add_counts b c)
unfolding add_counts
add_counts_assoc a b c = Agree-eq (omega arith)

pub add_counts-wrap : (a b : Counts) → add_counts no_counts (add_counts a b) ≡ add_counts a b
unfolding add_counts
add_counts-wrap a b = Agree-eq (omega arith)

-- The counts that `Snapshot` subtracts are patterns.
pub record IsBounded (c : Counts) : Type 0 where
  pub used : c.used < int_mod
  pub runtime_failures : c.runtime_failures < int_mod

pub add_counts-IsBounded : (a b : Counts) → IsBounded (add_counts a b)
unfolding add_counts
add_counts-IsBounded a b = omega arith

-- What `Snapshot` derives is derived of a sum as of its parts.
pub derived-add_counts :
    (a b : Counts)
    → IsBounded a
    → IsBounded b
    → derived (add_counts a b) ≡ add_counts (derived a) (derived b)
unfolding derived add_counts
derived-add_counts a b h g = Agree-eq (omega arith)

-- A change of counts that may be made before or after others are added.
abbrev pub Shifts : (Counts → Counts) → Type 0
Shifts f = (a b : Counts) → f (add_counts a b) ≡ add_counts (f a) b

pub add_counts-Shifts : (d : Counts) → Shifts (λ c. add_counts c d)
add_counts-Shifts d a b =
    add_counts_assoc a b d ∙ ap (add_counts a) (add_counts_comm b d) ∙ sym (add_counts_assoc a d b)

module _ {κ} {K : Type κ} where
  -- The total of all of a map's entries, from the given counts on.
  unfoldable pub total_from : Counts → CountsMap K → Counts
  total_from c [] = c
  total_from c ((k, d) ∷ m) = total_from (add_counts c d) m

  abbrev pub total : CountsMap K → Counts
  total m = total_from no_counts m

  pub total_from-shift :
      (f : Counts → Counts)
      → Shifts f
      → (c : Counts) (m : CountsMap K) → total_from (f c) m ≡ f (total_from c m)
  unfolding total_from
  total_from-shift f h c [] = refl
  total_from-shift f h c ((k, d) ∷ m) =
      ap (λ e. total_from e m) (sym (h c d)) ∙ total_from-shift f h (add_counts c d) m

  module _ ⦃same : Eq K⦄ where
    -- `counts := m[k]; update(&counts); m[k] = counts`
    unfoldable pub update_at : K → (Counts → Counts) → CountsMap K → CountsMap K
    update_at k f [] = (k, f no_counts) ∷ []
    update_at k f ((j, c) ∷ m) =
        let later = update_at k f m in if j == k then (j, f c) ∷ m else (j, c) ∷ later

    total_from-update_at :
        (f : Counts → Counts) (k : K) (c : Counts) (m : CountsMap K)
        → Shifts f
        → add_counts no_counts c ≡ c
        → total_from c (update_at k f m) ≡ f (total_from c m)
    unfolding total_from update_at
    total_from-update_at f k c [] h w =
        add_counts_comm c (f no_counts) ∙ sym (h no_counts c) ∙ ap f w
    total_from-update_at f k c ((j, d) ∷ m) h w = elim (Bool-cases (j == k)) [
      | inl e ↦ rw e (
          ap (λ x. total_from x m)
            (add_counts_comm c (f d) ∙ sym (h d c) ∙ ap f (add_counts_comm d c))
          ∙ total_from-shift f h (add_counts c d) m)
      | inr e ↦ rw e (total_from-update_at f k (add_counts c d) m h (add_counts-wrap c d))
    ]

    -- A change of one entry changes the total.
    pub total-update_at :
        (f : Counts → Counts) (k : K) (m : CountsMap K)
        → Shifts f
        → total (update_at k f m) ≡ f (total m)
    total-update_at f k m h = total_from-update_at f k no_counts m h (unfold add_counts in refl)
