-- ===== src/Inventory/Apply/Counted.antt =====
-- The counts of a report of `Apply` (apply.go).
use emm_go_script.Common.{
  Bool-cases, Option-cases, length, take, drop, length-append, length-take, length-drop, Result,
  Result-cases, Int64, int_mod, ℕ, zero, suc, ◌+◌, ◌-◌, ◌≤◌, ◌<◌, ◌≡◌, refl, sym, subst, ◌⊎◌, inl,
  inr, Bool, true, none, some, List, [], ◌∷◌, ◌++◌, arith,
}
use emm_go_script.Inventory.{RemoteAsset}
use emm_go_script.Inventory.Apply.{
  Asset, Conflict, Reconciliation, Verdict, present, absent, conflicting, judge, reconcile_from,
  reconcile, ApplyOptions, ApplyReport, ApplyError, Outcome, limited, bounded_batch, add_created,
  import_batch, import_batches, apply_to, apply,
}

pub Verdict-cases :
    (v : Verdict) → (v ≡ present) ⊎ (v ≡ absent) ⊎ ((c : Conflict) × (v ≡ conflicting c))
Verdict-cases present = inl refl
Verdict-cases absent = inr (inl refl)
Verdict-cases (conflicting c) = inr (inr (c, refl))

-- The assets of a loop that meets no conflict are found or missing.
abbrev SumsTo : ℕ → Reconciliation → Type 0
SumsTo n rc = rc.conflict ≡ none → rc.exact + length rc.missing ≡ n

reconcile_from-count :
    (existing : List RemoteAsset) (missing : List Asset) (exact : ℕ) (desired : List Asset)
    → SumsTo
        (exact + length missing + length desired)
        (reconcile_from existing missing exact desired)
unfolding reconcile_from
reconcile_from-count existing missing exact [] = λ h. omega arith
reconcile_from-count existing missing exact (wanted ∷ rest) =
    elim (Verdict-cases (judge existing wanted)) [
      | inl p ↦
          rw (p, reconcile_from)
            (λ h. omega (arith, reconcile_from-count existing missing (exact + 1) rest h))
      | inr (inl a) ↦
          rw (a, reconcile_from)
            (λ h. omega (
              arith,
              reconcile_from-count existing (missing ++ wanted ∷ []) exact rest h,
              length-append missing (wanted ∷ []),
            ))
      | inr (inr (c, q)) ↦ rw (q, reconcile_from) (λ h. cc)
    ]

pub reconcile-count :
    (desired : List Asset) (existing : List RemoteAsset)
    → SumsTo (length desired) (reconcile desired existing)
unfolding reconcile
reconcile-count desired existing h = omega (arith, reconcile_from-count existing [] 0 desired h)

-- Where a run of batches that starts at `r` may end.
record IsCounted {W E : Type 0} (r : ApplyReport) (o : Outcome W E) : Type 0 where
  desired_kept : o.report.desired ≡ r.desired
  existing_kept : o.report.existing ≡ r.existing
  sum_kept : o.report.created + o.report.pending ≡ r.created + r.pending
  all_created : o.error ≡ none → o.report.pending ≡ 0

pub bounded_batch-pos : (size : Int64) → 1 ≤ bounded_batch size
unfolding bounded_batch
bounded_batch-pos size = ground arith

pub bounded_batch-le : (size : Int64) → size < int_mod → bounded_batch size ≤ 50
unfolding bounded_batch
bounded_batch-le size h = ground arith

-- What an outcome without an error says of `n` desired assets.
abbrev pub Completes : {W E : Type 0} → ℕ → Bool → Outcome W E → Type 0
Completes n execute o =
    o.error ≡ none
    → (o.report.existing + o.report.created + o.report.pending ≡ n)
      × (o.report.desired ≡ n)
      × (execute ≡ true → o.report.pending ≡ 0)

module _ {W E C : Type 0} (list_assets : W → Result E (List RemoteAsset) × W)
    (import_assets : List Asset → C → W → Result E (Unit {0}) × W) where
  pub import_batches-failed :
      (fuel size : ℕ) (credentials : C) (a : Asset) (rest : List Asset) (r : ApplyReport) (w : W)
      {x : ApplyError E}
      → (import_batch list_assets import_assets (take size (a ∷ rest)) credentials w).0 ≡ some x
      → import_batches list_assets import_assets (suc fuel) size credentials (a ∷ rest) r w
        ≡ record {
          report = r;
          error = some x;
          world = (import_batch list_assets import_assets (take size (a ∷ rest)) credentials w).1;
        }
  unfolding import_batches
  import_batches-failed fuel size credentials a rest r w f = rw (f, import_batches) refl

  pub import_batches-next :
      (fuel size : ℕ) (credentials : C) (a : Asset) (rest : List Asset) (r : ApplyReport) (w : W)
      → (import_batch list_assets import_assets (take size (a ∷ rest)) credentials w).0 ≡ none
      → import_batches list_assets import_assets (suc fuel) size credentials (a ∷ rest) r w
        ≡ import_batches list_assets import_assets fuel size credentials
            (drop size (a ∷ rest))
            (add_created r (length (take size (a ∷ rest))))
            (import_batch list_assets import_assets (take size (a ∷ rest)) credentials w).1
  unfolding import_batches
  import_batches-next fuel size credentials a rest r w n = rw (n, import_batches) refl

  import_batches-IsCounted :
      (fuel size : ℕ) (credentials : C) (missing : List Asset) (r : ApplyReport) (w : W)
      → 1 ≤ size
      → length missing ≤ fuel
      → r.pending ≡ length missing
      → IsCounted r (import_batches list_assets import_assets fuel size credentials missing r w)
  unfolding import_batches add_created
  import_batches-IsCounted zero size credentials missing r w s f h = record {
    desired_kept = refl;
    existing_kept = refl;
    sum_kept = refl;
    all_created = λ _. omega arith;
  }
  import_batches-IsCounted (suc fuel) size credentials [] r w s f h = record {
    desired_kept = refl;
    existing_kept = refl;
    sum_kept = refl;
    all_created = λ _. omega arith;
  }
  import_batches-IsCounted (suc fuel) size credentials (a ∷ rest) r w s f h =
      let missing = a ∷ rest in
      let lengths : (length (take size missing) ≤ length missing)
          × (length (drop size missing) ≤ fuel)
          × (r.pending - length (take size missing) ≡ length (drop size missing))
          × (length (take size missing) ≤ r.pending) =
        (
          omega (arith, length-take size missing),
          omega (arith, length-drop size missing),
          omega (arith, length-take size missing, length-drop size missing),
          omega (arith, length-take size missing),
        ) in
      elim (Option-cases
        (import_batch list_assets import_assets (take size missing) credentials w).0) [
          | inr (e, x) ↦
              subst (λ o. IsCounted r o)
                (sym (import_batches-failed fuel size credentials a rest r w x))
                (record {
                  desired_kept = refl;
                  existing_kept = refl;
                  sum_kept = refl;
                  all_created = λ n. cc;
                })
          | inl n ↦
              let ih =
                import_batches-IsCounted fuel size credentials (drop size missing)
                  (add_created r (length (take size missing)))
                  (import_batch list_assets import_assets (take size missing) credentials w).1 s
                  lengths.1 lengths.2 in
              subst (λ o. IsCounted r o)
                (sym (import_batches-next fuel size credentials a rest r w n))
                (record {
                  desired_kept = ih.desired_kept;
                  existing_kept = ih.existing_kept;
                  sum_kept = omega (arith, ih.sum_kept, lengths.3);
                  all_created = ih.all_created;
                })
        ]

  apply_to-Completes :
      (desired : List Asset) (options : ApplyOptions C) (existing : List RemoteAsset) (w : W)
      → Completes
          (length desired)
          options.execute
          (apply_to list_assets import_assets desired options existing w)
  unfolding apply_to
  apply_to-Completes desired options existing w =
      elim (Option-cases (reconcile desired existing).conflict) [
        | inr (c, f) ↦ rw (f, apply_to) (λ e. cc)
        | inl n ↦
            let sum = reconcile-count desired existing n in
            elim (Bool-cases options.execute) [
              | inr f ↦ rw (n, f, apply_to) (λ e. (omega arith, refl, λ t. cc))
              | inl t ↦
                  let r : ApplyReport = record {
                    desired = length desired;
                    existing = (reconcile desired existing).exact;
                    pending = length (reconcile desired existing).missing;
                    created = 0;
                  } in
                  let c =
                    import_batches-IsCounted (length (reconcile desired existing).missing)
                      (bounded_batch options.batch_size) options.credentials
                      (reconcile desired existing).missing r w
                      (bounded_batch-pos options.batch_size) (omega arith) refl in
                  rw (n, t, apply_to)
                    (λ e. (
                      omega (arith, c.sum_kept, c.existing_kept, sum),
                      c.desired_kept,
                      λ _. c.all_created e,
                    ))
            ]
      ]

  pub apply-Completes :
      (desired : List Asset) (options : ApplyOptions C) (w : W)
      → Completes
          (length (limited options.limit desired))
          options.execute
          (apply list_assets import_assets desired options w)
  unfolding apply
  apply-Completes desired options w = elim (Result-cases (list_assets w).0) [
    | inr (x, f) ↦ rw (f, apply) (λ e. cc)
    | inl (existing, f) ↦
        rw (f, apply)
          (apply_to-Completes (limited options.limit desired) options existing (list_assets w).1)
  ]
