-- ===== src/Inventory/Apply/Calls.antt =====
-- The calls that `Apply` makes of the inventory service (apply.go).
use emm_go_script.Common.{
  Bool-cases, Option-cases, length, take, drop, length-take, All, All-append, Result, ok,
  Result-cases, int_mod, ℕ, zero, suc, ◌+◌, ◌≤◌, ◌<◌, ◌≡◌, sym, subst, inl, inr, List, [], ◌∷◌,
  ◌++◌, arith,
}
use emm_go_script.Inventory.{RemoteAsset}
use emm_go_script.Inventory.Apply.{
  Asset, absent, judge, reconcile_from, reconcile, ApplyOptions, ApplyReport, limited,
  bounded_batch, add_created, import_batch, import_batches, apply_to, apply,
}
use emm_go_script.Inventory.Apply.Counted.{
  Verdict-cases, bounded_batch-pos, bounded_batch-le, import_batches-failed, import_batches-next,
}

-- A batch that may be imported where the service lists `existing`.
pub record IsBatch (existing : List RemoteAsset) (batch : List Asset) : Type 0 where
  pub filled : 1 ≤ length batch
  pub bounded : length batch ≤ 50
  pub new : All (λ a. judge existing a ≡ absent) batch

All-take {ℓ κ} : {A : Type ℓ} (P : A → Type κ) (n : ℕ) (xs : List A) → All P xs → All P (take n xs)
All-take P zero xs h = tt
All-take P (suc n) [] h = tt
All-take P (suc n) (x ∷ xs) h = (h.0, All-take P n xs h.1)

All-drop {ℓ κ} : {A : Type ℓ} (P : A → Type κ) (n : ℕ) (xs : List A) → All P xs → All P (drop n xs)
All-drop P zero xs h = h
All-drop P (suc n) [] h = tt
All-drop P (suc n) (x ∷ xs) h = All-drop P n xs h.1

reconcile_from-absent :
    (existing : List RemoteAsset) (missing : List Asset) (exact : ℕ) (desired : List Asset)
    → All (λ a. judge existing a ≡ absent) missing
    → All (λ a. judge existing a ≡ absent) (reconcile_from existing missing exact desired).missing
unfolding reconcile_from
reconcile_from-absent existing missing exact [] h = h
reconcile_from-absent existing missing exact (wanted ∷ rest) h =
    elim (Verdict-cases (judge existing wanted)) [
      | inl p ↦ rw (p, reconcile_from) (reconcile_from-absent existing missing (exact + 1) rest h)
      | inr (inl a) ↦
          rw (a, reconcile_from)
            (reconcile_from-absent existing (missing ++ wanted ∷ []) exact rest
              (All-append (λ z. judge existing z ≡ absent) missing (wanted ∷ []) h (a, tt)))
      | inr (inr (c, q)) ↦ rw (q, reconcile_from) tt
    ]

module _ {W E C : Type 0} (list_assets : W → Result E (List RemoteAsset) × W)
    (import_assets : List Asset → C → W → Result E (Unit {0}) × W) (credentials : C)
    (existing : List RemoteAsset) (I : W → Type 0) (I-list : (w : W) → I w → I (list_assets w).1)
    (I-import : (batch : List Asset) (w : W)
      → IsBatch existing batch
      → I w
      → I (import_assets batch credentials w).1) where
  import_batch-keeps :
      (batch : List Asset) (w : W)
      → IsBatch existing batch
      → I w
      → I (import_batch list_assets import_assets batch credentials w).1
  unfolding import_batch
  import_batch-keeps batch w b i = elim (Result-cases (import_assets batch credentials w).0) [
    | inr (x, f) ↦ rw (f, import_batch) (I-import batch w b i)
    | inl (u, f) ↦ rw (f, import_batch) (I-list _ (I-import batch w b i))
  ]

  import_batches-keeps :
      (fuel size : ℕ) (missing : List Asset) (r : ApplyReport) (w : W)
      → 1 ≤ size
      → size ≤ 50
      → All (λ a. judge existing a ≡ absent) missing
      → I w
      → I (import_batches list_assets import_assets fuel size credentials missing r w).world
  unfolding import_batches
  import_batches-keeps zero size missing r w p q h i = i
  import_batches-keeps (suc fuel) size [] r w p q h i = i
  import_batches-keeps (suc fuel) size (a ∷ rest) r w p q h i =
      let b : IsBatch existing (take size (a ∷ rest)) = record {
        filled = omega (arith, length-take size (a ∷ rest));
        bounded = omega (arith, length-take size (a ∷ rest));
        new = All-take (λ z. judge existing z ≡ absent) size (a ∷ rest) h;
      } in
      let kept = import_batch-keeps (take size (a ∷ rest)) w b i in
      elim (Option-cases
        (import_batch list_assets import_assets (take size (a ∷ rest)) credentials w).0) [
          | inr (x, f) ↦
              subst (λ o. I o.world)
                (sym (
                  import_batches-failed list_assets import_assets fuel size credentials a rest r w
                    f))
                kept
          | inl n ↦
              subst (λ o. I o.world)
                (sym (
                  import_batches-next list_assets import_assets fuel size credentials a rest r w n))
                (import_batches-keeps fuel size (drop size (a ∷ rest))
                  (add_created r (length (take size (a ∷ rest))))
                  (import_batch list_assets import_assets (take size (a ∷ rest)) credentials w).1 p
                  q (All-drop (λ z. judge existing z ≡ absent) size (a ∷ rest) h) kept)
        ]

  -- `Apply` keeps all that its lists keep, and its imports of 1 to 50 assets that the first list misses: it makes no
  -- other call. The batch size is a 64-bit value.
  pub apply-keeps :
      (desired : List Asset) (options : ApplyOptions C) (w : W)
      → (list_assets w).0 ≡ ok existing
      → options.credentials ≡ credentials
      → options.batch_size < int_mod
      → I w
      → I (apply list_assets import_assets desired options w).world
  unfolding apply apply_to reconcile
  apply-keeps desired options w f c size i =
      let listed = I-list w i in
      elim (Option-cases (reconcile (limited options.limit desired) existing).conflict) [
        | inr (x, g) ↦ rw (f, g, apply, apply_to) listed
        | inl n ↦ elim (Bool-cases options.execute) [
          | inr u ↦ rw (f, n, u, apply, apply_to) listed
          | inl t ↦
              rw (f, n, t, c, apply, apply_to)
                (import_batches-keeps _ (bounded_batch options.batch_size) _ _ (list_assets w).1
                  (bounded_batch-pos options.batch_size) (bounded_batch-le options.batch_size size)
                  (reconcile_from-absent existing [] 0 (limited options.limit desired) tt) listed)
        ]
      ]
