-- ===== src/Inventory/Apply/Confirmed.antt =====
-- What an execution of `Apply` without an error has done (apply.go): each batch that it imports is listed again.
use emm_go_script.Common.{
  Bool-cases, Option-cases, length, take, drop, length-drop, All, Result, ok, err, Result-cases,
  string_eq, nat_eq, ◌==◌, ==_iff, ℕ, zero, suc, ◌+◌, ◌≤◌, ◌≡◌, refl, sym, ap, ◌∙◌, subst, ◌⊎◌, inl,
  inr, true, false, not, none, List, [], ◌∷◌, arith,
}
use emm_go_script.Inventory.{RemoteAsset}
use emm_go_script.Inventory.Apply.{
  Asset, reconcile, ApplyOptions, ApplyReport, limited, bounded_batch, add_created, confirm,
  import_batch, import_batches, apply_to, apply,
}
use emm_go_script.Inventory.Apply.Counted.{
  bounded_batch-pos, import_batches-failed, import_batches-next, apply-Completes,
}
use emm_go_script.Inventory.Apply.Reconciled.{IsFound, IsFree, is_named, unnamed, reconcile-settled}

IsFree-is_named :
    (existing : List RemoteAsset) (a : Asset) → IsFree existing a → is_named existing a ≡ false
unfolding is_named
IsFree-is_named [] a h = refl
IsFree-is_named (r ∷ rest) a h = elim (Bool-cases (r.name == a.name)) [
  | inl e ↦ absurd (h.0.0 ((==_iff r.name a.name).0 e))
  | inr e ↦ rw e (IsFree-is_named rest a h.1)
]

-- With none missing, all are found.
settled-IsFound :
    (existing : List RemoteAsset) (wanted : List Asset)
    → All (λ a. IsFound existing a ⊎ IsFree existing a) wanted
    → unnamed existing wanted ≡ []
    → All (IsFound existing) wanted
unfolding unnamed
settled-IsFound existing [] h e = tt
settled-IsFound existing (a ∷ rest) (inl f, h) e = elim (Bool-cases (is_named existing a)) [
  | inl t ↦ (f, settled-IsFound existing rest h (rw t at e))
  | inr t ↦ absurd (ground arith)
]
settled-IsFound existing (a ∷ rest) (inr f, h) e =
    absurd (let n = IsFree-is_named existing a f in ground arith)

empty-of_length : (l : List Asset) → not (length l == 0) ≡ false → l ≡ []
empty-of_length [] h = refl
empty-of_length (a ∷ l) h = absurd (ground arith)

module _ {W E C : Type 0} (list_assets : W → Result E (List RemoteAsset) × W)
    (import_assets : List Asset → C → W → Result E (Unit {0}) × W) where
  -- A batch that the service has imported, and whose assets the list that it gives then all has.
  pub record Imported (credentials : C) (batch : List Asset) (w w' : W) : Type 0 where
    pub current : List RemoteAsset
    pub between : W
    pub imported : import_assets batch credentials w ≡ (ok tt, between)
    pub listed : list_assets between ≡ (ok current, w')
    pub found : All (IsFound current) batch

  -- The calls that take a world to another where the assets are imported in batches of the given size at most.
  pub data Confirmed (size : ℕ) (credentials : C) : List Asset → W → W → Type 0 where
    done : {w : W} → Confirmed size credentials [] w w
    next :
        {a : Asset} {rest : List Asset} {w w1 w2 : W}
        → Imported credentials (take size (a ∷ rest)) w w1
        → Confirmed size credentials (drop size (a ∷ rest)) w1 w2
        → Confirmed size credentials (a ∷ rest) w w2

  confirm-IsFound :
      (batch : List Asset) (listed : Result E (List RemoteAsset))
      → confirm list_assets import_assets batch listed ≡ none
      → (current : List RemoteAsset) × (listed ≡ ok current) × All (IsFound current) batch
  unfolding confirm
  confirm-IsFound batch (err e) = λ h. cc
  confirm-IsFound batch (ok current) = elim (Option-cases (reconcile batch current).conflict) [
    | inr (c, f) ↦ rw (f, confirm) (λ h. cc)
    | inl n ↦
        let (missing, all) = reconcile-settled batch current n in
        elim (Bool-cases (not (length (reconcile batch current).missing == 0))) [
          | inl t ↦ rw (n, t, confirm) (λ h. cc)
          | inr t ↦
              let empty : (reconcile batch current).missing ≡ [] =
                empty-of_length (reconcile batch current).missing t in
              λ h. (current, refl, settled-IsFound current batch all (sym missing ∙ empty))
        ]
  ]

  import_batch-Imported :
      (batch : List Asset) (credentials : C) (w : W)
      → (import_batch list_assets import_assets batch credentials w).0 ≡ none
      → Imported credentials batch w (import_batch list_assets import_assets batch credentials w).1
  unfolding import_batch
  import_batch-Imported batch credentials w =
      elim (Result-cases (import_assets batch credentials w).0) [
        | inr (x, f) ↦ rw (f, import_batch) (λ h. cc)
        | inl (u, f) ↦
            let between = (import_assets batch credentials w).1 in
            rw (f, import_batch)
              (λ h.
                let (current, e, found) = confirm-IsFound batch (list_assets between).0 h in
                record {
                  current = current;
                  between = between;
                  imported = ap (λ r. (r, between)) f;
                  listed = ap (λ r. (r, (list_assets between).1)) e;
                  found = found;
                })
      ]

  import_batches-Confirmed :
      (fuel size : ℕ) (credentials : C) (missing : List Asset) (r : ApplyReport) (w : W)
      → 1 ≤ size
      → length missing ≤ fuel
      → (import_batches list_assets import_assets fuel size credentials missing r w).error ≡ none
      → Confirmed size credentials missing w
          (import_batches list_assets import_assets fuel size credentials missing r w).world
  unfolding import_batches
  import_batches-Confirmed zero size credentials [] r w s f = λ h. done
  import_batches-Confirmed zero size credentials (a ∷ rest) r w s f = absurd (omega arith)
  import_batches-Confirmed (suc fuel) size credentials [] r w s f = λ h. done
  import_batches-Confirmed (suc fuel) size credentials (a ∷ rest) r w s f =
      let batch = take size (a ∷ rest) in
      elim (Option-cases (import_batch list_assets import_assets batch credentials w).0) [
        | inr (e, x) ↦
            rw (import_batches-failed list_assets import_assets fuel size credentials a rest r w x)
              (λ h. cc)
        | inl n ↦
            rw (import_batches-next list_assets import_assets fuel size credentials a rest r w n)
              (λ h. next (import_batch-Imported batch credentials w n) (
                import_batches-Confirmed fuel size credentials (drop size (a ∷ rest))
                  (add_created r (length batch))
                  (import_batch list_assets import_assets batch credentials w).1 s
                  (omega (arith, length-drop size (a ∷ rest))) h))
      ]

  -- What an execution for the desired assets has done, from the first list on.
  pub record Done (desired : List Asset) (size : ℕ) (credentials : C) (existing : List RemoteAsset)
      (w w' : W) : Type 0 where
    pub settled : All (λ a. IsFound existing a ⊎ IsFree existing a) desired
    pub confirmed : Confirmed size credentials (unnamed existing desired) w w'

  apply_to-Done :
      (desired : List Asset) (options : ApplyOptions C) (existing : List RemoteAsset) (w : W)
      → options.execute ≡ true
      → (apply_to list_assets import_assets desired options existing w).error ≡ none
      → Done desired
          (bounded_batch options.batch_size)
          options.credentials
          existing
          w
          (apply_to list_assets import_assets desired options existing w).world
  unfolding apply_to
  apply_to-Done desired options existing w t =
      elim (Option-cases (reconcile desired existing).conflict) [
        | inr (c, f) ↦ rw (f, apply_to) (λ e. cc)
        | inl n ↦
            let (missing, settled) = reconcile-settled desired existing n in
            let r : ApplyReport = record {
              desired = length desired;
              existing = (reconcile desired existing).exact;
              pending = length (reconcile desired existing).missing;
              created = 0;
            } in
            let size = bounded_batch options.batch_size in
            let left = (reconcile desired existing).missing in
            let o =
              import_batches list_assets import_assets (length left) size options.credentials left r
                w in
            rw (n, t, apply_to)
              (λ e. record {
                settled = settled;
                confirmed =
                    subst (λ m. Confirmed size options.credentials m w o.world) missing
                      (import_batches-Confirmed (length left) size options.credentials left r w
                        (bounded_batch-pos options.batch_size) (omega arith) e);
              })
      ]

  apply-Done :
      (desired : List Asset) (options : ApplyOptions C) (w : W)
      → options.execute ≡ true
      → (apply list_assets import_assets desired options w).error ≡ none
      → (existing : List RemoteAsset) × (w' : W) × (list_assets w ≡ (ok existing, w'))
        × Done
            (limited options.limit desired)
            (bounded_batch options.batch_size)
            options.credentials
            existing
            w'
            (apply list_assets import_assets desired options w).world
  unfolding apply
  apply-Done desired options w t = elim (Result-cases (list_assets w).0) [
    | inr (x, f) ↦ rw (f, apply) (λ e. cc)
    | inl (existing, f) ↦
        rw (f, apply)
          (λ e. (
            existing,
            (list_assets w).1,
            refl,
            apply_to-Done (limited options.limit desired) options existing (list_assets w).1 t e,
          ))
  ]

  -- Where `Apply` executes and returns no error, the service has given a first list, in which each of the desired assets, up to
  -- the limit, either is found or has neither its name nor its address taken. Those whose name it does not have were imported
  -- batch after batch, all of them, and in the list that followed the import of a batch each of its assets was found. The
  -- report counts what was found and created as all, and none as pending.
  pub apply_complete :
      (desired : List Asset) (options : ApplyOptions C) (w : W)
      → options.execute ≡ true
      → (apply list_assets import_assets desired options w).error ≡ none
      → let wanted = limited options.limit desired in
        let o = apply list_assets import_assets desired options w in
        (existing : List RemoteAsset) × (w' : W) × (list_assets w ≡ (ok existing, w'))
        × Done wanted (bounded_batch options.batch_size) options.credentials existing w' o.world
        × (o.report.existing + o.report.created ≡ length wanted)
        × (o.report.desired ≡ length wanted)
        × (o.report.pending ≡ 0)
  apply_complete desired options w t e =
      let (sum, same, none_left) = apply-Completes list_assets import_assets desired options w e in
      let (existing, w', listed, d) = apply-Done desired options w t e in
      (existing, w', listed, d, omega (arith, sum, none_left t), same, none_left t)
