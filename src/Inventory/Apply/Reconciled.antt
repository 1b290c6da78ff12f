-- ===== src/Inventory/Apply/Reconciled.antt =====
-- What a reconciliation without a conflict means.
use text.Mathlib.TextEquality.{eq_iff}
use emm_go_script.Inventory.Apply.Counted.{Verdict-cases}
use emm_go_script.Common.{
  if◌then◌else◌, Bool-cases, get_elem?, All, some-injective, string_eq, nat_eq, ◌==◌, ==_iff, ℕ,
  zero, suc, ◌+◌, String, ◌≡◌, refl, sym, ap, ◌∙◌, subst, ◌≢◌, ◌⊎◌, inl, inr, Bool, true, false,
  ◌||◌, none, some, List, [], ◌∷◌, ◌++◌, append-nil, append_assoc, arith,
}
use emm_go_script.Inventory.{RemoteAsset}
use emm_go_script.Inventory.Apply.{
  Asset, Reconciliation, by_name, by_ip, remote_matches, present, absent, judge_names, judge,
  reconcile_from, reconcile,
}

-- A remote asset of the same name that matches.
pub record IsFound (existing : List RemoteAsset) (wanted : Asset) : Type 0 where
  pub index : ℕ
  pub found : RemoteAsset
  pub listed : get_elem? existing index ≡ some found
  pub named : found.name ≡ wanted.name
  pub matches : remote_matches wanted found ≡ true

-- No remote asset has its name or its address.
abbrev pub IsFree : List RemoteAsset → Asset → Type 0
IsFree existing wanted = All (λ r. (r.name ≢ wanted.name) × (r.ip ≢ wanted.ip)) existing

-- Whether a remote asset has its name.
unfoldable pub is_named : List RemoteAsset → Asset → Bool
is_named [] wanted = false
is_named (r ∷ rest) wanted = r.name == wanted.name || is_named rest wanted

-- The assets that no remote asset has the name of.
unfoldable pub unnamed : List RemoteAsset → List Asset → List Asset
unnamed existing [] = []
unnamed existing (a ∷ rest) =
    if is_named existing a then unnamed existing rest else a ∷ unnamed existing rest

by_name-All :
    (wanted : Asset) (existing : List RemoteAsset)
    → by_name wanted.name existing ≡ []
    → by_ip wanted.ip existing ≡ []
    → IsFree existing wanted × (is_named existing wanted ≡ false)
unfolding by_name by_ip is_named
by_name-All wanted [] n a = (tt, refl)
by_name-All wanted (r ∷ rest) n a = elim (Bool-cases (r.name == wanted.name)) [
  | inl t ↦ absurd (ground arith)
  | inr f ↦ elim (Bool-cases (r.ip == wanted.ip)) [
    | inl t ↦ absurd (ground arith)
    | inr g ↦
        let (free, none_named) = by_name-All wanted rest (rw f at n) (rw g at a) in
        (
          (
            (
              λ e. ground (arith, eq_iff r.name wanted.name),
              λ e. ground (arith, eq_iff r.ip wanted.ip),
            ),
            free,
          ),
          rw f none_named,
        )
  ]
]

by_name-one :
    (n : String) (existing : List RemoteAsset) (r : RemoteAsset) (others : List RemoteAsset)
    → by_name n existing ≡ r ∷ others
    → (i : ℕ) × (get_elem? existing i ≡ some r) × (r.name ≡ n)
unfolding by_name
by_name-one n [] r others e = absurd (ground arith)
by_name-one n (x ∷ rest) r others e = elim (Bool-cases (x.name == n)) [
  | inl t ↦
      let x_is_r : x ≡ r = ground arith in
      (0, ap some x_is_r, subst (λ z. z.name ≡ n) x_is_r ((==_iff x.name n).0 t))
  | inr f ↦ let (i, g, same) = by_name-one n rest r others (rw f at e) in (suc i, g, same)
]

is_named-of_index :
    (wanted : Asset) (existing : List RemoteAsset) (i : ℕ) {r : RemoteAsset}
    → get_elem? existing i ≡ some r
    → r.name ≡ wanted.name
    → is_named existing wanted ≡ true
unfolding is_named
is_named-of_index wanted [] i g e = absurd (ground arith)
is_named-of_index wanted (x ∷ rest) zero g e =
    let t = (==_iff x.name wanted.name).1 (ap (λ z. z.name) (some-injective g) ∙ e) in rw t refl
is_named-of_index wanted (x ∷ rest) (suc i) g e = elim (Bool-cases (x.name == wanted.name)) [
  | inl t ↦ rw t refl
  | inr f ↦ rw (f, is_named-of_index wanted rest i g e) refl
]

judge_names-present :
    (wanted : Asset) (names at_ip : List RemoteAsset)
    → judge_names wanted names at_ip ≡ present
    → (r : RemoteAsset) × (names ≡ r ∷ []) × (remote_matches wanted r ≡ true)
unfolding judge_names
judge_names-present wanted [] [] e = cc
judge_names-present wanted [] (_ ∷ _) e = cc
judge_names-present wanted (r ∷ []) at_ip e = elim (Bool-cases (remote_matches wanted r)) [
  | inl t ↦ (r, refl, t)
  | inr f ↦ absurd (ground arith)
]
judge_names-present wanted (_ ∷ _ ∷ _) at_ip e = cc

judge_names-absent :
    (wanted : Asset) (names at_ip : List RemoteAsset)
    → judge_names wanted names at_ip ≡ absent
    → (names ≡ []) × (at_ip ≡ [])
unfolding judge_names
judge_names-absent wanted [] [] e = (refl, refl)
judge_names-absent wanted [] (_ ∷ _) e = cc
judge_names-absent wanted (r ∷ []) at_ip e = elim (Bool-cases (remote_matches wanted r)) [
  | inl t ↦ absurd (ground arith)
  | inr f ↦ absurd (ground arith)
]
judge_names-absent wanted (_ ∷ _ ∷ _) at_ip e = cc

-- The verdicts, in terms of the listed assets.
judge-present :
    (existing : List RemoteAsset) (wanted : Asset)
    → judge existing wanted ≡ present
    → IsFound existing wanted × (is_named existing wanted ≡ true)
unfolding judge
judge-present existing wanted e =
    let (r, names, matches) =
      judge_names-present wanted (by_name wanted.name existing) (by_ip wanted.ip existing) e in
    let (i, g, same) = by_name-one wanted.name existing r [] names in
    (
      record { index = i; found = r; listed = g; named = same; matches = matches },
      is_named-of_index wanted existing i g same,
    )

judge-absent :
    (existing : List RemoteAsset) (wanted : Asset)
    → judge existing wanted ≡ absent
    → IsFree existing wanted × (is_named existing wanted ≡ false)
unfolding judge
judge-absent existing wanted e =
    let (n, a) =
      judge_names-absent wanted (by_name wanted.name existing) (by_ip wanted.ip existing) e in
    by_name-All wanted existing n a

-- What the loop has established where it ends without a conflict.
abbrev Settles : List RemoteAsset → List Asset → List Asset → Reconciliation → Type 0
Settles existing missing desired rc =
    rc.conflict ≡ none
    → (rc.missing ≡ missing ++ unnamed existing desired)
      × All (λ a. IsFound existing a ⊎ IsFree existing a) desired

reconcile_from-Settles :
    (existing : List RemoteAsset) (missing : List Asset) (exact : ℕ) (desired : List Asset)
    → Settles existing missing desired (reconcile_from existing missing exact desired)
unfolding reconcile_from unnamed
reconcile_from-Settles existing missing exact [] = λ e. (sym (append-nil missing), tt)
reconcile_from-Settles existing missing exact (a ∷ rest) = elim (Verdict-cases (judge existing a)) [
  | inl p ↦
      let (found, t) = judge-present existing a p in
      rw (p, t, reconcile_from, unnamed)
        (λ e.
          let (m, all) = reconcile_from-Settles existing missing (exact + 1) rest e in
          (m, (inl found, all)))
  | inr (inl q) ↦
      let (free, f) = judge-absent existing a q in
      rw (q, f, reconcile_from, unnamed)
        (λ e.
          let (m, all) = reconcile_from-Settles existing (missing ++ a ∷ []) exact rest e in
          (m ∙ append_assoc missing (a ∷ []) (unnamed existing rest), (inr free, all)))
  | inr (inr (c, z)) ↦ rw (z, reconcile_from) (λ e. cc)
]

-- A reconciliation without a conflict finds for each desired asset a listed asset of its name that matches it, or that
-- no listed asset has its name or address; the missing ones are those whose name no listed asset has, in their order.
pub reconcile-settled :
    (desired : List Asset) (existing : List RemoteAsset)
    → (reconcile desired existing).conflict ≡ none
    → ((reconcile desired existing).missing ≡ unnamed existing desired)
      × All (λ a. IsFound existing a ⊎ IsFree existing a) desired
unfolding reconcile
reconcile-settled desired existing e = reconcile_from-Settles existing [] 0 desired e
