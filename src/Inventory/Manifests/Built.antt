-- ===== src/Inventory/Manifests/Built.antt =====
-- A manifest that `BuildManifestForMarkers` makes.
use mathlib.Core.List.{Perm}
use mathlib.Core.List.Perm
use text.Mathlib.TextEquality.{eq_iff}
use emm_go_script.Common.{
  if◌then◌else◌, Bool-cases, length, All, ok, >>=-eq-ok, guard-eq-ok, ok-injective, string_eq,
  nat_eq, ◌==◌, mem, String, ◌≡◌, refl, sym, ap, subst, ◌≢◌, inl, inr, true, false, not, ◌||◌, List,
  [], ◌∷◌, map, arith,
}
use emm_go_script.Common.Sorting.{sort_by, sort_by-perm, sort_by-All}
use emm_go_script.Common.Unique.{Distinct-perm}
use emm_go_script.Inventory.{ManifestAsset, Manifest, RemoteAsset}
use emm_go_script.Inventory.Manifests.{
  SeenFields, no_fields, add_fields, is_repeated, marker_required, bad_asset_id, bad_account_id,
  duplicate_name_or_address, by_name, manifest_asset, collect, allowed_markers,
  build_manifest_for_markers,
}
use emm_go_script.Inventory.Manifests.Valid.{
  IsUnambiguous, FreshFields, FreshFields-nil, FreshFields-cons, FreshFields-IsUnambiguous,
}

-- The remote assets that carry an allowed marker, in order.
unfoldable pub marked : List String → List RemoteAsset → List RemoteAsset
marked allowed [] = []
marked allowed (r ∷ rest) =
    if mem r.description allowed then r ∷ marked allowed rest else marked allowed rest

pub IsUnambiguous-perm :
    {xs ys : List ManifestAsset} → Perm xs ys → IsUnambiguous ys → IsUnambiguous xs
IsUnambiguous-perm p u = record {
  names_distinct = Distinct-perm (Perm.map (λ a. a.name) p) u.names_distinct;
  ips_distinct = Distinct-perm (Perm.map (λ a. a.ip) p) u.ips_distinct;
  assets_distinct = Distinct-perm (Perm.map (λ a. a.asset_id) p) u.assets_distinct;
  accounts_distinct = Distinct-perm (Perm.map (λ a. a.account_id) p) u.accounts_distinct;
}

-- Both IDs are given.
abbrev pub HasIds : ManifestAsset → Type 0
HasIds a = (a.asset_id ≢ "") × (a.account_id ≢ "")

record Collected (allowed : List String) (s : SeenFields) (remote : List RemoteAsset)
    (out : List ManifestAsset) : Type 0 where
  exact : out ≡ map manifest_asset (marked allowed remote)
  ids : All HasIds out
  fresh : FreshFields s out

collect_taken :
    (allowed : List String) (s : SeenFields) (r : RemoteAsset) (rest : List RemoteAsset)
    {out : List ManifestAsset}
    → mem r.description allowed ≡ true
    → collect allowed s (r ∷ rest) ≡ ok out
    → (tail : List ManifestAsset) × (collect allowed (add_fields (manifest_asset r) s) rest
        ≡ ok tail)
      × (out ≡ manifest_asset r ∷ tail)
      × (is_repeated s (manifest_asset r) ≡ false)
      × HasIds (manifest_asset r)
unfolding collect is_repeated manifest_asset
collect_taken allowed s r rest t e =
    let e0 = rw t at e in
    let (i, e1) =
      guard-eq-ok (not (r.id == "" || mem r.id s.seen_assets)) (bad_asset_id r.name) _ e0 in
    let (c, e2) =
      guard-eq-ok (not (r.default_account_id == "" || mem r.default_account_id s.seen_accounts))
        (bad_account_id r.name) _ e1 in
    let (n, e3) =
      guard-eq-ok (not (mem r.name s.seen_names || mem r.ip s.seen_ips))
        (duplicate_name_or_address r.name) _ e2 in
    let (tail, e4, e5) = >>=-eq-ok (collect allowed (add_fields (manifest_asset r) s) rest) _ e3 in
    (
      tail,
      e4,
      sym (ok-injective e5),
      ground arith,
      (λ p. ground (arith, eq_iff r.id ""), λ p. ground (arith, eq_iff r.default_account_id "")),
    )

collect_lem :
    (allowed : List String) (s : SeenFields) (remote : List RemoteAsset) {out : List ManifestAsset}
    → collect allowed s remote ≡ ok out
    → Collected allowed s remote out
unfolding collect marked
collect_lem allowed s [] e =
    subst (λ o. Collected allowed s [] o) (ok-injective e)
      (record { exact = refl; ids = tt; fresh = FreshFields-nil s })
collect_lem allowed s (r ∷ rest) {out} e = elim (Bool-cases (mem r.description allowed)) [
  | inr f ↦
      let c = collect_lem allowed s rest {out = out} (rw f at e) in
      record { exact = rw f c.exact; ids = c.ids; fresh = c.fresh }
  | inl t ↦
      let (tail, e', out_is, new, given) = collect_taken allowed s r rest t e in
      let c = collect_lem allowed (add_fields (manifest_asset r) s) rest e' in
      subst (λ o. Collected allowed s (r ∷ rest) o) (sym out_is)
        (record {
          exact = rw t (ap (◌∷◌ (manifest_asset r)) c.exact);
          ids = (given, c.ids);
          fresh = FreshFields-cons s (manifest_asset r) tail new c.fresh;
        })
]

module _ (trim_space : String → String) where
  -- A manifest that is built has version 1, a record for each remote asset with an allowed marker and no other, and
  -- names, addresses, asset IDs and account IDs that each stand once; no asset ID or account ID is empty.
  pub build_manifest-IsBuilt :
      (remote : List RemoteAsset) (markers : List String) {m : Manifest}
      → build_manifest_for_markers trim_space remote markers ≡ ok m
      → (m.version ≡ 1)
        × Perm m.assets (map manifest_asset (marked (allowed_markers trim_space markers) remote))
        × All HasIds m.assets
        × IsUnambiguous m.assets
  unfolding build_manifest_for_markers
  build_manifest-IsBuilt remote markers {m} e =
      let allowed = allowed_markers trim_space markers in
      let (_, e1) = guard-eq-ok (not (length allowed == 0)) marker_required _ e in
      let (out, e2, e3) = >>=-eq-ok (collect allowed no_fields remote) _ e1 in
      let c = collect_lem allowed no_fields remote e2 in
      let p = sort_by-perm by_name out in
      subst
        (λ z.
          (z.version ≡ 1)
          × Perm z.assets (map manifest_asset (marked allowed remote))
          × All HasIds z.assets
          × IsUnambiguous z.assets)
        (ok-injective e3)
        (
          refl,
          subst (λ o. Perm (sort_by by_name out) o) c.exact p,
          sort_by-All by_name HasIds out c.ids,
          IsUnambiguous-perm p (FreshFields-IsUnambiguous no_fields out c.fresh),
        )
