-- ===== src/Inventory/Manifests/Valid.antt =====
-- A manifest that `ValidateManifest` accepts.
use text.Mathlib.TextEquality.{eq_iff}
use emm_go_script.Common.{
  length, All, Distinct, ok, >>=-eq-ok, guard-eq-ok, ok-injective, string_eq, nat_eq, ==_iff, mem,
  Fresh, Fresh-cons, ℕ, ◌+◌, String, ◌≡◌, refl, sym, ap, ◌∙◌, subst, ◌≢◌, true, false, not, List,
  [], ◌∷◌, map, arith,
}
use emm_go_script.Inventory.{ManifestAsset, Manifest}
use emm_go_script.Inventory.Manifests.{
  empty_field, unsupported_protocol, duplicate_field, SeenFields, no_fields, add_fields, has_empty,
  is_repeated, check_asset, clean, check_assets, validate_manifest,
}
use emm_go_script.Config.{protocol_order}

-- No field is empty and the protocol is known.
pub record IsFilled (a : ManifestAsset) : Type 0 where
  pub name_given : a.name ≢ ""
  pub ip_given : a.ip ≢ ""
  pub asset_given : a.asset_id ≢ ""
  pub account_given : a.account_id ≢ ""
  pub protocol_known : mem a.protocol protocol_order ≡ true

abbrev pub names : List ManifestAsset → List String
names = map (λ a. a.name)

abbrev pub ips : List ManifestAsset → List String
ips = map (λ a. a.ip)

abbrev pub asset_ids : List ManifestAsset → List String
asset_ids = map (λ a. a.asset_id)

abbrev pub account_ids : List ManifestAsset → List String
account_ids = map (λ a. a.account_id)

-- Names, addresses, asset IDs and account IDs each stand once.
pub record IsUnambiguous (items : List ManifestAsset) : Type 0 where
  pub names_distinct : Distinct (names items)
  pub ips_distinct : Distinct (ips items)
  pub assets_distinct : Distinct (asset_ids items)
  pub accounts_distinct : Distinct (account_ids items)

pub record FreshFields (s : SeenFields) (items : List ManifestAsset) : Type 0 where
  pub fresh_names : Fresh s.seen_names (names items)
  pub fresh_ips : Fresh s.seen_ips (ips items)
  pub fresh_assets : Fresh s.seen_assets (asset_ids items)
  pub fresh_accounts : Fresh s.seen_accounts (account_ids items)

pub FreshFields-nil : (s : SeenFields) → FreshFields s []
FreshFields-nil s = record {
  fresh_names = (tt, tt);
  fresh_ips = (tt, tt);
  fresh_assets = (tt, tt);
  fresh_accounts = (tt, tt);
}

pub FreshFields-cons :
    (s : SeenFields) (a : ManifestAsset) (items : List ManifestAsset)
    → is_repeated s a ≡ false
    → FreshFields (add_fields a s) items
    → FreshFields s (a ∷ items)
unfolding is_repeated add_fields
FreshFields-cons s a items r f = record {
  fresh_names = Fresh-cons a.name s.seen_names (names items) (ground arith) f.fresh_names;
  fresh_ips = Fresh-cons a.ip s.seen_ips (ips items) (ground arith) f.fresh_ips;
  fresh_assets =
      Fresh-cons a.asset_id s.seen_assets (asset_ids items) (ground arith) f.fresh_assets;
  fresh_accounts =
      Fresh-cons a.account_id s.seen_accounts (account_ids items) (ground arith) f.fresh_accounts;
}

pub FreshFields-IsUnambiguous :
    (s : SeenFields) (items : List ManifestAsset) → FreshFields s items → IsUnambiguous items
FreshFields-IsUnambiguous s items f = record {
  names_distinct = f.fresh_names.1;
  ips_distinct = f.fresh_ips.1;
  assets_distinct = f.fresh_assets.1;
  accounts_distinct = f.fresh_accounts.1;
}

check_asset_inv :
    (index : ℕ) (s : SeenFields) (a : ManifestAsset) {s' : SeenFields}
    → check_asset index s a ≡ ok s'
    → IsFilled a × (is_repeated s a ≡ false) × (s' ≡ add_fields a s)
unfolding check_asset has_empty
check_asset_inv index s a e =
    let (filled, e1) = guard-eq-ok (not (has_empty a)) (empty_field index) _ e in
    let (known, e2) =
      guard-eq-ok (mem a.protocol protocol_order) (unsupported_protocol index) _ e1 in
    let (fresh, e3) = guard-eq-ok (not (is_repeated s a)) (duplicate_field index) _ e2 in
    (
      record {
        name_given = λ p. ground (arith, eq_iff a.name "");
        ip_given = λ p. ground (arith, eq_iff a.ip "");
        asset_given = λ p. ground (arith, eq_iff a.asset_id "");
        account_given = λ p. ground (arith, eq_iff a.account_id "");
        protocol_known = known;
      },
      ground arith,
      sym (ok-injective e3),
    )

module _ (trim_space to_lower : String → String) where
  check_assets_inv :
      (index : ℕ) (s : SeenFields) (items : List ManifestAsset) {out : List ManifestAsset}
      → check_assets trim_space to_lower index s items ≡ ok out
      → (out ≡ map (clean trim_space to_lower) items) × All IsFilled out × FreshFields s out
  unfolding check_assets
  check_assets_inv index s [] e =
      subst (λ o. (o ≡ []) × All IsFilled o × FreshFields s o) (ok-injective e)
        (refl, tt, FreshFields-nil s)
  check_assets_inv index s (a ∷ rest) e =
      let a' = clean trim_space to_lower a in
      let (s', e1, e2) = >>=-eq-ok (check_asset index s a') _ e in
      let (tail, e3, e4) = >>=-eq-ok (check_assets trim_space to_lower (index + 1) s' rest) _ e2 in
      let (filled, fresh, s_is) = check_asset_inv index s a' e1 in
      let (same, all_filled, f) = check_assets_inv (index + 1) s' rest e3 in
      subst
        (λ o. (o ≡ map (clean trim_space to_lower) (a ∷ rest)) × All IsFilled o × FreshFields s o)
        (ok-injective e4)
        (
          ap (◌∷◌ a') same,
          (filled, all_filled),
          FreshFields-cons s a' tail fresh (subst (λ z. FreshFields z tail) s_is f),
        )

  -- A manifest that is accepted has version 1, records, each with no empty field and a known protocol, and names,
  -- addresses, asset IDs and account IDs that each stand once; the records are those given, cleaned.
  pub validate_manifest-IsValid :
      (m : Manifest) {m' : Manifest}
      → validate_manifest trim_space to_lower m ≡ ok m'
      → (m.version ≡ 1)
        × (m.assets ≢ [])
        × (m' ≡ record m { assets = map (clean trim_space to_lower) m.assets })
        × (All IsFilled m'.assets × IsUnambiguous m'.assets)
  unfolding validate_manifest
  validate_manifest-IsValid m {m'} e =
      let (version, e1) = guard-eq-ok _ _ _ e in
      let (given, e2) = guard-eq-ok _ _ _ e1 in
      let (out, e3, e4) = >>=-eq-ok (check_assets trim_space to_lower 1 no_fields m.assets) _ e2 in
      let (same, filled, f) = check_assets_inv 1 no_fields m.assets e3 in
      let m'_is = ok-injective e4 in
      (
        (==_iff m.version 1).0 version,
        λ p. let z : length m.assets ≡ 0 = ap length p in ground arith,
        sym m'_is ∙ ap (λ o. record m { assets = o }) same,
        subst (λ z. All IsFilled z.assets × IsUnambiguous z.assets) m'_is
            (filled, FreshFields-IsUnambiguous no_fields out f),
      )
