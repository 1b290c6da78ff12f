-- ===== src/Inventory/Manifests.antt =====
-- pam-loadtest/internal/inventory/manifest.go: `ValidateManifest` and `BuildManifestForMarkers`. The pointer that
-- `ValidateManifest` writes through is its result here; a caller drops the manifest on an error. Which empty or repeated
-- field an error names depends on the random order of a map's `range` and is left out.
pub mod Valid
pub mod Built
mod Tests
use emm_go_script.Common.{
  ltb, if◌then◌else◌, length, Result, ok, guard, ◌>>=◌, ◌>>◌, string_eq, nat_eq, ◌==◌, mem, codes,
  ℕ, ◌+◌, String, Bool, true, false, not, ◌&&◌, ◌||◌, List, [], ◌∷◌,
}
use emm_go_script.Common.Sorting.{sort_by}
use emm_go_script.Config.{mysql, protocol_order}
use emm_go_script.Inventory.{ManifestAsset, Manifest, RemoteAsset}

pub data ManifestError : Type 0 where
  unsupported_version no_assets : ManifestError
  empty_field unsupported_protocol duplicate_field : ℕ → ManifestError

-- The four maps of what was seen.
pub record SeenFields : Type 0 where
  pub seen_names : List String
  pub seen_ips : List String
  pub seen_assets : List String
  pub seen_accounts : List String

pub no_fields : SeenFields
no_fields = record { seen_names = []; seen_ips = []; seen_assets = []; seen_accounts = [] }

pub add_fields : ManifestAsset → SeenFields → SeenFields
add_fields a s = record {
  seen_names = a.name ∷ s.seen_names;
  seen_ips = a.ip ∷ s.seen_ips;
  seen_assets = a.asset_id ∷ s.seen_assets;
  seen_accounts = a.account_id ∷ s.seen_accounts;
}

pub has_empty : ManifestAsset → Bool
has_empty a =
    a.name == "" || (a.ip == "" || (a.protocol == "" || (a.asset_id == "" || a.account_id == "")))

pub is_repeated : SeenFields → ManifestAsset → Bool
is_repeated s a =
    mem a.name s.seen_names
    || (mem a.ip s.seen_ips || (mem a.asset_id s.seen_assets || mem a.account_id s.seen_accounts))

pub check_asset : ℕ → SeenFields → ManifestAsset → Result ManifestError SeenFields
check_asset index s a = do
  guard (not (has_empty a)) (empty_field index)
  guard (mem a.protocol protocol_order) (unsupported_protocol index)
  guard (not (is_repeated s a)) (duplicate_field index)
  ok (add_fields a s)

pub clean_protocol : String → String
clean_protocol p = if p == "database" then mysql else p

module _ (trim_space to_lower : String → String) where
  pub clean : ManifestAsset → ManifestAsset
  clean a = record {
    name = trim_space a.name;
    ip = trim_space a.ip;
    protocol = clean_protocol (to_lower (trim_space a.protocol));
    asset_id = trim_space a.asset_id;
    account_id = trim_space a.account_id;
  }

  -- The loop, with the 1-based index of the next record.
  pub check_assets : ℕ → SeenFields → List ManifestAsset → Result ManifestError (List ManifestAsset)
  check_assets index s [] = ok []
  check_assets index s (a ∷ rest) = do
    s' ← check_asset index s (clean a)
    tail ← check_assets (index + 1) s' rest
    ok (clean a ∷ tail)

  unfoldable pub validate_manifest : Manifest → Result ManifestError Manifest
  unfolding check_assets check_asset has_empty is_repeated clean clean_protocol mem no_fields
      add_fields
  validate_manifest m = do
    guard (m.version == 1) unsupported_version
    guard (not (length m.assets == 0)) no_assets
    assets' ← check_assets 1 no_fields m.assets
    ok (record m { assets = assets' })

pub data BuildError : Type 0 where
  marker_required : BuildError
  bad_asset_id bad_account_id duplicate_name_or_address : String → BuildError

-- The order of Go strings: that of their bytes, which UTF-8 makes that of their code points.
unfoldable pub codes_less : List ℕ → List ℕ → Bool
codes_less xs [] = false
codes_less [] (y ∷ ys) = true
codes_less (x ∷ xs) (y ∷ ys) = ltb x y || (x == y && codes_less xs ys)

unfoldable pub string_less : String → String → Bool
unfolding codes_less
string_less s t = codes_less (codes s) (codes t)

pub by_name : ManifestAsset → ManifestAsset → Bool
unfolding string_less
by_name i j = string_less i.name j.name

pub manifest_asset : RemoteAsset → ManifestAsset
manifest_asset a = record {
  name = a.name;
  ip = a.ip;
  protocol = a.protocol;
  asset_id = a.id;
  account_id = a.default_account_id;
}

-- The loop over the remote assets: what it appends to the manifest.
pub collect : List String → SeenFields → List RemoteAsset → Result BuildError (List ManifestAsset)
collect allowed s [] = ok []
collect allowed s (r ∷ rest) =
    let skipped = collect allowed s rest in
    let taken = collect allowed (add_fields (manifest_asset r) s) rest in
    if mem r.description allowed
    then (do
      guard (not (r.id == "" || mem r.id s.seen_assets)) (bad_asset_id r.name)
      guard (not (r.default_account_id == "" || mem r.default_account_id s.seen_accounts))
          (bad_account_id r.name)
      guard (not (mem r.name s.seen_names || mem r.ip s.seen_ips))
          (duplicate_name_or_address r.name)
      tail ← taken
      ok (manifest_asset r ∷ tail))
    else skipped

module _ (trim_space : String → String) where
  pub allowed_markers : List String → List String
  allowed_markers [] = []
  allowed_markers (m ∷ ms) =
      let rest = allowed_markers ms in if trim_space m == "" then rest else trim_space m ∷ rest

  unfoldable pub build_manifest_for_markers :
      List RemoteAsset → List String → Result BuildError Manifest
  unfolding allowed_markers collect mem no_fields add_fields manifest_asset sort_by by_name
  build_manifest_for_markers remote markers = do
    guard (not (length (allowed_markers markers) == 0)) marker_required
    assets' ← collect (allowed_markers markers) no_fields remote
    ok (record { version = 1; assets = sort_by by_name assets' })
