-- ===== src/Inventory/Manifests/Tests.antt =====
-- A manifest of two assets, as it is read and as it is built. The texts have nothing to trim.
use mathlib.Core.List.{Perm}
use emm_go_script.Common.{All, ok, err, String, ◌≡◌, refl, ◌≢◌, List, [], ◌∷◌, map}
use emm_go_script.Inventory.{ManifestAsset, Manifest, RemoteAsset}
use emm_go_script.Inventory.Manifests.{
  duplicate_field, clean, validate_manifest, manifest_asset, allowed_markers,
  build_manifest_for_markers,
}
use emm_go_script.Inventory.Manifests.Valid.{IsFilled, IsUnambiguous, validate_manifest-IsValid}
use emm_go_script.Inventory.Manifests.Built.{marked, HasIds, build_manifest-IsBuilt}

abbrev same : String → String
same s = s

abbrev item : String → String → String → ManifestAsset
item n p a = record { name = n; ip = a; protocol = p; asset_id = a; account_id = n }

abbrev two_assets : Manifest
two_assets = record { version = 1; assets = item "b" "ssh" "x" ∷ item "a" "database" "y" ∷ [] }

abbrev two_cleaned : Manifest
two_cleaned = record { version = 1; assets = item "b" "ssh" "x" ∷ item "a" "mysql" "y" ∷ [] }

validate_two : validate_manifest same same two_assets ≡ ok two_cleaned
unfolding validate_manifest
validate_two = refl

abbrev repeated_asset : Manifest
repeated_asset = record { version = 1; assets = item "b" "ssh" "x" ∷ item "a" "ssh" "x" ∷ [] }

validate_repeated : validate_manifest same same repeated_asset ≡ err (duplicate_field 2)
unfolding validate_manifest
validate_repeated = refl

validate_manifest-IsValid_example :
    (two_assets.version ≡ 1)
    × (two_assets.assets ≢ [])
    × (two_cleaned ≡ record two_assets { assets = map (clean same same) two_assets.assets })
    × (All IsFilled two_cleaned.assets × IsUnambiguous two_cleaned.assets)
validate_manifest-IsValid_example = validate_manifest-IsValid same same two_assets validate_two

abbrev remote_asset : String → String → String → RemoteAsset
remote_asset n mark a = record {
  id = a;
  name = n;
  description = mark;
  ip = a;
  protocol = "ssh";
  db_type = "";
  port = 22;
  account_count = 1;
  default_account_id = n;
}

abbrev remote : List RemoteAsset
remote = remote_asset "b" "ours" "x" ∷ remote_asset "c" "" "x" ∷ remote_asset "a" "ours" "y" ∷ []

abbrev built : Manifest
built = record { version = 1; assets = item "a" "ssh" "y" ∷ item "b" "ssh" "x" ∷ [] }

build_remote : build_manifest_for_markers same remote ("ours" ∷ "" ∷ []) ≡ ok built
unfolding build_manifest_for_markers
build_remote = refl

build_manifest-IsBuilt_example :
    (built.version ≡ 1)
    × Perm built.assets
        (map manifest_asset (marked (allowed_markers same ("ours" ∷ "" ∷ [])) remote))
    × All HasIds built.assets
    × IsUnambiguous built.assets
build_manifest-IsBuilt_example = build_manifest-IsBuilt same remote ("ours" ∷ "" ∷ []) build_remote
