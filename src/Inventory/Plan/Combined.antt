-- ===== src/Inventory/Plan/Combined.antt =====
-- `CombinedPlan` and `CapacityPlan` (plan.go), with their specifications (model.go).
use emm_go_script.Common.{
  Distinct, Result, ok, err, guard, ◌>>=◌, >>=-eq-ok, ◌>>◌, guard-eq-ok, ok-injective, string_eq,
  nat_eq, mem, Fresh, Fresh-cons, Int64, ℕ, String, ◌≡◌, sym, ap, ◌∙◌, subst, not, Option, none,
  some, List, [], ◌∷◌, ◌++◌, map, arith,
}
use emm_go_script.Inventory.Apply.{Asset}
use emm_go_script.Inventory.Plan.{NodeSpec, ProtocolSpec, Spec, Prefix, PlanError, plan}

abbrev node_spec : String → String → String → NodeSpec
node_spec backend cidr code = record { backend = backend; cidr = cidr; code = code }

abbrev per_node_spec : String → String → String → Int64 → Int64 → ProtocolSpec
per_node_spec name protocol db_type port per_node = record {
  name = name;
  protocol = protocol;
  db_type = db_type;
  port = port;
  per_node = per_node;
  by_node = none;
}

-- `DefaultSpec`.
abbrev pub default_spec : Spec
default_spec = record {
  prefix = "pamlt-va-20260804-";
  marker = "managed-by=pam-loadtest;inventory=virtual-assets-20260804";
  nodes =
      node_spec "10.19.88.145" "10.200.0.0/23" "n145"
      ∷ node_spec "10.19.88.146" "10.200.2.0/23" "n146"
      ∷ node_spec "10.19.88.147" "10.200.4.0/23" "n147"
      ∷ node_spec "10.19.88.149" "10.200.6.0/23" "n149"
      ∷ [];
  protocols =
      per_node_spec "ssh" "ssh" "" 22 250
      ∷ per_node_spec "rdp" "rdp" "" 3389 100
      ∷ per_node_spec "vnc" "vnc" "" 5901 50
      ∷ per_node_spec "web" "web" "" 8080 50
      ∷ per_node_spec "mysql" "database" "mysql" 3306 50
      ∷ [];
}

-- `ExtensionSpec`.
abbrev pub extension_spec : Spec
extension_spec = record {
  prefix = "pamlt-va-20260804-ext1-";
  marker = "managed-by=pam-loadtest;inventory=virtual-assets-20260804-ext1";
  nodes =
      node_spec "10.19.88.145" "10.200.8.0/26" "n145"
      ∷ node_spec "10.19.88.146" "10.200.8.64/26" "n146"
      ∷ node_spec "10.19.88.147" "10.200.8.128/26" "n147"
      ∷ node_spec "10.19.88.149" "10.200.8.192/26" "n149"
      ∷ [];
  protocols =
      per_node_spec "rdp" "rdp" "" 3389 25
      ∷ record {
        name = "web";
        protocol = "web";
        db_type = "";
        port = 8080;
        per_node = 0;
        by_node = some (("n145", 13) ∷ ("n146", 13) ∷ ("n147", 12) ∷ ("n149", 12) ∷ []);
      }
      ∷ [];
}

-- `SSHScaleSpec`.
abbrev pub ssh_scale_spec : Spec
ssh_scale_spec = record {
  prefix = "pamlt-va-20260804-sshscale1-";
  marker = "managed-by=pam-loadtest;inventory=virtual-assets-20260804-sshscale1";
  nodes =
      node_spec "10.19.88.145" "10.201.0.0/23" "n145"
      ∷ node_spec "10.19.88.146" "10.201.2.0/23" "n146"
      ∷ node_spec "10.19.88.147" "10.201.4.0/23" "n147"
      ∷ node_spec "10.19.88.149" "10.201.6.0/23" "n149"
      ∷ [];
  protocols = per_node_spec "ssh" "ssh" "" 22 500 ∷ [];
}

pub data CombinedError : Type 0 where
  plan_failed : PlanError → CombinedError
  duplicate_name duplicate_address : String → CombinedError

-- The loop over the assets, with the names and addresses before.
unfoldable pub check_assets :
    List Asset → List String → List String → Result CombinedError (Unit {0})
check_assets [] names addresses = ok tt
check_assets (a ∷ assets) names addresses = do
  guard (not (mem a.name names)) (duplicate_name a.name)
  guard (not (mem a.ip addresses)) (duplicate_address a.ip)
  check_assets assets (a.name ∷ names) (a.ip ∷ addresses)

unfoldable pub or_plan_failed : Result PlanError (List Asset) → Result CombinedError (List Asset)
or_plan_failed (ok assets) = ok assets
or_plan_failed (err e) = err (plan_failed e)

module _ (parse_prefix : String → Option Prefix) (address_text : ℕ → String)
    (asset_name : String → String → String → ℕ → String) where
  -- The body of `CombinedPlan`, of the two specifications that it plans.
  unfoldable pub combine : Spec → Spec → Result CombinedError (List Asset)
  unfolding or_plan_failed check_assets
  combine first second = do
    base ← or_plan_failed (plan parse_prefix address_text asset_name first)
    extension ← or_plan_failed (plan parse_prefix address_text asset_name second)
    check_assets (base ++ extension) [] []
    ok (base ++ extension)

  -- `CombinedPlan`.
  pub combined_plan : Result CombinedError (List Asset)
  unfolding combine
  combined_plan = combine default_spec extension_spec

  -- The body of `CapacityPlan`, of the three specifications that are planned.
  unfoldable pub combine_three : Spec → Spec → Spec → Result CombinedError (List Asset)
  unfolding combine or_plan_failed check_assets
  combine_three first second third = do
    combined ← combine first second
    ssh_scale ← or_plan_failed (plan parse_prefix address_text asset_name third)
    check_assets (combined ++ ssh_scale) [] []
    ok (combined ++ ssh_scale)

  -- `CapacityPlan`.
  pub capacity_plan : Result CombinedError (List Asset)
  unfolding combine_three
  capacity_plan = combine_three default_spec extension_spec ssh_scale_spec

abbrev names_of : List Asset → List String
names_of assets = map (λ a. a.name) assets

abbrev addresses_of : List Asset → List String
addresses_of assets = map (λ a. a.ip) assets

check_assets-Fresh :
    (assets : List Asset) (names addresses : List String)
    → check_assets assets names addresses ≡ ok tt
    → Fresh names (names_of assets) × Fresh addresses (addresses_of assets)
unfolding check_assets
check_assets-Fresh [] names addresses h = ((tt, tt), (tt, tt))
check_assets-Fresh (a ∷ assets) names addresses h =
    let named = guard-eq-ok (not (mem a.name names)) (duplicate_name a.name) _ h in
    let addressed = guard-eq-ok (not (mem a.ip addresses)) (duplicate_address a.ip) _ named.1 in
    let (fresh_names, fresh_addresses) =
      check_assets-Fresh assets (a.name ∷ names) (a.ip ∷ addresses) addressed.1 in
    (
      Fresh-cons a.name names (names_of assets) (ground (arith, named.0)) fresh_names,
      Fresh-cons a.ip addresses (addresses_of assets) (ground (arith, addressed.0)) fresh_addresses,
    )

or_plan_failed-ok :
    (r : Result PlanError (List Asset)) {assets : List Asset}
    → or_plan_failed r ≡ ok assets
    → r ≡ ok assets
unfolding or_plan_failed
or_plan_failed-ok (ok assets) h = ap ok (ok-injective h)
or_plan_failed-ok (err e) h = cc

-- What a capacity plan is made of.
pub record Capacity (parse_prefix : String → Option Prefix) (address_text : ℕ → String)
    (asset_name : String → String → String → ℕ → String) (first second third : Spec)
    (assets : List Asset) : Type 0 where
  pub base : List Asset
  pub extension : List Asset
  pub ssh_scale : List Asset
  pub planned : plan parse_prefix address_text asset_name first ≡ ok base
  pub extended : plan parse_prefix address_text asset_name second ≡ ok extension
  pub scaled : plan parse_prefix address_text asset_name third ≡ ok ssh_scale
  pub joined : assets ≡ (base ++ extension) ++ ssh_scale
  pub distinct_names : Distinct (names_of assets)
  pub distinct_addresses : Distinct (addresses_of assets)

-- A plan that `CapacityPlan` makes of three specifications consists of the assets of each, one after the other, and no two of
-- them have the same name or the same address.
pub combine_three-Capacity :
    (parse_prefix : String → Option Prefix) (address_text : ℕ → String)
    (asset_name : String → String → String → ℕ → String) (first second third : Spec)
    {assets : List Asset}
    → combine_three parse_prefix address_text asset_name first second third ≡ ok assets
    → Capacity parse_prefix address_text asset_name first second third assets
unfolding combine_three combine
combine_three-Capacity parse_prefix address_text asset_name first second third h =
    let make = plan parse_prefix address_text asset_name in
    let (combined, was_combined, after) =
      >>=-eq-ok (combine parse_prefix address_text asset_name first second) _ h in
    let (ssh_scale, scaled, checked) = >>=-eq-ok (or_plan_failed (make third)) _ after in
    let (u, fresh, same) = >>=-eq-ok (check_assets (combined ++ ssh_scale) [] []) _ checked in
    let (base, planned, after_base) = >>=-eq-ok (or_plan_failed (make first)) _ was_combined in
    let (extension, extended, checked_first) =
      >>=-eq-ok (or_plan_failed (make second)) _ after_base in
    let (v, fresh_first, same_first) =
      >>=-eq-ok (check_assets (base ++ extension) [] []) _ checked_first in
    let distinct = check_assets-Fresh (combined ++ ssh_scale) [] [] fresh in
    let whole = ok-injective same in
    record {
      base = base;
      extension = extension;
      ssh_scale = ssh_scale;
      planned = or_plan_failed-ok (make first) planned;
      extended = or_plan_failed-ok (make second) extended;
      scaled = or_plan_failed-ok (make third) scaled;
      joined = sym whole ∙ ap (λ l. l ++ ssh_scale) (sym (ok-injective same_first));
      distinct_names = subst (λ l. Distinct (names_of l)) whole distinct.0.1;
      distinct_addresses = subst (λ l. Distinct (addresses_of l)) whole distinct.1.1;
    }

pub capacity_plan-Capacity :
    (parse_prefix : String → Option Prefix) (address_text : ℕ → String)
    (asset_name : String → String → String → ℕ → String) {assets : List Asset}
    → capacity_plan parse_prefix address_text asset_name ≡ ok assets
    → Capacity parse_prefix address_text asset_name default_spec extension_spec ssh_scale_spec
        assets
unfolding capacity_plan
capacity_plan-Capacity parse_prefix address_text asset_name h =
    combine_three-Capacity parse_prefix address_text asset_name default_spec extension_spec
      ssh_scale_spec h
