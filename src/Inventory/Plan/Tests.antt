-- ===== src/Inventory/Plan/Tests.antt =====
-- Two nodes with three assets.
use emm_go_script.Common.{
  if◌then◌else◌, Result, ok, err, string_eq, nat_eq, ◌==◌, mem, Int64, ℕ, String, ◌≡◌, refl, true,
  Option, none, some, List, [], ◌∷◌,
}
use emm_go_script.Inventory.Apply.{Asset}
use emm_go_script.Inventory.Plan.Combined.{
  Capacity, CombinedError, duplicate_name, check_assets, combine, combine_three,
  combine_three-Capacity,
}
use emm_go_script.Inventory.Plan.{
  NodeSpec, Spec, Prefix, prefix_and_marker_required, node_assets, plan,
}
use emm_go_script.Inventory.Plan.Numbered.{
  IsNumbered, IsAddressed, node_assets-IsAddressed, plan-IsNumbered,
}

abbrev parse : String → Option Prefix
parse text = some (record { is_ipv4 = true; bits = 29; text = text; network = 16 })

abbrev show : ℕ → String
show n = "address"

abbrev name_of : String → String → String → ℕ → String
name_of p n c i = n

abbrev spec : Spec
spec = record {
  prefix = "p";
  marker = "m";
  nodes =
      record { backend = "a"; cidr = "x"; code = "one" }
      ∷ record { backend = "b"; cidr = "y"; code = "two" }
      ∷ [];
  protocols =
      record {
        name = "ssh";
        protocol = "ssh";
        db_type = "";
        port = 22;
        per_node = 1;
        by_node = none;
      }
      ∷ record {
        name = "web";
        protocol = "web";
        db_type = "";
        port = 80;
        per_node = 0;
        by_node = some (("two", 1) ∷ []);
      }
      ∷ [];
}

abbrev planned : String → String → String → String → Int64 → ℕ → ℕ → ℕ → Asset
planned n p c b port ni pi gi = record {
  name = n;
  marker = "m";
  backend = b;
  cidr = c;
  ip = "address";
  protocol = p;
  db_type = "";
  port = port;
  node_index = ni;
  protocol_index = pi;
  global_index = gi;
}

abbrev three : List Asset
three =
    planned "ssh" "ssh" "x" "a" 22 1 1 1
    ∷ planned "ssh" "ssh" "y" "b" 22 2 1 2
    ∷ planned "web" "web" "y" "b" 80 2 1 3
    ∷ []

plan-three : plan parse show name_of spec ≡ ok three
unfolding plan
plan-three = refl

plan-unnamed :
    plan parse show name_of (record spec { prefix = "" }) ≡ err prefix_and_marker_required
unfolding plan
plan-unnamed = refl

plan-IsNumbered_example : IsNumbered 0 three
plan-IsNumbered_example = plan-IsNumbered parse show name_of spec plan-three

abbrev node_two : NodeSpec
node_two = record { backend = "b"; cidr = "y"; code = "two" }

abbrev prefix_two : Prefix
prefix_two = record { is_ipv4 = true; bits = 29; text = "y"; network = 16 }

node_assets-IsAddressed_example :
    IsAddressed show 17
      (node_assets parse show name_of spec node_two prefix_two 2 spec.protocols 17 1)
node_assets-IsAddressed_example =
    node_assets-IsAddressed parse show name_of spec node_two prefix_two 2 spec.protocols 17 1

abbrev parse_network : String → Option Prefix
parse_network text = some (record {
  is_ipv4 = true;
  bits = 29;
  text = text;
  network = (if text == "x" then 16 else if text == "y" then 32 else 48);
})

abbrev show_address : ℕ → String
show_address n = if n == 17 then "10.0.0.17" else if n == 33 then "10.0.0.33" else "10.0.0.49"

abbrev prefixed : String → String → String → ℕ → String
prefixed p n c i = p

abbrev single : String → String → Spec
single pre cidr = record {
  prefix = pre;
  marker = "m";
  nodes = record { backend = "a"; cidr = cidr; code = "one" } ∷ [];
  protocols =
      record {
        name = "ssh";
        protocol = "ssh";
        db_type = "";
        port = 22;
        per_node = 1;
        by_node = none;
      }
      ∷ [];
}

abbrev or_none : Result CombinedError (List Asset) → List Asset
or_none (ok assets) = assets
or_none (err e) = []

capacity_assets : List Asset
unfolding combine_three plan
capacity_assets = or_none (
    combine_three parse_network show_address prefixed (single "p" "x") (single "q" "y")
      (single "r" "z"))

combine_three-assets :
    combine_three parse_network show_address prefixed
      (single "p" "x")
      (single "q" "y")
      (single "r" "z")
    ≡ ok capacity_assets
unfolding capacity_assets combine_three plan check_assets mem
combine_three-assets = refl

combine_three-Capacity_example :
    Capacity parse_network show_address prefixed
      (single "p" "x")
      (single "q" "y")
      (single "r" "z")
      capacity_assets
combine_three-Capacity_example =
    combine_three-Capacity parse_network show_address prefixed (single "p" "x") (single "q" "y")
      (single "r" "z") combine_three-assets

-- Two specifications with the same prefix.
combine-same_names :
    combine parse_network show_address prefixed (single "p" "x") (single "p" "y")
    ≡ err (duplicate_name "p")
unfolding combine plan check_assets mem
combine-same_names = refl
