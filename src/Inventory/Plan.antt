-- ===== src/Inventory/Plan.antt =====
-- pam-loadtest/internal/inventory/plan.go: `Plan`, with the specifications of model.go. `parse_prefix` stands for
-- `netip.ParsePrefix`, `address_text` for the text of an IPv4 address and `asset_name` for the `fmt.Sprintf` of the name.
mod Numbered
mod Combined
mod Tests
use emm_go_script.Common.{
  length, Result, ok, guard, ◌>>=◌, ◌>>◌, or_fail, get_or, string_eq, nat_eq, ◌==◌, lookup, Int64,
  is_neg, add_int, sub_int, lt_int, ℕ, zero, suc, ◌+◌, ◌-◌, ◌^◌, String, Bool, true, not, ◌&&◌,
  ◌||◌, Option, none, some, List, [], ◌∷◌, ◌++◌,
}
use emm_go_script.Inventory.Apply.{Asset}

pub record NodeSpec : Type 0 where
  pub backend : String
  pub cidr : String
  pub code : String

-- A nil map is `none`.
pub record ProtocolSpec : Type 0 where
  pub name : String
  pub protocol : String
  pub db_type : String
  pub port : Int64
  pub per_node : Int64
  pub by_node : Option (List (String × Int64))

pub record Spec : Type 0 where
  pub prefix : String
  pub marker : String
  pub nodes : List NodeSpec
  pub protocols : List ProtocolSpec

-- A parsed prefix: its text, and the address of its network as a number.
pub record Prefix : Type 0 where
  pub is_ipv4 : Bool
  pub bits : ℕ
  pub text : String
  pub network : ℕ

pub data PlanError : Type 0 where
  prefix_and_marker_required invalid_protocol : PlanError
  invalid_cidr invalid_count : String → PlanError
  too_few_addresses : String → Int64 → PlanError

pub count : ProtocolSpec → String → Int64
unfolding lookup
count p code = elim p.by_node [ none ↦ p.per_node | some m ↦ get_or (lookup code m) 0 ]

pub has_no_nodes : Option (List (String × Int64)) → Bool
has_no_nodes none = true
has_no_nodes (some m) = length m == 0

pub is_invalid_protocol : ProtocolSpec → Bool
is_invalid_protocol p =
    p.name == ""
    || (p.protocol == "" || (lt_int p.port 1 || (lt_int p.per_node 1 && has_no_nodes p.by_node)))

pub check_protocols : List ProtocolSpec → Result PlanError (Unit {0})
check_protocols [] = ok tt
check_protocols (p ∷ ps) = do
  guard (not (is_invalid_protocol p)) invalid_protocol
  check_protocols ps

-- The addresses that the node needs.
pub node_count : String → List ProtocolSpec → Int64 → Result PlanError Int64
node_count code [] total = ok total
node_count code (p ∷ ps) total = do
  guard (not (is_neg (count p code))) (invalid_count code)
  node_count code ps (add_int total (count p code))

-- `(1 << (32 - bits)) - 2`
pub usable : ℕ → Int64
usable bits = sub_int (2 ^ (32 - bits)) 2

module _ (parse_prefix : String → Option Prefix) (address_text : ℕ → String)
    (asset_name : String → String → String → ℕ → String) where
  -- The innermost loop, with `left` rounds left.
  pub protocol_assets : Spec → NodeSpec → Prefix → ℕ → ProtocolSpec → ℕ → ℕ → ℕ → ℕ → List Asset
  protocol_assets spec node pre node_index p zero index address global = []
  protocol_assets spec node pre node_index p (suc left) index address global =
      record {
        name = asset_name spec.prefix p.name node.code index;
        marker = spec.marker;
        backend = node.backend;
        cidr = pre.text;
        ip = address_text address;
        protocol = p.protocol;
        db_type = p.db_type;
        port = p.port;
        node_index = node_index;
        protocol_index = index;
        global_index = global + 1;
      }
      ∷ protocol_assets spec node pre node_index p left (index + 1) (address + 1) (global + 1)

  -- The loop over the protocols of a node.
  pub node_assets : Spec → NodeSpec → Prefix → ℕ → List ProtocolSpec → ℕ → ℕ → List Asset
  node_assets spec node pre node_index [] address global = []
  node_assets spec node pre node_index (p ∷ ps) address global =
      let n = count p node.code in
      protocol_assets spec node pre node_index p n 1 address global
      ++ node_assets spec node pre node_index ps (address + n) (global + n)

  pub parse_ipv4 : NodeSpec → Result PlanError Prefix
  parse_ipv4 node = do
    pre ← or_fail (parse_prefix node.cidr) (invalid_cidr node.backend)
    guard pre.is_ipv4 (invalid_cidr node.backend)
    ok pre

  -- The loop over the nodes.
  pub plan_nodes : Spec → List NodeSpec → ℕ → ℕ → Result PlanError (List Asset)
  plan_nodes spec [] node_index global = ok []
  plan_nodes spec (node ∷ nodes) node_index global = do
    pre ← parse_ipv4 node
    per_node ← node_count node.code spec.protocols 0
    guard (not (lt_int (usable pre.bits) per_node)) (too_few_addresses node.backend per_node)
    let assets = node_assets spec node pre node_index spec.protocols (pre.network + 1) global
    rest ← plan_nodes spec nodes (node_index + 1) (global + length assets)
    ok (assets ++ rest)

  unfoldable pub plan : Spec → Result PlanError (List Asset)
  unfolding plan_nodes parse_ipv4 node_assets protocol_assets node_count count has_no_nodes
      is_invalid_protocol check_protocols usable lookup
  plan spec = do
    guard (not (spec.prefix == "" || spec.marker == "")) prefix_and_marker_required
    check_protocols spec.protocols
    plan_nodes spec spec.nodes 1 0
