-- ===== src/Inventory/Plan/Numbered.antt =====
-- The numbers and addresses of the assets of a plan (plan.go).
use emm_go_script.Common.{
  length, ok, >>=-eq-ok, guard-eq-ok, ok-injective, string_eq, nat_eq, ◌==◌, lt_int, ℕ, zero, suc,
  ◌+◌, String, ◌≡◌, refl, ap, subst, not, ◌||◌, Option, List, [], ◌∷◌, ◌++◌, arith,
}
use emm_go_script.Inventory.Apply.{Asset}
use emm_go_script.Inventory.Plan.{
  NodeSpec, ProtocolSpec, Spec, Prefix, prefix_and_marker_required, too_few_addresses, count,
  check_protocols, node_count, usable, protocol_assets, node_assets, parse_ipv4, plan_nodes, plan,
}

-- The global indexes are `i + 1`, `i + 2`, and so on.
pub IsNumbered : ℕ → List Asset → Type 0
IsNumbered i [] = Unit
IsNumbered i (a ∷ rest) = (a.global_index ≡ i + 1) × IsNumbered (i + 1) rest

-- The addresses are those of `address`, `address + 1`, and so on.
pub IsAddressed : (ℕ → String) → ℕ → List Asset → Type 0
IsAddressed address_text address [] = Unit
IsAddressed address_text address (a ∷ rest) =
    (a.ip ≡ address_text address) × IsAddressed address_text (address + 1) rest

IsNumbered-append :
    (i j : ℕ) (xs ys : List Asset)
    → i + length xs ≡ j
    → IsNumbered i xs
    → IsNumbered j ys
    → IsNumbered i (xs ++ ys)
unfolding IsNumbered
IsNumbered-append i j [] ys e hx hy = subst (λ z. IsNumbered z ys) (omega arith) hy
IsNumbered-append i j (x ∷ xs) ys e hx hy =
    (hx.0, IsNumbered-append (i + 1) j xs ys (omega arith) hx.1 hy)

module _ (parse_prefix : String → Option Prefix) (address_text : ℕ → String)
    (asset_name : String → String → String → ℕ → String) where
  IsAddressed-append :
      (i j : ℕ) (xs ys : List Asset)
      → i + length xs ≡ j
      → IsAddressed address_text i xs
      → IsAddressed address_text j ys
      → IsAddressed address_text i (xs ++ ys)
  unfolding IsAddressed
  IsAddressed-append i j [] ys e hx hy = subst (λ z. IsAddressed address_text z ys) (omega arith) hy
  IsAddressed-append i j (x ∷ xs) ys e hx hy =
      (hx.0, IsAddressed-append (i + 1) j xs ys (omega arith) hx.1 hy)

  protocol_assets-runs :
      (spec : Spec) (node : NodeSpec) (pre : Prefix) (ni : ℕ) (p : ProtocolSpec)
      (left index address global : ℕ)
      → (length (
            protocol_assets parse_prefix address_text asset_name spec node pre ni p left index
              address global)
          ≡ left)
        × IsNumbered global (
            protocol_assets parse_prefix address_text asset_name spec node pre ni p left index
              address global)
        × IsAddressed address_text address (
            protocol_assets parse_prefix address_text asset_name spec node pre ni p left index
              address global)
  unfolding protocol_assets IsNumbered IsAddressed
  protocol_assets-runs spec node pre ni p zero index address global = (refl, tt, tt)
  protocol_assets-runs spec node pre ni p (suc left) index address global =
      let (n, numbered, addressed) =
        protocol_assets-runs spec node pre ni p left (index + 1) (address + 1) (global + 1) in
      (ap suc n, (refl, numbered), (refl, addressed))

  node_assets-runs :
      (spec : Spec) (node : NodeSpec) (pre : Prefix) (ni : ℕ) (ps : List ProtocolSpec)
      (address global : ℕ)
      → IsNumbered global
          (node_assets parse_prefix address_text asset_name spec node pre ni ps address global)
        × IsAddressed address_text address
            (node_assets parse_prefix address_text asset_name spec node pre ni ps address global)
  unfolding node_assets IsNumbered IsAddressed
  node_assets-runs spec node pre ni [] address global = (tt, tt)
  node_assets-runs spec node pre ni (p ∷ ps) address global =
      let n = count p node.code in
      let (len, numbered, addressed) = protocol_assets-runs spec node pre ni p n 1 address global in
      let (rest_numbered, rest_addressed) =
        node_assets-runs spec node pre ni ps (address + n) (global + n) in
      (
        IsNumbered-append global (global + n) _ _ (ap (λ z. global + z) len) numbered rest_numbered,
        IsAddressed-append address (address + n) _ _ (ap (λ z. address + z) len) addressed
            rest_addressed,
      )

  plan_nodes-IsNumbered :
      (spec : Spec) (nodes : List NodeSpec) (ni global : ℕ) {out : List Asset}
      → plan_nodes parse_prefix address_text asset_name spec nodes ni global ≡ ok out
      → IsNumbered global out
  unfolding plan_nodes IsNumbered
  plan_nodes-IsNumbered spec [] ni global e = subst (λ o. IsNumbered global o) (ok-injective e) tt
  plan_nodes-IsNumbered spec (node ∷ nodes) ni global e =
      let (pre, _, e1) = >>=-eq-ok (parse_ipv4 parse_prefix address_text asset_name node) _ e in
      let (per_node, _, e2) = >>=-eq-ok (node_count node.code spec.protocols 0) _ e1 in
      let (_, e3) =
        guard-eq-ok (not (lt_int (usable pre.bits) per_node))
          (too_few_addresses node.backend per_node) _ e2 in
      let assets =
        node_assets parse_prefix address_text asset_name spec node pre ni spec.protocols
          (pre.network + 1) global in
      let (rest, e4, e5) =
        >>=-eq-ok
          (plan_nodes parse_prefix address_text asset_name spec nodes (ni + 1)
            (global + length assets))
          _ e3 in
      subst (λ o. IsNumbered global o) (ok-injective e5)
        (IsNumbered-append global (global + length assets) assets rest refl
          (node_assets-runs spec node pre ni spec.protocols (pre.network + 1) global).0
          (plan_nodes-IsNumbered spec nodes (ni + 1) (global + length assets) e4))

  -- The assets of a node have consecutive addresses, from the given one on.
  pub node_assets-IsAddressed :
      (spec : Spec) (node : NodeSpec) (pre : Prefix) (ni : ℕ) (ps : List ProtocolSpec)
      (address global : ℕ)
      → IsAddressed address_text address
          (node_assets parse_prefix address_text asset_name spec node pre ni ps address global)
  node_assets-IsAddressed spec node pre ni ps address global =
      (node_assets-runs spec node pre ni ps address global).1

  -- The global indexes of a plan's assets are 1, 2, …, in their order, over all the nodes.
  pub plan-IsNumbered :
      (spec : Spec) {assets : List Asset}
      → plan parse_prefix address_text asset_name spec ≡ ok assets
      → IsNumbered 0 assets
  unfolding plan
  plan-IsNumbered spec e =
      let (_, e1) =
        guard-eq-ok (not (spec.prefix == "" || spec.marker == "")) prefix_and_marker_required _ e in
      let (_, _, e2) = >>=-eq-ok (check_protocols spec.protocols) _ e1 in
      plan_nodes-IsNumbered spec spec.nodes 1 0 e2
