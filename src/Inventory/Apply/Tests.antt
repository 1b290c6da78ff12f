-- ===== src/Inventory/Apply/Tests.antt =====
-- Two assets, of which the service has one, applied to a service that keeps what it imports and the batch sizes.
use emm_go_script.Common.{
  length, All, Result, ok, ℕ, ◌+◌, ◌≤◌, String, ◌≡◌, refl, ap, ◌⊎◌, true, none, some, List, [], ◌∷◌,
  ◌++◌, map, arith,
}
use emm_go_script.Inventory.{RemoteAsset}
use emm_go_script.Inventory.Apply.{
  Asset, address_taken, reconcile, ApplyOptions, conflict_found, Outcome, limited, bounded_batch,
  apply,
}
use emm_go_script.Inventory.Apply.Reconciled.{IsFound, IsFree, unnamed, reconcile-settled}
use emm_go_script.Inventory.Apply.Confirmed.{Done, apply_complete}
use emm_go_script.Inventory.Apply.Calls.{apply-keeps}

abbrev asset : String → String → Asset
asset n a = record {
  name = n;
  marker = "ours";
  backend = "b";
  cidr = "c";
  ip = a;
  protocol = "ssh";
  db_type = "";
  port = 22;
  node_index = 1;
  protocol_index = 1;
  global_index = 1;
}

abbrev remote_of : Asset → RemoteAsset
remote_of a = record {
  id = a.name;
  name = a.name;
  description = a.marker;
  ip = a.ip;
  protocol = a.protocol;
  db_type = a.db_type;
  port = a.port;
  account_count = 1;
  default_account_id = "d";
}

abbrev desired : List Asset
desired = asset "one" "x" ∷ asset "two" "y" ∷ []

abbrev listed : List RemoteAsset
listed = remote_of (asset "one" "x") ∷ []

abbrev Service : Type 0
Service = List RemoteAsset × List ℕ

abbrev list_service : Service → Result ℕ (List RemoteAsset) × Service
list_service w = (ok w.0, w)

abbrev import_service : List Asset → ℕ → Service → Result ℕ (Unit {0}) × Service
import_service batch c w = (ok tt, (w.0 ++ map remote_of batch, length batch ∷ w.1))

abbrev options : ApplyOptions ℕ
options = record { execute = true; limit = 0; batch_size = 80; credentials = 5 }

abbrev done : Outcome Service ℕ
done = record {
  report = record { desired = 2; existing = 1; pending = 0; created = 1 };
  error = none;
  world = (listed ++ remote_of (asset "two" "y") ∷ [], 1 ∷ []);
}

apply_two : apply list_service import_service desired options (listed, []) ≡ done
unfolding apply
apply_two = refl

apply_conflict :
    (apply list_service import_service (asset "three" "x" ∷ []) options (listed, [])).error
    ≡ some (conflict_found (address_taken "x"))
unfolding apply
apply_conflict = refl

reconcile-settled_example :
    ((reconcile desired listed).missing ≡ unnamed listed desired)
    × All (λ a. IsFound listed a ⊎ IsFree listed a) desired
unfolding reconcile
reconcile-settled_example = reconcile-settled desired listed refl

apply_complete_example :
    let wanted = limited options.limit desired in
    let o = apply list_service import_service desired options (listed, []) in
    (existing : List RemoteAsset) × (w' : Service) × (list_service (listed, []) ≡ (ok existing, w'))
    × Done list_service import_service wanted
        (bounded_batch options.batch_size)
        options.credentials
        existing
        w'
        o.world
    × (o.report.existing + o.report.created ≡ length wanted)
    × (o.report.desired ≡ length wanted)
    × (o.report.pending ≡ 0)
apply_complete_example =
    apply_complete list_service import_service desired options (listed, []) refl
      (ap (λ o. o.error) apply_two)

-- The service has seen no batch of more than 50 assets.
apply-keeps_example :
    All (λ n. n ≤ 50) (apply list_service import_service desired options (listed, [])).world.1
apply-keeps_example =
    apply-keeps list_service import_service 5 listed (λ w. All (λ n. n ≤ 50) w.1) (λ w i. i)
      (λ batch w b i. (b.bounded, i)) desired options (listed, []) refl refl (omega arith) tt
