-- ===== src/Inventory/Apply.antt =====
-- pam-loadtest/internal/inventory/apply.go: `Apply` and `reconcile`, with the asset of model.go. The inventory service is
-- a world `W` that the two calls of `InventoryAPI` read and change; `E` is the type of their errors and `C` that of
-- the credentials. The context, which only those calls read, is part of the world.
mod Reconciled
mod Counted
mod Calls
mod Confirmed
mod Tests
use emm_go_script.Common.{
  ltb, if◌then◌else◌, length, take, drop, Result, ok, err, string_eq, nat_eq, ◌==◌, Int64, lt_int,
  ℕ, zero, suc, ◌+◌, ◌-◌, String, Bool, not, ◌&&◌, ◌||◌, Option, none, some, List, [], ◌∷◌, ◌++◌,
}
use emm_go_script.Inventory.{RemoteAsset}

pub record Asset : Type 0 where
  pub name : String
  pub marker : String
  pub backend : String
  pub cidr : String
  pub ip : String
  pub protocol : String
  pub db_type : String
  pub port : Int64
  pub node_index : ℕ
  pub protocol_index : ℕ
  pub global_index : ℕ

pub data Conflict : Type 0 where
  several_named mismatch address_taken : String → Conflict

pub record Reconciliation : Type 0 where
  pub missing : List Asset
  pub exact : ℕ
  pub conflict : Option Conflict

-- What the source's two maps hold under a key.
pub by_name : String → List RemoteAsset → List RemoteAsset
by_name n [] = []
by_name n (r ∷ rest) = if r.name == n then r ∷ by_name n rest else by_name n rest

pub by_ip : String → List RemoteAsset → List RemoteAsset
by_ip a [] = []
by_ip a (r ∷ rest) = if r.ip == a then r ∷ by_ip a rest else by_ip a rest

pub normalize_db_type : String → String
normalize_db_type value = if value == "-" then "" else value

pub remote_matches : Asset → RemoteAsset → Bool
remote_matches wanted found =
    found.description == wanted.marker
    && (found.ip == wanted.ip
        && (found.protocol == wanted.protocol
            && (normalize_db_type found.db_type == normalize_db_type wanted.db_type
                && (found.port == wanted.port
                    && (not (found.id == "")
                        && (found.account_count == 1 && not (found.default_account_id == "")))))))

pub data Verdict : Type 0 where
  present absent : Verdict
  conflicting : Conflict → Verdict

pub judge_names : Asset → List RemoteAsset → List RemoteAsset → Verdict
judge_names wanted [] [] = absent
judge_names wanted [] (_ ∷ _) = conflicting (address_taken wanted.ip)
judge_names wanted (found ∷ []) at_ip =
    if remote_matches wanted found then present else conflicting (mismatch wanted.name)
judge_names wanted (_ ∷ _ ∷ _) at_ip = conflicting (several_named wanted.name)

-- One round of the loop over the desired assets.
pub judge : List RemoteAsset → Asset → Verdict
judge existing wanted = judge_names wanted (by_name wanted.name existing) (by_ip wanted.ip existing)

-- The loop, from what it has appended to `missing` and counted in `exact`.
pub reconcile_from : List RemoteAsset → List Asset → ℕ → List Asset → Reconciliation
reconcile_from existing missing exact [] = record {
  missing = missing;
  exact = exact;
  conflict = none;
}
reconcile_from existing missing exact (wanted ∷ rest) = elim (judge existing wanted) [
  | present ↦ reconcile_from existing missing (exact + 1) rest
  | absent ↦ reconcile_from existing (missing ++ wanted ∷ []) exact rest
  | conflicting c ↦ record { missing = []; exact = exact; conflict = some c }
]

unfoldable pub reconcile : List Asset → List RemoteAsset → Reconciliation
unfolding reconcile_from judge judge_names by_name by_ip remote_matches normalize_db_type
reconcile desired existing = reconcile_from existing [] 0 desired

pub record ApplyOptions (C : Type 0) : Type 0 where
  pub execute : Bool
  pub limit : Int64
  pub batch_size : Int64
  pub credentials : C

pub record ApplyReport : Type 0 where
  pub desired : ℕ
  pub existing : ℕ
  pub pending : ℕ
  pub created : ℕ

pub data ApplyError (E : Type 0) : Type 0 where
  list_failed : E → ApplyError E
  conflict_found : Conflict → ApplyError E
  import_failed : E → ApplyError E
  reconciliation_failed : ApplyError E

-- The report and the error that the source returns, and the world it leaves.
pub record Outcome (W E : Type 0) : Type 0 where
  pub report : ApplyReport
  pub error : Option (ApplyError E)
  pub world : W

pub limited : Int64 → List Asset → List Asset
limited limit desired =
    if lt_int 0 limit && ltb limit (length desired) then take limit desired else desired

pub bounded_batch : Int64 → ℕ
bounded_batch size = if lt_int size 1 || lt_int 50 size then 50 else size

-- The report after a batch of the given length.
pub add_created : ApplyReport → ℕ → ApplyReport
add_created r n = record r { created = r.created + n; pending = r.pending - n }

module _ {W E C : Type 0} (list_assets : W → Result E (List RemoteAsset) × W)
    (import_assets : List Asset → C → W → Result E (Unit {0}) × W) where
  -- What the source makes of the second list.
  pub confirm : List Asset → Result E (List RemoteAsset) → Option (ApplyError E)
  confirm batch (err e) = some (list_failed e)
  confirm batch (ok current) = elim (reconcile batch current).conflict [
    | some c ↦ some (conflict_found c)
    | none ↦
        if not (length (reconcile batch current).missing == 0)
          || not ((reconcile batch current).exact == length batch)
        then some reconciliation_failed
        else none
  ]

  -- The body of the loop over the batches.
  pub import_batch : List Asset → C → W → Option (ApplyError E) × W
  import_batch batch credentials w =
      let (imported, w1) = import_assets batch credentials w in
      elim imported [
        | err e ↦ (some (import_failed e), w1)
        | ok _ ↦ let (listed, w2) = list_assets w1 in (confirm batch listed, w2)
      ]

  -- The loop, with the assets from `start` on. Each round takes one at least, so that their number is enough fuel.
  pub import_batches : ℕ → ℕ → C → List Asset → ApplyReport → W → Outcome W E
  import_batches zero size credentials missing r w = record { report = r; error = none; world = w }
  import_batches (suc fuel) size credentials [] r w = record { report = r; error = none; world = w }
  import_batches (suc fuel) size credentials (a ∷ rest) r w =
      let batch = take size (a ∷ rest) in
      let (e, w') = import_batch batch credentials w in
      elim e [
        | some failure ↦ record { report = r; error = some failure; world = w' }
        | none ↦
            import_batches fuel size credentials (drop size (a ∷ rest))
              (add_created r (length batch)) w'
      ]

  -- `Apply` behind the first list.
  pub apply_to : List Asset → ApplyOptions C → List RemoteAsset → W → Outcome W E
  apply_to desired options existing w =
      let rc = reconcile desired existing in
      let r : ApplyReport = record {
        desired = length desired;
        existing = rc.exact;
        pending = length rc.missing;
        created = 0;
      } in
      elim rc.conflict [
        | some c ↦ record { report = r; error = some (conflict_found c); world = w }
        | none ↦
            if options.execute
            then import_batches (length rc.missing) (bounded_batch options.batch_size)
                options.credentials rc.missing r w
            else record { report = r; error = none; world = w }
      ]

  unfoldable pub apply : List Asset → ApplyOptions C → W → Outcome W E
  unfolding apply_to import_batches import_batch confirm limited bounded_batch add_created reconcile
  apply desired options w =
      let wanted = limited options.limit desired in
      let (listed, w') = list_assets w in
      elim listed [
        | err e ↦ record {
          report = record { desired = length wanted; existing = 0; pending = 0; created = 0 };
          error = some (list_failed e);
          world = w';
        }
        | ok existing ↦ apply_to wanted options existing w'
      ]
