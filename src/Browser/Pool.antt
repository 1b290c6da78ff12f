-- ===== src/Browser/Pool.antt =====
-- pam-loadtest/internal/browser/pool.go. `K` is the type of the clients. The channel `available` is a queue of slots; `held`
-- lists the slots that calls of `Run` have received and not yet sent back. A call of `Run` is a sequence of
-- steps, so that other calls and `Close` may come between them: the check, the receive, the restart and the send.
mod Tokens
mod Reached
mod Tests
use emm_go_script.Common.{
  if◌then◌else◌, get_elem?, set, replicate, Result, ok, err, guard, ◌>>=◌, ◌>>◌, string_eq, nat_eq,
  ◌==◌, Int64, lt_int, ℕ, zero, suc, ◌+◌, String, Bool, true, false, not, ◌||◌, Option, none, some,
  List, [], ◌∷◌, ◌++◌,
}

pub record Pool (K : Type 0) : Type 0 where
  pub closed : Bool
  pub available : List ℕ
  pub clients : List (Option K)
  pub sessions_per_worker : Int64
  pub held : List ℕ

pub data PoolError : Type 0 where
  unsupported_protocol : String → PoolError
  pool_closed : PoolError
  worker_unavailable : ℕ → PoolError

-- The values below 1 count as 1.
pub at_least_one : Int64 → Int64
at_least_one n = if lt_int n 1 then 1 else n

-- The sends of the constructor, from slot `i` on.
pub slot_tokens : ℕ → ℕ → ℕ → List ℕ
slot_tokens sessions i zero = []
slot_tokens sessions i (suc n) = replicate sessions i ++ slot_tokens sessions (i + 1) n

pub remove_slot : ℕ → List ℕ → List ℕ
remove_slot slot [] = []
remove_slot slot (s ∷ rest) = if s == slot then rest else s ∷ remove_slot slot rest

module _ {K : Type 0} where
  -- `made i` is what the factory gives for slot `i` in the constructor: nothing on an error.
  pub made_clients : (ℕ → Option K) → ℕ → ℕ → List (Option K)
  made_clients made i zero = []
  made_clients made i (suc n) = made i ∷ made_clients made (i + 1) n

  -- The product that is the capacity of the channel is not wrapped: for one that overflows, the code makes no pool.
  pub new_pool : Int64 → Int64 → (ℕ → Option K) → Pool K
  unfolding at_least_one slot_tokens made_clients
  new_pool size sessions made = record {
    closed = false;
    available = slot_tokens (at_least_one sessions) 0 (at_least_one size);
    clients = made_clients made 0 (at_least_one size);
    sessions_per_worker = at_least_one sessions;
    held = [];
  }

  -- The tests before the select.
  pub check_run : String → Pool K → Result PoolError (Unit {0})
  check_run protocol p = do
    guard (protocol == "rdp" || (protocol == "vnc" || (protocol == "web" || protocol == "mysql")))
        (unsupported_protocol protocol)
    guard (not p.closed) pool_closed

  receive_from : List ℕ → Pool K → Option (ℕ × Pool K)
  receive_from [] p = none
  receive_from (slot ∷ rest) p = some (slot, record p { available = rest; held = slot ∷ p.held })

  -- The receive, or nothing where it would block.
  pub receive : Pool K → Option (ℕ × Pool K)
  unfolding receive_from
  receive p = receive_from p.available p

  -- The client that serves a received slot. A read past the end gives none, where Go would panic.
  pub client_of : ℕ → Pool K → Result PoolError K
  client_of slot p = elim (get_elem? p.clients slot) [
    | none ↦ err (worker_unavailable slot)
    | some none ↦ err (worker_unavailable slot)
    | some (some k) ↦ ok k
  ]

  -- What follows the client's return: a client that failed is replaced by what the factory gives, or by nothing.
  pub restart : ℕ → Bool → Bool → Option K → Pool K → Pool K
  restart slot failed cancelled replacement p =
      if not failed || (cancelled || lt_int 1 p.sessions_per_worker)
      then p
      else record p { clients = set p.clients slot replacement }

  -- The deferred send.
  pub release : ℕ → Pool K → Pool K
  unfolding remove_slot
  release slot p = record p { available = p.available ++ slot ∷ []; held = remove_slot slot p.held }

  -- The error that `Close` returns: the first of the clients', all of which it closes.
  pub first_error {ℓ} : {E : Type ℓ} → (K → Option E) → List (Option K) → Option E
  first_error close_client [] = none
  first_error close_client (none ∷ rest) = first_error close_client rest
  first_error close_client (some k ∷ rest) =
      let later = first_error close_client rest in
      elim (close_client k) [ some e ↦ some e | none ↦ later ]

  pub close {ℓ} : {E : Type ℓ} → (K → Option E) → Pool K → Option E × Pool K
  unfolding first_error
  close close_client p =
      if p.closed
      then (none, p)
      else (first_error close_client p.clients, record p { closed = true })
