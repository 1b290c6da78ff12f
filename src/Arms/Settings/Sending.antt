-- ===== src/Arms/Settings/Sending.antt =====
-- The transactions of a configuration that has passed `Validate` (config.go, protocol.go).
use emm_go_script.Common.{
  Bool-cases, length, All, ok, guard-eq-ok, string_eq, nat_eq, ◌==◌, ==_iff, Int64, int_mod,
  int_min, is_neg, ℕ, ◌+◌, ◌<◌, ◌≡◌, refl, ◌≢◌, inl, inr, Bool, true, false, Option, some, List, [],
  ◌∷◌, arith,
}
use emm_go_script.Arms.{Bytes, MetadataBody, chunk_of, response_content, new_uuid}
use emm_go_script.Arms.Transaction.{
  Transaction, metadata_of, request_body_of, response_body_of, build_transaction,
}
use emm_go_script.Arms.Transaction.Receipt.{Received, build_transaction-Received}
use emm_go_script.Arms.Content.{length-response_content}
use emm_go_script.Arms.Settings.{GeneratorConfig, ConfigError, checks, check_all, validate_config}

check_all-All :
    (tests : List (Bool × ConfigError)) → check_all tests ≡ ok tt → All (λ t. t.0 ≡ true) tests
unfolding check_all
check_all-All [] h = tt
check_all-All ((test, failure) ∷ rest) h =
    let passed = guard-eq-ok test failure (check_all rest) h in
    (passed.0, check_all-All rest passed.1)

validate_config-body_size :
    (splits : Bytes → Bool) (c : GeneratorConfig)
    → validate_config splits c ≡ ok tt
    → is_neg c.transaction.response_body_size ≡ false
unfolding validate_config checks
validate_config-body_size splits c h =
    let passed = check_all-All (checks splits c) h in
    ground (arith, passed.1.1.1.1.1.1.1.1.1.1.1.1.1.1.0)

response_content-made :
    (body : Bytes) (size : Int64)
    → is_neg size ≡ false
    → (content : Bytes) × (response_content body size ≡ some content)
      × (size ≢ 0 → length content ≡ size)
response_content-made body size h = elim (Bool-cases (size == 0)) [
  | inl e ↦
      (body, unfold response_content in rw e refl, λ sized. absurd (sized ((==_iff size 0).0 e)))
  | inr e ↦
      let (content, made, sized) =
        length-response_content body size (ground arith) (ground arith) in
      (content, made, λ _. sized)
]

-- With a configuration that has passed `Validate`, a transaction is built wherever there are random bytes, its metadata can be
-- encoded, metadata and request are shorter than 2 ^ 63 bytes, and the length of the response and the chunk size that is used
-- for it sum up to less than 2 ^ 63 (`Validate` sets no upper bound on the chunk size). Its response has a content of the
-- configured size, where one is configured, as its body.
pub validate_config-build_transaction :
    (splits : Bytes → Bool) (status_text : Int64 → Bytes) (marshal : MetadataBody → Option Bytes)
    (value : ℕ → ℕ) (c : GeneratorConfig) (sequence worker_id : ℕ) {metadata : Bytes}
    → validate_config splits c ≡ ok tt
    → marshal (metadata_of c.transaction worker_id (new_uuid value)) ≡ some metadata
    → sequence < int_mod
    → length metadata < int_min
    → length (request_body_of c.transaction) < int_min
    → ((content : Bytes)
        → response_content c.transaction.response_body c.transaction.response_body_size
          ≡ some content
        → length (response_body_of status_text c.transaction content)
            + chunk_of c.transaction.response_chunk_size
                (length (response_body_of status_text c.transaction content))
          < int_min)
    → (content : Bytes) × (t : Transaction) × (build_transaction status_text marshal
          (some value)
          c.transaction
          sequence
          worker_id
        ≡ ok t)
      × ((c.transaction.response_body_size ≢ 0 → length content ≡ c.transaction.response_body_size)
          × Received
              (chunk_of c.transaction.response_chunk_size
                (length (response_body_of status_text c.transaction content)))
              sequence
              (new_uuid value)
              metadata
              (request_body_of c.transaction)
              (response_body_of status_text c.transaction content)
              t)
validate_config-build_transaction splits status_text marshal value c sequence worker_id v e s m q
      b =
    let natural = validate_config-body_size splits c v in
    let (content, made, sized) =
      response_content-made c.transaction.response_body c.transaction.response_body_size natural in
    let (t, built, received) =
      build_transaction-Received marshal status_text value c.transaction sequence worker_id e made s
        m q (b content made) in
    (content, t, built, (sized, received))
