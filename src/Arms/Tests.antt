-- ===== src/Arms/Tests.antt =====
-- A transaction whose response is sent in two frames.
use emm_go_script.Protocol.Guacamole.{decimal}
use emm_go_script.Arms.Settings.{GeneratorConfig, bad_threads, check_all, validate_config}
use emm_go_script.Arms.Settings.Sending.{validate_config-build_transaction}
use emm_go_script.Common.{
  length, ok, err, some-injective, codes, Int64, int_min, ℕ, ◌+◌, ◌<◌, ◌≡◌, refl, sym, ap, ◌∙◌,
  subst, ◌≢◌, Bool, true, Option, some, [], ◌∷◌, arith,
}
use emm_go_script.Arms.{
  Bytes, negative_capacity, TransactionConfig, MetadataBody, encode_heartbeat, chunk_of,
  encode_response_frames, response_content, new_uuid,
}
use emm_go_script.Arms.Content.{length-response_content}
use emm_go_script.Arms.Transaction.{
  Transaction, metadata_of, request_body_of, response_body_of, build_transaction,
}
use emm_go_script.Arms.Transaction.Receipt.{Received, build_transaction-Received}

abbrev lab : TransactionConfig
lab = record {
  app_name = codes "app";
  server_id = 1;
  username_prefix = codes "user";
  session_prefix = codes "s";
  client_ip = codes "10.0.0.1";
  server_address = codes "10.0.0.2:80";
  request_method = codes "GET";
  request_path = codes "/";
  request_host = codes "host";
  response_status = 200;
  response_body = codes "abc";
  response_body_size = 7;
  response_chunk_size = 100;
}

abbrev name_of : MetadataBody → Option Bytes
name_of m = some m.username

abbrev no_text : Int64 → Bytes
no_text status = []

abbrev counting : ℕ → ℕ
counting i = i

response_content-lab : response_content (codes "abc") 7 ≡ some (codes "abcabca")
unfolding response_content
response_content-lab = refl

length-response_content_example :
    (content : Bytes) × (response_content (codes "abc") 7 ≡ some content) × (length content ≡ 7)
length-response_content_example =
    length-response_content (codes "abc") 7 (omega arith) (omega arith)

length-encode_heartbeat : length encode_heartbeat ≡ 72
unfolding encode_heartbeat
length-encode_heartbeat = refl

new_uuid-counting : new_uuid counting ≡ codes "00010203-0405-4607-8809-0a0b0c0d0e0f"
unfolding new_uuid
new_uuid-counting = refl

metadata_of-lab : (metadata_of lab 7 (new_uuid counting)).username ≡ codes "user7"
unfolding metadata_of decimal
metadata_of-lab = refl

request_body_of-small : length (request_body_of lab) < int_min
unfolding request_body_of
request_body_of-small = omega arith

response_of-small :
    length (response_body_of no_text lab (codes "abcabca"))
      + chunk_of 100 (length (response_body_of no_text lab (codes "abcabca")))
    < int_min
unfolding response_body_of chunk_of decimal
response_of-small = omega arith

build_transaction-Received_example :
    let response = response_body_of no_text lab (codes "abcabca") in
    (t : Transaction) × (build_transaction no_text name_of (some counting) lab 9 7 ≡ ok t)
    × Received
        (chunk_of 100 (length response))
        9
        (new_uuid counting)
        (codes "user7")
        (request_body_of lab)
        response
        t
build_transaction-Received_example =
    build_transaction-Received name_of no_text counting lab 9 7 (ap some metadata_of-lab)
      response_content-lab (omega arith) (omega arith) request_body_of-small response_of-small

-- 1 s, with a target of 5 transactions per second.
abbrev lab_config : GeneratorConfig
lab_config = record {
  host = codes "10.0.0.2:80";
  threads = 4;
  duration = 1000000000;
  target_tps = 5;
  ramp_up = 0;
  connect_timeout = 1000000000;
  write_timeout = 1000000000;
  heartbeat_interval = 1000000000;
  stats_interval = 1000000000;
  results_file = codes "results.csv";
  transaction = lab;
}

abbrev has_port : Bytes → Bool
has_port host = true

validate_config-lab : validate_config has_port lab_config ≡ ok tt
unfolding validate_config check_all
validate_config-lab = refl

validate_config-threads :
    validate_config has_port (record lab_config { threads = 25001 }) ≡ err bad_threads
unfolding validate_config check_all
validate_config-threads = refl

validate_config-build_transaction_example :
    (content : Bytes) × (t : Transaction) × (build_transaction no_text name_of
        (some counting)
        lab
        9
        7
      ≡ ok t)
    × ((lab.response_body_size ≢ 0 → length content ≡ 7)
        × Received
            (chunk_of 100 (length (response_body_of no_text lab content)))
            9
            (new_uuid counting)
            (codes "user7")
            (request_body_of lab)
            (response_body_of no_text lab content)
            t)
validate_config-build_transaction_example =
    validate_config-build_transaction has_port no_text name_of counting lab_config 9 7
      validate_config-lab (ap some metadata_of-lab) (omega arith) (omega arith)
      request_body_of-small
      (λ content made.
        subst
          (λ z.
            length (response_body_of no_text lab z)
              + chunk_of 100 (length (response_body_of no_text lab z))
            < int_min)
          (some-injective (sym response_content-lab ∙ made)) response_of-small)

-- A chunk size of 2 ^ 63 - 1, which `Validate` accepts, with two bytes: the capacity is -1.
encode_response_frames-overflow :
    encode_response_frames 1 [] (1 ∷ 2 ∷ []) 9223372036854775807 ≡ err negative_capacity
unfolding encode_response_frames
encode_response_frames-overflow = refl
