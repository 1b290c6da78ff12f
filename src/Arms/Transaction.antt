-- ===== src/Arms/Transaction.antt =====
-- `BuildTransaction` (protocol.go). `marshal` stands for `json.Marshal`, `status_text` for `http.StatusText`, and `random` for the
-- bytes that `rand.Read` gives, where it succeeds.
pub mod Receipt
use emm_go_script.Common.{
  if◌then◌else◌, length, Result, ok, ◌>>=◌, ◌>>◌, or_fail, string_eq, nat_eq, ◌==◌, codes, Int64,
  int_mod, ℕ, ◌+◌, ◌%◌, Option, List, [], ◌∷◌, ◌++◌,
}
use emm_go_script.Protocol.Guacamole.{decimal}
use emm_go_script.Arms.{
  Bytes, ProtocolError, no_random_bytes, no_metadata, negative_size, TransactionConfig,
  MetadataBody, encode_frame, next_sequence, encode_response_frames, response_content, itoa,
  without_dashes, new_uuid,
}

pub record Transaction : Type 0 where
  pub bytes : Bytes
  pub sequence : ℕ
  pub request_id : Bytes
  pub frame_count : ℕ

unfoldable pub concat_frames : List Bytes → Bytes
concat_frames [] = []
concat_frames (f ∷ fs) = f ++ concat_frames fs

-- The parts of a text, one after the other.
unfoldable pub text_of : List Bytes → Bytes
unfolding concat_frames
text_of parts = concat_frames parts

unfoldable pub metadata_of : TransactionConfig → ℕ → Bytes → MetadataBody
unfolding without_dashes itoa
metadata_of c worker_id request_id =
    let compact_id = without_dashes request_id in
    record {
      app_name = c.app_name;
      server_id = c.server_id;
      username = c.username_prefix ++ itoa worker_id;
      request_id = request_id;
      session_id = c.session_prefix ++ compact_id;
      client_addr = c.client_ip ++ 58 ∷ decimal (40000 + worker_id % 20000);
      server_addr = c.server_address;
      device_id = compact_id;
      device_type = codes "load_generator";
      token_id = compact_id;
    }

unfoldable pub request_body_of : TransactionConfig → Bytes
unfolding text_of
request_body_of c = text_of (
    c.request_method
    ∷ codes " "
    ∷ c.request_path
    ∷ codes " HTTP/1.0\r\nX-Forwarded-For: "
    ∷ c.client_ip
    ∷ codes "\r\nHost: "
    ∷ c.request_host
    ∷ codes
        "\r\nConnection: close\r\nUser-Agent: ARMSLoadGenerator/1.0\r\nX-Requested-With: com.leagsoft.emm\r\n\r\n"
    ∷ [])

-- The frames, of the encoded metadata and the two bodies.
pub frames_of : ℕ → Bytes → Bytes → Bytes → Bytes → Int64 → Result ProtocolError Transaction
unfolding encode_frame encode_response_frames concat_frames next_sequence
frames_of sequence request_id metadata request_body response_body chunk_size = do
  metadata_frame ← encode_frame 1 1 sequence request_id metadata
  request_frame ← encode_frame 99 2 (next_sequence sequence) request_id request_body
  (response_frames, sequence') ←
      encode_response_frames ((sequence + 2) % int_mod) request_id response_body chunk_size
  completion_frame ← encode_frame 99 99 sequence' request_id []
  ok (record {
    bytes =
        metadata_frame ++ (request_frame ++ (concat_frames response_frames ++ completion_frame));
    sequence = next_sequence sequence';
    request_id = request_id;
    frame_count = 2 + length response_frames + 1;
  })

module _ (status_text : Int64 → Bytes) where
  unfoldable pub response_body_of : TransactionConfig → Bytes → Bytes
  unfolding text_of itoa
  response_body_of c content =
      let known = status_text c.response_status in
      text_of (
        codes "HTTP/1.1 "
        ∷ itoa c.response_status
        ∷ codes " "
        ∷ (if length known == 0 then codes "Synthetic" else known)
        ∷ codes "\r\nServer: arms-load-generator\r\nContent-Type: text/plain\r\nContent-Length: "
        ∷ decimal (length content)
        ∷ codes "\r\nConnection: close\r\n\r\n"
        ∷ content
        ∷ [])

  -- `BuildTransaction`, for the worker of the given number.
  pub build_transaction :
      (MetadataBody → Option Bytes)
      → Option (ℕ → ℕ)
      → TransactionConfig
      → ℕ
      → ℕ
      → Result ProtocolError Transaction
  unfolding new_uuid metadata_of request_body_of response_body_of response_content frames_of
  build_transaction marshal random c sequence worker_id = do
    value ← or_fail random no_random_bytes
    metadata ← or_fail (marshal (metadata_of c worker_id (new_uuid value))) no_metadata
    content ← or_fail (response_content c.response_body c.response_body_size) negative_size
    frames_of sequence (new_uuid value) metadata (request_body_of c) (response_body_of c content)
        c.response_chunk_size
