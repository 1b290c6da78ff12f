-- ===== src/Arms.antt =====
-- arms-load-generator/protocol.go and the parts of config.go that it reads. Texts and frames are lists of bytes. What the code
-- calls of other packages is an argument: `json.Marshal`, `http.StatusText` and the random bytes. `make` panics
-- for a negative size or capacity; for one that is not negative it is taken to get the memory.
pub mod Frames
pub mod Chunks
pub mod Content
pub mod Transaction
pub mod Settings
pub mod Stats
mod Tests
use emm_go_script.Common.{
  ltb, leb, if◌then◌else◌, length, take, drop, replicate, Result, ok, guard, ◌>>=◌, ◌>>◌, string_eq,
  nat_eq, ◌==◌, codes, Int64, int_mod, is_neg, ℕ, zero, suc, ◌+◌, ◌-◌, ◌/◌, ◌%◌, Bool, not, ◌&&◌,
  ◌||◌, Option, none, some, List, [], ◌∷◌, ◌++◌,
}
use emm_go_script.Protocol.Guacamole.{decimal}

abbrev pub Bytes : Type 0
Bytes = List ℕ

pub data ProtocolError : Type 0 where
  bad_request_id no_random_bytes no_metadata negative_size negative_capacity : ProtocolError

-- The fields of `Config` that `BuildTransaction` reads.
pub record TransactionConfig : Type 0 where
  pub app_name : Bytes
  pub server_id : Int64
  pub username_prefix : Bytes
  pub session_prefix : Bytes
  pub client_ip : Bytes
  pub server_address : Bytes
  pub request_method : Bytes
  pub request_path : Bytes
  pub request_host : Bytes
  pub response_status : Int64
  pub response_body : Bytes
  pub response_body_size : Int64
  pub response_chunk_size : Int64

-- `metadataBody`.
pub record MetadataBody : Type 0 where
  pub app_name : Bytes
  pub server_id : Int64
  pub username : Bytes
  pub request_id : Bytes
  pub session_id : Bytes
  pub client_addr : Bytes
  pub server_addr : Bytes
  pub device_id : Bytes
  pub device_type : Bytes
  pub token_id : Bytes

abbrev pub frame_header_size : ℕ
frame_header_size = 72

-- `binary.BigEndian.PutUint64`.
unfoldable pub word_bytes : ℕ → Bytes
word_bytes n =
    n / 72057594037927936 % 256
    ∷ n / 281474976710656 % 256
    ∷ n / 1099511627776 % 256
    ∷ n / 4294967296 % 256
    ∷ n / 16777216 % 256
    ∷ n / 65536 % 256
    ∷ n / 256 % 256
    ∷ n % 256
    ∷ []

-- The frame that `EncodeFrame` fills, field after field.
unfoldable pub frame_bytes : ℕ → ℕ → ℕ → Bytes → Bytes → Bytes
unfolding word_bytes
frame_bytes message_type subtype sequence request_id body =
    (97 ∷ 114 ∷ 109 ∷ 115 ∷ 0 ∷ 1 ∷ message_type ∷ subtype ∷ word_bytes sequence)
    ++ (request_id
        ++ (word_bytes (length body) ++ (0 ∷ 0 ∷ 0 ∷ 0 ∷ 0 ∷ 0 ∷ 0 ∷ 0 ∷ 0 ∷ 0 ∷ 0 ∷ 0 ∷ body)))

-- `EncodeFrame`.
unfoldable pub encode_frame : ℕ → ℕ → ℕ → Bytes → Bytes → Result ProtocolError Bytes
unfolding frame_bytes
encode_frame message_type subtype sequence request_id body = do
  guard (length request_id == 36) bad_request_id
  ok (frame_bytes message_type subtype sequence request_id body)

-- `EncodeHeartbeat`: a header with no other field.
unfoldable pub encode_heartbeat : Bytes
encode_heartbeat = (97 ∷ 114 ∷ 109 ∷ 115 ∷ 0 ∷ 1 ∷ []) ++ replicate 66 0

-- `sequence++` on a `uint64`.
unfoldable pub next_sequence : ℕ → ℕ
next_sequence sequence = (sequence + 1) % int_mod

-- The loop over the chunks of a body, with the bytes of the body as fuel.
unfoldable pub encode_chunks : ℕ → ℕ → ℕ → Bytes → Bytes → Result ProtocolError (List Bytes × ℕ)
unfolding encode_frame next_sequence
encode_chunks fuel chunk sequence request_id [] = ok ([], sequence)
encode_chunks zero chunk sequence request_id (b ∷ bs) = ok ([], sequence)
encode_chunks (suc fuel) chunk sequence request_id (b ∷ bs) = do
  frame ← encode_frame 99 3 sequence request_id (take chunk (b ∷ bs))
  (frames, sequence') ←
      encode_chunks fuel chunk (next_sequence sequence) request_id (drop chunk (b ∷ bs))
  ok (frame ∷ frames, sequence')

-- The chunk size that is used for a body.
unfoldable pub chunk_of : Int64 → ℕ → ℕ
chunk_of chunk_size n =
    let size = if chunk_size == 0 then n else chunk_size in
    if is_neg size || size == 0 then 32768 else size

-- Whether `(n+chunk-1)/chunk` is negative: the sum wraps around, and the division drops the fraction.
unfoldable pub is_neg_capacity : ℕ → ℕ → Bool
is_neg_capacity n chunk =
    let sum = (n + chunk - 1) % int_mod in is_neg sum && leb chunk (int_mod - sum)

-- `EncodeResponseFrames`.
unfoldable pub encode_response_frames :
    ℕ → Bytes → Bytes → Int64 → Result ProtocolError (List Bytes × ℕ)
unfolding encode_chunks chunk_of is_neg_capacity
encode_response_frames sequence request_id body chunk_size =
    let chunk = chunk_of chunk_size (length body) in
    do
      guard (not (is_neg_capacity (length body) chunk)) negative_capacity
      encode_chunks (length body) chunk sequence request_id body

-- The loop of `buildResponseContent`, with fuel for its rounds.
unfoldable pub fill : ℕ → ℕ → Bytes → Bytes → Bytes
fill zero size seed content = content
fill (suc fuel) size seed content =
    let remaining = size - length content in
    let full = fill fuel size seed (content ++ seed) in
    let cut = fill fuel size seed (content ++ take remaining seed) in
    if ltb (length content) size
    then (if leb (length seed) remaining then full else cut)
    else content

abbrev pub default_seed : Bytes
default_seed = codes "ARMS load generator response body\n"

-- `buildResponseContent`. A negative size panics: `make` refuses it.
unfoldable pub response_content : Bytes → Int64 → Option Bytes
unfolding fill
response_content body size =
    let seed = if length body == 0 then default_seed else body in
    if size == 0 then some body else if is_neg size then none else some (fill size size seed [])

-- `strconv.Itoa`.
unfoldable pub itoa : Int64 → Bytes
itoa n = if is_neg n then 45 ∷ decimal (int_mod - n) else decimal n

-- `strings.ReplaceAll(s, "-", "")`
pub without_dashes : Bytes → Bytes
without_dashes [] = []
without_dashes (b ∷ bs) = let rest = without_dashes bs in if b == 45 then rest else b ∷ rest

pub hex_digit : ℕ → ℕ
hex_digit n = if ltb n 10 then 48 + n else 87 + n

-- `hex.Encode`.
pub hex : Bytes → Bytes
unfolding hex_digit
hex [] = []
hex (b ∷ bs) = hex_digit (b / 16) ∷ hex_digit (b % 16) ∷ hex bs

-- `newUUID`, of the random bytes. The bits of the bytes 6 and 8 are set by arithmetic: `(b & 0x0f) | 0x40`, `(b & 0x3f) | 0x80`.
unfoldable pub new_uuid : (ℕ → ℕ) → Bytes
unfolding hex
new_uuid value =
    hex (value 0 ∷ value 1 ∷ value 2 ∷ value 3 ∷ [])
    ++ 45 ∷ hex (value 4 ∷ value 5 ∷ [])
    ++ 45 ∷ hex ((value 6 % 16 + 64) ∷ value 7 ∷ [])
    ++ 45 ∷ hex ((value 8 % 64 + 128) ∷ value 9 ∷ [])
    ++ 45 ∷ hex (value 10 ∷ value 11 ∷ value 12 ∷ value 13 ∷ value 14 ∷ value 15 ∷ [])
