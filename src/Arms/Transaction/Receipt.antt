-- ===== src/Arms/Transaction/Receipt.antt =====
-- The frames that a receiver reads from a transaction (protocol.go, and `parseFrames` of protocol_test.go).
use emm_go_script.Common.{
  length, length-append, length-map, All, All-append, ok, ==_iff, Int64, int_mod, int_min, ℕ, ◌+◌,
  ◌%◌, ◌≤◌, ◌<◌, ◌≡◌, refl, sym, ap, ◌∙◌, subst, Option, some, List, [], ◌∷◌, ◌++◌, map, append-nil,
  append_assoc, arith,
}
use emm_go_script.Arms.{
  Bytes, TransactionConfig, MetadataBody, frame_bytes, encode_frame, next_sequence, chunk_of,
  encode_response_frames, response_content, new_uuid,
}
use emm_go_script.Arms.Frames.{
  ParsedFrame, parse_frames, frame_of, IsFrame, stream_of, parse_frames-stream_of,
}
use emm_go_script.Arms.Chunks.{IsResponse, Numbered, bodies, encode_response_frames-Chunked}
use emm_go_script.Arms.Transaction.{
  Transaction, concat_frames, metadata_of, request_body_of, frames_of, response_body_of,
  build_transaction,
}

chunk_of-small : (chunk_size : Int64) (n : ℕ) → chunk_of chunk_size n ≤ int_min
unfolding chunk_of
chunk_of-small chunk_size n = ground arith

Numbered-append :
    (s : ℕ) (fs gs : List ParsedFrame)
    → s < int_mod
    → Numbered s fs
    → Numbered ((s + length fs) % int_mod) gs
    → Numbered s (fs ++ gs)
unfolding Numbered
Numbered-append s [] gs h m n = subst (λ t. Numbered t gs) (omega arith) n
Numbered-append s (f ∷ fs) gs h m n =
    let next : next_sequence s < int_mod = unfold next_sequence in omega arith in
    let same : (s + length (f ∷ fs)) % int_mod ≡ (next_sequence s + length fs) % int_mod =
      unfold next_sequence in omega arith in
    (m.0, Numbered-append (next_sequence s) fs gs next m.1 (subst (λ t. Numbered t gs) same n))

concat_frames-stream_of :
    (fs gs : List ParsedFrame)
    → concat_frames (map frame_of fs) ++ stream_of gs ≡ stream_of (fs ++ gs)
unfolding concat_frames stream_of
concat_frames-stream_of [] gs = refl
concat_frames-stream_of (f ∷ fs) gs =
    append_assoc (frame_of f) (concat_frames (map frame_of fs)) (stream_of gs)
    ∙ ap (λ l. frame_of f ++ l) (concat_frames-stream_of fs gs)

responses-IsFrame :
    (chunk s : ℕ) (request_id : Bytes) (fs : List ParsedFrame)
    → length request_id ≡ 36
    → chunk ≤ int_min
    → s < int_mod
    → Numbered s fs
    → All (IsResponse chunk request_id) fs
    → All IsFrame fs
unfolding Numbered
responses-IsFrame chunk s request_id [] r c h m k = tt
responses-IsFrame chunk s request_id (f ∷ fs) r c h m k =
    let next : next_sequence s < int_mod = unfold next_sequence in omega arith in
    (
      record {
        named = ap length k.0.identified ∙ r;
        numbered = subst (λ t. t < int_mod) (sym m.0) h;
        sized = omega (arith, k.0.few_bytes);
      },
      responses-IsFrame chunk (next_sequence s) request_id fs r c next m.1 k.1,
    )

abbrev frame : ℕ → ℕ → ℕ → Bytes → Bytes → ParsedFrame
frame message_type subtype sequence request_id body = record {
  message_type = message_type;
  subtype = subtype;
  sequence = sequence;
  request_id = request_id;
  body = body;
}

-- The frames of a transaction, with those of the response between the second and the last.
abbrev pub whole : ℕ → Bytes → Bytes → Bytes → List ParsedFrame → ℕ → List ParsedFrame
whole sequence request_id metadata request_body responses last =
    frame 1 1 sequence request_id metadata
    ∷ frame 99 2 (next_sequence sequence) request_id request_body
    ∷ (responses ++ frame 99 99 last request_id [] ∷ [])

-- What a receiver reads from a transaction's bytes.
pub record Received (chunk sequence : ℕ) (request_id metadata request_body response_body : Bytes)
    (t : Transaction) : Type 0 where
  pub responses : List ParsedFrame
  pub last : ℕ
  pub read :
      parse_frames t.frame_count t.bytes
      ≡ ok (whole sequence request_id metadata request_body responses last)
  pub numbered : Numbered sequence (whole sequence request_id metadata request_body responses last)
  pub counted :
      length (whole sequence request_id metadata request_body responses last) ≡ t.frame_count
  pub following : t.sequence ≡ (sequence + t.frame_count) % int_mod
  pub kinds : All (IsResponse chunk request_id) responses
  pub joined : bodies responses ≡ response_body

frames_of-step :
    (sequence : ℕ) (request_id metadata request_body response_body : Bytes) (chunk_size : Int64)
    {frames : List Bytes} {sequence' : ℕ}
    → length request_id ≡ 36
    → encode_response_frames ((sequence + 2) % int_mod) request_id response_body chunk_size
      ≡ ok (frames, sequence')
    → frames_of sequence request_id metadata request_body response_body chunk_size
      ≡ ok (record {
        bytes =
            frame_bytes 1 1 sequence request_id metadata
            ++ (frame_bytes 99 2 (next_sequence sequence) request_id request_body
                ++ (concat_frames frames ++ frame_bytes 99 99 sequence' request_id []));
        sequence = next_sequence sequence';
        request_id = request_id;
        frame_count = 2 + length frames + 1;
      })
unfolding frames_of encode_frame
frames_of-step sequence request_id metadata request_body response_body chunk_size h e =
    rw ((==_iff (length request_id) 36).1 h, e) refl

whole-Numbered :
    (sequence : ℕ) (request_id metadata request_body : Bytes) (responses : List ParsedFrame)
    → sequence < int_mod
    → Numbered ((sequence + 2) % int_mod) responses
    → Numbered sequence (
        whole sequence request_id metadata request_body responses
          (((sequence + 2) % int_mod + length responses) % int_mod))
unfolding Numbered
whole-Numbered sequence request_id metadata request_body responses h m =
    let start = (sequence + 2) % int_mod in
    let second : start ≡ next_sequence (next_sequence sequence) =
      unfold next_sequence in omega arith in
    let last = frame 99 99 ((start + length responses) % int_mod) request_id [] in
    (
      refl,
      (
        refl,
        subst (λ s. Numbered s (responses ++ last ∷ [])) second
            (Numbered-append start responses (last ∷ []) (omega arith) m (refl, tt)),
      ),
    )

whole-IsFrame :
    (sequence last : ℕ) (request_id metadata request_body : Bytes) (responses : List ParsedFrame)
    → length request_id ≡ 36
    → sequence < int_mod
    → last < int_mod
    → length metadata < int_min
    → length request_body < int_min
    → All IsFrame responses
    → All IsFrame (whole sequence request_id metadata request_body responses last)
whole-IsFrame sequence last request_id metadata request_body responses h s l m q k = (
  record { named = h; numbered = s; sized = omega arith },
  (
    record { named = h; numbered = unfold next_sequence in omega arith; sized = omega arith },
    All-append IsFrame responses (frame 99 99 last request_id [] ∷ []) k
        (record { named = h; numbered = l; sized = omega arith }, tt),
  ),
)

-- The frames that are made of any metadata and bodies.
pub frames_of-Received :
    (sequence : ℕ) (request_id metadata request_body response_body : Bytes) (chunk_size : Int64)
    → length request_id ≡ 36
    → sequence < int_mod
    → length metadata < int_min
    → length request_body < int_min
    → length response_body + chunk_of chunk_size (length response_body) < int_min
    → (t : Transaction) × (frames_of sequence request_id metadata request_body response_body
          chunk_size
        ≡ ok t)
      × Received
          (chunk_of chunk_size (length response_body))
          sequence
          request_id
          metadata
          request_body
          response_body
          t
unfolding stream_of
frames_of-Received sequence request_id metadata request_body response_body chunk_size h s m q b =
    let from = (sequence + 2) % int_mod in
    let small : from < int_mod = omega arith in
    let (frames, sequence', e, k) =
      encode_response_frames-Chunked from request_id response_body chunk_size h small b in
    let last = (from + length k.fs) % int_mod in
    let counts : length frames ≡ length k.fs = ap length k.encoded ∙ length-map k.fs frame_of in
    let all = whole sequence request_id metadata request_body k.fs last in
    let fit : All IsFrame all =
      whole-IsFrame sequence last request_id metadata request_body k.fs h s (omega arith) m q (
        responses-IsFrame (chunk_of chunk_size (length response_body)) from request_id k.fs h
          (chunk_of-small chunk_size (length response_body)) small k.numbered k.responses) in
    let parts : concat_frames frames ++ frame_bytes 99 99 sequence' request_id []
        ≡ stream_of (k.fs ++ frame 99 99 last request_id [] ∷ []) =
      (λ i. concat_frames (k.encoded i) ++ frame_bytes 99 99 (k.counted i) request_id [])
      ∙ ap (λ l. concat_frames (map frame_of k.fs) ++ l)
          (sym (append-nil (frame_of (frame 99 99 last request_id []))))
      ∙ concat_frames-stream_of k.fs (frame 99 99 last request_id [] ∷ []) in
    let size : length all ≡ 2 + length frames + 1 =
      omega (arith, counts, length-append k.fs (frame 99 99 last request_id [] ∷ [])) in
    (
      _,
      frames_of-step sequence request_id metadata request_body response_body chunk_size h e,
      record {
        responses = k.fs;
        last = last;
        read =
            ap
              (λ l. parse_frames (2 + length frames + 1) (
                frame_bytes 1 1 sequence request_id metadata
                ++ (frame_bytes 99 2 (next_sequence sequence) request_id request_body ++ l)))
              parts
            ∙ parse_frames-stream_of all (2 + length frames + 1) fit (omega (arith, size));
        numbered = whole-Numbered sequence request_id metadata request_body k.fs s k.numbered;
        counted = size;
        following = unfold next_sequence in omega (arith, k.counted, counts);
        kinds = k.responses;
        joined = k.joined;
      },
    )

new_uuid-length : (value : ℕ → ℕ) → length (new_uuid value) ≡ 36
unfolding new_uuid
new_uuid-length value = refl

build_transaction-step :
    (marshal : MetadataBody → Option Bytes) (status_text : Int64 → Bytes) (value : ℕ → ℕ)
    (c : TransactionConfig) (sequence worker_id : ℕ) {metadata content : Bytes}
    → marshal (metadata_of c worker_id (new_uuid value)) ≡ some metadata
    → response_content c.response_body c.response_body_size ≡ some content
    → build_transaction status_text marshal (some value) c sequence worker_id
      ≡ frames_of sequence
          (new_uuid value)
          metadata
          (request_body_of c)
          (response_body_of status_text c content)
          c.response_chunk_size
unfolding build_transaction
build_transaction-step marshal status_text value c sequence worker_id e f = rw (e, f) refl

-- Where random bytes are to be had, the metadata can be encoded and the content can be made, metadata and request are shorter
-- than 2 ^ 63 bytes and the length of the response and the chunk size that is used for it sum up to less than 2 ^ 63, a
-- transaction is built. A receiver that reads the frames one after the other, by the lengths in their headers, gets exactly its
-- parts: the metadata, the request, the response in frames of the chunk size at most, whose bodies are the response when they
-- are joined, and the completion. Their sequence numbers count from the given one on, the number that is returned is the next,
-- and the count of frames is right.
pub build_transaction-Received :
    (marshal : MetadataBody → Option Bytes) (status_text : Int64 → Bytes) (value : ℕ → ℕ)
    (c : TransactionConfig) (sequence worker_id : ℕ) {metadata content : Bytes}
    → marshal (metadata_of c worker_id (new_uuid value)) ≡ some metadata
    → response_content c.response_body c.response_body_size ≡ some content
    → sequence < int_mod
    → length metadata < int_min
    → length (request_body_of c) < int_min
    → length (response_body_of status_text c content)
        + chunk_of c.response_chunk_size (length (response_body_of status_text c content))
      < int_min
    → let response = response_body_of status_text c content in
      (t : Transaction) × (build_transaction status_text marshal (some value) c sequence worker_id
        ≡ ok t)
      × Received
          (chunk_of c.response_chunk_size (length response))
          sequence
          (new_uuid value)
          metadata
          (request_body_of c)
          response
          t
build_transaction-Received marshal status_text value c sequence worker_id {metadata} {content} e f s
      m q b =
    let response = response_body_of status_text c content in
    let (t, sent, received) =
      frames_of-Received sequence (new_uuid value) metadata (request_body_of c) response
        c.response_chunk_size (new_uuid-length value) s m q b in
    (t, build_transaction-step marshal status_text value c sequence worker_id e f ∙ sent, received)
