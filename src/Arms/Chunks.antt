-- ===== src/Arms/Chunks.antt =====
-- The frames of a response (protocol.go).
use emm_go_script.Common.{
  length, take, drop, take-append-drop, length-take, length-drop, All, ok, ==_iff, Int64, int_mod,
  int_min, ℕ, zero, suc, ◌+◌, ◌%◌, ◌≤◌, ◌<◌, ◌≡◌, refl, ap, ◌∙◌, false, List, [], ◌∷◌, ◌++◌, map,
  arith,
}
use emm_go_script.Arms.{
  Bytes, frame_bytes, encode_frame, next_sequence, encode_chunks, chunk_of, is_neg_capacity,
  encode_response_frames,
}
use emm_go_script.Arms.Frames.{ParsedFrame, frame_of}

-- A frame of a response, with `chunk` bytes at most.
pub record IsResponse (chunk : ℕ) (request_id : Bytes) (f : ParsedFrame) : Type 0 where
  pub message_type : f.message_type ≡ 99
  pub subtype : f.subtype ≡ 3
  pub identified : f.request_id ≡ request_id
  pub some_bytes : 1 ≤ length f.body
  pub few_bytes : length f.body ≤ chunk

-- The sequence numbers count from the given one on, as a `uint64`.
unfoldable pub Numbered : ℕ → List ParsedFrame → Type 0
unfolding next_sequence
Numbered sequence [] = Unit
Numbered sequence (f ∷ fs) = (f.sequence ≡ sequence) × Numbered (next_sequence sequence) fs

unfoldable pub bodies : List ParsedFrame → Bytes
bodies [] = []
bodies (f ∷ fs) = f.body ++ bodies fs

-- What the frames of a response's body are.
pub record Chunked (chunk sequence : ℕ) (request_id body : Bytes) (frames : List Bytes)
    (sequence' : ℕ) : Type 0 where
  pub fs : List ParsedFrame
  pub encoded : frames ≡ map frame_of fs
  pub responses : All (IsResponse chunk request_id) fs
  pub numbered : Numbered sequence fs
  pub joined : bodies fs ≡ body
  pub counted : sequence' ≡ (sequence + length fs) % int_mod

encode_chunks-step :
    (fuel chunk sequence b : ℕ) (request_id bs : Bytes) {frames : List Bytes} {sequence' : ℕ}
    → length request_id ≡ 36
    → encode_chunks fuel chunk (next_sequence sequence) request_id (drop chunk (b ∷ bs))
      ≡ ok (frames, sequence')
    → encode_chunks (suc fuel) chunk sequence request_id (b ∷ bs)
      ≡ ok (frame_bytes 99 3 sequence request_id (take chunk (b ∷ bs)) ∷ frames, sequence')
unfolding encode_chunks encode_frame
encode_chunks-step fuel chunk sequence b request_id bs h e =
    rw ((==_iff (length request_id) 36).1 h, e) refl

encode_chunks-Chunked :
    (fuel chunk sequence : ℕ) (request_id body : Bytes)
    → length request_id ≡ 36
    → 1 ≤ chunk
    → sequence < int_mod
    → length body ≤ fuel
    → (frames : List Bytes) × (sequence' : ℕ) × (encode_chunks fuel chunk sequence request_id body
        ≡ ok (frames, sequence'))
      × Chunked chunk sequence request_id body frames sequence'
unfolding Numbered bodies
encode_chunks-Chunked fuel chunk sequence request_id [] h c s l = (
  [],
  sequence,
  unfold encode_chunks in refl,
  record {
    fs = [];
    encoded = refl;
    responses = tt;
    numbered = tt;
    joined = refl;
    counted = omega arith;
  },
)
encode_chunks-Chunked zero chunk sequence request_id (b ∷ bs) h c s l = absurd (omega arith)
encode_chunks-Chunked (suc fuel) chunk sequence request_id (b ∷ bs) h c s l =
    let part = take chunk (b ∷ bs) in
    let shorter : length (drop chunk (b ∷ bs)) ≤ fuel = omega (arith, length-drop chunk (b ∷ bs)) in
    let next : next_sequence sequence < int_mod = unfold next_sequence in omega arith in
    let (frames, sequence', e, k) =
      encode_chunks-Chunked fuel chunk (next_sequence sequence) request_id (drop chunk (b ∷ bs)) h c
        next shorter in
    let f : ParsedFrame = record {
      message_type = 99;
      subtype = 3;
      sequence = sequence;
      request_id = request_id;
      body = part;
    } in
    (
      frame_bytes 99 3 sequence request_id part ∷ frames,
      sequence',
      encode_chunks-step fuel chunk sequence b request_id bs h e,
      record {
        fs = f ∷ k.fs;
        encoded = ap (◌∷◌ (frame_of f)) k.encoded;
        responses = (
          record {
            message_type = refl;
            subtype = refl;
            identified = refl;
            some_bytes = omega (arith, length-take chunk (b ∷ bs));
            few_bytes = omega (arith, length-take chunk (b ∷ bs));
          },
          k.responses,
        );
        numbered = (refl, k.numbered);
        joined = ap (λ l. part ++ l) k.joined ∙ take-append-drop chunk (b ∷ bs);
        counted = k.counted ∙ (unfold next_sequence in omega arith);
      },
    )

chunk_of-positive : (chunk_size : Int64) (n : ℕ) → 1 ≤ chunk_of chunk_size n
unfolding chunk_of
chunk_of-positive chunk_size n = ground arith

-- Where the sum of a length and a chunk size is below 2 ^ 63, the capacity is not negative.
is_neg_capacity-small :
    (n chunk : ℕ) → 1 ≤ chunk → n + chunk < int_min → is_neg_capacity n chunk ≡ false
unfolding is_neg_capacity
is_neg_capacity-small n chunk c h = ground arith

-- A response's body is sent, where its length and the chunk size sum up to less than 2 ^ 63, in frames of at least one byte and of the chunk size at most, which have the sequence
-- numbers from the given one on and whose bodies are the response's body when they are joined; the number that is returned is
-- the next.
pub encode_response_frames-Chunked :
    (sequence : ℕ) (request_id body : Bytes) (chunk_size : Int64)
    → length request_id ≡ 36
    → sequence < int_mod
    → length body + chunk_of chunk_size (length body) < int_min
    → (frames : List Bytes) × (sequence' : ℕ) × (encode_response_frames sequence request_id body
          chunk_size
        ≡ ok (frames, sequence'))
      × Chunked (chunk_of chunk_size (length body)) sequence request_id body frames sequence'
unfolding encode_response_frames
encode_response_frames-Chunked sequence request_id body chunk_size h s b =
    let chunk = chunk_of chunk_size (length body) in
    let positive : 1 ≤ chunk = chunk_of-positive chunk_size (length body) in
    rw (is_neg_capacity-small (length body) chunk positive b) (
      encode_chunks-Chunked (length body) chunk sequence request_id body h positive s (omega arith))
