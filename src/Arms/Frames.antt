-- ===== src/Arms/Frames.antt =====
-- The frames of a stream as `parseFrames` of protocol_test.go reads them, against those that `EncodeFrame` makes.
use emm_go_script.Common.{
  ltb, if◌then◌else◌, length, get_elem?, take, drop, length-append, All, take-append, drop-append,
  Result, ok, err, ◌>>=◌, get_or, int_mod, ℕ, zero, suc, ◌+◌, ◌*◌, ◌%◌, ◌≤◌, ◌<◌, ◌≡◌, refl, sym,
  ap, ◌∙◌, false, List, [], ◌∷◌, ◌++◌, append_assoc, arith,
}
use emm_go_script.Arms.{Bytes, frame_header_size, word_bytes, frame_bytes}

-- `parsedFrame`.
pub record ParsedFrame : Type 0 where
  pub message_type : ℕ
  pub subtype : ℕ
  pub sequence : ℕ
  pub request_id : Bytes
  pub body : Bytes

pub data FrameError : Type 0 where
  malformed_frame no_fuel : FrameError

-- `binary.BigEndian.Uint64`.
unfoldable pub word_of : ℕ → Bytes → ℕ
word_of acc [] = acc
word_of acc (b ∷ bs) = word_of (acc * 256 + b) bs

unfoldable pub parsed : ℕ → Bytes → ParsedFrame
unfolding word_of
parsed body_length data_bytes = record {
  message_type = get_or (get_elem? data_bytes 6) 0;
  subtype = get_or (get_elem? data_bytes 7) 0;
  sequence = word_of 0 (take 8 (drop 8 data_bytes));
  request_id = take 36 (drop 16 data_bytes);
  body = take body_length (drop 72 data_bytes);
}

-- One round of the loop: a frame and the bytes behind it.
unfoldable pub parse_frame : Bytes → Result FrameError (ParsedFrame × Bytes)
unfolding parsed word_of
parse_frame data_bytes =
    let body_length = word_of 0 (take 8 (drop 52 data_bytes)) in
    let frame_length = (frame_header_size + body_length) % int_mod in
    if ltb (length data_bytes) frame_header_size
    then err malformed_frame
    else if ltb (length data_bytes) frame_length
    then err malformed_frame
    else ok (parsed body_length data_bytes, drop frame_length data_bytes)

-- The loop, with fuel for its rounds.
unfoldable pub parse_frames : ℕ → Bytes → Result FrameError (List ParsedFrame)
unfolding parse_frame
parse_frames fuel [] = ok []
parse_frames zero (b ∷ bs) = err no_fuel
parse_frames (suc fuel) (b ∷ bs) = do
  (frame, rest) ← parse_frame (b ∷ bs)
  frames ← parse_frames fuel rest
  ok (frame ∷ frames)

-- The fields of a frame as they are given to `EncodeFrame`.
abbrev pub frame_of : ParsedFrame → Bytes
frame_of f = frame_bytes f.message_type f.subtype f.sequence f.request_id f.body

-- A frame that `EncodeFrame` takes, whose numbers fit in 64 bits, as they do in Go.
pub record IsFrame (f : ParsedFrame) : Type 0 where
  pub named : length f.request_id ≡ 36
  pub numbered : f.sequence < int_mod
  pub sized : length f.body + 72 < int_mod

word_of-word_bytes : (n : ℕ) → n < int_mod → word_of 0 (word_bytes n) ≡ n
unfolding word_of word_bytes
word_of-word_bytes n h = omega arith

abbrev zeros : Bytes → Bytes
zeros bytes = 0 ∷ 0 ∷ 0 ∷ 0 ∷ 0 ∷ 0 ∷ 0 ∷ 0 ∷ 0 ∷ 0 ∷ 0 ∷ 0 ∷ bytes

-- A frame up to its request ID, with the bytes from there on.
start_with : ParsedFrame → Bytes → Bytes
unfolding word_bytes
start_with f bytes =
    (97 ∷ 114 ∷ 109 ∷ 115 ∷ 0 ∷ 1 ∷ f.message_type ∷ f.subtype ∷ word_bytes f.sequence) ++ bytes

frame_of-split :
    (f : ParsedFrame) (rest : Bytes)
    → frame_of f ++ rest
      ≡ start_with f (f.request_id ++ (word_bytes (length f.body) ++ zeros (f.body ++ rest)))
unfolding start_with frame_bytes word_bytes
frame_of-split f rest =
    ap (start_with f) (append_assoc f.request_id (word_bytes (length f.body) ++ zeros f.body) rest)

length-frame_of :
    (f : ParsedFrame) → length f.request_id ≡ 36 → length (frame_of f) ≡ 72 + length f.body
unfolding frame_bytes word_bytes
length-frame_of f h =
    omega (arith, h, length-append f.request_id (word_bytes (length f.body) ++ zeros f.body))

-- The field of the length.
read_length :
    (f : ParsedFrame) (bytes : Bytes)
    → IsFrame f
    → word_of 0
        (take 8 (drop 52 (start_with f (f.request_id ++ (word_bytes (length f.body) ++ bytes)))))
      ≡ length f.body
unfolding start_with word_bytes
read_length f bytes h =
    ap (λ l. word_of 0 (take 8 l))
      (drop-append f.request_id (word_bytes (length f.body) ++ bytes) 36 h.named)
    ∙ word_of-word_bytes (length f.body) (omega (arith, h.sized))

read_request_id :
    (f : ParsedFrame) (bytes : Bytes)
    → IsFrame f
    → take 36 (drop 16 (start_with f (f.request_id ++ bytes))) ≡ f.request_id
unfolding start_with word_bytes
read_request_id f bytes h = take-append f.request_id bytes 36 h.named

read_sequence :
    (f : ParsedFrame) (bytes : Bytes)
    → IsFrame f
    → word_of 0 (take 8 (drop 8 (start_with f bytes))) ≡ f.sequence
unfolding start_with word_bytes
read_sequence f bytes h = word_of-word_bytes f.sequence h.numbered

read_body :
    (f : ParsedFrame) (rest : Bytes)
    → IsFrame f
    → take (length f.body) (
        drop 72
          (start_with f (f.request_id ++ (word_bytes (length f.body) ++ zeros (f.body ++ rest)))))
      ≡ f.body
unfolding start_with word_bytes
read_body f rest h =
    let head = f.request_id ++ (word_bytes (length f.body) ++ zeros []) in
    ap (take (length f.body)) (
      ap (drop 56)
        (sym (append_assoc f.request_id (word_bytes (length f.body) ++ zeros []) (f.body ++ rest)))
      ∙ drop-append head (f.body ++ rest) 56 (
          omega
            (arith, h.named, length-append f.request_id (word_bytes (length f.body) ++ zeros []))))
    ∙ take-append f.body rest (length f.body) refl

parse_frame-step :
    (data_bytes : Bytes) (n : ℕ)
    → word_of 0 (take 8 (drop 52 data_bytes)) ≡ n
    → n + 72 < int_mod
    → 72 + n ≤ length data_bytes
    → parse_frame data_bytes ≡ ok (parsed n data_bytes, drop (72 + n) data_bytes)
unfolding parse_frame
parse_frame-step data_bytes n e small long =
    let sized : (72 + n) % int_mod ≡ 72 + n = omega arith in
    let header : ltb (length data_bytes) 72 ≡ false = ground arith in
    let whole : ltb (length data_bytes) (72 + n) ≡ false = ground arith in
    rw (e, sized, header, whole) refl

parsed-frame_of :
    (f : ParsedFrame) (rest : Bytes) → IsFrame f → parsed (length f.body) (frame_of f ++ rest) ≡ f
unfolding parsed start_with
parsed-frame_of f rest h =
    let bytes = word_bytes (length f.body) ++ zeros (f.body ++ rest) in
    ap (parsed (length f.body)) (frame_of-split f rest) ∙ (λ i. record {
      message_type = f.message_type;
      subtype = f.subtype;
      sequence = read_sequence f (f.request_id ++ bytes) h i;
      request_id = read_request_id f bytes h i;
      body = read_body f rest h i;
    })

-- A frame is read back, whatever bytes follow it.
pub parse_frame-frame_of :
    (f : ParsedFrame) (rest : Bytes) → IsFrame f → parse_frame (frame_of f ++ rest) ≡ ok (f, rest)
parse_frame-frame_of f rest h =
    let n = length f.body in
    let long : 72 + n ≤ length (frame_of f ++ rest) =
      omega (arith, length-append (frame_of f) rest, length-frame_of f h.named) in
    let read : word_of 0 (take 8 (drop 52 (frame_of f ++ rest))) ≡ n =
      ap (λ l. word_of 0 (take 8 (drop 52 l))) (frame_of-split f rest)
      ∙ read_length f (zeros (f.body ++ rest)) h in
    parse_frame-step (frame_of f ++ rest) n read (omega (arith, h.sized)) long
    ∙ ap ok (λ i. (
      parsed-frame_of f rest h i,
      drop-append (frame_of f) rest (72 + n) (length-frame_of f h.named) i,
    ))

-- A stream of frames.
unfoldable pub stream_of : List ParsedFrame → Bytes
unfolding frame_bytes
stream_of [] = []
stream_of (f ∷ fs) = frame_of f ++ stream_of fs

parse_frames-round :
    (fuel : ℕ) (input : Bytes) {f : ParsedFrame} {rest : Bytes} {fs : List ParsedFrame}
    → 1 ≤ length input
    → parse_frame input ≡ ok (f, rest)
    → parse_frames fuel rest ≡ ok fs
    → parse_frames (suc fuel) input ≡ ok (f ∷ fs)
unfolding parse_frames
parse_frames-round fuel [] l e g = absurd (omega arith)
parse_frames-round fuel (b ∷ bs) l e g = rw (e, g) refl

-- The frames of a stream are read back; a round for each is enough.
pub parse_frames-stream_of :
    (fs : List ParsedFrame) (fuel : ℕ)
    → All IsFrame fs
    → length fs ≤ fuel
    → parse_frames fuel (stream_of fs) ≡ ok fs
unfolding stream_of
parse_frames-stream_of [] fuel h l = unfold parse_frames in refl
parse_frames-stream_of (f ∷ fs) zero h l = absurd (omega arith)
parse_frames-stream_of (f ∷ fs) (suc fuel) h l =
    parse_frames-round fuel (frame_of f ++ stream_of fs)
      (omega (arith, length-append (frame_of f) (stream_of fs), length-frame_of f h.0.named))
      (parse_frame-frame_of f (stream_of fs) h.0) (parse_frames-stream_of fs fuel h.1 (omega arith))
