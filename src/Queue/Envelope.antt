-- ===== src/Queue/Envelope.antt =====
-- internal/queue/queue.go: the envelope of a job and its wire format, writers and readers as the
-- code has them, over a buffer and an offset. `none` is a panic of `Marshal`, or an error of
-- `UnmarshalEnvelope`. Floats and `int32` stand as their bit patterns, as the code writes them.
pub mod Layout
pub mod RoundTrip
use mass.Prelude.{
  ℕ, ◌+◌, ◌-◌, ◌%◌, ◌≡◌, List, [], ◌∷◌, ◌++◌, Option, none, some, Bytes, length, take, drop, ltb,
  leb, if◌then◌else◌, ◌>>=◌, replicate, copy_at, Bool, true, false, ◌&&◌,
}
use mass.Prelude.Endian.{put_uint, uint}

-- The generated protobuf code of `worker.HubLoadModel`, which is not part of the repository: a type
-- of model files, and the two functions with what protobuf says of them.
pub record Proto : Type 1 where
  pub ModelFile : Type 0
  pub encode : List ModelFile → Bytes → Bytes
  pub decode : Bytes → Option (List ModelFile × Bytes)
  -- That `proto.Marshal` gives no error; `encode` is what it gives then.
  pub is_encodable : List ModelFile → Bytes → Bool
  pub decode-encode :
      (files : List ModelFile) (hints : Bytes)
      → is_encodable files hints ≡ true
      → decode (encode files hints) ≡ some (files, hints)
  -- A message with a field that is set takes at least one byte.
  pub encode_empty :
      (files : List ModelFile) (hints : Bytes)
      → encode files hints ≡ []
      → (files ≡ []) × (hints ≡ [])

pub record Envelope (p : Proto) : Type 0 where
  pub priority : ℕ
  pub attempts : ℕ  -- uint8
  pub cost : ℕ  -- float64
  pub queued_seconds : ℕ  -- float64
  pub runtime_name : Bytes
  pub model_id : Bytes
  pub source : Bytes
  pub request_id : Bytes
  pub global_msg_id : Bytes
  pub files : List (Proto.ModelFile p)
  pub load_hints : Bytes
  pub payload : Bytes
  pub headroom_pct : ℕ  -- int32

abbrev pub envelope_header_bytes : ℕ
envelope_header_bytes = 1 + 1 + 8 + 8 + 4

unfoldable pub fit_255 : Bytes → Option Bytes
fit_255 s = if ltb 255 (length s) then none else some s

unfoldable pub write_len_prefixed : Bytes → ℕ → Bytes → Bytes × ℕ
write_len_prefixed buf off s =
    (copy_at (off + 1) s (copy_at off ((length s % 256) ∷ []) buf), off + 1 + length s)

unfoldable pub write_len_prefixed_u32 : Bytes → ℕ → Bytes → Bytes × ℕ
write_len_prefixed_u32 buf off b =
    (copy_at (off + 4) b (copy_at off (put_uint 4 (length b % 4294967296)) buf), off + 4 + length b)

-- data[from : from + n]
abbrev pub slice : Bytes → ℕ → ℕ → Bytes
slice bytes from n = take n (drop from bytes)

abbrev pub byte_at : Bytes → ℕ → ℕ
byte_at bytes i = uint (slice bytes i 1)

unfoldable pub read_len_prefixed : Bytes → ℕ → Option (Bytes × ℕ)
read_len_prefixed bytes off =
    if ltb (length bytes) (off + 1)
    then none
    else let n = byte_at bytes off in
      if ltb (length bytes) (off + 1 + n) then none else some (slice bytes (off + 1) n, off + 1 + n)

unfoldable pub read_len_prefixed_u32 : Bytes → ℕ → Option (Bytes × ℕ)
read_len_prefixed_u32 bytes off =
    if ltb (length bytes) (off + 4)
    then none
    else let n = uint (slice bytes off 4) in
      if ltb (length bytes) (off + 4 + n) then none else some (slice bytes (off + 4) n, off + 4 + n)

abbrev pub is_empty {ℓ} : {A : Type ℓ} → List A → Bool
is_empty [] = true
is_empty (x ∷ xs) = false

module _ (p : Proto) where
  unfoldable pub marshal_load_artifacts : List (Proto.ModelFile p) → Bytes → Option Bytes
  marshal_load_artifacts files load_hints =
      if is_empty files && is_empty load_hints
      then some []
      else if Proto.is_encodable p files load_hints
      then some (Proto.encode p files load_hints)
      else none

  unfoldable pub unmarshal_load_artifacts : Bytes → Option (List (Proto.ModelFile p) × Bytes)
  unmarshal_load_artifacts blob = if is_empty blob then some ([], []) else Proto.decode p blob

  -- The stores into `buf[0:envelopeHeaderBytes]`.
  unfoldable pub write_header : Envelope p → Bytes → Bytes
  write_header e buf =
      let buf = copy_at 0 ((e.priority % 256) ∷ []) buf in
      let buf = copy_at 1 (e.attempts ∷ []) buf in
      let buf = copy_at 2 (put_uint 8 e.cost) buf in
      let buf = copy_at 10 (put_uint 8 e.queued_seconds) buf in
      copy_at 18 (put_uint 4 e.headroom_pct) buf

  -- The fixed part of the buffer, and then the sections, each behind the last.
  unfoldable pub marshal : Envelope p → Option Bytes
  unfolding marshal_load_artifacts fit_255 write_header write_len_prefixed write_len_prefixed_u32
  marshal e = do
    rk ← fit_255 e.runtime_name
    mid ← fit_255 e.model_id
    src ← fit_255 e.source
    rid ← fit_255 e.request_id
    gmid ← fit_255 e.global_msg_id
    load_blob ← marshal_load_artifacts e.files e.load_hints
    let size =
        envelope_header_bytes
        + 5
        + length rk
        + length mid
        + length src
        + length rid
        + length gmid
        + 4
        + length load_blob
        + length e.payload
    let buf = write_header e (replicate size 0)
    let (buf, off) = write_len_prefixed buf envelope_header_bytes rk
    let (buf, off) = write_len_prefixed buf off mid
    let (buf, off) = write_len_prefixed buf off src
    let (buf, off) = write_len_prefixed buf off rid
    let (buf, off) = write_len_prefixed buf off gmid
    let (buf, off) = write_len_prefixed_u32 buf off load_blob
    some (copy_at off e.payload buf)

  unfoldable pub unmarshal_envelope : Bytes → Option (Envelope p)
  unfolding unmarshal_load_artifacts read_len_prefixed read_len_prefixed_u32
  unmarshal_envelope bytes = if ltb (length bytes) envelope_header_bytes then none else do
    (runtime_name, off) ← read_len_prefixed bytes envelope_header_bytes
    (model_id, off) ← read_len_prefixed bytes off
    (source, off) ← read_len_prefixed bytes off
    (request_id, off) ← read_len_prefixed bytes off
    (global_msg_id, off) ← read_len_prefixed bytes off
    (load_blob, off) ← read_len_prefixed_u32 bytes off
    (files, load_hints) ← unmarshal_load_artifacts load_blob
    some (record {
      priority = byte_at bytes 0;
      attempts = byte_at bytes 1;
      cost = uint (slice bytes 2 8);
      queued_seconds = uint (slice bytes 10 8);
      runtime_name = runtime_name;
      model_id = model_id;
      source = source;
      request_id = request_id;
      global_msg_id = global_msg_id;
      files = files;
      load_hints = load_hints;
      payload = drop off bytes;
      headroom_pct = uint (slice bytes 18 4);
    })
