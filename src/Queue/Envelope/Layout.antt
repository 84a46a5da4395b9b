-- ===== src/Queue/Envelope/Layout.antt =====
-- The wire format of internal/queue/queue.go as one concatenation, and that `Marshal`, which
-- writes by offsets into a buffer made beforehand, produces it.
use mass.Prelude.{
  ℕ, ◌+◌, ◌%◌, ◌≤◌, ◌≡◌, refl, ap, ◌∙◌, true, ◌&&◌, if◌then◌else◌, List, [], ◌∷◌, ◌++◌, some, Bytes,
  length, length-append, append-nil, append_assoc, replicate, copy_at, copy_at-fill, arith,
}
use mass.Prelude.Endian.{put_uint, length-put_uint}
use mass.Queue.Envelope.{
  Proto, Envelope, envelope_header_bytes, fit_255, write_len_prefixed, write_len_prefixed_u32,
  is_empty, marshal_load_artifacts, write_header, marshal,
}

-- A length byte and the text.
abbrev pub section_of : Bytes → Bytes
section_of s = (length s % 256) ∷ s

-- A four-byte length and the bytes.
abbrev pub blob_of : Bytes → Bytes
blob_of b = put_uint 4 (length b % 4294967296) ++ b

abbrev pub sections : List Bytes → Bytes
sections [] = []
sections (s ∷ ss) = section_of s ++ sections ss

abbrev section_sizes : List Bytes → ℕ
section_sizes [] = 0
section_sizes (s ∷ ss) = 1 + length s + section_sizes ss

length-sections : (ss : List Bytes) → length (sections ss) ≡ section_sizes ss
length-sections [] = refl
length-sections (s ∷ ss) = omega (arith, length-append s (sections ss), length-sections ss)

module _ (p : Proto) where
  abbrev pub header : Envelope p → Bytes
  header e =
      (e.priority % 256) ∷ e.attempts ∷ put_uint 8 e.cost
      ++ (put_uint 8 e.queued_seconds ++ put_uint 4 e.headroom_pct)

  abbrev pub names : Envelope p → List Bytes
  names e = e.runtime_name ∷ e.model_id ∷ e.source ∷ e.request_id ∷ e.global_msg_id ∷ []

  abbrev pub load_blob : Envelope p → Bytes
  load_blob e =
      if is_empty e.files && is_empty e.load_hints then [] else Proto.encode p e.files e.load_hints

  abbrev pub layout : Envelope p → Bytes
  layout e = header e ++ (sections (names e) ++ (blob_of (load_blob e) ++ e.payload))

  -- Every identity field fits its one-byte length, and protobuf can encode the load artifacts.
  pub record Fits (e : Envelope p) : Type 0 where
    pub runtime_name_le : length e.runtime_name ≤ 255
    pub model_id_le : length e.model_id ≤ 255
    pub source_le : length e.source ≤ 255
    pub request_id_le : length e.request_id ≤ 255
    pub global_msg_id_le : length e.global_msg_id ≤ 255
    pub files_encode : Proto.is_encodable p e.files e.load_hints ≡ true

  pub marshal_load_artifacts_lem :
      (e : Envelope p)
      → Proto.is_encodable p e.files e.load_hints ≡ true
      → marshal_load_artifacts p e.files e.load_hints ≡ some (load_blob e)
  unfolding marshal_load_artifacts
  marshal_load_artifacts_lem e h = ground (arith, h)

-- Writing `src` behind `done`, in a buffer with room for it and `n` bytes more.
write_at :
    (done src : Bytes) (n m off : ℕ)
    → off ≡ length done
    → m ≡ length src + n
    → copy_at off src (done ++ replicate m 0) ≡ (done ++ src) ++ replicate n 0
write_at done src n m off e h = rw (e, h) (copy_at-fill done src n 0)

-- Two writes one behind the other are one write.
write_twice :
    (done a b : Bytes) (n m : ℕ)
    → m ≡ length a + length b + n
    → copy_at (length done + length a) b (copy_at (length done) a (done ++ replicate m 0))
      ≡ (done ++ (a ++ b)) ++ replicate n 0
write_twice done a b n m h =
    rw (write_at done a (length b + n) m (length done) refl (omega arith)) (
      rw (← append_assoc) (
        write_at (done ++ a) b n (length b + n) (length done + length a)
          (omega (arith, length-append done a)) refl))

write_len_prefixed_lem :
    (done s : Bytes) (n m : ℕ)
    → m ≡ 1 + length s + n
    → write_len_prefixed (done ++ replicate m 0) (length done) s
      ≡ ((done ++ section_of s) ++ replicate n 0, length (done ++ section_of s))
unfolding write_len_prefixed
write_len_prefixed_lem done s n m h =
    let e : length done + 1 + length s ≡ length (done ++ section_of s) =
      omega (arith, length-append done (section_of s)) in
    cc (write_twice done ((length s % 256) ∷ []) s n m (omega arith), e)

write_len_prefixed_u32_lem :
    (done b : Bytes) (n m : ℕ)
    → m ≡ 4 + length b + n
    → write_len_prefixed_u32 (done ++ replicate m 0) (length done) b
      ≡ ((done ++ blob_of b) ++ replicate n 0, length (done ++ blob_of b))
unfolding write_len_prefixed_u32
write_len_prefixed_u32_lem done b n m h =
    let size = put_uint 4 (length b % 4294967296) in
    let four = length-put_uint 4 (length b % 4294967296) in
    let e : length done + 4 + length b ≡ length (done ++ blob_of b) =
      omega (arith, length-append done (blob_of b), length-append size b) in
    let written : copy_at (length done + 4) b (copy_at (length done) size (done ++ replicate m 0))
        ≡ (done ++ blob_of b) ++ replicate n 0 =
      rw four at (write_twice done size b n m (omega arith)) in
    cc (written, e)

-- The calls of `writeLenPrefixed`, one for each name, as a loop.
write_all : Bytes → ℕ → List Bytes → Bytes × ℕ
write_all buf off [] = (buf, off)
write_all buf off (s ∷ ss) =
    let (buf', off') = write_len_prefixed buf off s in write_all buf' off' ss

write_all_lem :
    (done : Bytes) (ss : List Bytes) (n m : ℕ)
    → m ≡ length (sections ss) + n
    → write_all (done ++ replicate m 0) (length done) ss
      ≡ ((done ++ sections ss) ++ replicate n 0, length (done ++ sections ss))
unfolding write_all
write_all_lem done [] n m h = let e : m ≡ n = omega arith in cc (append-nil done, e)
write_all_lem done (s ∷ ss) n m h =
    let rest = length-append s (sections ss) in
    rw (write_len_prefixed_lem done s (length (sections ss) + n) m (omega arith)) (
      write_all_lem (done ++ section_of s) ss n (length (sections ss) + n) refl
      ∙ cc (append_assoc done (section_of s) (sections ss)))

-- The write that fills the buffer.
last_write :
    (a b c last : Bytes)
    → copy_at (length ((a ++ b) ++ c)) last (((a ++ b) ++ c) ++ replicate (length last) 0)
      ≡ a ++ (b ++ (c ++ last))
unfolding replicate
last_write a b c last =
    rw (write_at ((a ++ b) ++ c) last 0 (length last) (length ((a ++ b) ++ c)) refl (omega arith))
      (append-nil _ ∙ simp append_assoc)

module _ (p : Proto) where
  header_lem :
      (e : Envelope p) (n m : ℕ)
      → m ≡ envelope_header_bytes + n
      → write_header p e (replicate m 0) ≡ header p e ++ replicate n 0
  unfolding write_header
  header_lem e n m h =
      let a = e.priority % 256 in
      let c = put_uint 8 e.cost in
      let q = put_uint 8 e.queued_seconds in
      let g = put_uint 4 e.headroom_pct in
      let c_size = length-put_uint 8 e.cost in
      let q_size = length-put_uint 8 e.queued_seconds in
      let g_size = length-put_uint 4 e.headroom_pct in
      let both = length-append c q in
      rw (write_at [] (a ∷ []) (21 + n) m 0 refl (omega arith)) (
        rw (write_at (a ∷ []) (e.attempts ∷ []) (20 + n) (21 + n) 1 refl (omega arith)) (
          rw (write_at (a ∷ e.attempts ∷ []) c (12 + n) (20 + n) 2 refl (omega arith)) (
            rw (write_at (a ∷ e.attempts ∷ c) q (4 + n) (12 + n) 10 (omega arith) (omega arith)) (
              rw (write_at (a ∷ e.attempts ∷ (c ++ q)) g n (4 + n) 18 (omega arith) (omega arith))
                (cc (append_assoc c q g))))))

  pub header_size : (e : Envelope p) → length (header p e) ≡ envelope_header_bytes
  header_size e = omega (
    arith,
    length-append (put_uint 8 e.cost) (put_uint 8 e.queued_seconds ++ put_uint 4 e.headroom_pct),
    length-append (put_uint 8 e.queued_seconds) (put_uint 4 e.headroom_pct),
    length-put_uint 8 e.cost,
    length-put_uint 8 e.queued_seconds,
    length-put_uint 4 e.headroom_pct,
  )

  -- What `Marshal` writes once the five names have passed `fit255`.
  write : Envelope p → ℕ → Bytes
  write e size =
      let (buf, off) =
        write_all (write_header p e (replicate size 0)) envelope_header_bytes (names p e) in
      let (buf, off) = write_len_prefixed_u32 buf off (load_blob p e) in copy_at off e.payload buf

  buffer_size : Envelope p → ℕ
  buffer_size e =
      envelope_header_bytes
      + 5
      + length e.runtime_name
      + length e.model_id
      + length e.source
      + length e.request_id
      + length e.global_msg_id
      + 4
      + length (load_blob p e)
      + length e.payload

  fit : (s : Bytes) → length s ≤ 255 → fit_255 s ≡ some s
  unfolding fit_255
  fit s h = ground arith

  marshal-write : (e : Envelope p) → Fits p e → marshal p e ≡ some (write e (buffer_size e))
  unfolding marshal write write_all buffer_size
  marshal-write e f =
      rw (fit e.runtime_name f.runtime_name_le, marshal)
        (rw (fit e.model_id f.model_id_le) (
          rw (fit e.source f.source_le) (
            rw (fit e.request_id f.request_id_le) (
              rw (fit e.global_msg_id f.global_msg_id_le)
                (rw (marshal_load_artifacts_lem p e f.files_encode) refl)))))

  write-layout : (e : Envelope p) → write e (buffer_size e) ≡ layout p e
  unfolding write buffer_size
  write-layout e =
      rw
        (
          header_lem e after_header (buffer_size e) (omega (arith, length-sections (names p e))),
          ← header_size e,
        )
        (rw (write_all_lem (header p e) (names p e) after_names after_header (omega arith)) (
          rw
            (write_len_prefixed_u32_lem (header p e ++ sections (names p e)) (load_blob p e)
              (length e.payload) after_names refl)
            (last_write (header p e) (sections (names p e)) (blob_of (load_blob p e)) e.payload)))
    where
      after_names : ℕ
      after_names = 4 + length (load_blob p e) + length e.payload

      after_header : ℕ
      after_header = length (sections (names p e)) + after_names

  -- `Marshal` produces the documented layout, and panics for no envelope whose names fit.
  pub marshal-layout : (e : Envelope p) → Fits p e → marshal p e ≡ some (layout p e)
  marshal-layout e f = marshal-write e f ∙ ap some (write-layout e)
