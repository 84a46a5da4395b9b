-- ===== src/Queue/Envelope/RoundTrip.antt =====
-- `UnmarshalEnvelope` of internal/queue/queue.go reads back what `Marshal` wrote.
use mass.Prelude.{
  true, ◌&&◌, if◌then◌else◌, ℕ, suc, ◌+◌, ◌%◌, ◌≤◌, ◌<◌, ◌≡◌, refl, sym, ap, ◌∙◌, List, [], ◌∷◌,
  ◌++◌, some, Bytes, length, drop, length-append, take-length-append, drop-length-append,
  append_assoc, ltb, arith, false,
}
use mass.Prelude.Endian.{put_uint, uint, width, length-put_uint, uint-put_uint}
use mass.Queue.Envelope.{
  Proto, Envelope, envelope_header_bytes, slice, byte_at, read_len_prefixed, read_len_prefixed_u32,
  is_empty, unmarshal_load_artifacts, marshal, unmarshal_envelope,
}
use mass.Queue.Envelope.Layout.{
  section_of, blob_of, sections, header, names, load_blob, layout, Fits, marshal-layout,
  header_size,
}

drop_past : (done xs : Bytes) (k : ℕ) → drop (length done + k) (done ++ xs) ≡ drop k xs
drop_past [] xs k = ap (λ n. drop n xs) (omega arith)
drop_past (d ∷ done) xs k =
    let e : length (d ∷ done) + k ≡ suc (length done + k) = omega arith in
    rw e (drop_past done xs k)

-- A field that stands behind `done`, and what stands behind the field.
slice_here :
    (bytes done x rest : Bytes) (off n : ℕ)
    → bytes ≡ done ++ (x ++ rest)
    → off ≡ length done
    → n ≡ length x
    → slice bytes off n ≡ x
slice_here bytes done x rest off n e o h =
    let o' : off ≡ length done + 0 = omega arith in
    rw (e, o', h, drop_past done (x ++ rest) 0) (take-length-append x rest)

drop_here :
    (bytes done x rest : Bytes) (off : ℕ)
    → bytes ≡ done ++ (x ++ rest)
    → off ≡ length done + length x
    → drop off bytes ≡ rest
drop_here bytes done x rest off e o =
    rw (e, o, drop_past done (x ++ rest) (length x)) (drop-length-append x rest)

uint_one : (x : ℕ) → uint (x ∷ []) ≡ x
unfolding uint
uint_one x = omega arith

-- A section that stands at the offset is read whole.
read_len_prefixed_lem :
    (bytes done s rest : Bytes) (off : ℕ)
    → bytes ≡ done ++ (section_of s ++ rest)
    → off ≡ length done
    → length s ≤ 255
    → read_len_prefixed bytes off ≡ some (s, off + 1 + length s)
unfolding read_len_prefixed
read_len_prefixed_lem bytes done s rest off e o h =
    let l : length s % 256 ≡ length s = omega arith in
    let size = ap length e in
    let parts = length-append done (section_of s ++ rest) in
    let part = length-append s rest in
    let n : byte_at bytes off ≡ length s =
      ap uint (slice_here bytes done ((length s % 256) ∷ []) (s ++ rest) off 1 e o refl)
      ∙ (uint_one (length s % 256) ∙ l) in
    let body : slice bytes (off + 1) (length s) ≡ s =
      slice_here bytes (done ++ (length s % 256) ∷ []) s rest (off + 1) (length s)
        (e ∙ sym (append_assoc done _ _))
        (omega (arith, length-append done ((length s % 256) ∷ []))) refl in
    ground (arith, n, body)

read_len_prefixed_u32_lem :
    (bytes done b rest : Bytes) (off : ℕ)
    → bytes ≡ done ++ (blob_of b ++ rest)
    → off ≡ length done
    → length b < 4294967296
    → read_len_prefixed_u32 bytes off ≡ some (b, off + 4 + length b)
unfolding read_len_prefixed_u32
read_len_prefixed_u32_lem bytes done b rest off e o h =
    let size = put_uint 4 (length b % 4294967296) in
    let four = length-put_uint 4 (length b % 4294967296) in
    let total = ap length e in
    let parts = length-append done (blob_of b ++ rest) in
    let part = length-append (blob_of b) rest in
    let whole = length-append size b in
    let regroup : blob_of b ++ rest ≡ size ++ (b ++ rest) = append_assoc size b rest in
    let e' : bytes ≡ done ++ (size ++ (b ++ rest)) = e ∙ ap (◌++◌ done) regroup in
    let n : uint (slice bytes off 4) ≡ length b =
      ap uint (slice_here bytes done size (b ++ rest) off 4 e' o (sym four))
      ∙ (uint-put_uint 4 (length b % 4294967296) (omega arith) ∙ omega arith) in
    let body : slice bytes (off + 4) (length b) ≡ b =
      slice_here bytes (done ++ size) b rest (off + 4) (length b)
        (e' ∙ sym (append_assoc done size (b ++ rest))) (omega (arith, length-append done size))
        refl in
    ground (arith, n, body)

module _ (p : Proto) where
  decode_blob :
      (files : List (Proto.ModelFile p)) (hints blob : Bytes)
      → Proto.is_encodable p files hints ≡ true
      → Proto.encode p files hints ≡ blob
      → unmarshal_load_artifacts p blob ≡ some (files, hints)
  unfolding unmarshal_load_artifacts
  decode_blob files hints [] able e =
      let empty = Proto.encode_empty p files hints e in cc (empty.0, empty.1)
  decode_blob files hints (b ∷ bs) able e = rw (← e) (Proto.decode-encode p files hints able)

  -- The load artifacts survive, nothing set included.
  unmarshal-marshal_load_artifacts :
      (files : List (Proto.ModelFile p)) (hints : Bytes)
      → Proto.is_encodable p files hints ≡ true
      → unmarshal_load_artifacts p
          (if is_empty files && is_empty hints then [] else Proto.encode p files hints)
        ≡ some (files, hints)
  unfolding unmarshal_load_artifacts
  unmarshal-marshal_load_artifacts [] [] able = refl
  unmarshal-marshal_load_artifacts files hints able = decode_blob files hints _ able refl

  -- The other fields fit their widths on the wire.
  pub record FitsWire (e : Envelope p) : Type 0 where
    pub names_fit : Fits p e
    pub priority_lt : e.priority < 256
    pub cost_lt : e.cost < width 8
    pub queued_seconds_lt : e.queued_seconds < width 8
    pub headroom_pct_lt : e.headroom_pct < width 4
    pub load_blob_lt : length (load_blob p e) < 4294967296

  -- The fixed part, read by offsets.
  header_read :
      (bytes : Bytes) (e : Envelope p)
      → bytes ≡ layout p e
      → FitsWire e
      → (byte_at bytes 0 ≡ e.priority)
        × (byte_at bytes 1 ≡ e.attempts)
        × (uint (slice bytes 2 8) ≡ e.cost)
        × (uint (slice bytes 10 8) ≡ e.queued_seconds)
        × (uint (slice bytes 18 4) ≡ e.headroom_pct)
  header_read bytes e h f = (
    ap uint (slice_here bytes [] (a ∷ []) _ 0 1 h refl refl) ∙ (uint_one a ∙ omega (arith, f)),
    ap uint (slice_here bytes (a ∷ []) (e.attempts ∷ []) _ 1 1 h refl refl) ∙ uint_one e.attempts,
    ap uint (slice_here bytes (a ∷ e.attempts ∷ []) c _ 2 8 (h ∙ to_cost) refl (sym c_size))
        ∙ uint-put_uint 8 e.cost f.cost_lt,
    ap uint (
          slice_here bytes (a ∷ e.attempts ∷ c) q _ 10 8 (h ∙ to_queued_seconds)
            (omega (arith, c_size)) (sym q_size))
        ∙ uint-put_uint 8 e.queued_seconds f.queued_seconds_lt,
    ap uint (
          slice_here bytes (a ∷ e.attempts ∷ (c ++ q)) g rest 18 4 (h ∙ to_headroom_pct)
            (omega (arith, length-append c q, c_size, q_size)) (sym g_size))
        ∙ uint-put_uint 4 e.headroom_pct f.headroom_pct_lt,
  )
    where
      a : ℕ
      a = e.priority % 256

      c : Bytes
      c = put_uint 8 e.cost

      q : Bytes
      q = put_uint 8 e.queued_seconds

      g : Bytes
      g = put_uint 4 e.headroom_pct

      rest : Bytes
      rest = sections (names p e) ++ (blob_of (load_blob p e) ++ e.payload)

      c_size : length c ≡ 8
      c_size = length-put_uint 8 e.cost

      q_size : length q ≡ 8
      q_size = length-put_uint 8 e.queued_seconds

      g_size : length g ≡ 4
      g_size = length-put_uint 4 e.headroom_pct

      to_cost : layout p e ≡ a ∷ e.attempts ∷ (c ++ ((q ++ g) ++ rest))
      to_cost = simp append_assoc

      to_queued_seconds : layout p e ≡ a ∷ e.attempts ∷ (c ++ (q ++ (g ++ rest)))
      to_queued_seconds = simp append_assoc

      to_headroom_pct : layout p e ≡ a ∷ e.attempts ∷ ((c ++ q) ++ (g ++ rest))
      to_headroom_pct = simp append_assoc

  -- A position in the bytes: what is already read, and what follows.
  record IsAt (bytes rest : Bytes) (off : ℕ) : Type 0 where
    done : Bytes
    splits : bytes ≡ done ++ rest
    measured : off ≡ length done

  read_name :
      (bytes s : Bytes) (ss : List Bytes) (tail : Bytes) (off : ℕ)
      → length s ≤ 255
      → IsAt bytes (sections (s ∷ ss) ++ tail) off
      → (read_len_prefixed bytes off ≡ some (s, off + 1 + length s))
        × IsAt bytes (sections ss ++ tail) (off + 1 + length s)
  read_name bytes s ss tail off h at = (
    read_len_prefixed_lem bytes at.done s (sections ss ++ tail) off split at.measured h,
    record {
      done = at.done ++ section_of s;
      splits = split ∙ sym (append_assoc at.done (section_of s) (sections ss ++ tail));
      measured = omega (arith, at.measured, length-append at.done (section_of s));
    },
  )
    where
      split : bytes ≡ at.done ++ (section_of s ++ (sections ss ++ tail))
      split = at.splits ∙ ap (◌++◌ at.done) (append_assoc (section_of s) (sections ss) tail)

  read_tail :
      (bytes b rest : Bytes) (off : ℕ)
      → length b < 4294967296
      → IsAt bytes (blob_of b ++ rest) off
      → (read_len_prefixed_u32 bytes off ≡ some (b, off + 4 + length b))
        × (drop (off + 4 + length b) bytes ≡ rest)
  read_tail bytes b rest off h at = (
    read_len_prefixed_u32_lem bytes at.done b rest off at.splits at.measured h,
    drop_here bytes at.done (blob_of b) rest (off + 4 + length b) at.splits (
        omega (
          arith,
          at.measured,
          length-append (put_uint 4 (length b % 4294967296)) b,
          length-put_uint 4 (length b % 4294967296),
        )),
  )

  unmarshal-layout :
      (bytes : Bytes) (e : Envelope p)
      → bytes ≡ layout p e
      → FitsWire e
      → unmarshal_envelope p bytes ≡ some e
  unfolding unmarshal_envelope
  unmarshal-layout bytes e h f =
      let fits = f.names_fit in
      let tail = blob_of (load_blob p e) ++ e.payload in
      let start : IsAt bytes (sections (names p e) ++ tail) envelope_header_bytes = record {
        done = header p e;
        splits = h;
        measured = sym (header_size p e);
      } in
      let a =
        read_name bytes e.runtime_name (e.model_id ∷ e.source ∷ e.request_id ∷ e.global_msg_id ∷ [])
          tail _ fits.runtime_name_le start in
      let b =
        read_name bytes e.model_id (e.source ∷ e.request_id ∷ e.global_msg_id ∷ []) tail _
          fits.model_id_le a.1 in
      let c =
        read_name bytes e.source (e.request_id ∷ e.global_msg_id ∷ []) tail _ fits.source_le b.1 in
      let d = read_name bytes e.request_id (e.global_msg_id ∷ []) tail _ fits.request_id_le c.1 in
      let g = read_name bytes e.global_msg_id [] tail _ fits.global_msg_id_le d.1 in
      let k = read_tail bytes (load_blob p e) e.payload _ f.load_blob_lt g.1 in
      let fixed = header_read bytes e h f in
      let long : ltb (length bytes) envelope_header_bytes ≡ false = ground (
        arith,
        ap length h,
        header_size p e,
        length-append (header p e) (sections (names p e) ++ tail),
      ) in
      rw
        (
          long,
          a.0,
          b.0,
          c.0,
          d.0,
          g.0,
          k.0,
          unmarshal-marshal_load_artifacts e.files e.load_hints fits.files_encode,
        )
        (cc (fixed.0, fixed.1, fixed.2, fixed.3, fixed.4, k.1))

  -- Every envelope whose fields fit the wire format, and whose load artifacts protobuf can encode,
  -- survives `Marshal` and `UnmarshalEnvelope`: `Marshal` does not panic, and what is read back is the
  -- envelope, field by field.
  pub unmarshal-marshal :
      (e : Envelope p)
      → FitsWire e
      → (bytes : Bytes) × (marshal p e ≡ some bytes) × (unmarshal_envelope p bytes ≡ some e)
  unmarshal-marshal e f =
      (layout p e, marshal-layout p e f.names_fit, unmarshal-layout (layout p e) e refl f)
