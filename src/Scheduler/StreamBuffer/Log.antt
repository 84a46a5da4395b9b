-- ===== src/Scheduler/StreamBuffer/Log.antt =====
-- The buffer of internal/scheduler/stream_buffer.go against the unbounded log of all that its
-- producer appended: it holds the log's last chunks, under the numbers that they have there.
use mass.Prelude.{
  ℕ, zero, suc, ◌+◌, ◌≤◌, ◌<◌, ◌≡◌, refl, ap, Bool, true, false, ◌||◌, inl, inr, List, [], ◌∷◌,
  ◌++◌, some, length, drop, length-append, Bool-cases, arith,
}
use mass.Prelude.Words.{two_63, two_64, exceeds, sub_64, add_64}
use mass.Scheduler.StreamBuffer.{
  JobChunk, SequencedChunk, JobBuffer, stream_buffer_max_bytes, new_job_buffer, chunk_size,
  is_terminal, drop_oldest, append, enforce_cap, push_chunk,
}

-- The log with its sequence numbers, from `n` on.
abbrev pub number : ℕ → List JobChunk → List SequencedChunk
number n [] = []
number n (c ∷ cs) = record { seq = n; chunk = c } ∷ number (suc n) cs

pub length-number : (n : ℕ) (log : List JobChunk) → length (number n log) ≡ length log
length-number n [] = refl
length-number n (c ∷ cs) = ap suc (length-number (suc n) cs)

number-append :
    (n : ℕ) (log : List JobChunk) (c : JobChunk)
    → number n (log ++ c ∷ []) ≡ number n log ++ record { seq = n + length log; chunk = c } ∷ []
number-append n [] c = ground arith
number-append n (x ∷ log) c = ground (arith, number-append (suc n) log c)

pub drop-append {ℓ} :
    {A : Type ℓ} (k : ℕ) (xs ys : List A) → k ≤ length xs → drop k (xs ++ ys) ≡ drop k xs ++ ys
drop-append zero xs ys h = refl
drop-append (suc k) [] ys h = absurd (omega arith)
drop-append (suc k) (x ∷ xs) ys h = drop-append k xs ys (omega arith)

-- What stands at the head of a dropped log: its number, and the rest.
pub drop-number :
    (n k : ℕ) (log : List JobChunk) (d : SequencedChunk) (ds : List SequencedChunk)
    → d ∷ ds ≡ drop k (number n log)
    → (d.seq ≡ n + k) × (ds ≡ drop (suc k) (number n log)) × (k < length log)
drop-number n zero [] d ds e = cc
drop-number n zero (c ∷ log) d ds e = ground arith
drop-number n (suc k) [] d ds e = cc
drop-number n (suc k) (c ∷ log) d ds e = ground (arith, drop-number (suc n) k log d ds e)

abbrev pub total : List SequencedChunk → ℕ
total [] = 0
total (c ∷ cs) = chunk_size c.chunk + total cs

total-append : (xs ys : List SequencedChunk) → total (xs ++ ys) ≡ total xs + total ys
total-append [] ys = omega arith
total-append (x ∷ xs) ys = omega (arith, total-append xs ys)

abbrev pub has_terminal : List JobChunk → Bool
has_terminal [] = false
has_terminal (c ∷ cs) = is_terminal c.kind || has_terminal cs

has_terminal-append :
    (log : List JobChunk) (c : JobChunk)
    → has_terminal (log ++ c ∷ []) ≡ (has_terminal log || is_terminal c.kind)
has_terminal-append [] c = ground arith
has_terminal-append (x ∷ log) c = ground (arith, has_terminal-append log c)

-- The ring holds the end of the log, within the byte cap.
pub record Ring (log : List JobChunk) (b : JobBuffer) : Type 0 where
  pub next : b.next_seq ≡ length log
  pub kept : b.chunks ≡ drop b.floor (number 0 log)
  pub floor_le : b.floor ≤ length log
  pub counted : b.bytes ≡ total b.chunks
  pub capped : total b.chunks ≤ stream_buffer_max_bytes

-- And the buffer knows whether the log has ended.
pub record Holds (log : List JobChunk) (b : JobBuffer) : Type 0 where
  pub ring : Ring log b
  pub open ring use *
  pub flagged : b.terminal ≡ has_terminal log

pub new_job_buffer-Holds : (now : ℕ) → Holds [] (new_job_buffer now)
unfolding new_job_buffer
new_job_buffer-Holds now = ground arith

-- `enforceCap` on a buffer that is over its cap, but otherwise in order.
drop_oldest-Ring :
    (log : List JobChunk) (ds : List SequencedChunk) (b : JobBuffer)
    → b.next_seq ≡ length log
    → ds ≡ drop b.floor (number 0 log)
    → b.floor ≤ length log
    → b.bytes ≡ total ds
    → total ds < two_63
    → length log < two_64
    → Ring log (drop_oldest ds b)
unfolding drop_oldest
drop_oldest-Ring log [] b n k f c small fits = record {
  next = n;
  kept = k;
  floor_le = f;
  counted = c;
  capped = omega arith;
}
drop_oldest-Ring log (d ∷ ds) b n k f c small fits =
    let at_head = drop-number 0 b.floor log d ds k in
    elim (Bool-cases (exceeds b.bytes stream_buffer_max_bytes)) [
      | inl over ↦
          rw (over, drop_oldest)
            (drop_oldest-Ring log ds _ n (ground (arith, at_head)) (ground (arith, at_head))
              (ground arith) (omega arith) fits)
      | inr under ↦
          rw (under, drop_oldest)
            (record { next = n; kept = k; floor_le = f; counted = c; capped = ground arith })
    ]

drop_oldest_keeps :
    (ds : List SequencedChunk) (b : JobBuffer)
    → ((drop_oldest ds b).terminal ≡ b.terminal) × ((drop_oldest ds b).notify ≡ b.notify)
unfolding drop_oldest
drop_oldest_keeps [] b = (refl, refl)
drop_oldest_keeps (d ∷ ds) b = ground (
  arith,
  drop_oldest_keeps ds
      (record b { bytes = sub_64 b.bytes (chunk_size d.chunk); floor = add_64 d.seq 1 }),
)

push_chunk-kept :
    (log : List JobChunk) (b : JobBuffer) (c : JobChunk)
    → Ring log b
    → (push_chunk c b).chunks ≡ drop b.floor (number 0 (log ++ c ∷ []))
unfolding push_chunk
push_chunk-kept log b c h = ground (
  arith,
  number-append 0 log c,
  length-number 0 log,
  drop-append b.floor (number 0 log) (record { seq = length log; chunk = c } ∷ []),
)

-- The ring after `Append`.
append-Ring :
    (log : List JobChunk) (b : JobBuffer) (c : JobChunk)
    → Ring log b
    → chunk_size c + stream_buffer_max_bytes < two_63
    → length log + 1 < two_64
    → Ring (log ++ c ∷ []) (enforce_cap (push_chunk c b))
unfolding enforce_cap push_chunk
append-Ring log b c h small fits =
    let longer = length-append log (c ∷ []) in
    let heavier = total-append b.chunks (record { seq = b.next_seq; chunk = c } ∷ []) in
    drop_oldest-Ring (log ++ c ∷ []) (push_chunk c b).chunks (push_chunk c b) (omega arith)
      (push_chunk-kept log b c h) (omega arith) (omega arith) (omega arith) (omega arith)

-- Appending a chunk appends it to the log, whatever the cap makes the buffer forget.
pub append-Holds :
    (log : List JobChunk) (b : JobBuffer) (c : JobChunk) (now : ℕ)
    → Holds log b
    → chunk_size c + stream_buffer_max_bytes < two_63
    → length log + 1 < two_64
    → Holds (log ++ c ∷ []) (append (some c) now b).1
unfolding append enforce_cap push_chunk
append-Holds log b c now h small fits =
    let ring = append-Ring log b c h.ring small fits in
    let kept = drop_oldest_keeps (push_chunk c b).chunks (push_chunk c b) in
    let ends = has_terminal-append log c in ground (arith, ring, kept, ends)

-- Every append closes the channel that the consumers wait on.
pub append-notify :
    (b : JobBuffer) (c : JobChunk) (now : ℕ) → (append (some c) now b).1.notify ≡ b.notify + 1
unfolding append enforce_cap push_chunk
append-notify b c now = ground (arith, drop_oldest_keeps (push_chunk c b).chunks (push_chunk c b))

pub number-append_all :
    (n : ℕ) (xs ys : List JobChunk) → number n (xs ++ ys) ≡ number n xs ++ number (n + length xs) ys
number-append_all n [] ys = ground arith
number-append_all n (x ∷ xs) ys = ground (arith, number-append_all (suc n) xs ys)

drop_oldest-floor :
    (log : List JobChunk) (ds : List SequencedChunk) (b : JobBuffer)
    → ds ≡ drop b.floor (number 0 log)
    → length log < two_64
    → b.floor ≤ (drop_oldest ds b).floor
unfolding drop_oldest
drop_oldest-floor log [] b k fits = omega arith
drop_oldest-floor log (d ∷ ds) b k fits =
    let at_head = drop-number 0 b.floor log d ds k in
    elim (Bool-cases (exceeds b.bytes stream_buffer_max_bytes)) [
      | inl over ↦
          rw (over, drop_oldest)
            (omega (
              arith,
              drop_oldest-floor log ds
                  (record b { bytes = sub_64 b.bytes (chunk_size d.chunk); floor = add_64 d.seq 1 })
                  (ground (arith, at_head)) fits,
            ))
      | inr under ↦ rw (under, drop_oldest) (omega arith)
    ]

-- The floor never falls.
pub append-floor :
    (log : List JobChunk) (b : JobBuffer) (c : JobChunk) (now : ℕ)
    → Holds log b
    → length log + 1 < two_64
    → b.floor ≤ (append (some c) now b).1.floor
unfolding append enforce_cap push_chunk
append-floor log b c now h fits =
    let longer = length-append log (c ∷ []) in
    let rises =
      drop_oldest-floor (log ++ c ∷ []) (push_chunk c b).chunks (push_chunk c b)
        (push_chunk-kept log b c h.ring) (omega arith) in
    ground (arith, rises)

-- No chunk is too large to be dropped: what alone exceeds the cap is gone at once.
drop_oldest_all :
    (ds : List SequencedChunk) (b : JobBuffer) (last : SequencedChunk)
    → b.bytes ≡ total (ds ++ last ∷ [])
    → total (ds ++ last ∷ []) < two_63
    → stream_buffer_max_bytes < chunk_size last.chunk
    → (drop_oldest (ds ++ last ∷ []) b).chunks ≡ []
unfolding drop_oldest
drop_oldest_all [] b last e small big = ground arith
drop_oldest_all (d ∷ ds) b last e small big =
    let over : exceeds b.bytes stream_buffer_max_bytes ≡ true =
      ground (arith, total-append ds (last ∷ [])) in
    rw (over, drop_oldest)
      (drop_oldest_all ds
        (record b { bytes = sub_64 b.bytes (chunk_size d.chunk); floor = add_64 d.seq 1 }) last
        (ground arith) (omega arith) big)

pub append_oversized :
    (log : List JobChunk) (b : JobBuffer) (c : JobChunk) (now : ℕ)
    → Holds log b
    → stream_buffer_max_bytes < chunk_size c
    → chunk_size c + stream_buffer_max_bytes < two_63
    → (append (some c) now b).1.chunks ≡ []
unfolding append enforce_cap push_chunk
append_oversized log b c now h big small =
    let heavier = total-append b.chunks (record { seq = b.next_seq; chunk = c } ∷ []) in
    let gone =
      drop_oldest_all b.chunks (push_chunk c b) (record { seq = b.next_seq; chunk = c })
        (omega (arith, h.counted, h.capped)) (omega (arith, h.capped)) big in
    ground (arith, gone)

-- Only a terminal chunk sets the terminal flag, and nothing clears it.
pub append-terminal :
    (b : JobBuffer) (c : JobChunk) (now : ℕ)
    → (append (some c) now b).1.terminal ≡ (b.terminal || is_terminal c.kind)
unfolding append enforce_cap push_chunk
append-terminal b c now = ground (arith, drop_oldest_keeps (push_chunk c b).chunks (push_chunk c b))
