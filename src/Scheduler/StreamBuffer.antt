-- ===== src/Scheduler/StreamBuffer.antt =====
-- internal/scheduler/stream_buffer.go: the ring buffer that fronts one job, and the loop that
-- replays it to a consumer. `JobChunk` is that of internal/worker/stream_worker.go.
-- Every `*jobBuffer` method runs under the buffer's mutex, so a method is one function on the record.
pub mod Log
pub mod Pump
mod Tests
use mass.Prelude.{
  ℕ, ◌+◌, ◌%◌, Bool, true, false, not, ◌&&◌, ◌||◌, List, [], ◌∷◌, ◌++◌, Option, none, some, Bytes,
  codes, length, keep, leb, ltb, if◌then◌else◌,
}
use mass.Prelude.Words.{two_64, add_64, sub_64, exceeds}

pub data ChunkType : Type 0 where
  chunk progress completed error : ChunkType

pub record JobChunk : Type 0 where
  pub kind : ChunkType
  pub body : Bytes  -- Chunk
  pub final : Bytes
  pub pct : ℕ  -- the bits of a float32
  pub note : Bytes
  pub err_text : Bytes

pub record SequencedChunk : Type 0 where
  pub seq : ℕ  -- uint64
  pub chunk : JobChunk

-- `notify` numbers the channels in the order of their creation: a channel is closed as soon as the
-- buffer holds a later one.
pub record JobBuffer : Type 0 where
  pub created_at : ℕ
  pub chunks : List SequencedChunk
  pub bytes : ℕ  -- int
  pub next_seq : ℕ  -- uint64
  pub floor : ℕ  -- uint64
  pub terminal : Bool
  pub terminal_at : ℕ
  pub notify : ℕ

-- 10 << 20
abbrev pub stream_buffer_max_bytes : ℕ
stream_buffer_max_bytes = 10485760

unfoldable pub new_job_buffer : ℕ → JobBuffer
new_job_buffer now = record {
  created_at = now;
  chunks = [];
  bytes = 0;
  next_seq = 0;
  floor = 0;
  terminal = false;
  terminal_at = 0;
  notify = 0;
}

unfoldable pub chunk_size : JobChunk → ℕ
chunk_size c =
    add_64 (add_64 (add_64 (length c.body) (length c.final)) (length c.err_text)) (length c.note)

abbrev pub is_terminal : ChunkType → Bool
is_terminal completed = true
is_terminal error = true
is_terminal _ = false

-- The loop of `enforceCap`, over the chunks that are left.
unfoldable pub drop_oldest : List SequencedChunk → JobBuffer → JobBuffer
drop_oldest [] b = record b { chunks = [] }
drop_oldest (d ∷ ds) b = elim (exceeds b.bytes stream_buffer_max_bytes) [
  | true ↦
      drop_oldest ds
        (record b { bytes = sub_64 b.bytes (chunk_size d.chunk); floor = add_64 d.seq 1 })
  | false ↦ record b { chunks = d ∷ ds }
]

unfoldable pub enforce_cap : JobBuffer → JobBuffer
unfolding drop_oldest
enforce_cap b = drop_oldest b.chunks b

-- The part of `Append` below the cap: the terminal flag and the new channel.
flag_terminal : JobChunk → ℕ → JobBuffer → JobBuffer
flag_terminal c now b =
    if is_terminal c.kind && not b.terminal
    then record b { terminal = true; terminal_at = now }
    else b

renew_notify : JobBuffer → JobBuffer
renew_notify b = record b { notify = b.notify + 1 }

push_chunk : JobChunk → JobBuffer → JobBuffer
push_chunk c b = record b {
  chunks = b.chunks ++ record { seq = b.next_seq; chunk = c } ∷ [];
  next_seq = add_64 b.next_seq 1;
  bytes = add_64 b.bytes (chunk_size c);
}

-- `none` is the nil pointer.
unfoldable pub append : Option JobChunk → ℕ → JobBuffer → ℕ × JobBuffer
unfolding push_chunk enforce_cap flag_terminal renew_notify
append none now b = (0, b)
append (some c) now b =
    (b.next_seq, renew_notify (flag_terminal c now (enforce_cap (push_chunk c b))))

unfoldable pub terminal_reached : JobBuffer → Bool × ℕ
terminal_reached b = (b.terminal, b.terminal_at)

-- `pump`, from the top of the loop to `b.mu.Unlock()`: what one turn under the lock finds.
pub data Turn : Type 0 where
  gap : SequencedChunk → Turn
  batch : List SequencedChunk → Bool → ℕ → Turn

unfoldable pub gap_chunk : JobChunk
gap_chunk = record {
  kind = error;
  body = [];
  final = [];
  pct = 0;
  note = [];
  err_text = codes "stream replay buffer overflowed past requested seq";
}

unfoldable pub pump_turn : ℕ → JobBuffer → Turn
pump_turn cursor b =
    if ltb cursor b.floor
    then gap (record { seq = cursor; chunk = gap_chunk })
    else batch (keep (λ sc. leb cursor sc.seq) b.chunks) b.terminal b.notify
