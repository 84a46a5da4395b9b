-- ===== src/Scheduler/StreamBuffer/Pump/Outcome.antt =====
-- The contract of `Attach` and `pump` in internal/scheduler/stream_buffer.go, for every
-- interleaving of appends, moves of the consumer and cancellation.
use mathlib.Core.List.{append-nil}
use mass.Prelude.{
  ℕ, zero, suc, ◌+◌, ◌≤◌, ◌<◌, ◌≡◌, refl, sym, ap, subst, ◌∙◌, ◌⊎◌, inl, inr, true, false, List, [],
  ◌∷◌, ◌++◌, some, length, length-append, length-keep-le, length-drop, leb, arith,
}
use mass.Prelude.Words.{two_63, two_64}
use mass.Scheduler.StreamBuffer.{
  JobChunk, SequencedChunk, gap_chunk, pump_turn, stream_buffer_max_bytes, chunk_size, append,
  JobBuffer, gap,
}
use mass.Scheduler.StreamBuffer.Log.{
  number, Holds, append-Holds, append_oversized, has_terminal, length-number,
}
use mass.Scheduler.StreamBuffer.Pump.{
  Consumer, ready, sending, waiting, gapped, finished, gave_up, cancelled, Session, attach, move,
  advance, Reach,
}
use mass.Scheduler.StreamBuffer.Pump.Delivery.{
  from, Delivered, Phase, Inv, Reach-Inv, advance-Inv, Delivered-append,
}

-- What has been sent: the log from `r` on, up to some point, and after it perhaps the gap.
abbrev pub IsSent : ℕ → Session → Type 0
IsSent r s =
    (before rest : List SequencedChunk) × (before ++ rest ≡ from r s.log)
    × ((s.out ≡ before)
        ⊎ (s.out ≡ before ++ record { seq = s.cursor; chunk = gap_chunk } ∷ [])
          × (s.consumer ≡ gave_up)
          × (s.cursor < s.buf.floor))

Delivered-rest :
    (r : ℕ) (s : Session) (out : List SequencedChunk)
    → Inv r s
    → Delivered r s.cursor out s.seen
    → out ++ from s.cursor s.log ≡ from r s.log
Delivered-rest r s out i d = whole.joined
  where
    whole : Delivered r s.cursor out s.log
    whole = rw i.seen_le at (Delivered-append s.seen i.later d)

Phase-IsSent :
    (r : ℕ) (k : Consumer) (s : Session) → s.consumer ≡ k → Inv r s → Phase r k s → IsSent r s
Phase-IsSent r ready s e i p = (s.out, from s.cursor s.log, Delivered-rest r s s.out i p, inl refl)
Phase-IsSent r (sending scs t n) s e i p =
    (s.out, from s.cursor s.log, Delivered-rest r s s.out i p.0, inl refl)
Phase-IsSent r (waiting n) s e i p =
    (s.out, from s.cursor s.log, Delivered-rest r s s.out i p.0, inl refl)
Phase-IsSent r (gapped sc) s e i p =
    (s.out, from s.cursor s.log, Delivered-rest r s s.out i p.0, inl refl)
Phase-IsSent r finished s e i p =
    (s.out, from s.cursor s.log, Delivered-rest r s s.out i p.0, inl refl)
Phase-IsSent r gave_up s e i (before, d, o, f) =
    (before, from s.cursor s.log, Delivered-rest r s before i d, inr (o, e, f))
Phase-IsSent r cancelled s e i p =
    (s.out, from s.cursor s.log, Delivered-rest r s s.out i p, inl refl)

-- In every reachable state of a consumer attached at `resume_seq`, what it was sent is an initial
-- part of the log from `resume_seq` on, each chunk under its own number, with nothing left out and
-- nothing repeated. Only a consumer that gave up was sent one thing more, the error of a gap, and
-- then the buffer no longer holds the chunk at the consumer's cursor.
pub Reach-IsSent :
    (now resume_seq : ℕ) {s : Session} → Reach (attach now resume_seq) s → IsSent resume_seq s
Reach-IsSent now resume_seq {s} reached =
    let i = Reach-Inv now resume_seq reached in Phase-IsSent resume_seq s.consumer s refl i i.phase

Delivered-whole :
    (r : ℕ) (s : Session)
    → Delivered r s.cursor s.out s.seen
    → from s.cursor s.seen ≡ []
    → s.out ≡ from r s.seen
Delivered-whole r s d e = sym (append-nil s.out) ∙ (ap (◌++◌ s.out) (sym e) ∙ d.joined)

-- A consumer whose loop ended on the terminal flag was sent the whole log from `resume_seq` on, as
-- it stood at some moment when the log already held a terminal frame.
pub finished_complete :
    (now resume_seq : ℕ) {s : Session}
    → Reach (attach now resume_seq) s
    → s.consumer ≡ finished
    → (seen later : List JobChunk) × (seen ++ later ≡ s.log)
      × (has_terminal seen ≡ true)
      × (s.out ≡ from resume_seq seen)
finished_complete now resume_seq {s} reached e =
    let i = Reach-Inv now resume_seq reached in
    let p = subst (λ k. Phase resume_seq k s) e i.phase in
    (s.seen, i.later, i.seen_le, p.2, Delivered-whole resume_seq s p.0 p.1)

waiting_wakes :
    (s : Session) (n : ℕ) → s.consumer ≡ waiting n → n < s.buf.notify → (advance s).consumer ≡ ready
unfolding advance move
waiting_wakes s n e h = ground arith

-- A waiting consumer that cannot move has been sent the whole log from `resume_seq` on, and the job
-- has not ended: no wake-up is lost.
pub blocked_has_all :
    (now resume_seq n : ℕ) {s : Session}
    → Reach (attach now resume_seq) s
    → s.consumer ≡ waiting n
    → advance s ≡ s
    → (s.out ≡ from resume_seq s.log) × (has_terminal s.log ≡ false)
blocked_has_all now resume_seq n {s} reached e still =
    let i = Reach-Inv now resume_seq reached in
    let p = subst (λ k. Phase resume_seq k s) e i.phase in
    elim p.3 [
      | inl (_, same) ↦ rw (← same) (Delivered-whole resume_seq s p.0 p.1, p.2)
      | inr later ↦ absurd (cc (waiting_wakes s n e later, ap (λ (t : Session). t.consumer) still))
    ]

-- The moves of a consumer while nothing is appended.
unfoldable pub run : ℕ → Session → Session
run zero s = s
run (suc n) s = run n (advance s)

abbrev pub IsDone : Consumer → Type 0
IsDone finished = Unit
IsDone gave_up = Unit
IsDone cancelled = Unit
IsDone _ = ⊥

-- The chunks of the batch that is being sent.
abbrev pub pending : Consumer → ℕ
pending (sending scs t n) = length scs
pending _ = 0

-- How many moves are left once the log has ended.
abbrev rank : Consumer → ℕ → ℕ
rank ready size = size + 2
rank (sending scs true n) size = length scs + 1
rank (sending scs false n) size = length scs + size + 4
rank (waiting n) size = size + 3
rank (gapped sc) size = 1
rank _ size = 0

ready-rank :
    (s : Session)
    → Holds s.log s.buf
    → has_terminal s.log ≡ true
    → rank (move ready s).consumer (length s.log) < length s.log + 2
unfolding move pump_turn
ready-rank s h t =
    let kept = length-keep-le (λ (sc : SequencedChunk). leb s.cursor sc.seq) s.buf.chunks in
    let held = ap length h.kept in
    let whole = length-drop s.buf.floor (number 0 s.log) in
    let numbered = length-number 0 s.log in ground (arith, kept, held, whole, numbered, h.flagged)

-- Once the log has ended, every move of a consumer that is not done brings it nearer to its end.
move-rank :
    (r : ℕ) (k : Consumer) (s : Session)
    → Inv r s
    → Phase r k s
    → has_terminal s.log ≡ true
    → ¬ IsDone k
    → rank (move k s).consumer (length s.log) < rank k (length s.log)
unfolding move
move-rank r ready s i p t live = ready-rank s i.holds t
move-rank r (sending (sc ∷ scs) true n) s i p t live = omega arith
move-rank r (sending (sc ∷ scs) false n) s i p t live = omega arith
move-rank r (sending [] true n) s i p t live = omega arith
move-rank r (sending [] false n) s i p t live = omega arith
move-rank r (waiting n) s i (d, e, f, fresh) t live = ground (arith, fresh)
move-rank r (gapped sc) s i p t live = omega arith
move-rank r finished s i p t live = absurd (live tt)
move-rank r gave_up s i p t live = absurd (live tt)
move-rank r cancelled s i p t live = absurd (live tt)

move-log : (k : Consumer) (s : Session) → (move k s).log ≡ s.log
unfolding move pump_turn
move-log (sending (sc ∷ scs) t n) s = refl
move-log (sending [] t n) s = ground arith
move-log _ s = ground arith

IsDone-cases : (k : Consumer) → IsDone k ⊎ ¬ IsDone k
IsDone-cases finished = inl tt
IsDone-cases gave_up = inl tt
IsDone-cases cancelled = inl tt
IsDone-cases ready = inr (λ h. h)
IsDone-cases (sending _ _ _) = inr (λ h. h)
IsDone-cases (waiting _) = inr (λ h. h)
IsDone-cases (gapped _) = inr (λ h. h)

move_done : (k : Consumer) (s : Session) → IsDone k → move k s ≡ s
unfolding move
move_done finished s h = refl
move_done gave_up s h = refl
move_done cancelled s h = refl
move_done ready s h = absurd h
move_done (sending _ _ _) s h = absurd h
move_done (waiting _) s h = absurd h
move_done (gapped _) s h = absurd h

IsDone-run : (fuel : ℕ) (s : Session) → IsDone s.consumer → IsDone (run fuel s).consumer
unfolding run advance
IsDone-run zero s h = h
IsDone-run (suc fuel) s h =
    subst (λ u. IsDone (run fuel u).consumer) (sym (move_done s.consumer s h)) (IsDone-run fuel s h)

run-IsDone :
    (r fuel : ℕ) (s : Session)
    → Inv r s
    → has_terminal s.log ≡ true
    → rank s.consumer (length s.log) ≤ fuel
    → IsDone (run fuel s).consumer
unfolding run advance
run-IsDone r zero s i t h = elim (IsDone-cases s.consumer) [
  | inl done ↦ done
  | inr live ↦ absurd (omega (arith, move-rank r s.consumer s i i.phase t live))
]
run-IsDone r (suc fuel) s i t h = elim (IsDone-cases s.consumer) [
  | inl done ↦ IsDone-run (suc fuel) s done
  | inr live ↦
      let same = move-log s.consumer s in
      run-IsDone r fuel (move s.consumer s) (advance-Inv r s i) (rw same t)
        (rw same (omega (arith, move-rank r s.consumer s i i.phase t live)))
]

rank-le : (k : Consumer) (size : ℕ) → rank k size ≤ pending k + size + 4
rank-le (sending scs true n) size = omega arith
rank-le (sending scs false n) size = omega arith
rank-le ready size = omega arith
rank-le (waiting n) size = omega arith
rank-le (gapped sc) size = omega arith
rank-le finished size = omega arith
rank-le gave_up size = omega arith
rank-le cancelled size = omega arith

-- Once the log holds a terminal frame and nothing more is appended, a consumer whose context is not
-- cancelled ends within as many moves as the log and its current batch have chunks, and four more.
pub attached_ends :
    (now resume_seq : ℕ) {s : Session}
    → Reach (attach now resume_seq) s
    → has_terminal s.log ≡ true
    → IsDone (run (pending s.consumer + length s.log + 4) s).consumer
attached_ends now resume_seq {s} reached t =
    run-IsDone resume_seq _ s (Reach-Inv now resume_seq reached) t
      (rank-le s.consumer (length s.log))

-- A chunk that alone exceeds the byte cap, a terminal frame included, is gone as soon as it is
-- appended: every consumer that has not yet passed it finds a gap, and nothing to send.
pub oversized_lost :
    (log : List JobChunk) (b : JobBuffer) (c : JobChunk) (now cursor : ℕ)
    → Holds log b
    → stream_buffer_max_bytes < chunk_size c
    → chunk_size c + stream_buffer_max_bytes < two_63
    → length log + 1 < two_64
    → cursor ≤ b.next_seq
    → ((append (some c) now b).1.chunks ≡ [])
      × (pump_turn cursor (append (some c) now b).1
          ≡ gap (record { seq = cursor; chunk = gap_chunk }))
unfolding pump_turn
oversized_lost log b c now cursor h big small fits behind =
    let after = append-Holds log b c now h small fits in
    let gone = append_oversized log b c now h big small in
    let emptied = ap length (sym after.kept ∙ gone) in
    let left = length-drop (append (some c) now b).1.floor (number 0 (log ++ c ∷ [])) in
    let numbered = length-number 0 (log ++ c ∷ []) in
    let longer = length-append log (c ∷ []) in
    let past : cursor < (append (some c) now b).1.floor = omega (arith, h.next, after.floor_le) in
    (gone, ground (arith, past))
