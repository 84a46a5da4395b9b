-- ===== src/Scheduler/StreamBuffer/Pump/Delivery.antt =====
-- What a consumer of `pump` (internal/scheduler/stream_buffer.go) is sent: the log from the
-- requested number on, with no hole and no repetition.
use mathlib.Core.List.{append_assoc, append-nil}
use mass.Prelude.{
  ℕ, zero, suc, ◌+◌, ◌≤◌, ◌<◌, ◌≡◌, refl, sym, ap, ◌∙◌, ◌⊎◌, inl, inr, Bool, true, false, List, [],
  ◌∷◌, ◌++◌, some, length, drop, keep, leb, ltb, length-append, Bool-cases, arith,
}
use mass.Prelude.Words.{two_63, two_64, add_64}
use mass.Scheduler.StreamBuffer.{
  JobChunk, SequencedChunk, stream_buffer_max_bytes, chunk_size, append, pump_turn, gap_chunk,
}
use mass.Scheduler.StreamBuffer.Log.{
  number, has_terminal, Holds, drop-number, drop-append, length-number, append-Holds,
  new_job_buffer-Holds, number-append_all, append-notify, append-floor,
}
use mass.Scheduler.StreamBuffer.Pump.{
  Consumer, ready, sending, waiting, gapped, finished, gave_up, cancelled, Session, attach,
  take_turn, move, advance, produce, IsSelecting, on_send, on_wait, on_gap, Step, produces,
  advances, cancels, Reach, here, next,
}

-- The log from number `k` on.
abbrev pub from : ℕ → List JobChunk → List SequencedChunk
from k log = drop k (number 0 log)

-- `out` is what the log holds from `r` up to the cursor.
pub record Delivered (r cursor : ℕ) (out : List SequencedChunk) (log : List JobChunk) : Type 0 where
  pub start_le : r ≤ cursor
  pub within : (out ≡ []) × (cursor ≡ r) ⊎ (cursor ≤ length log)
  pub joined : out ++ from cursor log ≡ from r log

-- A snapshot's channel is still open only if nothing has been appended since.
abbrev pub IsFresh : ℕ → Session → Type 0
IsFresh n s = (n ≡ s.buf.notify) × (s.seen ≡ s.log) ⊎ (n < s.buf.notify)

abbrev pub Phase : ℕ → Consumer → Session → Type 0
Phase r ready s = Delivered r s.cursor s.out s.seen
Phase r (sending scs t n) s =
    Delivered r s.cursor s.out s.seen
    × (scs ≡ from s.cursor s.seen)
    × (t ≡ has_terminal s.seen)
    × IsFresh n s
Phase r (waiting n) s =
    Delivered r s.cursor s.out s.seen
    × (from s.cursor s.seen ≡ [])
    × (has_terminal s.seen ≡ false)
    × IsFresh n s
Phase r (gapped sc) s =
    Delivered r s.cursor s.out s.seen
    × (sc ≡ record { seq = s.cursor; chunk = gap_chunk })
    × (s.cursor < s.buf.floor)
Phase r finished s =
    Delivered r s.cursor s.out s.seen × (from s.cursor s.seen ≡ []) × (has_terminal s.seen ≡ true)
Phase r gave_up s =
    (before : List SequencedChunk) × Delivered r s.cursor before s.seen
    × (s.out ≡ before ++ record { seq = s.cursor; chunk = gap_chunk } ∷ [])
    × (s.cursor < s.buf.floor)
Phase r cancelled s = Delivered r s.cursor s.out s.seen

pub record Inv (r : ℕ) (s : Session) : Type 0 where
  pub holds : Holds s.log s.buf
  pub fits : length s.log < two_64
  pub later : List JobChunk
  pub seen_le : s.seen ++ later ≡ s.log
  pub phase : Phase r s.consumer s

from-append :
    (k : ℕ) (log more : List JobChunk)
    → k ≤ length log
    → from k (log ++ more) ≡ from k log ++ number (0 + length log) more
from-append k log more h = rw (number-append_all 0 log more) (
    drop-append k (number 0 log) (number (0 + length log) more)
      (omega (arith, length-number 0 log)))

-- What is delivered of a log is delivered of a longer one.
pub Delivered-append :
    {r cursor : ℕ} {out : List SequencedChunk} (log more : List JobChunk)
    → Delivered r cursor out log
    → Delivered r cursor out (log ++ more)
Delivered-append {r} {cursor} {out} log more d = elim d.within [
  | inl (o, e) ↦ record { start_le = d.start_le; within = inl (o, e); joined = rw (o, e) }
  | inr le ↦ record {
    start_le = d.start_le;
    within = inr (omega (arith, length-append log more));
    joined =
        rw (from-append cursor log more le, from-append r log more (omega (arith, d.start_le)))
          (rw (← append_assoc) (ap (λ l. l ++ number (0 + length log) more) d.joined));
  }
]

-- All numbers of the list are at least the cursor: nothing is skipped.
keep-number_all :
    (cursor n : ℕ) (log : List JobChunk)
    → cursor ≤ n
    → keep (λ (sc : SequencedChunk). leb cursor sc.seq) (number n log) ≡ number n log
keep-number_all cursor n [] h = refl
keep-number_all cursor n (c ∷ log) h = ground (arith, keep-number_all cursor (suc n) log)

-- The batch of a turn is the log from the cursor on.
keep-drop-number :
    (cursor n f m : ℕ) (log : List JobChunk)
    → f ≤ cursor
    → n + cursor ≡ m
    → keep (λ (sc : SequencedChunk). leb m sc.seq) (drop f (number n log))
      ≡ drop cursor (number n log)
keep-drop-number zero n zero m log h e = keep-number_all m n log (omega arith)
keep-drop-number zero n (suc f) m log h e = absurd (omega arith)
keep-drop-number (suc c) n zero m [] h e = refl
keep-drop-number (suc c) n (suc f) m [] h e = refl
keep-drop-number (suc c) n zero m (x ∷ log) h e =
    ground (arith, keep-drop-number c (suc n) zero m log)
keep-drop-number (suc c) n (suc f) m (x ∷ log) h e =
    ground (arith, keep-drop-number c (suc n) f m log)

seen-append :
    (seen later : List JobChunk) {log : List JobChunk} (c : JobChunk)
    → seen ++ later ≡ log
    → seen ++ (later ++ c ∷ []) ≡ log ++ c ∷ []
seen-append seen later c e = rw (← append_assoc, e)

produce-Phase :
    (r : ℕ) (k : Consumer) (s : Session) (c : JobChunk) (now : ℕ)
    → s.buf.floor ≤ (append (some c) now s.buf).1.floor
    → Phase r k s
    → Phase r k (produce c now s)
unfolding produce
produce-Phase r ready s c now f p = p
produce-Phase r (sending scs t n) s c now f p = ground (arith, append-notify s.buf c now, p)
produce-Phase r (waiting n) s c now f p = ground (arith, append-notify s.buf c now, p)
produce-Phase r (gapped sc) s c now f p = ground (arith, p)
produce-Phase r finished s c now f p = p
produce-Phase r gave_up s c now f p = (p.0, p.1, p.2, omega arith)
produce-Phase r cancelled s c now f p = p

produce-Inv :
    (r : ℕ) (s : Session) (c : JobChunk) (now : ℕ)
    → chunk_size c + stream_buffer_max_bytes < two_63
    → s.buf.next_seq + 1 < two_64
    → Inv r s
    → Inv r (produce c now s)
unfolding produce
produce-Inv r s c now small fits i =
    let room : length s.log + 1 < two_64 = omega (arith, i.holds.next) in
    record {
      holds = append-Holds s.log s.buf c now i.holds small room;
      fits = omega (arith, length-append s.log (c ∷ []));
      later = i.later ++ c ∷ [];
      seen_le = seen-append s.seen i.later c i.seen_le;
      phase =
          produce-Phase r s.consumer s c now (append-floor s.log s.buf c now i.holds room) i.phase;
    }

-- A consumer at the top of the loop.
turn-Inv :
    (r : ℕ) (s : Session) → Inv r s → Delivered r s.cursor s.out s.seen → Inv r (move ready s)
unfolding move pump_turn
turn-Inv r s i d = elim (Bool-cases (ltb s.cursor s.buf.floor)) [
  | inl lost ↦
      rw (lost, take_turn, pump_turn)
        (record {
          holds = i.holds;
          fits = i.fits;
          later = [];
          seen_le = append-nil s.log;
          phase = (all, refl, ground arith);
        })
  | inr kept ↦
      rw (kept, take_turn, pump_turn)
        (record {
          holds = i.holds;
          fits = i.fits;
          later = [];
          seen_le = append-nil s.log;
          phase = (
            all,
            rw i.holds.kept (
                keep-drop-number s.cursor 0 s.buf.floor s.cursor s.log (ground arith)
                  (omega arith)),
            i.holds.flagged,
            inl (refl, refl),
          );
        })
]
  where
    all : Delivered r s.cursor s.out s.log
    all = rw i.seen_le at (Delivered-append s.seen i.later d)

send-Delivered :
    {r cursor : ℕ} {out : List SequencedChunk} {seen : List JobChunk} {sc : SequencedChunk}
    {scs : List SequencedChunk}
    → Delivered r cursor out seen
    → sc ∷ scs ≡ from cursor seen
    → Delivered r (suc cursor) (out ++ sc ∷ []) seen
send-Delivered {r} {cursor} {out} {seen} {sc} {scs} d b =
    let at_head = drop-number 0 cursor seen sc scs b in
    record {
      start_le = omega (arith, d.start_le);
      within = inr (omega (arith, at_head));
      joined = rw (← at_head.1, append_assoc) (ap (◌++◌ out) b ∙ d.joined);
    }

-- One chunk of the batch goes out.
send-Inv :
    (r : ℕ) (s : Session) (sc : SequencedChunk) (scs : List SequencedChunk) (t : Bool) (n : ℕ)
    → Inv r s
    → Phase r (sending (sc ∷ scs) t n) s
    → Inv r (move (sending (sc ∷ scs) t n) s)
unfolding move
send-Inv r s sc scs t n i (d, b, e, f) =
    let at_head = drop-number 0 s.cursor s.seen sc scs b in
    let shorter = length-append s.seen i.later in
    let counted = ap length i.seen_le in
    let up : add_64 sc.seq 1 ≡ suc s.cursor = omega (arith, i.fits) in
    record {
      holds = i.holds;
      fits = i.fits;
      later = i.later;
      seen_le = i.seen_le;
      phase = rw up (send-Delivered d b, at_head.1, e, f);
    }

move-Inv : (r : ℕ) (k : Consumer) (s : Session) → Inv r s → Phase r k s → Inv r (move k s)
unfolding move
move-Inv r ready s i p = turn-Inv r s i p
move-Inv r (sending (sc ∷ scs) t n) s i p = send-Inv r s sc scs t n i p
move-Inv r (sending [] true n) s i (d, b, e, f) = record {
  holds = i.holds;
  fits = i.fits;
  later = i.later;
  seen_le = i.seen_le;
  phase = (d, sym b, sym e);
}
move-Inv r (sending [] false n) s i (d, b, e, f) = record {
  holds = i.holds;
  fits = i.fits;
  later = i.later;
  seen_le = i.seen_le;
  phase = (d, sym b, sym e, f);
}
move-Inv r (waiting n) s i p = elim (Bool-cases (ltb n s.buf.notify)) [
  | inl woken ↦
      rw woken (record {
        holds = i.holds;
        fits = i.fits;
        later = i.later;
        seen_le = i.seen_le;
        phase = p.0;
      })
  | inr open_ ↦ rw open_ i
]
move-Inv r (gapped sc) s i (d, e, f) = record {
  holds = i.holds;
  fits = i.fits;
  later = i.later;
  seen_le = i.seen_le;
  phase = (s.out, d, ap (λ x. s.out ++ x ∷ []) e, f);
}
move-Inv r finished s i p = i
move-Inv r gave_up s i p = i
move-Inv r cancelled s i p = i

pub advance-Inv : (r : ℕ) (s : Session) → Inv r s → Inv r (advance s)
unfolding advance
advance-Inv r s i = move-Inv r s.consumer s i i.phase

Phase-Delivered :
    (r : ℕ) (k : Consumer) (s : Session)
    → IsSelecting k
    → Phase r k s
    → Delivered r s.cursor s.out s.seen
Phase-Delivered r _ s (on_send scs t n) p = p.0
Phase-Delivered r _ s (on_wait n) p = p.0
Phase-Delivered r _ s (on_gap sc) p = p.0

Step-Inv : {s t : Session} (r : ℕ) → Step s t → Inv r s → Inv r t
unfolding advance
Step-Inv {s} r (produces c now small fits) i = produce-Inv r s c now small fits i
Step-Inv {s} r advances i = advance-Inv r s i
Step-Inv {s} r (cancels selecting) i = record {
  holds = i.holds;
  fits = i.fits;
  later = i.later;
  seen_le = i.seen_le;
  phase = Phase-Delivered r s.consumer s selecting i.phase;
}

attach-Inv : (now r : ℕ) → Inv r (attach now r)
unfolding attach
attach-Inv now r = record {
  holds = new_job_buffer-Holds now;
  fits = omega arith;
  later = [];
  seen_le = refl;
  phase = record { start_le = omega arith; within = inl (refl, refl); joined = refl };
}

pub Reach-Inv : (now r : ℕ) {s : Session} → Reach (attach now r) s → Inv r s
Reach-Inv now r here = attach-Inv now r
Reach-Inv now r (next p st) = Step-Inv r st (Reach-Inv now r p)
