-- ===== src/Scheduler/Finalize/Stream.antt =====
-- The loop of `pumpWorkerChunks` in internal/scheduler/scheduler.go over the frames of a stream.
use mass.Prelude.{
  ℕ, ◌≡◌, refl, ap, ◌∙◌, true, false, All, sym, List, [], ◌∷◌, ◌++◌, some, Bytes, arith,
}
use mass.Scheduler.Finalize.{Frames, take_frame, collect, no_frames}
use mass.Scheduler.StreamBuffer.{
  JobChunk, JobBuffer, ChunkType, chunk, progress, completed, error, is_terminal, append,
}
use mass.Scheduler.StreamBuffer.Log.{append-terminal}

append_kind :
    (b : JobBuffer) (c : JobChunk) (now : ℕ)
    → is_terminal c.kind ≡ false
    → b.terminal ≡ false
    → (append (some c) now b).1.terminal ≡ false
append_kind b c now e h = ground (arith, append-terminal b c now)

take_frame-terminal :
    (kind : ChunkType) (c : JobChunk) (now : ℕ) (f : Frames)
    → c.kind ≡ kind
    → f.buf.terminal ≡ false
    → (take_frame kind c now f).buf.terminal ≡ false
unfolding take_frame
take_frame-terminal completed c now f e h = h
take_frame-terminal error c now f e h = h
take_frame-terminal chunk c now f e h = append_kind f.buf c now (ap is_terminal e) h
take_frame-terminal progress c now f e h = append_kind f.buf c now (ap is_terminal e) h

-- The pump holds the terminal frame back: the loop publishes none.
pub collect-terminal :
    (chunks : List (JobChunk × ℕ)) (f : Frames)
    → f.buf.terminal ≡ false
    → (collect chunks f).buf.terminal ≡ false
unfolding collect
collect-terminal [] f h = h
collect-terminal ((c, now) ∷ rest) f h =
    collect-terminal rest (take_frame c.kind c now f) (take_frame-terminal c.kind c now f refl h)

-- A stream of frames that do not end the job, and one that does.
collect-append :
    (chunks : List (JobChunk × ℕ)) (c : JobChunk) (now : ℕ) (f : Frames)
    → collect (chunks ++ (c, now) ∷ []) f ≡ take_frame c.kind c now (collect chunks f)
unfolding collect
collect-append [] c now f = refl
collect-append ((d, at) ∷ rest) c now f = collect-append rest c now (take_frame d.kind d at f)

take_frame_keeps :
    (kind : ChunkType) (c : JobChunk) (now : ℕ) (f : Frames)
    → is_terminal kind ≡ false
    → ((take_frame kind c now f).err_text ≡ f.err_text)
      × ((take_frame kind c now f).final_body ≡ f.final_body)
unfolding take_frame
take_frame_keeps completed c now f e = cc e
take_frame_keeps error c now f e = cc e
take_frame_keeps chunk c now f e = (refl, refl)
take_frame_keeps progress c now f e = (refl, refl)

collect_keeps :
    (chunks : List (JobChunk × ℕ)) (f : Frames)
    → All (λ (x : JobChunk × ℕ). is_terminal x.0.kind ≡ false) chunks
    → ((collect chunks f).err_text ≡ f.err_text) × ((collect chunks f).final_body ≡ f.final_body)
unfolding collect
collect_keeps [] f streaming = (refl, refl)
collect_keeps ((c, now) ∷ rest) f streaming =
    let (texts, bodies) = take_frame_keeps c.kind c now f streaming.0 in
    let (texts', bodies') = collect_keeps rest (take_frame c.kind c now f) streaming.1 in
    (texts' ∙ texts, bodies' ∙ bodies)

-- The texts of a terminal frame.
abbrev pub error_text : ChunkType → JobChunk → Bytes
error_text error c = c.err_text
error_text _ c = []

abbrev pub final_body : ChunkType → JobChunk → Bytes
final_body completed c = c.final
final_body _ c = []

-- What the loop has kept of such a stream.
pub ended_stream :
    (chunks : List (JobChunk × ℕ)) (c : JobChunk) (now : ℕ) (b : JobBuffer)
    → All (λ (x : JobChunk × ℕ). is_terminal x.0.kind ≡ false) chunks
    → is_terminal c.kind ≡ true
    → (f : Frames) × (f ≡ collect (chunks ++ (c, now) ∷ []) (no_frames b))
      × (f.terminal_chunk ≡ some c)
      × (f.err_text ≡ error_text c.kind c)
      × (f.final_body ≡ final_body c.kind c)
unfolding take_frame
ended_stream chunks c now b streaming ends =
    let (last, texts, bodies) =
      go c.kind ends (collect chunks (no_frames b))
        (collect_keeps chunks (no_frames b) streaming) in
    (
      take_frame c.kind c now (collect chunks (no_frames b)),
      sym (collect-append chunks c now (no_frames b)),
      last,
      texts,
      bodies,
    )
  where
    go :
        (kind : ChunkType)
        → is_terminal kind ≡ true
        → (f : Frames) → (f.err_text ≡ []) × (f.final_body ≡ [])
        → ((take_frame kind c now f).terminal_chunk ≡ some c)
          × ((take_frame kind c now f).err_text ≡ error_text kind c)
          × ((take_frame kind c now f).final_body ≡ final_body kind c)
    go completed e f (texts, bodies) = (refl, texts, refl)
    go error e f (texts, bodies) = (refl, refl, bodies)
    go chunk e f h = cc e
    go progress e f h = cc e
