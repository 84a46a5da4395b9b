-- ===== src/Worker/JobStreams/Delivery.antt =====
-- The channels of internal/worker/stream_worker.go: no send on a closed one, no second close.
use mass.Prelude.{
  ◌≡◌, refl, ap, Bool, true, false, [], ◌∷◌, ◌++◌, Option, none, some, Bytes, bytes_eq_iff,
  if◌then◌else◌, Bool-cases, inl, inr, arith,
}
use mass.Prelude.Map.{
  Map, lookup, insert, erase, IsMap, lookup-insert, lookup-erase, insert-IsMap, erase-IsMap,
}
use mass.Scheduler.StreamBuffer.{JobChunk, is_terminal}
use mass.Worker.JobStreams.{
  Channel, Jobs, no_jobs, register, unregister, send_to, send_on, shut, close_on, deliver_to,
  deliver_job_chunk, close_all, set_offline, Step, assigns, gives_up, delivers, goes_offline, Reach,
  here, next,
}

abbrev is_open : Option Channel → Bool
is_open none = false
is_open (some channel) = if channel.closed then false else true

-- Every job that is still listed has its own channel, and it is open.
pub record IsSound (w : Jobs) : Type 0 where
  pub calm : w.panicked ≡ false
  pub keyed : IsMap w.jobs
  pub named : (id ch : Bytes) → lookup id w.jobs ≡ some ch → ch ≡ id
  pub live : (id ch : Bytes) → lookup id w.jobs ≡ some ch → is_open (lookup ch w.channels) ≡ true

no_jobs-IsSound : IsSound no_jobs
unfolding lookup
no_jobs-IsSound = record {
  calm = refl;
  keyed = tt;
  named = λ id ch h. cc h;
  live = λ id ch h. cc h;
}

register-IsSound : (job_id : Bytes) (w : Jobs) → IsSound w → IsSound (register job_id w)
unfolding register
register-IsSound job_id w s = record {
  calm = s.calm;
  keyed = insert-IsMap job_id job_id w.jobs s.keyed;
  named = λ id ch h.
      ground
        (arith, h, lookup-insert job_id id job_id w.jobs, bytes_eq_iff job_id id, s.named id ch);
  live = λ id ch h. ground (
    arith,
    h,
    lookup-insert job_id id job_id w.jobs,
    lookup-insert job_id ch (record { sent = []; closed = false }) w.channels,
    bytes_eq_iff job_id id,
    bytes_eq_iff job_id ch,
    s.live id ch,
  );
}

unregister-IsSound : (job_id : Bytes) (w : Jobs) → IsSound w → IsSound (unregister job_id w)
unfolding unregister
unregister-IsSound job_id w s = record {
  calm = s.calm;
  keyed = erase-IsMap job_id w.jobs s.keyed;
  named = λ id ch h. ground (arith, h, lookup-erase job_id id w.jobs, s.named id ch);
  live = λ id ch h. ground (arith, h, lookup-erase job_id id w.jobs, s.live id ch);
}

erase-IsSound :
    (job_id : Bytes) (w : Jobs) → IsSound w → IsSound (record w { jobs = erase job_id w.jobs })
unfolding unregister
erase-IsSound job_id w s = unregister-IsSound job_id w s

open_not_closed : (channel : Channel) → is_open (some channel) ≡ true → channel.closed ≡ false
open_not_closed channel h = ground (arith, h)

-- An open channel that gets a frame more.
with_frame-IsSound :
    (ch : Bytes) (channel : Channel) (w : Jobs)
    → channel.closed ≡ false
    → IsSound w
    → IsSound (record w { channels = insert ch channel w.channels })
with_frame-IsSound ch channel w fresh s = record {
  calm = s.calm;
  keyed = s.keyed;
  named = s.named;
  live =
      λ id ch' h. ground (arith, lookup-insert ch ch' channel w.channels, s.live id ch' h, fresh);
}

-- A channel that no listed job uses, closed.
closed-IsSound :
    (ch : Bytes) (channel : Channel) (w : Jobs)
    → lookup ch w.jobs ≡ none
    → IsSound w
    → IsSound (record w { channels = insert ch channel w.channels })
closed-IsSound ch channel w unused s = record {
  calm = s.calm;
  keyed = s.keyed;
  named = s.named;
  live = λ id ch' h. ground (
    arith,
    lookup-insert ch ch' channel w.channels,
    s.live id ch' h,
    s.named id ch' h,
    unused,
    h,
    bytes_eq_iff ch ch',
  );
}

send_to-IsSound :
    (ch : Bytes) (c : JobChunk) (o : Option Channel) (w : Jobs)
    → is_open o ≡ true
    → IsSound w
    → IsSound (send_to ch c o w)
unfolding send_to
send_to-IsSound ch c none w h s = cc h
send_to-IsSound ch c (some channel) w h s =
    rw (open_not_closed channel h)
      (with_frame-IsSound ch (record { sent = channel.sent ++ c ∷ []; closed = false }) w refl s)

send_to-opens :
    (ch : Bytes) (c : JobChunk) (o : Option Channel) (w : Jobs)
    → is_open o ≡ true
    → (is_open (lookup ch (send_to ch c o w).channels) ≡ true) × ((send_to ch c o w).jobs ≡ w.jobs)
unfolding send_to
send_to-opens ch c none w h = cc h
send_to-opens ch c (some channel) w h = rw (open_not_closed channel h) (
  ground (
    arith,
    lookup-insert ch ch (record { sent = channel.sent ++ c ∷ []; closed = false }) w.channels,
    bytes_eq_iff ch ch,
  ),
  refl,
)

shut-IsSound :
    (ch : Bytes) (o : Option Channel) (w : Jobs)
    → is_open o ≡ true
    → lookup ch w.jobs ≡ none
    → IsSound w
    → IsSound (shut ch o w)
unfolding shut
shut-IsSound ch none w h unused s = cc h
shut-IsSound ch (some channel) w h unused s =
    rw (open_not_closed channel h) (closed-IsSound ch _ w unused s)

shut_commutes :
    (ch : Bytes) (o : Option Channel) (m : Map Bytes) (w : Jobs)
    → record (shut ch o w) { jobs = m } ≡ shut ch o (record w { jobs = m })
unfolding shut
shut_commutes ch none m w = refl
shut_commutes ch (some channel) m w = elim (Bool-cases channel.closed) [
  | inl h ↦ rw h refl
  | inr h ↦ rw h refl
]

deliver_to-IsSound :
    (job_id : Bytes) (c : JobChunk) (o : Option Bytes) (w : Jobs)
    → lookup job_id w.jobs ≡ o
    → IsSound w
    → IsSound (deliver_to job_id c o w)
unfolding deliver_to send_on close_on
deliver_to-IsSound job_id c none w e s = s
deliver_to-IsSound job_id c (some ch) w e s = elim (Bool-cases (is_terminal c.kind)) [
  | inl last ↦
      let w1 : Jobs = record w { jobs = erase job_id w.jobs } in
      let s1 : IsSound w1 = erase-IsSound job_id w s in
      let sent = send_to-opens ch c (lookup ch w1.channels) w1 (s.live job_id ch e) in
      rw (last, deliver_to)
        (shut-IsSound ch _ (send_to ch c (lookup ch w1.channels) w1) sent.0
          (rw sent.1 (
            ground
              (arith, lookup-erase job_id ch w.jobs, s.named job_id ch e, bytes_eq_iff job_id ch)))
          (send_to-IsSound ch c (lookup ch w1.channels) w1 (s.live job_id ch e) s1))
  | inr more ↦
      rw (more, deliver_to) (send_to-IsSound ch c (lookup ch w.channels) w (s.live job_id ch e) s)
]

-- The entries that the loop of `SetOffline` still has before it.
Listed : Map Bytes → Jobs → Type 0
Listed m w = (id ch : Bytes) → lookup id m ≡ some ch → lookup id w.jobs ≡ some ch

close_step :
    (id ch : Bytes) (w : Jobs)
    → lookup id w.jobs ≡ some ch
    → IsSound w
    → IsSound (record (close_on ch w) { jobs = erase id w.jobs })
unfolding close_on
close_step id ch w e s = rw (shut_commutes ch (lookup ch w.channels) (erase id w.jobs) w) (
    shut-IsSound ch (lookup ch w.channels) (record w { jobs = erase id w.jobs }) (s.live id ch e)
      (ground (arith, lookup-erase id ch w.jobs, s.named id ch e, bytes_eq_iff id ch))
      (erase-IsSound id w s))

shut_jobs : (ch : Bytes) (o : Option Channel) (w : Jobs) → (shut ch o w).jobs ≡ w.jobs
unfolding shut
shut_jobs ch none w = refl
shut_jobs ch (some channel) w = elim (Bool-cases channel.closed) [
  | inl h ↦ rw h refl
  | inr h ↦ rw h refl
]

close_all-IsSound :
    (m : Map Bytes) (w : Jobs) → IsMap m → Listed m w → IsSound w → IsSound (close_all m w)
unfolding close_all Listed lookup close_on
close_all-IsSound [] w d listed s = s
close_all-IsSound ((id, ch) ∷ rest) w d listed s =
    let mine : lookup id w.jobs ≡ some ch = listed id ch (ground (arith, bytes_eq_iff id id)) in
    let same = shut_jobs ch (lookup ch w.channels) w in
    close_all-IsSound rest _ d.1
      (λ id' ch' h.
        rw (ap (erase id) same)
          (ground (arith, lookup-erase id id' w.jobs, h, d.0, listed id' ch', bytes_eq_iff id id')))
      (rw same (close_step id ch w mine s))

Step-IsSound : (w u : Jobs) → Step w u → IsSound w → IsSound u
unfolding deliver_job_chunk set_offline Listed
Step-IsSound w _ (assigns id fresh) s = register-IsSound id w s
Step-IsSound w _ (gives_up id) s = unregister-IsSound id w s
Step-IsSound w _ (delivers id c) s = deliver_to-IsSound id c (lookup id w.jobs) w refl s
Step-IsSound w _ goes_offline s = close_all-IsSound w.jobs w s.keyed (λ id ch h. h) s

Reach-IsSound : {w : Jobs} → Reach no_jobs w → IsSound w
Reach-IsSound here = no_jobs-IsSound
Reach-IsSound (next {u = u} {v = v} run step) = Step-IsSound u v step (Reach-IsSound run)

-- However assignments, failed sends, frames and disconnects interleave, no frame is sent on a closed
-- channel and no channel is closed twice, as long as job IDs are not used twice.
pub never_panics : {w : Jobs} → Reach no_jobs w → w.panicked ≡ false
never_panics run = (Reach-IsSound run).calm
