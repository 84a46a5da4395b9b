-- ===== src/Worker/Status/Changes.antt =====
-- When `sameLoadedSet` of internal/worker/stream_worker.go sees no change.
use mass.Prelude.{
  ℕ, suc, ◌≡◌, ◌↔◌, ◌≢◌, refl, sym, ap, ◌∙◌, true, false, List, [], ◌∷◌, Option, none, some, Bytes,
  bytes_eq, bytes_eq_iff, Bool-cases, Option-cases, inl, inr, arith, if◌then◌else◌, length, ==_iff,
}
use mass.Prelude.Distinct.{is_in, IsDistinct, IsWithin, IsWithin-length, IsWithin-intro}
use mass.Prelude.Map.{Map, lookup, insert, lookup-insert}
use mass.Worker.Status.{
  LoadedModelStatus, index, index_from, same_counts, all_known, same_loaded_set,
}

abbrev pub ids : List LoadedModelStatus → List Bytes
ids [] = []
ids (lm ∷ lms) = lm.model_id ∷ ids lms

-- A worker's model by its ID, without an index.
abbrev pub find : Bytes → List LoadedModelStatus → Option LoadedModelStatus
find m [] = none
find m (lm ∷ lms) = if bytes_eq lm.model_id m then some lm else find m lms

-- What the scheduler's tab shows of a model.
abbrev pub shown : Option LoadedModelStatus → Option (ℕ × ℕ)
shown none = none
shown (some lm) = some (lm.pool_size, lm.active)

length-ids : (lms : List LoadedModelStatus) → length (ids lms) ≡ length lms
length-ids [] = refl
length-ids (lm ∷ lms) = ap suc (length-ids lms)

find-absent :
    (m : Bytes) (lms : List LoadedModelStatus) → (find m lms ≡ none) ↔ (is_in m (ids lms) ≡ false)
find-absent m [] = ground arith
find-absent m (lm ∷ lms) = ground (arith, find-absent m lms)

or_else : Option LoadedModelStatus → Option LoadedModelStatus → Option LoadedModelStatus
or_else none o = o
or_else (some lm) o = some lm

lookup-index_from :
    (m : Bytes) (acc : Map LoadedModelStatus) (lms : List LoadedModelStatus)
    → IsDistinct (ids lms)
    → lookup m (index_from acc lms) ≡ or_else (find m lms) (lookup m acc)
unfolding index_from or_else
lookup-index_from m acc [] d = refl
lookup-index_from m acc (lm ∷ lms) (fresh, d) =
    lookup-index_from m (insert lm.model_id lm acc) lms d
    ∙ elim (Bool-cases (bytes_eq lm.model_id m)) [
      | inl same ↦
          let absent = (find-absent lm.model_id lms).1 fresh in
          let gone : find m lms ≡ none = rw ((bytes_eq_iff lm.model_id m).0 same) at absent in
          rw (gone, lookup-insert lm.model_id m lm acc, same) refl
      | inr other ↦ rw (lookup-insert lm.model_id m lm acc, other) refl
    ]

lookup-index :
    (m : Bytes) (lms : List LoadedModelStatus)
    → IsDistinct (ids lms)
    → lookup m (index lms) ≡ find m lms
unfolding index lookup or_else
lookup-index m lms d = lookup-index_from m [] lms d ∙ or_none (find m lms)
  where
    or_none : (o : Option LoadedModelStatus) → or_else o none ≡ o
    or_none none = refl
    or_none (some lm) = refl

same_counts_iff :
    (o : Option LoadedModelStatus) (lm : LoadedModelStatus)
    → (same_counts o lm ≡ true) ↔ (shown o ≡ some (lm.pool_size, lm.active))
unfolding same_counts
same_counts_iff none lm = ground arith
same_counts_iff (some prev) lm =
    ground (arith, ==_iff prev.pool_size lm.pool_size, ==_iff prev.active lm.active)

known-find :
    (idx : Map LoadedModelStatus) (b : List LoadedModelStatus) (m : Bytes) (lm : LoadedModelStatus)
    → all_known idx b ≡ true
    → find m b ≡ some lm
    → shown (lookup m idx) ≡ shown (some lm)
unfolding all_known
known-find idx [] m lm known found = absurd (cc found)
known-find idx (x ∷ b) m lm known found = elim (Bool-cases (bytes_eq x.model_id m)) [
  | inl same ↦
      let here : some x ≡ some lm = rw same at found in
      let counts = (same_counts_iff (lookup x.model_id idx) x).0 (ground (arith, known)) in
      rw ((bytes_eq_iff x.model_id m).0 same) at counts ∙ ap shown here
  | inr other ↦ known-find idx b m lm (ground (arith, known)) (rw other at found)
]

find-known :
    (idx : Map LoadedModelStatus) (b : List LoadedModelStatus)
    → IsDistinct (ids b)
    → ((m : Bytes) → is_in m (ids b) ≡ true → shown (lookup m idx) ≡ shown (find m b))
    → all_known idx b ≡ true
unfolding all_known
find-known idx [] d h = refl
find-known idx (x ∷ b) (fresh, d) h =
    let self : bytes_eq x.model_id x.model_id ≡ true =
      (bytes_eq_iff x.model_id x.model_id).1 refl in
    let head : shown (lookup x.model_id idx) ≡ shown (some x) =
      rw self at (h x.model_id (rw self refl)) in
    let rest = find-known idx b d (λ m there. elim (Bool-cases (bytes_eq x.model_id m)) [
      | inl same ↦ absurd (cc (rw ((bytes_eq_iff x.model_id m).0 same) at fresh, there))
      | inr other ↦ rw other at (h m (rw other there))
    ]) in
    rw ((same_counts_iff (lookup x.model_id idx) x).1 head, rest) refl

shown-none : (o : Option LoadedModelStatus) → shown o ≡ none → o ≡ none
shown-none none h = refl
shown-none (some lm) h = absurd (cc h)

present : (m : Bytes) (lms : List LoadedModelStatus) → find m lms ≢ none → is_in m (ids lms) ≡ true
present m lms h = elim (Bool-cases (is_in m (ids lms))) [
  | inl there ↦ there
  | inr absent ↦ absurd (h ((find-absent m lms).1 absent))
]

-- The models of one list that show as in another are all in it.
ids-IsWithin :
    (a b : List LoadedModelStatus)
    → ((m : Bytes) → is_in m (ids b) ≡ true → shown (find m a) ≡ shown (find m b))
    → IsWithin (ids a) (ids b)
ids-IsWithin a b h = IsWithin-intro (ids a) (ids b) (λ m there. present m a (λ gone.
    let nothing = shown-none (find m b) (sym (h m there) ∙ ap shown gone) in
    cc ((find-absent m b).0 nothing, there)))

-- Where all of `b` is known from `a`, and there is no more of `a`, nothing is gone.
absent_too :
    (a b : List LoadedModelStatus) (m : Bytes)
    → IsDistinct (ids b)
    → length a ≡ length b
    → IsWithin (ids a) (ids b)
    → find m b ≡ none
    → find m a ≡ none
absent_too a b m db e within gone = elim (Bool-cases (is_in m (ids a))) [
  | inr absent ↦ (find-absent m a).1 absent
  | inl there ↦
      let fresh = (find-absent m b).0 gone in
      let more = IsWithin-length (ids a) (m ∷ ids b) (fresh, db) (there, within) in
      absurd (omega (arith, more, e, length-ids a, length-ids b))
]

found_within :
    (a b : List LoadedModelStatus) (m : Bytes)
    → IsDistinct (ids a)
    → all_known (index a) b ≡ true
    → is_in m (ids b) ≡ true
    → shown (find m a) ≡ shown (find m b)
found_within a b m da known there = elim (Option-cases (find m b)) [
  | inl gone ↦ absurd (cc ((find-absent m b).0 gone, there))
  | inr (lm, found) ↦
      ap shown (sym (lookup-index m a da))
      ∙ known-find (index a) b m lm known found
      ∙ ap shown (sym found)
]

same_shown :
    (a b : List LoadedModelStatus) (m : Bytes)
    → IsDistinct (ids a)
    → IsDistinct (ids b)
    → length a ≡ length b
    → all_known (index a) b ≡ true
    → shown (find m a) ≡ shown (find m b)
same_shown a b m da db e known = elim (Bool-cases (is_in m (ids b))) [
  | inl there ↦ found_within a b m da known there
  | inr absent ↦
      let gone = (find-absent m b).1 absent in
      let within = ids-IsWithin a b (λ k there. found_within a b k da known there) in
      rw (gone, absent_too a b m db e within gone) refl
]

-- Two heartbeats' lists of models, none of them twice, count as the same exactly when every model has
-- the same pool size and activity in both, or is in neither; their order plays no part.
pub same_loaded_set_lem :
    (a b : List LoadedModelStatus)
    → IsDistinct (ids a)
    → IsDistinct (ids b)
    → (same_loaded_set a b ≡ true) ↔ ((m : Bytes) → shown (find m a) ≡ shown (find m b))
unfolding same_loaded_set
same_loaded_set_lem a b da db = (
  λ h m.
      let e : length a ≡ length b = ground (arith, h) in
      let known : all_known (index a) b ≡ true = ground (arith, h) in
      same_shown a b m da db e known,
  λ h.
      let e : length a ≡ length b = omega (
        arith,
        length-ids a,
        length-ids b,
        IsWithin-length (ids a) (ids b) db (ids-IsWithin a b (λ m there. h m)),
        IsWithin-length (ids b) (ids a) da (ids-IsWithin b a (λ m there. sym (h m))),
      ) in
      let known = find-known (index a) b db (λ m there. rw (lookup-index m a da) (h m)) in
      ground (arith, e, known),
)
