-- ===== src/Queue/Results.antt =====
-- internal/queue/results.go: the table `queue_results`, and the methods of `ResultStore`. It lives
-- in the database of the queues, so a store is both; a statement that is refused is an error.
pub mod Creation
pub mod Lifecycle
use mass.Prelude.{
  ℕ, ◌+◌, ◌-◌, ◌≡◌, Bool, true, false, not, ◌&&◌, ◌||◌, List, [], ◌∷◌, ◌++◌, Option, none, some,
  Bytes, bytes_eq, if◌then◌else◌, keep, length, ltb, ◌==◌,
}
use mass.Prelude.Map.{Map, lookup, insert}
use mass.Queue.Database.{Db, Result, ok, err, panicked, M, statement}

pub data ResultStatus : Type 0 where
  pending processing done error : ResultStatus

-- A time in the layout `time.RFC3339Nano`, UTC: whole seconds, and the digits of the fraction
-- without zeros at the end.
pub record Stamp : Type 0 where
  pub second : ℕ
  pub fraction : Bytes

pub record ResultRow : Type 0 where
  pub status : ResultStatus
  pub body : Bytes
  pub err_text : Option Bytes
  pub created_at : Stamp
  pub completed_at : Option Stamp

abbrev pub ResultTable : Type 0
ResultTable = Map ResultRow

pub record Store : Type 0 where
  pub db : Db
  pub results : ResultTable

pub data Outcome {ℓ} (A : Type ℓ) : Type ℓ where
  did : A → Store → Outcome A
  failed : Store → Outcome A
  crashed : Store → Outcome A

abbrev pub S {ℓ} : Type ℓ → Type ℓ
S A = Store → Outcome A

infixl 5 ◌>>=◌ ◌>>◌
abbrev pub ◌>>=◌ {ℓ κ} : {A : Type ℓ} {B : Type κ} → S A → (A → S B) → S B
◌>>=◌ m f s = elim (m s) [ did a s' ↦ f a s' | failed s' ↦ failed s' | crashed s' ↦ crashed s' ]

abbrev pub ◌>>◌ {ℓ κ} : {A : Type ℓ} {B : Type κ} → S A → S B → S B
◌>>◌ m k s = elim (m s) [ did a s' ↦ k s' | failed s' ↦ failed s' | crashed s' ↦ crashed s' ]

abbrev pub return {ℓ} : {A : Type ℓ} → A → S A
return a s = did a s

unfoldable pub lifted {ℓ} : {A : Type ℓ} → ResultTable → Result A → Outcome A
lifted t (ok a db) = did a (record { db = db; results = t })
lifted t (err db) = failed (record { db = db; results = t })
lifted t (panicked db) = crashed (record { db = db; results = t })

-- An operation on the queues.
unfoldable pub lift {ℓ} : {A : Type ℓ} → M A → S A
unfolding lifted
lift m s = lifted s.results (m s.db)

-- One SQL statement on the results.
unfoldable pub exec {ℓ} : {A : Type ℓ} → (ResultTable → A × ResultTable) → S A
unfolding lift
exec f = do
  _ ← lift (statement {A = Unit {0}} (λ t. (tt, t)))
  λ s. did (f s.results).0 (record s { results = (f s.results).1 })

-- UPDATE queue_results SET … WHERE id = ? AND test
unfoldable pub update_row :
    Bytes
    → (ResultRow → Bool)
    → (ResultRow → ResultRow)
    → Option ResultRow
    → ResultTable
    → ResultTable
update_row id test change none t = t
update_row id test change (some r) t = if test r then insert id (change r) t else t

unfoldable pub update : Bytes → (ResultRow → Bool) → (ResultRow → ResultRow) → S (Unit {0})
unfolding update_row exec
update id test change = exec (λ t. (tt, update_row id test change (lookup id t) t))

-- `id` is the table's primary key, so a second insert is refused.
insert_new : Bytes → ResultRow → Option ResultRow → S (Unit {0})
unfolding exec
insert_new id row none s = exec (λ t. (tt, insert id row t)) s
insert_new id row (some _) s = failed s

unfoldable pub create : Bytes → Stamp → S (Unit {0})
unfolding insert_new
create id now s =
    insert_new id
      (record {
        status = pending;
        body = [];
        err_text = none;
        created_at = now;
        completed_at = none;
      })
      (lookup id s.results) s

abbrev pub is_pending : ResultStatus → Bool
is_pending pending = true
is_pending _ = false

abbrev pub is_processing : ResultStatus → Bool
is_processing processing = true
is_processing _ = false

-- status IN (done, error)
abbrev pub is_terminal : ResultStatus → Bool
is_terminal done = true
is_terminal error = true
is_terminal _ = false

unfoldable pub mark_processing : Bytes → S (Unit {0})
unfolding update
mark_processing id = update id (λ r. is_pending r.status) (λ r. record r { status = processing })

unfoldable pub mark_pending : Bytes → S (Unit {0})
unfolding update
mark_pending id = update id (λ r. is_processing r.status) (λ r. record r { status = pending })

unfoldable pub complete : Bytes → Bytes → Stamp → S (Unit {0})
unfolding update
complete id body now =
    update id (λ _. true) (λ r. record r { status = done; body = body; completed_at = some now })

unfoldable pub fail : Bytes → Bytes → Stamp → S (Unit {0})
unfolding update
fail id err_msg now =
    update id (λ _. true)
      (λ r. record r { status = error; err_text = some err_msg; completed_at = some now })

unfoldable pub get : Bytes → S (Option ResultRow)
unfolding exec
get id = exec (λ t. (lookup id t, t))

-- The order of texts, byte by byte.
unfoldable pub text_lt : Bytes → Bytes → Bool
text_lt [] [] = false
text_lt [] (c ∷ cs) = true
text_lt (b ∷ bs) [] = false
text_lt (b ∷ bs) (c ∷ cs) = ltb b c || (b == c && text_lt bs cs)

-- What stands behind the seconds: `Z`, or `.`, the digits and `Z`.
suffix : Bytes → Bytes
suffix [] = 90 ∷ []
suffix (d ∷ ds) = (46 ∷ d ∷ ds) ++ 90 ∷ []

-- Two stamps compared as the texts that the columns hold; the seconds have one width.
unfoldable pub stamp_lt : Stamp → Stamp → Bool
unfolding text_lt suffix
stamp_lt a b =
    ltb a.second b.second
    || (a.second == b.second && text_lt (suffix a.fraction) (suffix b.fraction))

abbrev pub completed_before : Stamp → Option Stamp → Bool
completed_before cutoff none = false
completed_before cutoff (some at) = stamp_lt at cutoff

abbrev pub is_stale : Stamp → ResultRow → Bool
is_stale cutoff r = is_terminal r.status && completed_before cutoff r.completed_at

-- The number of rows deleted.
unfoldable pub cleanup : Stamp → S ℕ
unfolding exec
cleanup cutoff = exec (λ t. (
  length (keep (λ (e : Bytes × ResultRow). is_stale cutoff e.1) t),
  keep (λ (e : Bytes × ResultRow). not (is_stale cutoff e.1)) t,
))
