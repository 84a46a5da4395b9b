-- ===== src/Queue/Model.antt =====
-- Functions that meet what is assumed of goqite and of the generated protobuf code: the assumptions
-- can hold. The tests run on them.
use mass.Prelude.{
  ℕ, suc, ◌+◌, ◌<◌, ◌≡◌, refl, ap, Bool, true, List, [], ◌∷◌, ◌++◌, Option, none, some, Bytes,
  bytes_eq, bytes_eq_iff, length, take, drop, replicate, length-replicate, take-length-append,
  drop-length-append, if◌then◌else◌, arith,
}
use mass.Prelude.Map.{lookup, insert, lookup-insert}
use mass.Queue.Database.{Goqite, without, extended}
use mass.Queue.Envelope.{Proto}
use mass.Queue.Table.{Row, Table, update_by_id, delete_by_id}
use mass.Queue.Table.Statements.{lookup-update_by_id, lookup-delete_by_id}

-- Longer than every key.
bound : Table → ℕ
bound [] = 0
bound ((k, r) ∷ t) = length k + bound t

fresh_key : Table → Bytes
unfolding bound
fresh_key t = replicate (suc (bound t)) 0

lookup-long : (k : Bytes) (t : Table) → bound t < length k → lookup k t ≡ none
unfolding lookup bound
lookup-long k [] h = refl
lookup-long k ((j, r) ∷ t) h =
    ground (arith, bytes_eq_iff j k, lookup-long k t (omega arith), same_length)
  where
    same_length : j ≡ k → length j ≡ length k
    same_length e = ap length e

lookup-fresh_key : (t : Table) → lookup (fresh_key t) t ≡ none
unfolding fresh_key
lookup-fresh_key t =
    lookup-long (fresh_key t) t (omega (arith, length-replicate {A = ℕ} (suc (bound t)) 0))

unfoldable pub send : Bytes → Bytes → ℕ → ℕ → Table → Bytes × Table
unfolding fresh_key replicate
send queue body priority now t = (
  fresh_key t,
  insert (fresh_key t)
      (record {
        queue = queue;
        body = body;
        priority = priority;
        created = now;
        timeout = now;
        received = 0;
      })
      t,
)

abbrev has_queue : Bytes → Row → Bool
has_queue queue r = bytes_eq r.queue queue

pub lookup-send_lem :
    (queue body : Bytes) (priority now : ℕ) (t : Table) (j : Bytes)
    → lookup j (send queue body priority now t).1 ≡ (
        if bytes_eq (send queue body priority now t).0 j
        then some (record {
          queue = queue;
          body = body;
          priority = priority;
          created = now;
          timeout = now;
          received = 0;
        })
        else lookup j t)
unfolding send
lookup-send_lem queue body priority now t j = lookup-insert (fresh_key t) j _ t

pub send_is_fresh :
    (queue body : Bytes) (priority now : ℕ) (t : Table)
    → lookup (send queue body priority now t).0 t ≡ none
unfolding send
send_is_fresh queue body priority now t = lookup-fresh_key t

pub lookup-delete_lem :
    (queue id : Bytes) (t : Table) (j : Bytes)
    → lookup j (delete_by_id id (has_queue queue) t).1
      ≡ (if bytes_eq id j then without queue (lookup j t) else lookup j t)
lookup-delete_lem queue id t j = ground (arith, lookup-delete_by_id id j (has_queue queue) t)

pub lookup-extend_lem :
    (queue id : Bytes) (timeout : ℕ) (t : Table) (j : Bytes)
    → lookup j (update_by_id id (has_queue queue) (λ r. record r { timeout = timeout }) t).1
      ≡ (if bytes_eq id j then extended queue timeout (lookup j t) else lookup j t)
lookup-extend_lem queue id timeout t j =
    ground
      (arith, lookup-update_by_id id j (has_queue queue) (λ r. record r { timeout = timeout }) t)

abbrev pub model_goqite : Goqite
model_goqite = record {
  send = send;
  delete = λ queue id t. (delete_by_id id (has_queue queue) t).1;
  extend = λ queue id timeout t.
      (update_by_id id (has_queue queue) (λ r. record r { timeout = timeout }) t).1;
  send_fresh = send_is_fresh;
  lookup-send = lookup-send_lem;
  lookup-delete = lookup-delete_lem;
  lookup-extend = lookup-extend_lem;
}

-- A message file is a number; the number of files stands before them.
unfoldable pub encode_files : List ℕ → Bytes → Bytes
encode_files [] [] = []
encode_files [] (h ∷ hints) = 0 ∷ h ∷ hints
encode_files (f ∷ files) hints = length (f ∷ files) ∷ (f ∷ files) ++ hints

unfoldable pub decode_files : Bytes → Option (List ℕ × Bytes)
decode_files [] = some ([], [])
decode_files (n ∷ bytes) = some (take n bytes, drop n bytes)

pub decode-encode_files :
    (files : List ℕ) (hints : Bytes) → decode_files (encode_files files hints) ≡ some (files, hints)
unfolding encode_files decode_files
decode-encode_files [] [] = refl
decode-encode_files [] (h ∷ hints) = refl
decode-encode_files (f ∷ files) hints =
    cc (take-length-append (f ∷ files) hints, drop-length-append (f ∷ files) hints)

pub encode_files_empty :
    (files : List ℕ) (hints : Bytes) → encode_files files hints ≡ [] → (files ≡ []) × (hints ≡ [])
unfolding encode_files
encode_files_empty [] [] e = (refl, refl)
encode_files_empty [] (h ∷ hints) e = cc
encode_files_empty (f ∷ files) hints e = cc

abbrev pub model_proto : Proto
model_proto = record {
  ModelFile = ℕ;
  encode = encode_files;
  decode = decode_files;
  is_encodable = λ files hints. true;
  decode-encode = λ files hints _. decode-encode_files files hints;
  encode_empty = encode_files_empty;
}
