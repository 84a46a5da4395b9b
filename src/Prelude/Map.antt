-- ===== src/Prelude/Map.antt =====
-- A Go `map[string]V` as an association list. Order is that of insertion.
use mass.Prelude.{
  ℕ, ◌+◌, ◌≡◌, refl, List, [], ◌∷◌, Option, none, some, Bytes, bytes_eq, bytes_eq_iff, arith,
  if◌then◌else◌, Bool, keep,
}

abbrev pub Map {ℓ} : Type ℓ → Type ℓ
Map V = List (Bytes × V)

module _ {ℓ} {V : Type ℓ} where
  unfoldable pub lookup : Bytes → Map V → Option V
  lookup k [] = none
  lookup k ((j, v) ∷ m) = if bytes_eq j k then some v else lookup k m

  -- m[k] = v
  unfoldable pub insert : Bytes → V → Map V → Map V
  insert k v [] = (k, v) ∷ []
  insert k v ((j, w) ∷ m) = if bytes_eq j k then (k, v) ∷ m else (j, w) ∷ insert k v m

  -- delete(m, k)
  unfoldable pub erase : Bytes → Map V → Map V
  erase k [] = []
  erase k ((j, w) ∷ m) = if bytes_eq j k then erase k m else (j, w) ∷ erase k m

  pub lookup-insert :
      (k j : Bytes) (v : V) (m : Map V)
      → lookup j (insert k v m) ≡ (if bytes_eq k j then some v else lookup j m)
  unfolding lookup insert
  lookup-insert k j v [] = refl
  lookup-insert k j v ((i, w) ∷ m) =
      ground (arith, bytes_eq_iff k j, bytes_eq_iff i k, bytes_eq_iff i j, lookup-insert k j v m)

  pub lookup-erase :
      (k j : Bytes) (m : Map V) → lookup j (erase k m) ≡ (if bytes_eq k j then none else lookup j m)
  unfolding lookup erase
  lookup-erase k j [] = ground arith
  lookup-erase k j ((i, w) ∷ m) =
      ground (arith, bytes_eq_iff k j, bytes_eq_iff i k, bytes_eq_iff i j, lookup-erase k j m)

  -- No key stands twice.
  abbrev pub IsMap : Map V → Type ℓ
  IsMap [] = Unit
  IsMap ((k, v) ∷ m) = (lookup k m ≡ none) × IsMap m

  pub insert-IsMap : (k : Bytes) (v : V) (m : Map V) → IsMap m → IsMap (insert k v m)
  unfolding insert lookup
  insert-IsMap k v [] h = (refl, tt)
  insert-IsMap k v ((j, w) ∷ m) h =
      ground
        (arith, bytes_eq_iff j k, bytes_eq_iff k j, insert-IsMap k v m h.1, lookup-insert k j v m)

  pub erase-IsMap : (k : Bytes) (m : Map V) → IsMap m → IsMap (erase k m)
  unfolding erase lookup
  erase-IsMap k [] h = tt
  erase-IsMap k ((j, w) ∷ m) h =
      ground (arith, bytes_eq_iff k j, erase-IsMap k m h.1, lookup-erase k j m)

  -- The sum of a weight over the entries.
  unfoldable pub sum_by : (V → ℕ) → Map V → ℕ
  sum_by f [] = 0
  sum_by f ((k, v) ∷ m) = f v + sum_by f m

  pub erase_absent : (k : Bytes) (m : Map V) → lookup k m ≡ none → erase k m ≡ m
  unfolding erase lookup
  erase_absent k [] h = refl
  erase_absent k ((j, w) ∷ m) h = ground (arith, erase_absent k m)

  pub sum_by-insert :
      (f : V → ℕ) (k : Bytes) (v : V) (m : Map V)
      → lookup k m ≡ none
      → sum_by f (insert k v m) ≡ sum_by f m + f v
  unfolding sum_by insert lookup
  sum_by-insert f k v [] h = omega arith
  sum_by-insert f k v ((j, w) ∷ m) h = ground (arith, sum_by-insert f k v m)

  pub sum_by-erase :
      (f : V → ℕ) (k : Bytes) (v : V) (m : Map V)
      → IsMap m
      → lookup k m ≡ some v
      → sum_by f m ≡ f v + sum_by f (erase k m)
  unfolding sum_by erase lookup
  sum_by-erase f k v [] d h = ground arith
  sum_by-erase f k v ((j, w) ∷ m) d h =
      ground (arith, bytes_eq_iff j k, sum_by-erase f k v m d.1, erase_absent k m)

  pub sum_by-replace :
      (f : V → ℕ) (k : Bytes) (v w : V) (m : Map V)
      → lookup k m ≡ some v
      → f w ≡ f v
      → sum_by f (insert k w m) ≡ sum_by f m
  unfolding sum_by insert lookup
  sum_by-replace f k v w [] h e = ground arith
  sum_by-replace f k v w ((j, u) ∷ m) h e = ground (arith, sum_by-replace f k v w m)

  abbrev pub filtered : (V → Bool) → Option V → Option V
  filtered test none = none
  filtered test (some v) = if test v then some v else none

  pub lookup-keep :
      (test : V → Bool) (k : Bytes) (m : Map V)
      → IsMap m
      → lookup k (keep (λ (e : Bytes × V). test e.1) m) ≡ filtered test (lookup k m)
  unfolding lookup
  lookup-keep test k [] d = refl
  lookup-keep test k ((j, v) ∷ m) d = ground (arith, bytes_eq_iff j k, lookup-keep test k m d.1)

  pub keep-IsMap :
      (test : V → Bool) (m : Map V) → IsMap m → IsMap (keep (λ (e : Bytes × V). test e.1) m)
  unfolding lookup
  keep-IsMap test [] d = tt
  keep-IsMap test ((j, v) ∷ m) d = ground (arith, lookup-keep test j m d.1, keep-IsMap test m d.1)
