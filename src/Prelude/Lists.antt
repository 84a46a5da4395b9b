-- ===== src/Prelude/Lists.antt =====
-- Lists measured by native numbers, under the library's names, and Go strings as byte lists.
use Prim.Native.Char.{code}
use Prim.Native.Nat.{ℕ, zero, suc, ◌+◌, ◌≤◌, ◌-◌, min}
use Prim.Native.String.{String}
use mathlib.Core.Bool.{Bool, true, false, ◌&&◌}
use mathlib.Core.List.{List, [], ◌∷◌, ◌++◌, append_assoc}
use mathlib.Core.Logic.{◌↔◌}
use mathlib.Core.Path.{◌≡◌, refl, ap, ◌∙◌}
use native.Mathlib.Omega.{arith}
use mass.Prelude.Tests.{◌==◌}

module _ {ℓ} {A : Type ℓ} where
  abbrev pub length : List A → ℕ
  length [] = 0
  length (x ∷ xs) = suc (length xs)

  abbrev pub take : ℕ → List A → List A
  take zero xs = []
  take (suc n) [] = []
  take (suc n) (x ∷ xs) = x ∷ take n xs

  abbrev pub drop : ℕ → List A → List A
  drop zero xs = xs
  drop (suc n) [] = []
  drop (suc n) (x ∷ xs) = drop n xs

  pub length-append : (xs ys : List A) → length (xs ++ ys) ≡ length xs + length ys
  length-append [] ys = omega arith
  length-append (x ∷ xs) ys = omega (arith, length-append xs ys)

  pub take-length-append : (xs ys : List A) → take (length xs) (xs ++ ys) ≡ xs
  take-length-append [] ys = refl
  take-length-append (x ∷ xs) ys = ap (◌∷◌ x) (take-length-append xs ys)

  pub drop-length-append : (xs ys : List A) → drop (length xs) (xs ++ ys) ≡ ys
  drop-length-append [] ys = refl
  drop-length-append (x ∷ xs) ys = drop-length-append xs ys

  pub take-append-drop : (n : ℕ) (xs : List A) → take n xs ++ drop n xs ≡ xs
  take-append-drop zero xs = refl
  take-append-drop (suc n) [] = refl
  take-append-drop (suc n) (x ∷ xs) = rw (take-append-drop n xs)

  pub length-take : (n : ℕ) (xs : List A) → length (take n xs) ≡ min n (length xs)
  length-take zero xs = omega arith
  length-take (suc n) [] = omega arith
  length-take (suc n) (x ∷ xs) = omega (arith, length-take n xs)

  -- A predicate on every element; it computes to a tuple, which the tactics read.
  abbrev pub All {κ} : (A → Type κ) → List A → Type κ
  All P [] = Unit
  All P (x ∷ xs) = P x × All P xs

  -- The elements that pass a test.
  abbrev pub keep : (A → Bool) → List A → List A
  keep p [] = []
  keep p (x ∷ xs) = elim (p x) [ true ↦ x ∷ keep p xs | false ↦ keep p xs ]

module _ {ℓ} {A : Type ℓ} where
  pub length-keep-le : (p : A → Bool) (xs : List A) → length (keep p xs) ≤ length xs
  length-keep-le p [] = omega arith
  length-keep-le p (x ∷ xs) = ground (arith, length-keep-le p xs)

  pub length-drop : (k : ℕ) (xs : List A) → length (drop k xs) ≡ length xs - k
  length-drop zero xs = omega arith
  length-drop (suc k) [] = omega arith
  length-drop (suc k) (x ∷ xs) = omega (arith, length-drop k xs)

module _ {ℓ} {A : Type ℓ} where
  unfoldable pub replicate : ℕ → A → List A
  replicate zero a = []
  replicate (suc n) a = a ∷ replicate n a

  pub length-replicate : (n : ℕ) (a : A) → length (replicate n a) ≡ n
  unfolding replicate
  length-replicate zero a = refl
  length-replicate (suc n) a = ap suc (length-replicate n a)

module _ {ℓ} {A : Type ℓ} where
  -- What is left of a buffer `replicate n z` behind its first `k` entries.
  pub drop-replicate : (k n : ℕ) (z : A) → drop k (replicate (k + n) z) ≡ replicate n z
  unfolding replicate
  drop-replicate zero n z = ap (λ m. replicate m z) (omega arith)
  drop-replicate (suc k) n z =
      let e : suc k + n ≡ suc (k + n) = omega arith in rw (e, replicate) (drop-replicate k n z)

  -- Go's `copy(buf[off:], src)`: it stops at the end of the shorter one.
  unfoldable pub copy_at : ℕ → List A → List A → List A
  copy_at off src [] = []
  copy_at zero [] (b ∷ bs) = b ∷ bs
  copy_at zero (x ∷ src) (b ∷ bs) = x ∷ copy_at zero src bs
  copy_at (suc off) src (b ∷ bs) = b ∷ copy_at off src bs

  copy_at-append :
      (done src rest : List A)
      → length src ≤ length rest
      → copy_at (length done) src (done ++ rest) ≡ done ++ (src ++ drop (length src) rest)
  unfolding copy_at
  copy_at-append [] [] [] h = refl
  copy_at-append [] (x ∷ src) [] h = absurd (omega arith)
  copy_at-append [] [] (b ∷ bs) h = refl
  copy_at-append [] (x ∷ src) (b ∷ bs) h = ap (◌∷◌ x) (copy_at-append [] src bs (omega arith))
  copy_at-append (d ∷ done) src rest h = ap (◌∷◌ d) (copy_at-append done src rest h)

  -- Writing behind what is already written.
  pub copy_at-fill :
      (done src : List A) (n : ℕ) (z : A)
      → copy_at (length done) src (done ++ replicate (length src + n) z)
        ≡ (done ++ src) ++ replicate n z
  copy_at-fill done src n z =
      copy_at-append done src (replicate (length src + n) z)
        (omega (arith, length-replicate (length src + n) z))
      ∙ rw (drop-replicate (length src) n z, append_assoc)

-- A Go string or byte slice: its bytes.
abbrev pub Bytes : Type 0
Bytes = List ℕ

-- The bytes of an ASCII literal.
abbrev pub codes : String → Bytes
codes String.[] = []
codes (String.◌∷◌ c s) = code c ∷ codes s

-- Go's `==` on strings.
unfoldable pub bytes_eq : Bytes → Bytes → Bool
bytes_eq [] [] = true
bytes_eq [] (y ∷ ys) = false
bytes_eq (x ∷ xs) [] = false
bytes_eq (x ∷ xs) (y ∷ ys) = (x == y) && bytes_eq xs ys

pub bytes_eq_iff : (xs ys : Bytes) → (bytes_eq xs ys ≡ true) ↔ (xs ≡ ys)
unfolding bytes_eq
bytes_eq_iff [] [] = ground arith
bytes_eq_iff [] (y ∷ ys) = ground arith
bytes_eq_iff (x ∷ xs) [] = ground arith
bytes_eq_iff (x ∷ xs) (y ∷ ys) = ground (arith, bytes_eq_iff xs ys)
