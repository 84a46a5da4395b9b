-- ===== src/Prelude/Distinct.antt =====
-- Lists of strings in which none stands twice.
use mass.Prelude.{
  All, suc, ◌≤◌, ◌≡◌, Bool, true, false, List, [], ◌∷◌, Bytes, bytes_eq, bytes_eq_iff, arith,
  if◌then◌else◌, length,
}

abbrev pub is_in : Bytes → List Bytes → Bool
is_in x [] = false
is_in x (y ∷ ys) = if bytes_eq y x then true else is_in x ys

abbrev pub IsDistinct : List Bytes → Type 0
IsDistinct [] = Unit
IsDistinct (y ∷ ys) = (is_in y ys ≡ false) × IsDistinct ys

abbrev pub IsWithin : List Bytes → List Bytes → Type 0
IsWithin ys xs = All (λ x. is_in x ys ≡ true) xs

abbrev remove : Bytes → List Bytes → List Bytes
remove x [] = []
remove x (y ∷ ys) = if bytes_eq y x then ys else y ∷ remove x ys

length-remove :
    (x : Bytes) (ys : List Bytes) → is_in x ys ≡ true → length ys ≡ suc (length (remove x ys))
length-remove x [] h = ground arith
length-remove x (y ∷ ys) h = ground (arith, length-remove x ys)

is_in-remove :
    (x z : Bytes) (ys : List Bytes)
    → is_in z ys ≡ true
    → bytes_eq x z ≡ false
    → is_in z (remove x ys) ≡ true
is_in-remove x z [] h other = ground arith
is_in-remove x z (y ∷ ys) h other =
    ground (arith, is_in-remove x z ys, bytes_eq_iff x z, bytes_eq_iff y x, bytes_eq_iff y z)

remove-IsWithin :
    (x : Bytes) (ys xs : List Bytes)
    → is_in x xs ≡ false
    → IsWithin ys xs
    → IsWithin (remove x ys) xs
remove-IsWithin x ys [] absent h = tt
remove-IsWithin x ys (z ∷ xs) absent (first, rest) = ground (
  arith,
  is_in-remove x z ys first,
  remove-IsWithin x ys xs,
  rest,
  bytes_eq_iff z x,
  bytes_eq_iff x z,
)

-- No more strings fit into a list than it is long.
pub IsWithin-length : (ys xs : List Bytes) → IsDistinct xs → IsWithin ys xs → length xs ≤ length ys
IsWithin-length ys [] d h = omega arith
IsWithin-length ys (x ∷ xs) (fresh, d) (first, rest) = omega (
  arith,
  length-remove x ys first,
  IsWithin-length (remove x ys) xs d (remove-IsWithin x ys xs fresh rest),
)

pub IsWithin-intro :
    (ys xs : List Bytes) → ((z : Bytes) → is_in z xs ≡ true → is_in z ys ≡ true) → IsWithin ys xs
IsWithin-intro ys [] h = tt
IsWithin-intro ys (x ∷ xs) h = (
  h x (ground (arith, bytes_eq_iff x x)),
  IsWithin-intro ys xs (λ z there. h z (ground (arith, there))),
)
