-- ===== src/Prelude/Words.antt =====
-- Fixed-width integers as bit patterns: a signed 64-bit integer is a number below 2^64, and its
-- upper half stands for the negative values.
use mass.Prelude.{ℕ, ◌+◌, ◌-◌, ◌%◌, Bool, ◌&&◌, ltb}

abbrev pub two_63 : ℕ
two_63 = 9223372036854775808

abbrev pub two_64 : ℕ
two_64 = 18446744073709551616

abbrev pub add_64 : ℕ → ℕ → ℕ
add_64 a b = (a + b) % two_64

abbrev pub sub_64 : ℕ → ℕ → ℕ
sub_64 a b = (a + two_64 - b) % two_64

-- `0 < x` for a signed x.
abbrev pub is_positive : ℕ → Bool
is_positive x = ltb 0 x && ltb x two_63

-- `c < x` for a signed x and a constant c that is not negative.
abbrev pub exceeds : ℕ → ℕ → Bool
exceeds x c = ltb c x && ltb x two_63
