-- ===== src/Prelude/Endian.antt =====
-- encoding/binary's little-endian integers.
use mass.Prelude.{ℕ, zero, suc, ◌+◌, ◌*◌, ◌/◌, ◌%◌, ◌<◌, ◌≡◌, refl, [], ◌∷◌, Bytes, length, arith}

-- The `k` low bytes of `x`.
unfoldable pub put_uint : ℕ → ℕ → Bytes
put_uint zero x = []
put_uint (suc k) x = (x % 256) ∷ put_uint k (x / 256)

unfoldable pub uint : Bytes → ℕ
uint [] = 0
uint (b ∷ bs) = b + 256 * uint bs

-- 256 ^ k
abbrev pub width : ℕ → ℕ
width zero = 1
width (suc k) = 256 * width k

pub length-put_uint : (k x : ℕ) → length (put_uint k x) ≡ k
unfolding put_uint
length-put_uint zero x = refl
length-put_uint (suc k) x = omega (arith, length-put_uint k (x / 256))

pub uint-put_uint : (k x : ℕ) → x < width k → uint (put_uint k x) ≡ x
unfolding put_uint uint
uint-put_uint zero x h = omega arith
uint-put_uint (suc k) x h = omega (arith, uint-put_uint k (x / 256) (omega arith))
