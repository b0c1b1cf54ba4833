-- ===== src/Codec.antt =====
-- Little-endian integers (src/cachetag_util.h). A buffer is a list of bytes; `p + off` is a `drop`.
use libvmod_cachetag.Base.{ℕ, zero, suc, ◌+◌, ◌*◌, ◌/◌, ◌%◌, ◌^◌, ◌<◌, ◌≡◌, ap, refl}
use libvmod_cachetag.Base.{List, [], ◌∷◌, ◌++◌, arith}
use libvmod_cachetag.Base.{length, take}

-- byte `u` is `(unsigned char)(v >> (u * 8))`
le_enc : ℕ → ℕ → List ℕ
le_enc zero v = []
le_enc (suc n) v = v % 256 ∷ le_enc n (v / 256)

unfoldable pub le16enc : ℕ → List ℕ
unfolding le_enc
le16enc v = le_enc 2 v

unfoldable pub le64enc : ℕ → List ℕ
unfolding le_enc
le64enc v = le_enc 8 v

-- The bytes do not overlap, so that `|` is `+`.
le_dec : List ℕ → ℕ
le_dec [] = 0
le_dec (b ∷ bs) = b + 256 * le_dec bs

unfoldable pub le16dec : List ℕ → ℕ
unfolding le_dec
le16dec p = le_dec (take 2 p)

unfoldable pub le64dec : List ℕ → ℕ
unfolding le_dec
le64dec p = le_dec (take 8 p)

length-le_enc : (n v : ℕ) → length (le_enc n v) ≡ n
unfolding le_enc
length-le_enc zero v = refl
length-le_enc (suc n) v = ap suc (length-le_enc n (v / 256))

pub length-le64enc : (v : ℕ) → length (le64enc v) ≡ 8
unfolding le64enc
length-le64enc v = length-le_enc 8 v

pub length-le16enc : (v : ℕ) → length (le16enc v) ≡ 2
unfolding le16enc
length-le16enc v = length-le_enc 2 v

-- A value that fits is read back, whatever follows it.
pub le64dec-le64enc : (v : ℕ) (rest : List ℕ) → v < 2 ^ 64 → le64dec (le64enc v ++ rest) ≡ v
unfolding le64dec le64enc
le64dec-le64enc v rest h = omega arith

pub le16dec-le16enc : (v : ℕ) (rest : List ℕ) → v < 2 ^ 16 → le16dec (le16enc v ++ rest) ≡ v
unfolding le16dec le16enc
le16dec-le16enc v rest h = omega arith
