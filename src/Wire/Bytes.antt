-- ===== src/Wire/Bytes.antt =====
-- Byte images of the C values that shared-common/common/utils.c copies by memcpy.
pub mod Splice
use threaders.Base.{
  ℕ, zero, suc, ◌+◌, ◌*◌, ◌/◌, ◌%◌, ◌<◌, ◌≡◌, refl, Option, none, some, List, [], ◌∷◌, ◌++◌, arith,
  ap, leb, ◌==◌, length, take, drop, length-append, take-append, drop-append, if◌then◌else◌,
}

abbrev pub Bytes : Type 0
Bytes = List ℕ

-- `n` bytes of the value `x`, the low one first.
abbrev pub le : ℕ → ℕ → Bytes
le zero x = []
le (suc n) x = (x % 256) ∷ le n (x / 256)

abbrev pub unle : Bytes → ℕ
unle [] = 0
unle (b ∷ bs) = b + 256 * unle bs

-- `n` bytes read at offset `i`.
abbrev pub slice : ℕ → ℕ → Bytes → Option Bytes
slice i n m = if leb (i + n) (length m) then some (take n (drop i m)) else none

-- The bytes `v` written at offset `i`.
abbrev pub overwrite : ℕ → Bytes → Bytes → Option Bytes
overwrite i v m =
    if leb (i + length v) (length m) then some (take i m ++ (v ++ drop (i + length v) m)) else none

abbrev pub prepend : ℕ → Option Bytes → Option Bytes
prepend b none = none
prepend b (some t) = some (b ∷ t)

-- The text before the first zero byte; `none` when there is none, and a read runs on.
unfoldable pub cstring : Bytes → Option Bytes
cstring [] = none
cstring (b ∷ m) = if b == 0 then some [] else prepend b (cstring m)

pub length-le : (n x : ℕ) → length (le n x) ≡ n
length-le zero x = refl
length-le (suc n) x = ap suc (length-le n (x / 256))

-- A 4-byte value comes back.
pub unle-le : (x : ℕ) → x < 4294967296 → unle (le 4 x) ≡ x
unle-le x h = omega arith

-- A read of the first `n` bytes.
pub slice-front : (n : ℕ) (v m : Bytes) → length v ≡ n → slice 0 n (v ++ m) ≡ some v
slice-front n v m h = ground (arith, length-append v m, take-append n v m h)

-- A read behind a block of `i` bytes.
pub slice-behind :
    (i n : ℕ) (b v m : Bytes) → length b ≡ i → length v ≡ n → slice i n (b ++ (v ++ m)) ≡ some v
slice-behind i n b v m hb hv = ground (
  arith,
  length-append b (v ++ m),
  length-append v m,
  drop-append i b (v ++ m) hb,
  take-append n v m hv,
)
