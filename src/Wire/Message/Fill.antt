-- ===== src/Wire/Message/Fill.antt =====
-- Structures of shared-common/common/utils.c filled value by value, as utils_get_from_list_to does it.
use threaders.Base.{
  ℕ, zero, suc, ◌+◌, ◌-◌, ◌≤◌, ◌≡◌, refl, some, [], ◌∷◌, ◌++◌, arith, sym, ap, ◌∙◌, length, drop,
  length-append, take-append,
}
use mathlib.Core.List.{append_assoc}
use threaders.Wire.Bytes.{Bytes, slice, overwrite}
use threaders.Wire.Package.{take-all}
use threaders.Wire.Message.{store_at}

pub length-drop : (n : ℕ) (m : Bytes) → length (drop n m) ≡ length m - n
length-drop zero m = omega arith
length-drop (suc n) [] = omega arith
length-drop (suc n) (b ∷ m) = omega (arith, length-drop n m)

pub drop-behind : (i n : ℕ) (b m : Bytes) → length b ≡ i → drop (i + n) (b ++ m) ≡ drop n m
drop-behind i n [] m h = let e : i + n ≡ n = omega arith in ap (λ k. drop k m) e
drop-behind i n (x ∷ b) m h =
    let e : i + n ≡ suc (length b + n) = omega arith in
    ap (λ k. drop k (x ∷ (b ++ m))) e ∙ drop-behind (length b) n b m refl

pub overwrite-behind :
    (i : ℕ) (b v m : Bytes)
    → length b ≡ i
    → length v ≤ length m
    → overwrite i v (b ++ m) ≡ some (b ++ (v ++ drop (length v) m))
overwrite-behind i b v m hb hv =
    ground (arith, length-append b m, take-append i b m hb, drop-behind i (length v) b m hb)

pub drop-all : (n : ℕ) (m : Bytes) → length m ≤ n → drop n m ≡ []
drop-all zero [] h = refl
drop-all zero (b ∷ m) h = absurd (omega arith)
drop-all (suc n) [] h = refl
drop-all (suc n) (b ∷ m) h = drop-all n m (omega arith)

pub slice-all : (m : Bytes) → slice 0 (length m) m ≡ some m
slice-all m = ground (arith, take-all m)

-- One value, two values, three values written one behind the other into a block.
pub fill_one : (x m : Bytes) → length x ≤ length m → overwrite 0 x m ≡ some (x ++ drop (length x) m)
fill_one x m h = overwrite-behind 0 [] x m refl h

pub fill_two :
    (x y m : Bytes)
    → length x + length y ≤ length m
    → store_at (some y) (length x) (overwrite 0 x m)
      ≡ some (x ++ (y ++ drop (length y) (drop (length x) m)))
fill_two x y m h =
    ap (store_at (some y) (length x)) (fill_one x m (omega arith))
    ∙ overwrite-behind (length x) x y (drop (length x) m) refl
        (omega (arith, length-drop (length x) m))

pub fill_three :
    (x y z m : Bytes)
    → length x + length y + length z ≤ length m
    → store_at (some z) (length x + length y) (store_at (some y) (length x) (overwrite 0 x m))
      ≡ some (x ++ (y ++ (z ++ drop (length z) (drop (length y) (drop (length x) m)))))
fill_three x y z m h =
    let rest = drop (length y) (drop (length x) m) in
    ap (store_at (some z) (length x + length y))
      (fill_two x y m (omega arith) ∙ ap some (sym (append_assoc x y rest)))
    ∙ overwrite-behind (length x + length y) (x ++ y) z rest (length-append x y)
        (omega (arith, length-drop (length x) m, length-drop (length y) (drop (length x) m)))
    ∙ ap some (append_assoc x y (z ++ drop (length z) rest))
