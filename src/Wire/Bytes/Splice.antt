-- ===== src/Wire/Bytes/Splice.antt =====
-- memcpy and memset into a block of bytes: what is read where they wrote, and what stays.
use threaders.Base.{
  ℕ, zero, suc, ◌+◌, ◌-◌, ◌≤◌, ◌<◌, ◌≡◌, refl, true, none, some, ◌⊎◌, [], ◌∷◌, ◌++◌, arith, sym, ap,
  ◌∙◌, length, take, drop, leb, if◌then◌else◌, get_elem?, length-append, drop-append, take-append,
  take-prefix, length-take, length-drop, inl, inr, Bool-cases,
}
use mathlib.Core.List.{append_assoc}
use threaders.Wire.Bytes.{Bytes, slice, overwrite}

-- The bytes `v` in place of those from `i` on.
abbrev pub spliced : ℕ → Bytes → Bytes → Bytes
spliced i v m = take i m ++ (v ++ drop (i + length v) m)

pub slice-some : (i n : ℕ) (m : Bytes) → i + n ≤ length m → slice i n m ≡ some (take n (drop i m))
slice-some i n m h = ground arith

pub overwrite-spliced :
    (i : ℕ) (v m : Bytes) → i + length v ≤ length m → overwrite i v m ≡ some (spliced i v m)
overwrite-spliced i v m h = ground arith

pub length-spliced :
    (i : ℕ) (v m : Bytes) → i + length v ≤ length m → length (spliced i v m) ≡ length m
length-spliced i v m h = omega (
  arith,
  length-append (take i m) (v ++ drop (i + length v) m),
  length-append v (drop (i + length v) m),
  length-take i m (omega arith),
  length-drop (i + length v) m h,
)

-- What is read at the place of the write, in the first `n` bytes.
pub slice-spliced :
    (i n : ℕ) (v m : Bytes)
    → i + length v ≤ length m
    → n ≤ length v
    → slice i n (spliced i v m) ≡ some (take n v)
slice-spliced i n v m h l =
    let front : length (take i m) ≡ i = length-take i m (omega arith) in
    let tail : drop i (spliced i v m) ≡ v ++ drop (i + length v) m =
      drop-append i (take i m) (v ++ drop (i + length v) m) front in
    let fits : leb (i + n) (length (spliced i v m)) ≡ true =
      ground (arith, length-spliced i v m h) in
    ap (λ b. if b then some (take n (drop i (spliced i v m))) else none) fits
    ∙ ap (λ t. some (take n t)) tail
    ∙ ap some (take-prefix n v (drop (i + length v) m) l)

pub get-take :
    (i j : ℕ) (m r : Bytes) → j < i → i ≤ length m → get_elem? (take i m ++ r) j ≡ get_elem? m j
get-take zero j m r h l = absurd (omega arith)
get-take (suc i) j [] r h l = absurd (omega arith)
get-take (suc i) zero (b ∷ m) r h l = refl
get-take (suc i) (suc j) (b ∷ m) r h l = get-take i j m r (omega arith) (omega arith)

pub get-append : (s t : Bytes) (j k : ℕ) → k ≡ length s + j → get_elem? (s ++ t) k ≡ get_elem? t j
get-append [] t j k h = let e : k ≡ j = omega arith in ap (get_elem? t) e
get-append (b ∷ s) t j zero h = absurd (omega arith)
get-append (b ∷ s) t j (suc k) h = get-append s t j k (omega arith)

pub get-drop : (i j k : ℕ) (m : Bytes) → k ≡ i + j → get_elem? (drop i m) j ≡ get_elem? m k
get-drop zero j k m h = let e : j ≡ k = omega arith in ap (get_elem? m) e
get-drop (suc i) j k [] h = refl
get-drop (suc i) j zero (b ∷ m) h = absurd (omega arith)
get-drop (suc i) j (suc k) (b ∷ m) h = get-drop i j k m (omega arith)

-- What is not written stays.
pub get-spliced :
    (i : ℕ) (v m : Bytes) (j : ℕ)
    → i + length v ≤ length m
    → (j < i) ⊎ (i + length v ≤ j)
    → get_elem? (spliced i v m) j ≡ get_elem? m j
get-spliced i v m j h (inl before) =
    get-take i j m (v ++ drop (i + length v) m) before (omega arith)
get-spliced i v m j h (inr behind) =
    let k = j - i - length v in
    get-append (take i m) (v ++ drop (i + length v) m) (length v + k) j
      (omega (arith, length-take i m (omega arith)))
    ∙ get-append v (drop (i + length v) m) k (length v + k) (omega arith)
    ∙ get-drop (i + length v) k j m (omega arith)

pub slice-length : (i n : ℕ) (m v : Bytes) → slice i n m ≡ some v → length v ≡ n
slice-length i n m v h = elim (Bool-cases (leb (i + n) (length m))) [
  | inr f ↦ absurd (ground arith)
  | inl t ↦
      let run : slice i n m ≡ some (take n (drop i m)) = ground arith in
      let both : some (take n (drop i m)) ≡ some v = sym run ∙ h in
      let same : take n (drop i m) ≡ v = cc both in
      ap length (sym same) ∙ length-take n (drop i m) (ground (arith, length-drop i m))
]

take-take : (n i : ℕ) (m r : Bytes) → n ≤ i → i ≤ length m → take n (take i m ++ r) ≡ take n m
take-take zero i m r h l = refl
take-take (suc n) zero m r h l = absurd (omega arith)
take-take (suc n) (suc i) [] r h l = absurd (omega arith)
take-take (suc n) (suc i) (b ∷ m) r h l =
    ap (λ t. b ∷ t) (take-take n i m r (omega arith) (omega arith))

pub take-drop-take :
    (j i n : ℕ) (m r : Bytes)
    → j + n ≤ i
    → i ≤ length m
    → take n (drop j (take i m ++ r)) ≡ take n (drop j m)
take-drop-take zero i n m r h l = take-take n i m r (omega arith) l
take-drop-take (suc j) zero n m r h l = absurd (omega arith)
take-drop-take (suc j) (suc i) n [] r h l = absurd (omega arith)
take-drop-take (suc j) (suc i) n (b ∷ m) r h l =
    take-drop-take j i n m r (omega arith) (omega arith)

-- A read before the write.
pub slice-before :
    (j n i : ℕ) (v m : Bytes)
    → i + length v ≤ length m
    → j + n ≤ i
    → slice j n (spliced i v m) ≡ slice j n m
slice-before j n i v m h l =
    let same = take-drop-take j i n m (v ++ drop (i + length v) m) l (omega arith) in
    ground (arith, same, length-spliced i v m h)

-- The same bytes written once more.
pub spliced_twice :
    (i : ℕ) (v m : Bytes) → i + length v ≤ length m → spliced i v (spliced i v m) ≡ spliced i v m
spliced_twice i v m h =
    let d = drop (i + length v) m in
    let front : length (take i m) ≡ i = length-take i m (omega arith) in
    let head : take i (take i m ++ (v ++ d)) ≡ take i m = take-append i (take i m) (v ++ d) front in
    let tail : drop (i + length v) ((take i m ++ v) ++ d) ≡ d =
      drop-append (i + length v) (take i m ++ v) d
        (omega (arith, length-append (take i m) v, front)) in
    ap (λ t. t ++ (v ++ drop (i + length v) (spliced i v m))) head
    ∙ ap (λ t. take i m ++ (v ++ drop (i + length v) t)) (sym (append_assoc (take i m) v d))
    ∙ ap (λ t. take i m ++ (v ++ t)) tail

get-front : (n j : ℕ) (m : Bytes) → j < n → get_elem? (take n m) j ≡ get_elem? m j
get-front zero j m h = absurd (omega arith)
get-front (suc n) j [] h = refl
get-front (suc n) zero (b ∷ m) h = refl
get-front (suc n) (suc j) (b ∷ m) h = get-front n j m (omega arith)

-- A byte of what is read.
pub get-slice :
    (i n j : ℕ) (m h : Bytes) → slice i n m ≡ some h → j < n → get_elem? h j ≡ get_elem? m (i + j)
get-slice i n j m h e l = elim (Bool-cases (leb (i + n) (length m))) [
  | inr f ↦ absurd (ground arith)
  | inl t ↦
      let run : slice i n m ≡ some (take n (drop i m)) = ground arith in
      let both : some (take n (drop i m)) ≡ some h = sym run ∙ e in
      let same : take n (drop i m) ≡ h = cc both in
      ap (λ x. get_elem? x j) (sym same) ∙ get-front n j (drop i m) l ∙ get-drop i j (i + j) m refl
]

get-left : (s t : Bytes) (j : ℕ) → j < length s → get_elem? (s ++ t) j ≡ get_elem? s j
get-left [] t j h = absurd (omega arith)
get-left (b ∷ s) t zero h = refl
get-left (b ∷ s) t (suc j) h = get-left s t j (omega arith)

-- A byte of what was written.
pub get-written :
    (i k : ℕ) (v m : Bytes)
    → i + length v ≤ length m
    → k < length v
    → get_elem? (spliced i v m) (i + k) ≡ get_elem? v k
get-written i k v m h l =
    get-append (take i m) (v ++ drop (i + length v) m) k (i + k)
      (omega (arith, length-take i m (omega arith)))
    ∙ get-left v (drop (i + length v) m) k l
