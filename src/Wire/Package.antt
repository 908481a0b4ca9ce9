-- ===== src/Wire/Package.antt =====
-- Packages of shared-common/common/utils.c: a buffer of values, each behind its size, and how the
-- other side takes them apart. `none` in a result is an access outside a buffer.
pub mod Ends
pub mod Rest
use threaders.Base.{
  ℕ, zero, suc, ◌+◌, ◌%◌, ◌≤◌, ◌<◌, ◌≡◌, refl, Option, none, some, List, [], ◌∷◌, ◌++◌, arith, sym,
  ap, ◌∙◌, length, take, drop, length-append, take-append, drop-append, if◌then◌else◌, leb, ltb,
  true,
}
use mathlib.Core.List.{append_assoc, append-nil}
use threaders.Commons.{Commons, reference}
use threaders.Wire.Bytes.{Bytes, le, unle, slice, slice-front, slice-behind, unle-le}

-- `size` is the `int` beside the stream, below 2^31 in every package that the functions make.
pub record Package : Type 0 where
  pub operation_code : ℕ
  pub size : ℕ
  pub stream : Bytes

abbrev pub int_limit : ℕ
int_limit = 2147483648

unfoldable pub utils_package_create : ℕ → Package
utils_package_create code = record { operation_code = code; size = 0; stream = [] }

-- The value is the `size` bytes that the call copies. `none`: the sum overflows the `int`, or is negative as one, so that
-- what follows copies from outside the stream.
unfoldable pub utils_package_add : Package → Bytes → Option Package
utils_package_add p value =
    if ltb (p.size + length value + 4) int_limit
    then some (record p {
      stream = p.stream ++ (le 4 (length value) ++ value);
      size = p.size + length value + 4;
    })
    else none

abbrev pub and_add : Option Package → (Package → Option Package) → Option Package
and_add none add = none
and_add (some p) add = add p

unfoldable pub utils_package_add_all : Package → List Bytes → Option Package
utils_package_add_all p [] = some p
utils_package_add_all p (v ∷ vs) = and_add (utils_package_add p v) (λ q. utils_package_add_all q vs)

unfoldable pub serializer_serialize_package : Package → Bytes
serializer_serialize_package p = le 4 p.operation_code ++ (le 4 p.size ++ take p.size p.stream)

-- The bytes that `send` is given.
unfoldable pub utils_package_send_to : Package → Bytes
utils_package_send_to p = serializer_serialize_package p

abbrev pub sent : Option Package → Option Bytes
sent none = none
sent (some p) = some (utils_package_send_to p)

-- What comes of reading from a connection: a value and the bytes behind it.
pub data Received (A : Type 0) : Type 0 where
  received : A → Bytes → Received A
  closed : Received A
  overread : Received A
  out_of_fuel : Received A

abbrev pub cut : ℕ → Bytes → Received Bytes
cut n input = if leb n (length input) then received (take n input) (drop n input) else closed

-- A negative size has no block, and no byte is received into it.
abbrev pub and_cut : Received Bytes → Received Bytes
and_cut (received h rest) = if ltb (unle h) int_limit then cut (unle h) rest else received [] rest
and_cut closed = closed
and_cut overread = overread
and_cut out_of_fuel = out_of_fuel

-- A size of 4 bytes, an `int`, then as many bytes as it says, both read with MSG_WAITALL. `closed`: the connection ends
-- before. The code does not look at what recv returns and goes on with memory that was never written; what it makes of
-- that is not followed.
pub utils_receive_buffer : Bytes → Received Bytes
utils_receive_buffer input = and_cut (cut 4 input)

abbrev pub values_of : Received (List Bytes) → Bytes → Received (List Bytes)
values_of (received vs _) rest = received vs rest
values_of closed rest = closed
values_of overread rest = overread
values_of out_of_fuel rest = out_of_fuel

abbrev pub and_value : Option Bytes → (Bytes → Received (List Bytes)) → Received (List Bytes)
and_value none rest = overread
and_value (some v) rest = rest v

module _ (c : Commons) where
  -- `while (desplazamiento < size)` over what is left of the buffer, of which a negative size has none. A negative
  -- `tamanio` is more than the buffer has.
  pub take_values : ℕ → Bytes → List Bytes → Received (List Bytes)
  take_values n [] acc = received acc []
  take_values zero (b ∷ m) acc = out_of_fuel
  take_values (suc n) (b ∷ m) acc = and_value (slice 0 4 (b ∷ m)) λ h.
      and_value (slice 4 (unle h) (b ∷ m))
        λ v. take_values n (drop (4 + unle h) (b ∷ m)) (c.list_add Bytes acc v)

  pub take_package : Received Bytes → Received (List Bytes)
  take_package (received buffer rest) =
      values_of (take_values (length buffer) buffer (c.list_create Bytes)) rest
  take_package closed = closed
  take_package overread = overread
  take_package out_of_fuel = out_of_fuel

  pub utils_receive_package : Bytes → Received (List Bytes)
  utils_receive_package input = take_package (utils_receive_buffer input)

-- The stream of a package: each value behind its size.
abbrev pub frame : List Bytes → Bytes
frame [] = []
frame (v ∷ vs) = le 4 (length v) ++ (v ++ frame vs)

add-fits :
    (p : Package) (v : Bytes)
    → p.size + length v + 4 < int_limit
    → utils_package_add p v
      ≡ some
          (record p { stream = p.stream ++ (le 4 (length v) ++ v); size = p.size + length v + 4 })
unfolding utils_package_add
add-fits p v h = ground arith

-- The package with these values behind its stream.
abbrev with_frame : Package → List Bytes → Package
with_frame p vs = record p { stream = p.stream ++ frame vs; size = p.size + length (frame vs) }

-- The stream of a package that gets the values one by one is their frame, and its size the length.
pub add_all-frame :
    (p : Package) (vs : List Bytes)
    → p.size + length (frame vs) < int_limit
    → utils_package_add_all p vs ≡ some (with_frame p vs)
unfolding utils_package_add_all
add_all-frame p [] h =
    let same : p.size ≡ p.size + 0 = omega arith in
    λ i. some (record p { stream = sym (append-nil p.stream) i; size = same i })
add_all-frame p (v ∷ vs) h =
    let small = length-append v (frame vs) in
    let q : Package = record p {
      stream = p.stream ++ (le 4 (length v) ++ v);
      size = p.size + length v + 4;
    } in
    let size : q.size + length (frame vs) ≡ p.size + length (frame (v ∷ vs)) =
      omega (arith, small) in
    ap (λ o. and_add o (λ q. utils_package_add_all q vs)) (add-fits p v (omega (arith, h, small)))
    ∙ add_all-frame q vs (omega (arith, h, small))
    ∙ λ i. some (record p {
      stream = append_assoc p.stream (le 4 (length v) ++ v) (frame vs) i;
      size = size i;
    })

take_values-nil : (n : ℕ) (acc : List Bytes) → take_values reference n [] acc ≡ received acc []
unfolding take_values
take_values-nil zero acc = refl
take_values-nil (suc n) acc = refl

cut-front : (n : ℕ) (v m : Bytes) → length v ≡ n → cut n (v ++ m) ≡ received v m
cut-front n v m h = ground (arith, length-append v m, take-append n v m h, drop-append n v m h)

pub take-all : (m : Bytes) → take (length m) m ≡ m
take-all [] = refl
take-all (b ∷ m) = ap (λ t. b ∷ t) (take-all m)

buffer-frame :
    (m more : Bytes)
    → length m < int_limit
    → utils_receive_buffer (le 4 (length m) ++ (m ++ more)) ≡ received m more
unfolding utils_receive_buffer
buffer-frame m more h =
    let size = unle-le (length m) (omega (arith, h)) in
    let fits : ltb (length m) int_limit ≡ true = ground arith in
    ap and_cut (cut-front 4 (le 4 (length m)) (m ++ more) refl)
    ∙ ap (λ k. if ltb k int_limit then cut k (m ++ more) else received [] (m ++ more)) size
    ∙ ap (λ b. if b then cut (length m) (m ++ more) else received [] (m ++ more)) fits
    ∙ cut-front (length m) m more refl

take_values-step :
    (n b : ℕ) (m h v : Bytes) (acc : List Bytes)
    → slice 0 4 (b ∷ m) ≡ some h
    → slice 4 (unle h) (b ∷ m) ≡ some v
    → take_values reference (suc n) (b ∷ m) acc
      ≡ take_values reference n (drop (4 + unle h) (b ∷ m)) (acc ++ v ∷ [])
unfolding take_values
take_values-step n b m h v acc e f =
    ap
      (λ o. and_value o λ h.
        and_value (slice 4 (unle h) (b ∷ m))
          λ v. take_values reference n (drop (4 + unle h) (b ∷ m)) (acc ++ v ∷ []))
      e
    ∙ ap (λ o. and_value o λ v. take_values reference n (drop (4 + unle h) (b ∷ m)) (acc ++ v ∷ []))
        f

take_values-front :
    (n : ℕ) (v : Bytes) (vs acc : List Bytes)
    → length v < int_limit
    → take_values reference (suc n) (frame (v ∷ vs)) acc
      ≡ take_values reference n (frame vs) (acc ++ v ∷ [])
take_values-front n v vs acc h =
    let head = le 4 (length v) in
    let size = unle-le (length v) (omega (arith, h)) in
    take_values-step n _ _ head v acc (slice-front 4 head (v ++ frame vs) refl) (
      ap (λ k. slice 4 k (frame (v ∷ vs))) size
      ∙ slice-behind 4 (length v) head v (frame vs) refl refl)
    ∙ ap (λ k. take_values reference n k (acc ++ v ∷ []))
        (ap (λ k. drop (4 + k) (frame (v ∷ vs))) size
          ∙ drop-append (4 + length v) (head ++ v) (frame vs) (omega arith))

take_values-frame :
    (n : ℕ) (vs acc : List Bytes)
    → length (frame vs) ≤ n
    → length (frame vs) < int_limit
    → take_values reference n (frame vs) acc ≡ received (acc ++ vs) []
take_values-frame n [] acc h k =
    take_values-nil n acc ∙ ap (λ t. received t []) (sym (append-nil acc))
take_values-frame zero (v ∷ vs) acc h k = absurd (omega arith)
take_values-frame (suc n) (v ∷ vs) acc h k =
    let len = length-append v (frame vs) in
    take_values-front n v vs acc (omega (arith, len))
    ∙ take_values-frame n vs (acc ++ v ∷ []) (omega (arith, len)) (omega (arith, len))
    ∙ ap (λ t. received t []) (append_assoc acc (v ∷ []) vs)

-- What utils_receive_package makes of the frame of some values and of what follows it.
pub utils_receive_package-frame :
    (vs : List Bytes) (more : Bytes)
    → length (frame vs) < int_limit
    → utils_receive_package reference (le 4 (length (frame vs)) ++ (frame vs ++ more))
      ≡ received vs more
unfolding utils_receive_package take_package
utils_receive_package-frame vs more h =
    ap (take_package reference) (buffer-frame (frame vs) more h)
    ∙ ap (λ r. values_of r more) (take_values-frame (length (frame vs)) vs [] (omega arith) h)

-- What utils_serialize_and_send puts on the wire: the code, the length, the frame.
pub sent-frame :
    (code : ℕ) (vs : List Bytes)
    → length (frame vs) < int_limit
    → sent (utils_package_add_all (utils_package_create code) vs)
      ≡ some (le 4 code ++ (le 4 (length (frame vs)) ++ frame vs))
unfolding utils_package_send_to serializer_serialize_package utils_package_create
sent-frame code vs h =
    ap sent (add_all-frame (utils_package_create code) vs (omega (arith, h)))
    ∙ ap (λ k. some (le 4 code ++ (le 4 k ++ take k (frame vs)))) (start (length (frame vs)))
    ∙ ap (λ t. some (le 4 code ++ (le 4 (length (frame vs)) ++ t))) (take-all (frame vs))
  where
    start : (n : ℕ) → 0 + n ≡ n
    start n = omega arith
