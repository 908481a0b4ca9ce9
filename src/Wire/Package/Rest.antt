-- ===== src/Wire/Package/Rest.antt =====
-- What utils_receive_package of shared-common/common/utils.c leaves on a connection.
use threaders.Base.{
  ℕ, ◌≤◌, ◌≡◌, refl, [], Bool, true, false, List, [], arith, length, take, drop, leb, ltb,
  if◌then◌else◌,
}
use threaders.Commons.{Commons}
use threaders.Wire.Bytes.{Bytes, unle}
use threaders.Wire.Message.Fill.{length-drop}
use threaders.Wire.Package.{
  int_limit, Received, received, closed, overread, out_of_fuel, cut, and_cut, values_of,
  take_values, take_package, utils_receive_buffer, utils_receive_package,
}

-- No more than `n` bytes are left.
abbrev pub Leaves : {A : Type 0} → ℕ → Received A → Type 0
Leaves n (received a rest) = length rest ≤ n
Leaves n closed = Unit {0}
Leaves n overread = Unit {0}
Leaves n out_of_fuel = Unit {0}

if-Leaves :
    {A : Type 0} (n : ℕ) (b : Bool) (r s : Received A)
    → Leaves n r
    → Leaves n s
    → Leaves n (if b then r else s)
if-Leaves n true r s h k = h
if-Leaves n false r s h k = k

cut-Leaves : (n k : ℕ) (input : Bytes) → length input ≤ n → Leaves n (cut k input)
cut-Leaves n k input h =
    if-Leaves n (leb k (length input)) (received (take k input) (drop k input)) closed
      (omega (arith, length-drop k input)) tt

and_cut-Leaves : (n : ℕ) (r : Received Bytes) → Leaves n r → Leaves n (and_cut r)
and_cut-Leaves n (received size rest) h =
    if-Leaves n (ltb (unle size) int_limit) (cut (unle size) rest) (received [] rest)
      (cut-Leaves n (unle size) rest h) h
and_cut-Leaves n closed h = tt
and_cut-Leaves n overread h = tt
and_cut-Leaves n out_of_fuel h = tt

values_of-Leaves :
    (n : ℕ) (r : Received (List Bytes)) (rest : Bytes)
    → length rest ≤ n
    → Leaves n (values_of r rest)
values_of-Leaves n (received vs more) rest h = h
values_of-Leaves n closed rest h = tt
values_of-Leaves n overread rest h = tt
values_of-Leaves n out_of_fuel rest h = tt

take_package-Leaves :
    (c : Commons) (n : ℕ) (r : Received Bytes) → Leaves n r → Leaves n (take_package c r)
unfolding take_package
take_package-Leaves c n (received buffer rest) h =
    values_of-Leaves n (take_values c (length buffer) buffer (c.list_create Bytes)) rest h
take_package-Leaves c n closed h = tt
take_package-Leaves c n overread h = tt
take_package-Leaves c n out_of_fuel h = tt

pub utils_receive_package-Leaves :
    (c : Commons) (input : Bytes) → Leaves (length input) (utils_receive_package c input)
unfolding utils_receive_package utils_receive_buffer
utils_receive_package-Leaves c input =
    let n = length input in
    take_package-Leaves c n (and_cut (cut 4 input))
      (and_cut-Leaves n (cut 4 input) (cut-Leaves n 4 input (omega arith)))

pub utils_receive_package-empty : (c : Commons) → utils_receive_package c [] ≡ closed
unfolding utils_receive_package utils_receive_buffer take_package
utils_receive_package-empty c = refl
