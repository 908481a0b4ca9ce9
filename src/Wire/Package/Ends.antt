-- ===== src/Wire/Package/Ends.antt =====
-- How utils_receive_package of shared-common/common/utils.c ends.
use threaders.Base.{
  ℕ, zero, suc, ◌+◌, ◌≤◌, Option, none, some, List, [], ◌∷◌, arith, length, drop, if◌then◌else◌,
  leb, ltb, Bool, true, false,
}
use threaders.Commons.{Commons}
use threaders.Wire.Bytes.{Bytes, unle, slice}
use threaders.Wire.Message.Fill.{length-drop}
use threaders.Wire.Package.{
  int_limit, Received, received, closed, overread, out_of_fuel, cut, and_cut, utils_receive_buffer,
  values_of, and_value, take_values, take_package, utils_receive_package,
}

-- There is a result, or a size reaches behind the buffer, or the connection ends before.
abbrev pub Ended : {A : Type 0} → Received A → Type 0
Ended out_of_fuel = ⊥
Ended _ = Unit {0}

and_value-Ended :
    (o : Option Bytes) (k : Bytes → Received (List Bytes))
    → ((v : Bytes) → Ended (k v))
    → Ended (and_value o k)
and_value-Ended none k h = tt
and_value-Ended (some v) k h = h v

take_values-Ended :
    (c : Commons) (n : ℕ) (m : Bytes) (acc : List Bytes)
    → length m ≤ n
    → Ended (take_values c n m acc)
unfolding take_values
take_values-Ended c zero [] acc h = tt
take_values-Ended c (suc n) [] acc h = tt
take_values-Ended c zero (b ∷ m) acc h = absurd (omega arith)
take_values-Ended c (suc n) (b ∷ m) acc h = and_value-Ended (slice 0 4 (b ∷ m)) _ λ v.
    and_value-Ended (slice 4 (unle v) (b ∷ m)) _ λ w.
      take_values-Ended c n (drop (4 + unle v) (b ∷ m)) (c.list_add Bytes acc w)
        (omega (arith, length-drop (4 + unle v) (b ∷ m)))

values_of-Ended : (r : Received (List Bytes)) (rest : Bytes) → Ended r → Ended (values_of r rest)
values_of-Ended (received vs more) rest h = tt
values_of-Ended closed rest h = tt
values_of-Ended overread rest h = tt
values_of-Ended out_of_fuel rest h = h

take_package-Ended : (c : Commons) (r : Received Bytes) → Ended r → Ended (take_package c r)
unfolding take_package
take_package-Ended c (received buffer rest) h =
    values_of-Ended _ rest
      (take_values-Ended c (length buffer) buffer (c.list_create Bytes) (omega arith))
take_package-Ended c closed h = tt
take_package-Ended c overread h = tt
take_package-Ended c out_of_fuel h = h

if-Ended :
    {A : Type 0} (b : Bool) (r s : Received A) → Ended r → Ended s → Ended (if b then r else s)
if-Ended true r s h k = h
if-Ended false r s h k = k

cut-Ended : (n : ℕ) (input : Bytes) → Ended (cut n input)
cut-Ended n input = if-Ended (leb n (length input)) _ _ tt tt

and_cut-Ended : (r : Received Bytes) → Ended r → Ended (and_cut r)
and_cut-Ended (received size rest) h =
    if-Ended (ltb (unle size) int_limit) (cut (unle size) rest) (received [] rest)
      (cut-Ended (unle size) rest) tt
and_cut-Ended closed h = tt
and_cut-Ended overread h = tt
and_cut-Ended out_of_fuel h = h

-- The loop of utils_receive_package ends for every buffer and every size, negative ones included: the function gives a
-- list of values, or a size in the buffer reaches behind it; only where the connection ends within the message does the
-- theorem not say what follows.
pub utils_receive_package-Ended :
    (c : Commons) (input : Bytes) → Ended (utils_receive_package c input)
unfolding utils_receive_package utils_receive_buffer
utils_receive_package-Ended c input =
    take_package-Ended c (and_cut (cut 4 input)) (and_cut-Ended (cut 4 input) (cut-Ended 4 input))
