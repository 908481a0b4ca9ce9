-- ===== src/Wire/Message.antt =====
-- utils_serialize_and_send and utils_receive_and_deserialize of shared-common/common/utils.c.
pub mod Fill
pub mod Delivered
pub mod RoundTrip
pub mod Paths
pub mod Unset
pub mod Rest
use threaders.Base.{
  ℕ, zero, suc, ◌+◌, Option, none, some, List, [], ◌∷◌, ◌++◌, length, take, if◌then◌else◌, ltb,
  Bool, ◌&&◌, true, false, leb,
}
use threaders.Commons.{Commons}
use threaders.Wire.Bytes.{Bytes, unle, slice, overwrite, cstring}
use threaders.Wire.Protocol.{
  Protocol, code, Object, handshake, malloc, memfree, copy, get, malloc_ok, free_response, get_ok,
  read_dir, read, open_file, get_attr, create_dir, write, rm_dir, mk_dir,
}
use threaders.Wire.Package.{
  Package, sent, utils_package_create, utils_package_add_all, utils_package_send_to,
  utils_receive_package, Received, received, closed, overread, out_of_fuel,
}

-- The values that a case of the switch adds to its package, in order.
pub data Outgoing : Type 0 where
  no_case : Outgoing
  values : List Bytes → Outgoing
  fault : Outgoing

abbrev pub then_value : Option Bytes → Outgoing → Outgoing
then_value none rest = fault
then_value (some v) no_case = no_case
then_value (some v) (values vs) = values (v ∷ vs)
then_value (some v) fault = fault

-- The `n` bytes of a structure at offset `i`.
abbrev pub field : Object → ℕ → ℕ → Option Bytes
field o i n = slice i n o.image

-- The first `n` bytes behind the structure's pointer.
abbrev pub content : Object → Option Bytes → Option Bytes
content o none = none
content o (some n) = slice 0 (unle n) o.pointee

-- `pathname` up to its final zero, that one included.
abbrev pub text : Object → Option Bytes → Option Bytes
text o none = none
text o (some t) = slice 0 (length t + 1) o.pointee

-- `strlen(pathname)` bytes from `&pathname`: bytes of the structure, not of the text.
abbrev pub pointer_bytes : Object → Option Bytes → Option Bytes
pointer_bytes o none = none
pointer_bytes o (some t) = field o 0 (length t)

abbrev pub path_values : Object → Outgoing
path_values o =
    then_value (field o 8 4) (then_value (pointer_bytes o (cstring o.pointee)) (values []))

unfoldable pub outgoing : Protocol → Object → Outgoing
outgoing malloc o = then_value (field o 0 4) (then_value (field o 4 4) (values []))
outgoing memfree o = then_value (field o 0 4) (then_value (field o 4 4) (values []))
outgoing get o =
    then_value (field o 0 4) (then_value (field o 4 4) (then_value (field o 8 4) (values [])))
outgoing copy o = then_value (field o 0 4) (
    then_value (field o 4 4)
      (then_value (field o 8 4) (then_value (content o (field o 8 4)) (values []))))
outgoing malloc_ok o = then_value (field o 0 4) (values [])
outgoing get_ok o = then_value (field o 0 8) (then_value (field o 8 4) (values []))
outgoing free_response o = then_value (field o 0 4) (values [])
outgoing read_dir o = then_value (field o 8 4) (then_value (field o 0 1) (values []))
outgoing read o = then_value (field o 8 4) (then_value (text o (cstring o.pointee)) (values []))
outgoing open_file o = path_values o
outgoing get_attr o = path_values o
outgoing create_dir o = path_values o
outgoing write o = path_values o
outgoing rm_dir o = path_values o
outgoing mk_dir o = path_values o
outgoing _ o = no_case

abbrev pub packed : Protocol → Outgoing → Option Bytes
packed p no_case = some []
packed p (values vs) = sent (utils_package_add_all (utils_package_create (code p)) vs)
packed p fault = none

-- The bytes that are sent; `none` is a read outside an object, or a package too large for its `int`.
unfoldable pub utils_serialize_and_send : Protocol → Object → Option Bytes
utils_serialize_and_send p o = packed p (outgoing p o)

-- A deserialised message: a null result that reads nothing, the structure, or a fault.
pub data Incoming : Type 0 where
  null : Incoming
  message : Object → Bytes → Incoming
  lost : Incoming
  fault_in : Incoming
  fuel_in : Incoming

abbrev pub with_values : Received (List Bytes) → (List Bytes → Bytes → Incoming) → Incoming
with_values (received vs rest) k = k vs rest
with_values closed k = lost
with_values overread k = fault_in
with_values out_of_fuel k = fuel_in

abbrev pub as_message : Option Bytes → Bytes → Bytes → Incoming
as_message none p rest = fault_in
as_message (some m) p rest = message (record { image = m; pointee = p }) rest

abbrev pub store_at : Option Bytes → ℕ → Option Bytes → Option Bytes
store_at none i m = none
store_at (some v) i none = none
store_at (some v) i (some m) = overwrite i v m

-- The printing of a MALLOC message copies each value into an `int`.
abbrev pub fit_int : List Bytes → Bool
fit_int [] = true
fit_int (v ∷ vs) = leb (length v) 4 && fit_int vs

abbrev pub with_content : Bytes → Bytes → Option Bytes → Incoming
with_content m rest none = fault_in
with_content m rest (some content) = message (record { image = m; pointee = content }) rest

abbrev pub sized_content : Bytes → Bytes → Option Bytes → (ℕ → Option Bytes) → Incoming
sized_content m rest none k = fault_in
sized_content m rest (some size) k = with_content m rest (k (unle size))

-- Whether utils_receive_and_deserialize has a case for a code.
pub receives : Protocol → Bool
receives malloc = true
receives memfree = true
receives get = true
receives copy = true
receives malloc_ok = true
receives free_response = true
receives get_ok = true
receives get_attr = true
receives read_dir = true
receives read = true
receives open_file = true
receives mk_dir = true
receives create_dir = true
receives write = true
receives rm_dir = true
receives _ = false

module _ (c : Commons) where
  -- utils_get_from_list_to(parameter, list, index), for a parameter at offset `i` of the memory `m`.
  pub utils_get_from_list_to : ℕ → List Bytes → ℕ → Option Bytes → Option Bytes
  utils_get_from_list_to i vs index m = store_at (c.list_get Bytes vs index) i m

  -- The content of a COPY goes into a block of `size` bytes, which malloc returns.
  pub copied : (ℕ → Bytes) → List Bytes → Bytes → Option Bytes → Incoming
  copied alloc vs rest none = fault_in
  copied alloc vs rest (some m) =
      sized_content m rest (slice 8 4 m) λ n. utils_get_from_list_to 0 vs 3 (some (alloc n))

  -- What a case of the switch makes of the values. `alloc n` is what malloc(n) returns, `n` bytes of
  -- any value. A case of the file system copies into the `pathname` of a block that malloc just
  -- returned, a pointer that was never set.
  pub build : (ℕ → Bytes) → Protocol → List Bytes → Bytes → Incoming
  build alloc malloc vs rest =
      if fit_int vs
      then as_message
          (utils_get_from_list_to 4 vs 1 (utils_get_from_list_to 0 vs 0 (some (alloc 8)))) [] rest
      else fault_in
  build alloc memfree vs rest =
      as_message (utils_get_from_list_to 4 vs 1 (utils_get_from_list_to 0 vs 0 (some (alloc 8)))) []
        rest
  build alloc get vs rest =
      as_message
        (utils_get_from_list_to 8 vs 2
          (utils_get_from_list_to 4 vs 1 (utils_get_from_list_to 0 vs 0 (some (alloc 12)))))
        [] rest
  build alloc copy vs rest = copied alloc vs rest (
      utils_get_from_list_to 8 vs 2
        (utils_get_from_list_to 4 vs 1 (utils_get_from_list_to 0 vs 0 (some (alloc 24)))))
  build alloc malloc_ok vs rest =
      as_message (utils_get_from_list_to 0 vs 0 (some (alloc 4))) [] rest
  build alloc free_response vs rest =
      as_message (utils_get_from_list_to 0 vs 0 (some (alloc 4))) [] rest
  build alloc get_ok vs rest =
      as_message (utils_get_from_list_to 8 vs 1 (utils_get_from_list_to 0 vs 0 (some (alloc 16))))
        [] rest
  build alloc _ vs rest = fault_in

  pub utils_receive_and_deserialize : (ℕ → Bytes) → Protocol → Bytes → Incoming
  utils_receive_and_deserialize alloc p input =
      if receives p then with_values (utils_receive_package c input) (build alloc p) else null
