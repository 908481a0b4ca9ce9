-- ===== src/Libmuse.antt =====
-- libmuse/libmuse.c: the calls by which a program uses the memory server. Each is the bytes that it sends
-- and what it makes of the bytes that come back. A null structure and an access outside one are faults.
pub mod Served
pub mod Fetched
pub mod Granted
pub mod Copied
mod Examples
use threaders.Base.{
  ℕ, ◌%◌, Option, none, some, List, [], ◌∷◌, ◌++◌, ℤ, pos, negsuc, length, take, drop, leb, ◌==◌,
  if◌then◌else◌,
}
use threaders.Commons.{Commons}
use threaders.Wire.Bytes.{Bytes, le, unle, slice}
use threaders.Wire.Protocol.{
  Protocol, code, malloc, memfree, copy, get, malloc_ok, free_response, get_ok, seg_fault, selected,
  Object, field_at, t_malloc, t_free, t_get, t_copy,
}
use threaders.Wire.Message.{
  Incoming, null, message, lost, fault_in, fuel_in, utils_serialize_and_send,
  utils_receive_and_deserialize,
}

abbrev pub status_of : ℤ → ℤ
status_of (pos fd) = pos 0
status_of (negsuc n) = negsuc 0

-- The global `muse_fd`, and the result. `connect` is socket_connect_to_server; a descriptor that is
-- negative is closed again.
unfoldable pub muse_init : (List ℕ → ℕ → ℤ) → List ℕ → ℕ → ℤ × ℤ
muse_init connect ip puerto = (connect ip puerto, status_of (connect ip puerto))

abbrev pub size_t_to_int : ℕ → ℕ
size_t_to_int n = n % 4294967296

unfoldable pub muse_alloc_request : ℕ → ℕ → Option Bytes
muse_alloc_request pid tam = utils_serialize_and_send malloc (t_malloc tam pid)

unfoldable pub muse_free_request : ℕ → ℕ → Option Bytes
muse_free_request pid dir = utils_serialize_and_send memfree (t_free dir pid)

unfoldable pub muse_get_request : ℕ → ℕ → ℕ → Option Bytes
muse_get_request pid src n = utils_serialize_and_send get (t_get src pid (size_t_to_int n))

-- `padding` and `address` are the bytes of the structure that no field of the message holds.
unfoldable pub muse_cpy_request : ℕ → ℕ → ℕ → Bytes → ℕ → ℕ → Option Bytes
muse_cpy_request pid padding address src dst n =
    utils_serialize_and_send copy (t_copy dst pid n padding address src)

-- What a call returns, with the bytes behind the answer; the end of the connection within a message; the end of a function
-- without a return; a fault.
pub data Reply (A : Type 0) : Type 0 where
  returned : A → Bytes → Reply A
  hung_up : Reply A
  unreturned : Reply A
  reply_fault : Reply A

abbrev pub with_object : {A : Type 0} → Incoming → (Object → Bytes → Reply A) → Reply A
with_object null k = reply_fault
with_object (message o rest) k = k o rest
with_object lost k = hung_up
with_object fault_in k = reply_fault
with_object fuel_in k = reply_fault

-- `recv` into the variable that holds the code of the request: of it stays what is not overwritten.
abbrev pub with_reply :
    {A : Type 0} → Protocol → Bytes → (Option Protocol → Bytes → Reply A) → Reply A
with_reply p input k =
    k (selected (unle (take 4 (input ++ drop (length input) (le 4 (code p)))))) (drop 4 input)

abbrev pub stored_reply : Option Bytes → Bytes → Reply (ℤ × Bytes)
stored_reply none rest = reply_fault
stored_reply (some bytes) rest = returned (pos 0, bytes) rest

module _ (c : Commons) (alloc : ℕ → Bytes) where
  abbrev pub receive : {A : Type 0} → Protocol → Bytes → (Object → Bytes → Reply A) → Reply A
  receive p rest = with_object (utils_receive_and_deserialize c alloc p rest)

  -- The address, as 32 bits; -1 is 2^32 - 1.
  abbrev pub alloc_case : Option Protocol → Bytes → Reply ℕ
  alloc_case (some malloc_ok) rest = receive malloc_ok rest λ o rest. returned (field_at o 0) rest
  alloc_case (some seg_fault) rest = returned 4294967295 rest
  alloc_case p rest = unreturned

  unfoldable pub muse_alloc_reply : Bytes → Reply ℕ
  muse_alloc_reply input = with_reply malloc input alloc_case

  -- muse_free returns nothing; the flag is whether it reports success, and any other answer is passed over.
  abbrev pub free_case : Option Protocol → Bytes → Reply (Option ℕ)
  free_case (some free_response) rest =
      receive free_response rest λ o rest. returned (some (field_at o 0)) rest
  free_case p rest = returned none rest

  unfoldable pub muse_free_reply : Bytes → Reply (Option ℕ)
  muse_free_reply input = with_reply memfree input free_case

  -- `tamres` bytes from the field `res` on go to `dst`, whatever size was asked for.
  abbrev pub get_case : Option Protocol → Bytes → Reply (ℤ × Bytes)
  get_case (some get_ok) rest =
      receive get_ok rest λ o rest. stored_reply (slice 0 (field_at o 8) o.image) rest
  get_case (some seg_fault) rest = returned (negsuc 0, []) rest
  get_case p rest = unreturned

  unfoldable pub muse_get_reply : Bytes → Reply (ℤ × Bytes)
  muse_get_reply input = with_reply get input get_case

  -- Any code is taken; without a case for it the structure is null.
  abbrev pub cpy_case : Option Protocol → Bytes → Reply ℤ
  cpy_case none rest = reply_fault
  cpy_case (some p) rest =
      receive p rest λ o rest. returned (if field_at o 0 == 1 then pos 0 else negsuc 0) rest

  unfoldable pub muse_cpy_reply : Bytes → Reply ℤ
  muse_cpy_reply input = with_reply copy input cpy_case

-- The three calls on mapped files do nothing.
unfoldable pub muse_map : List ℕ → ℕ → ℕ → ℕ
muse_map path length flags = 0

unfoldable pub muse_sync : ℕ → ℕ → ℕ
muse_sync addr len = 0

unfoldable pub muse_unmap : ℕ → ℕ
muse_unmap dir = 0
