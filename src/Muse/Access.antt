-- ===== src/Muse/Access.antt =====
-- The handlers of GET and COPY of muse_server_init, muse/src/muse.c. The structures that a handler
-- gets are those that utils_receive_and_deserialize made; numbers are their 32-bit values, unsigned.
pub mod ReadBack
pub mod Answers
use threaders.Base.{
  ℕ, ◌+◌, ◌-◌, Option, none, some, List, [], ◌∷◌, ◌++◌, length, take, drop, leb, ltb, ◌==◌,
  if◌then◌else◌, get_elem?,
}
use threaders.Commons.{Commons}
use threaders.Wire.Bytes.{Bytes, le, slice, overwrite}
use threaders.Wire.Protocol.{Protocol, code, seg_fault, get_ok, Object, t_copy_response}
use threaders.Wire.Message.{utils_serialize_and_send}
use threaders.Muse.{Muse, Proceso, existe_proceso_en_lista, procesar_id}

-- The state that a handler leaves and the bytes that it sends, `none` where the sending reads
-- outside a structure; or an access outside the memory.
pub data Handled : Type 0 where
  handled : Muse → Option Bytes → Handled
  fault : Handled

-- The structure of a GET_OK answer: eight bytes, their size that is always that of an `int`, and padding.
abbrev pub get_response : Bytes → ℕ → Object
get_response bytes padding = record { image = bytes ++ (le 4 4 ++ le 4 padding); pointee = [] }

-- The eight bytes are copied over the pointer `content` itself.
abbrev pub send_got : Muse → ℕ → Option Bytes → Handled
send_got m padding none = fault
send_got m padding (some bytes) =
    handled m (utils_serialize_and_send get_ok (get_response bytes padding))

abbrev pub get_from : Muse → ℕ → ℕ → Option Proceso → Handled
get_from m padding src none = handled m (some (le 4 (code seg_fault)))
get_from m padding src (some p) = send_got m padding (slice src 8 m.memoria)

-- A failed COPY answers with -1.
abbrev pub copy_failed : Muse → Handled
copy_failed m = handled m (utils_serialize_and_send seg_fault (t_copy_response 4294967295))

-- What the block of malloc(4) holds behind its four bytes, as two numbers, where it has room for them.
abbrev pub Behind : Type 0
Behind = Option (ℕ × ℕ)

-- A t_copy_response as GET_OK reads it, twelve bytes.
abbrev pub copy_response : Behind → Object
copy_response none = t_copy_response 1
copy_response (some (a, b)) = record { image = le 4 1 ++ (le 4 a ++ le 4 b); pointee = [] }

abbrev pub copy_done : Behind → Muse → Option Bytes → Handled
copy_done behind m none = fault
copy_done behind m (some memoria) =
    handled (record m { memoria = memoria })
      (utils_serialize_and_send get_ok (copy_response behind))

abbrev pub and_store : Option Bytes → ℕ → Option Bytes → Option Bytes
and_store none i v = none
and_store (some m) i none = none
and_store (some m) i (some v) = overwrite i v m

-- A size from 2^31 on is negative, and no block holds so many bytes as memcpy takes it for.
abbrev pub bytes_of : Bytes → ℕ → Option Bytes
bytes_of content size = if leb 2147483648 size then none else slice 0 size content

abbrev pub byte_or_zero : Option ℕ → ℕ
byte_or_zero none = 0
byte_or_zero (some b) = b

-- The flag `libre` of a header.
abbrev pub libre_of : Bytes → ℕ
libre_of heap = byte_or_zero (get_elem? heap 4)

-- The header is five bytes: the size, and the flag `libre`. The size is set, and with the flag written back.
abbrev pub copy_over : Behind → Muse → ℕ → ℕ → Bytes → Option Bytes → Handled
copy_over behind m dst size content none = fault
copy_over behind m dst size content (some heap) =
    if libre_of heap == 0
    then copy_done behind m (
        and_store (overwrite (dst - 5) (le 4 size ++ drop 4 heap) m.memoria) dst
          (bytes_of content size))
    else copy_failed m

abbrev pub header_at : ℕ → Bytes → Option Bytes
header_at dst memoria = if ltb dst 5 then none else slice (dst - 5) 5 memoria

abbrev pub copy_to : Behind → Muse → ℕ → ℕ → Bytes → Option Proceso → Handled
copy_to behind m dst size content none = copy_failed m
copy_to behind m dst size content (some p) =
    copy_over behind m dst size content (header_at dst m.memoria)

module _ (c : Commons) where
  -- The size that a GET asks for is used for a block that nobody reads.
  unfoldable pub handle_get : Muse → ℕ → ℕ → ℕ → Handled
  handle_get m padding src id_libmuse =
      let known = (procesar_id c m id_libmuse).0 in
      get_from known padding src (existe_proceso_en_lista c known id_libmuse)

  unfoldable pub handle_copy : Behind → Muse → ℕ → ℕ → ℕ → Bytes → Handled
  handle_copy behind m dst self_id size content =
      let known = (procesar_id c m self_id).0 in
      copy_to behind known dst size content (existe_proceso_en_lista c known self_id)
