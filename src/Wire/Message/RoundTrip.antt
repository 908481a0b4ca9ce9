-- ===== src/Wire/Message/RoundTrip.antt =====
-- What is sent by utils_serialize_and_send of shared-common/common/utils.c is what
-- utils_receive_and_deserialize makes of it on the other side.
use threaders.Base.{ℕ, ◌<◌, refl, length}
use threaders.Commons.{Commons, Documented, reference, for_documented}
use threaders.Wire.Bytes.{Bytes, le}
use threaders.Wire.Protocol.{
  Protocol, Object, malloc, memfree, copy, get, malloc_ok, free_response, get_ok, t_malloc, t_free,
  t_get, t_copy, t_malloc_ok, t_free_response, t_get_ok,
}
use threaders.Wire.Message.Delivered.{
  Allocates, Delivered, malloc-Delivered, memfree-Delivered, get-Delivered, malloc_ok-Delivered,
  free_response-Delivered, get_ok-Delivered, copy-Delivered,
}

-- The messages of the memory server, with the fields of their structures.
pub data Sent : Type 0 where
  allocate : (tam id : ℕ) → Sent
  release : (dir id : ℕ) → Sent
  fetch : (src id size : ℕ) → Sent
  place : (dst id padding address : ℕ) (content : Bytes) → Sent
  allocated : (ptr : ℕ) → Sent
  released : (res : ℕ) → Sent
  fetched : (res tamres padding : ℕ) → Sent

abbrev pub protocol_of : Sent → Protocol
protocol_of (allocate tam id) = malloc
protocol_of (release dir id) = memfree
protocol_of (fetch src id size) = get
protocol_of (place dst id padding address content) = copy
protocol_of (allocated ptr) = malloc_ok
protocol_of (released res) = free_response
protocol_of (fetched res tamres padding) = get_ok

-- The size field of a COPY is the size of its content.
abbrev pub object_of : Sent → Object
object_of (allocate tam id) = t_malloc tam id
object_of (release dir id) = t_free dir id
object_of (fetch src id size) = t_get src id size
object_of (place dst id padding address content) =
    t_copy dst id (length content) padding address content
object_of (allocated ptr) = t_malloc_ok ptr
object_of (released res) = t_free_response res
object_of (fetched res tamres padding) = t_get_ok res tamres padding

-- The bytes of the structure that hold its values: no padding, and no pointer.
abbrev pub width_of : Sent → ℕ
width_of (allocate tam id) = 8
width_of (release dir id) = 8
width_of (fetch src id size) = 12
width_of (place dst id padding address content) = 12
width_of (allocated ptr) = 4
width_of (released res) = 4
width_of (fetched res tamres padding) = 12

-- The size of a content is a positive `int`.
abbrev pub FitsInt : Sent → Type 0
FitsInt (place dst id padding address content) = length content < 2147483620
FitsInt _ = Unit {0}

sent-Delivered :
    (alloc : ℕ → Bytes) (a : Allocates alloc) (more : Bytes) (m : Sent)
    → FitsInt m
    → Delivered reference alloc (width_of m) (protocol_of m) (object_of m) more
sent-Delivered alloc a more (allocate tam id) h = malloc-Delivered alloc a more tam id
sent-Delivered alloc a more (release dir id) h = memfree-Delivered alloc a more dir id
sent-Delivered alloc a more (fetch src id size) h = get-Delivered alloc a more src id size
sent-Delivered alloc a more (place dst id padding address content) h =
    copy-Delivered alloc a more dst id padding address content h
sent-Delivered alloc a more (allocated ptr) h = malloc_ok-Delivered alloc a more ptr
sent-Delivered alloc a more (released res) h = free_response-Delivered alloc a more res
sent-Delivered alloc a more (fetched res tamres padding) h =
    get_ok-Delivered alloc a more (le 8 res) tamres padding refl

pub utils_receive_and_deserialize-serialize :
    {c : Commons} {alloc : ℕ → Bytes} (more : Bytes) (m : Sent)
    → Documented c
    → Allocates alloc
    → FitsInt m
    → Delivered c alloc (width_of m) (protocol_of m) (object_of m) more
utils_receive_and_deserialize-serialize {alloc} more m d a h =
    for_documented (λ c. Delivered c alloc (width_of m) (protocol_of m) (object_of m) more) d
      (sent-Delivered alloc a more m h)
