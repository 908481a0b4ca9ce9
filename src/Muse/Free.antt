-- ===== src/Muse/Free.antt =====
-- The handler of MEMFREE of muse_server_init, muse/src/muse.c. `usable n` is the number of bytes that
-- the block of malloc(n) really has, and `base` the address of `memoria`. A `dir` from 2^31 on is
-- negative as an `int`, and no memory reaches so far.
pub mod Walk
pub mod Twice
use threaders.Base.{
  ℕ, zero, suc, ◌+◌, ◌-◌, ◌%◌, Bool, true, false, not, ◌&&◌, ◌||◌, Option, none, some, length, take,
  leb, ltb, ◌==◌, if◌then◌else◌,
}
use threaders.Commons.{Commons}
use threaders.Wire.Bytes.{Bytes, le, unle, slice, overwrite}
use threaders.Wire.Protocol.{code, seg_fault, free_response, t_free_response}
use threaders.Wire.Message.{utils_serialize_and_send}
use threaders.Muse.{Muse, Proceso, filled, existe_proceso_en_lista}
use threaders.Muse.Access.{libre_of}

abbrev pub uint32_mod : ℕ
uint32_mod = 4294967296

abbrev pub pointer_mod : ℕ
pointer_mod = 18446744073709551616

abbrev pub int_limit : ℕ
int_limit = 2147483648

-- The field `size` of a header.
abbrev pub size_of : Bytes → ℕ
size_of header = unle (take 4 header)

abbrev pub zeroes : ℕ → Bytes
zeroes n = filled n 0

-- memset(memoria + i, '\0', n)
abbrev pub memset_zero : ℕ → ℕ → Bytes → Option Bytes
memset_zero i n m = overwrite i (zeroes n) m

-- The memory when the loop is left, an access outside it, or no end of the loop so far.
pub data Walked : Type 0 where
  walked : Bytes → Walked
  walk_fault : Walked
  walking : Walked

abbrev pub with_header : Option Bytes → (Bytes → Walked) → Walked
with_header none k = walk_fault
with_header (some h) k = k h

abbrev pub after_memset : Option Bytes → Walked
after_memset none = walk_fault
after_memset (some m) = walked m

-- The eight bytes at `memoria + desp`, for an `int`.
abbrev pub read_at : ℕ → Bytes → Option Bytes
read_at desp m = if leb int_limit desp then none else slice desp 8 m

-- `memoria + desp + previousHeaderDir->size == dir - 6`, a pointer and an `int`.
abbrev pub meets : ℕ → ℕ → ℕ → ℕ → Bool
meets base dir desp size =
    (base + desp + size) % pointer_mod == (if ltb dir 6 then pointer_mod - 1 else dir - 6)

-- The do-while loop over the headers from `desp` on, for a block at `dir`, 5 or more, whose header now says `size`.
unfoldable pub walk : ℕ → ℕ → ℕ → ℕ → ℕ → Bytes → Walked
walk zero base dir size desp m = walking
walk (suc n) base dir size desp m = with_header (read_at desp m) λ previous.
    let met = meets base dir desp (size_of previous) in
    let next = if met then desp else (desp + size_of previous + 1) % uint32_mod in
    let rest = walk n base dir size next m in
    if met && not (libre_of previous == 0)
    then after_memset (memset_zero (desp + 5) ((size_of previous + size) % uint32_mod) m)
    else if leb int_limit next || ltb next (dir - 5)
    then rest
    else walked m

-- How a MEMFREE ends.
pub data Freed : Type 0 where
  freed : Muse → Option Bytes → Freed
  free_fault : Freed
  freeing : Freed

abbrev pub answer_freed : Muse → Walked → Freed
answer_freed m (walked memoria) =
    freed (record m { memoria = memoria })
      (utils_serialize_and_send free_response (t_free_response 1))
answer_freed m walk_fault = free_fault
answer_freed m walking = freeing

abbrev pub and_walk : Option Bytes → (Bytes → Walked) → Walked
and_walk none k = walk_fault
and_walk (some m) k = k m

-- What follows the header of the block behind, `closest`: if it is free, its size is added and as many bytes cleared.
abbrev pub join_closest : ℕ → ℕ → ℕ → ℕ → Bytes → Option Bytes → Walked
join_closest fuel base dir size m none = walk_fault
join_closest fuel base dir size m (some closest) =
    if libre_of closest == 0
    then walk fuel base dir size 0 m
    else (let joined = (size + size_of closest) % uint32_mod in
        and_walk (memset_zero (dir + joined) joined m) (walk fuel base dir joined 0))

-- A block that is in use: its bytes are cleared from five behind its start.
abbrev pub clear_block : ℕ → ℕ → ℕ → ℕ → Bytes → Walked
clear_block fuel base dir size m =
    and_walk (memset_zero (dir + 5) size m)
      λ cleared. join_closest fuel base dir size cleared (slice (dir + size) 8 cleared)

abbrev pub send_seg_fault : Muse → Freed
send_seg_fault m = freed m (some (le 4 (code seg_fault)))

abbrev pub free_header : ℕ → ℕ → ℕ → Muse → Option Bytes → Freed
free_header fuel base dir m none = free_fault
free_header fuel base dir m (some header) =
    if libre_of header == 0
    then answer_freed m (clear_block fuel base dir (size_of header) m.memoria)
    else send_seg_fault m

-- `header` points to a block of malloc(5), and eight bytes are copied into it.
abbrev pub free_block : (ℕ → ℕ) → ℕ → ℕ → ℕ → Muse → Option Proceso → Freed
free_block usable fuel base dir m none = send_seg_fault m
free_block usable fuel base dir m (some p) =
    free_header fuel base dir m
      (if ltb (usable 5) 8 || ltb dir 5 then none else slice (dir - 5) 8 m.memoria)

unfoldable pub handle_memfree : Commons → (ℕ → ℕ) → ℕ → ℕ → Muse → ℕ → ℕ → Freed
handle_memfree c usable fuel base m dir self_id =
    free_block usable fuel base dir m (existe_proceso_en_lista c m self_id)
