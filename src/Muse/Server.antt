-- ===== src/Muse/Server.antt =====
-- One round of the loop of muse_server_init, muse/src/muse.c.
pub mod Sound
pub mod Pages
pub mod Reached
use threaders.Base.{ℕ, Option, none, some, [], ◌∷◌, ◌++◌, length, take, drop}
use threaders.Commons.{Commons}
use threaders.Wire.Bytes.{Bytes, unle}
use threaders.Wire.Protocol.{Protocol, malloc, memfree, get, copy, selected, Object, field_at}
use threaders.Wire.Message.{
  Incoming, null, message, lost, fault_in, fuel_in, utils_receive_and_deserialize,
}
use threaders.Muse.{Muse}
use threaders.Muse.Access.{Handled, handled, fault, Behind, handle_get, handle_copy}
use threaders.Muse.Free.{Freed, freed, free_fault, freeing, handle_memfree}
use threaders.Muse.Alloc.{Recorrer, Allocated, allocated, alloc_fault, handle_malloc}

-- What the handlers get from outside: malloc with the bytes that it returns and the room that its blocks
-- really have, the address of the memory, the page size, fuel for MEMFREE, the padding of a t_get_ok, and what
-- the block of a t_copy_response holds behind its four bytes.
pub record Environment : Type 0 where
  pub alloc : ℕ → Bytes
  pub usable : ℕ → ℕ
  pub base : ℕ
  pub page_size : ℕ
  pub fuel : ℕ
  pub padding : ℕ
  pub behind : Behind
  pub recorer : Recorrer

-- The state after a round, the bytes that it sent, and those that are still to be read; or the end of the connection,
-- at its start or within a message, an access outside an object, or a MEMFREE without an end so far.
pub data Round : Type 0 where
  round : Muse → Bytes → Bytes → Round
  disconnected : Round
  torn : Round
  crashed : Round
  running : Round

abbrev pub sent_round : Muse → Option Bytes → Bytes → Round
sent_round m none rest = crashed
sent_round m (some bytes) rest = round m bytes rest

abbrev pub allocated_round : Allocated → Bytes → Round
allocated_round (allocated m sent) rest = sent_round m sent rest
allocated_round alloc_fault rest = crashed

abbrev pub freed_round : Freed → Bytes → Round
freed_round (freed m sent) rest = sent_round m sent rest
freed_round free_fault rest = crashed
freed_round freeing rest = running

abbrev pub handled_round : Handled → Bytes → Round
handled_round (handled m sent) rest = sent_round m sent rest
handled_round fault rest = crashed

-- A handler reads its structure through a pointer, which is null for no message.
abbrev pub with_message : Incoming → (Object → Bytes → Round) → Round
with_message null k = crashed
with_message (message o rest) k = k o rest
with_message lost k = torn
with_message fault_in k = crashed
with_message fuel_in k = running

module _ (c : Commons) (e : Environment) where
  abbrev pub receive : Protocol → Bytes → (Object → Bytes → Round) → Round
  receive p rest = with_message (utils_receive_and_deserialize c e.alloc p rest)

  -- HANDSHAKE only logs; SYNC, MAP and UNMAP are empty, and the other codes have no case.
  unfoldable pub dispatch_message : Muse → Option Protocol → Bytes → Round
  dispatch_message m (some malloc) rest = receive malloc rest λ o rest.
      allocated_round (handle_malloc c e.recorer e.page_size m (field_at o 0) (field_at o 4)) rest
  dispatch_message m (some memfree) rest = receive memfree rest λ o rest.
      freed_round (handle_memfree c e.usable e.fuel e.base m (field_at o 0) (field_at o 4)) rest
  dispatch_message m (some get) rest =
      receive get rest
        λ o rest. handled_round (handle_get c m e.padding (field_at o 0) (field_at o 4)) rest
  dispatch_message m (some copy) rest = receive copy rest λ o rest.
      handled_round
        (handle_copy c e.behind m (field_at o 0) (field_at o 4) (field_at o 8) o.pointee) rest
  dispatch_message m p rest = round m [] rest

  -- `held` are the four bytes of the variable `protocol` before: fewer bytes overwrite the first of them.
  unfoldable pub serve : Bytes → Muse → Bytes → Round
  serve held m [] = disconnected
  serve held m (b ∷ input) =
      let read = b ∷ input in
      dispatch_message m (selected (unle (take 4 (read ++ drop (length read) held)))) (drop 4 read)
