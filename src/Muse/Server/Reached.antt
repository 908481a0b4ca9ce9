-- ===== src/Muse/Server/Reached.antt =====
-- The frames and pages of muse/src/muse.c in every state that the rounds of the memory server reach.
use threaders.Base.{◌++◌, drop, take, length, ℕ, ◌≡◌, Option, none, some, [], ◌∷◌, subst}
use threaders.Commons.{Commons, Documented}
use threaders.Wire.Bytes.{Bytes, unle}
use threaders.Wire.Protocol.{Protocol, malloc, memfree, get, copy, selected, Object, field_at}
use threaders.Wire.Message.{
  utils_receive_and_deserialize, Incoming, null, message, lost, fault_in, fuel_in,
}
use threaders.Muse.{Muse, muse_init, procesar_id, existe_proceso_en_lista}
use threaders.Muse.Frames.Isolated.{muse_init-Isolated}
use threaders.Muse.Access.{Handled, handled, fault, handle_get, handle_copy}
use threaders.Muse.Free.{Freed, freed, free_fault, freeing, handle_memfree}
use threaders.Muse.Alloc.{Allocated, allocated, alloc_fault, handle_malloc}
use threaders.Muse.Server.{
  Environment, Round, round, disconnected, torn, crashed, running, sent_round, allocated_round,
  freed_round, handled_round, with_message, dispatch_message, serve,
}
use threaders.Muse.Server.Sound.{
  Sound, SoundHandled, SoundFreed, known-Sound, get_from-Sound, copy_to-Sound, free_block-Sound,
}
use threaders.Muse.Server.Pages.{SoundAllocated, handle_malloc-Sound}

abbrev pub SoundRound : Round → Type 0
SoundRound (round m sent rest) = Sound m
SoundRound disconnected = Unit {0}
SoundRound torn = Unit {0}
SoundRound crashed = Unit {0}
SoundRound running = Unit {0}

sent_round-Sound :
    (m : Muse) (o : Option Bytes) (rest : Bytes) → Sound m → SoundRound (sent_round m o rest)
sent_round-Sound m none rest v = tt
sent_round-Sound m (some bytes) rest v = v

allocated_round-Sound :
    (a : Allocated) (rest : Bytes) → SoundAllocated a → SoundRound (allocated_round a rest)
allocated_round-Sound (allocated m o) rest v = sent_round-Sound m o rest v
allocated_round-Sound alloc_fault rest v = tt

freed_round-Sound : (a : Freed) (rest : Bytes) → SoundFreed a → SoundRound (freed_round a rest)
freed_round-Sound (freed m o) rest v = sent_round-Sound m o rest v
freed_round-Sound free_fault rest v = tt
freed_round-Sound freeing rest v = tt

handled_round-Sound :
    (a : Handled) (rest : Bytes) → SoundHandled a → SoundRound (handled_round a rest)
handled_round-Sound (handled m o) rest v = sent_round-Sound m o rest v
handled_round-Sound fault rest v = tt

with_message-Sound :
    (i : Incoming) (k : Object → Bytes → Round)
    → ((o : Object) (rest : Bytes) → SoundRound (k o rest))
    → SoundRound (with_message i k)
with_message-Sound null k h = tt
with_message-Sound (message o rest) k h = h o rest
with_message-Sound lost k h = tt
with_message-Sound fault_in k h = tt
with_message-Sound fuel_in k h = tt

module _ {c : Commons} (d : Documented c) (e : Environment) where
  dispatch_message-Sound :
      (m : Muse) (p : Option Protocol) (rest : Bytes)
      → Sound m
      → SoundRound (dispatch_message c e m p rest)
  unfolding dispatch_message handle_memfree handle_get handle_copy
  dispatch_message-Sound m (some malloc) rest v =
      with_message-Sound (utils_receive_and_deserialize c e.alloc malloc rest) _ λ o more.
        allocated_round-Sound
          (handle_malloc c e.recorer e.page_size m (field_at o 0) (field_at o 4)) more
          (handle_malloc-Sound e.recorer e.page_size d m (field_at o 0) (field_at o 4) v)
  dispatch_message-Sound m (some memfree) rest v =
      with_message-Sound (utils_receive_and_deserialize c e.alloc memfree rest) _ λ o more.
        freed_round-Sound (handle_memfree c e.usable e.fuel e.base m (field_at o 0) (field_at o 4))
          more
          (free_block-Sound e.usable e.fuel e.base (field_at o 0) m
            (existe_proceso_en_lista c m (field_at o 4)) v)
  dispatch_message-Sound m (some get) rest v =
      with_message-Sound (utils_receive_and_deserialize c e.alloc get rest) _ λ o more.
        let known = (procesar_id c m (field_at o 4)).0 in
        handled_round-Sound (handle_get c m e.padding (field_at o 0) (field_at o 4)) more (
          get_from-Sound known e.padding (field_at o 0)
            (existe_proceso_en_lista c known (field_at o 4)) (known-Sound c m (field_at o 4) v))
  dispatch_message-Sound m (some copy) rest v =
      with_message-Sound (utils_receive_and_deserialize c e.alloc copy rest) _ λ o more.
        let known = (procesar_id c m (field_at o 4)).0 in
        handled_round-Sound
          (handle_copy c e.behind m (field_at o 0) (field_at o 4) (field_at o 8) o.pointee) more
          (copy_to-Sound e.behind known (field_at o 0) (field_at o 8) o.pointee
            (existe_proceso_en_lista c known (field_at o 4)) (known-Sound c m (field_at o 4) v))
  dispatch_message-Sound m _ rest v = v

  pub serve-Sound :
      (held : Bytes) (m : Muse) (input : Bytes) → Sound m → SoundRound (serve c e held m input)
  unfolding serve
  serve-Sound held m [] v = tt
  serve-Sound held m (b ∷ input) v =
      let read = b ∷ input in
      dispatch_message-Sound m (selected (unle (take 4 (read ++ drop (length read) held))))
        (drop 4 read) v

-- The states after muse_init and any number of rounds, with any bytes coming in.
pub data Reached (c : Commons) (e : Environment) : Muse → Type 0 where
  initial :
      (memory_size swap_size : ℕ)
      → Reached c e (muse_init c e.alloc memory_size e.page_size swap_size)
  served :
      {m after : Muse} (held input sent rest : Bytes)
      → Reached c e m
      → serve c e held m input ≡ round after sent rest
      → Reached c e after

-- With the list operations as documented, in every state that the memory server reaches from muse_init, whatever bytes
-- come in and whatever recorer_segmento_espacio_libre does to the memory: as many frames as pages are free, a page that
-- is taken has a frame that is taken, and no two taken pages share a frame.
pub Reached-Sound :
    {c : Commons} → Documented c → (e : Environment) (m : Muse) → Reached c e m → Sound m
Reached-Sound {c} d e m (initial memory_size swap_size) =
    muse_init-Isolated c e.alloc memory_size e.page_size swap_size []
Reached-Sound {c} d e after (served {m} held input sent rest r h) =
    subst SoundRound h (serve-Sound d e held m input (Reached-Sound d e m r))
