-- ===== src/Libmuse/Granted.antt =====
-- muse_alloc of libmuse/libmuse.c and the MALLOC of muse/src/muse.c together.
use threaders.Base.{◌%◌, ℕ, ◌≡◌, some, ◌++◌}
use threaders.Commons.{Commons}
use threaders.Wire.Bytes.{Bytes}
use threaders.Wire.Protocol.{malloc_ok, t_malloc_ok}
use threaders.Wire.Message.{utils_serialize_and_send}
use threaders.Wire.Message.RoundTrip.{allocated as granted}
use threaders.Muse.{Muse}
use threaders.Muse.Alloc.{Allocated, allocated, alloc_fault}
use threaders.Muse.Server.{Round, round, disconnected, torn, crashed, running}
use threaders.Libmuse.{returned, muse_alloc_reply}

-- The answer is a MALLOC_OK.
abbrev pub Granted : Allocated → Type 0
Granted (allocated m sent) =
    (ptr : ℕ) × (sent ≡ utils_serialize_and_send malloc_ok (t_malloc_ok ptr))
Granted alloc_fault = Unit {0}

-- The round leaves what follows the request, sends the MALLOC_OK of an address and no more, and muse_alloc returns the
-- low 32 bits of that address, with nothing of the answer left; or the server stops without an answer.
abbrev pub Obtained : Commons → (ℕ → Bytes) → Bytes → Bytes → Round → Type 0
Obtained c alloc more behind (round after sent rest) =
    (rest ≡ more)
    × (ptr : ℕ) × (utils_serialize_and_send malloc_ok (t_malloc_ok ptr) ≡ some sent)
    × (muse_alloc_reply c alloc (sent ++ behind) ≡ returned (ptr % 4294967296) behind)
Obtained c alloc more behind disconnected = ⊥
Obtained c alloc more behind torn = ⊥
Obtained c alloc more behind crashed = Unit {0}
Obtained c alloc more behind running = ⊥
