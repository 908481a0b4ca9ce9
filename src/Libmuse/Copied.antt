-- ===== src/Libmuse/Copied.antt =====
-- muse_cpy of libmuse/libmuse.c, the COPY of muse/src/muse.c, and a muse_get of the same place.
use threaders.Base.{ℕ, ◌≡◌, some, ◌++◌, pos, length, take, drop, []}
use threaders.Commons.{Commons}
use threaders.Wire.Bytes.{Bytes, le, slice}
use threaders.Wire.Protocol.{Object}
use threaders.Wire.Message.Delivered.{Delivered}
use threaders.Muse.{Muse}
use threaders.Muse.Server.{Environment, round, serve}
use threaders.Libmuse.{returned, muse_cpy_request, muse_cpy_reply}
use threaders.Libmuse.Fetched.{Fetched}

-- The structure that a t_get_ok makes of it, with another padding.
abbrev response : ℕ → ℕ → Object
response a b = record { image = (le 4 1 ++ le 4 a) ++ (le 4 b ++ le 4 0); pointee = [] }

-- A muse_cpy and the round of the server that it meets, with what the call returns, whatever follows on
-- the two connections; and a muse_get of the same place in the state behind it.
pub record Copied (c : Commons) (e : Environment) (alloc : ℕ → Bytes) (held : Bytes) (m : Muse)
    (pid padding address dst n : ℕ) (src more rest : Bytes) : Type 0 where
  pub request : Bytes
  pub answer : Bytes
  pub after : Muse
  pub sends : muse_cpy_request pid padding address src dst (length src) ≡ some request
  pub serves : serve c e held m (request ++ more) ≡ round after answer more
  pub returns : muse_cpy_reply c alloc (answer ++ rest) ≡ returned (pos 0) rest
  pub holds : slice dst (length src) after.memoria ≡ some src
  pub read : Fetched c e alloc held after pid dst n more rest
  pub front : take 4 (drop dst after.memoria) ≡ take 4 src
