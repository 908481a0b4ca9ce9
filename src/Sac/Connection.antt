-- ===== src/Sac/Connection.antt =====
-- handle_connection of sac_server/src/sac_server.c: the requests of one client.
pub mod Ends
use threaders.Base.{
  ℕ, zero, suc, Bool, true, false, Option, none, some, List, [], ◌∷◌, ◌++◌, length, take, drop,
}
use threaders.Commons.{Commons}
use threaders.Wire.Bytes.{Bytes, unle, cstring}
use threaders.Wire.Protocol.{
  Protocol, selected, Object, read_dir, get_attr, read, open_file, mk_dir, create_dir, write,
  rm_dir,
}
use threaders.Wire.Message.{
  Incoming, null, message, lost, fault_in, fuel_in, utils_receive_and_deserialize,
}

-- How the loop ends: the client has gone, between messages or within one; an access outside an object;
-- or not so far.
pub data Connection : Type 0 where
  disconnected : Connection
  torn : Connection
  crashed : Connection
  serving : Connection

-- The codes of the switch. OPEN is `open_file`.
abbrev pub has_case : Protocol → Bool
has_case read_dir = true
has_case get_attr = true
has_case read = true
has_case open_file = true
has_case mk_dir = true
has_case create_dir = true
has_case write = true
has_case rm_dir = true
has_case p = false

-- The log prints the path, up to its final zero.
abbrev pub printed : Option Bytes → Connection → Connection
printed none next = crashed
printed (some t) next = next

abbrev pub logged : Incoming → (Bytes → Connection) → Connection
logged null next = crashed
logged (message o rest) next = printed (cstring o.pointee) (next rest)
logged lost next = torn
logged fault_in next = crashed
logged fuel_in next = serving

module _ (c : Commons) (alloc : ℕ → Bytes) where
  abbrev pub in_case : Bool → Protocol → Bytes → (Bytes → Connection) → Connection
  in_case true p rest next = logged (utils_receive_and_deserialize c alloc p rest) next
  in_case false p rest next = next rest

  abbrev pub handle_code : Option Protocol → Bytes → (Bytes → Connection) → Connection
  handle_code none rest next = next rest
  handle_code (some p) rest next = in_case (has_case p) p rest next

  -- `held` are the four bytes of the variable `protocol` before: fewer bytes overwrite the first of them.
  unfoldable pub handle_connection : ℕ → Bytes → Bytes → Connection
  handle_connection n held [] = disconnected
  handle_connection zero held (b ∷ input) = serving
  handle_connection (suc n) held (b ∷ input) =
      let protocol = take 4 ((b ∷ input) ++ drop (length (b ∷ input)) held) in
      handle_code (selected (unle protocol)) (drop 4 (b ∷ input))
        λ rest. handle_connection n protocol rest
