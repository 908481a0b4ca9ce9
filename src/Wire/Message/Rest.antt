-- ===== src/Wire/Message/Rest.antt =====
-- What utils_receive_and_deserialize of shared-common/common/utils.c leaves on a connection.
use threaders.Base.{
  ℕ, ◌≤◌, ◌≡◌, ap, Bool, true, false, Option, none, some, List, [], length, if◌then◌else◌,
}
use threaders.Commons.{Commons}
use threaders.Wire.Bytes.{Bytes, unle, slice}
use threaders.Wire.Protocol.{Protocol}
use threaders.Wire.Package.{
  Received, received, closed, overread, out_of_fuel, utils_receive_package,
}
use threaders.Wire.Package.Rest.{Leaves, utils_receive_package-Leaves, utils_receive_package-empty}
use threaders.Wire.Message.{
  Incoming, null, message, lost, fault_in, fuel_in, with_values, as_message, fit_int, with_content,
  sized_content, copied, build, receives, utils_receive_and_deserialize,
}

-- No more than `n` bytes are left.
abbrev pub LeavesIn : ℕ → Incoming → Type 0
LeavesIn n (message o rest) = length rest ≤ n
LeavesIn n null = Unit {0}
LeavesIn n lost = Unit {0}
LeavesIn n fault_in = Unit {0}
LeavesIn n fuel_in = Unit {0}

module _ (n : ℕ) where
  if-LeavesIn :
      (b : Bool) (i j : Incoming) → LeavesIn n i → LeavesIn n j → LeavesIn n (if b then i else j)
  if-LeavesIn true i j h k = h
  if-LeavesIn false i j h k = k

  as_message-LeavesIn :
      (o : Option Bytes) (p rest : Bytes) → length rest ≤ n → LeavesIn n (as_message o p rest)
  as_message-LeavesIn none p rest h = tt
  as_message-LeavesIn (some m) p rest h = h

  with_content-LeavesIn :
      (m rest : Bytes) (o : Option Bytes) → length rest ≤ n → LeavesIn n (with_content m rest o)
  with_content-LeavesIn m rest none h = tt
  with_content-LeavesIn m rest (some content) h = h

  sized_content-LeavesIn :
      (m rest : Bytes) (o : Option Bytes) (k : ℕ → Option Bytes)
      → length rest ≤ n
      → LeavesIn n (sized_content m rest o k)
  sized_content-LeavesIn m rest none k h = tt
  sized_content-LeavesIn m rest (some size) k h = with_content-LeavesIn m rest (k (unle size)) h

  copied-LeavesIn :
      (c : Commons) (alloc : ℕ → Bytes) (vs : List Bytes) (rest : Bytes) (o : Option Bytes)
      → length rest ≤ n
      → LeavesIn n (copied c alloc vs rest o)
  unfolding copied
  copied-LeavesIn c alloc vs rest none h = tt
  copied-LeavesIn c alloc vs rest (some m) h = sized_content-LeavesIn m rest (slice 8 4 m) _ h

  build-LeavesIn :
      (c : Commons) (alloc : ℕ → Bytes) (p : Protocol) (vs : List Bytes) (rest : Bytes)
      → length rest ≤ n
      → LeavesIn n (build c alloc p vs rest)
  unfolding build
  build-LeavesIn c alloc Protocol.malloc vs rest h =
      if-LeavesIn (fit_int vs) (as_message _ [] rest) fault_in (as_message-LeavesIn _ [] rest h) tt
  build-LeavesIn c alloc Protocol.memfree vs rest h = as_message-LeavesIn _ [] rest h
  build-LeavesIn c alloc Protocol.get vs rest h = as_message-LeavesIn _ [] rest h
  build-LeavesIn c alloc Protocol.copy vs rest h = copied-LeavesIn c alloc vs rest _ h
  build-LeavesIn c alloc Protocol.malloc_ok vs rest h = as_message-LeavesIn _ [] rest h
  build-LeavesIn c alloc Protocol.free_response vs rest h = as_message-LeavesIn _ [] rest h
  build-LeavesIn c alloc Protocol.get_ok vs rest h = as_message-LeavesIn _ [] rest h
  build-LeavesIn c alloc _ vs rest h = tt

  with_values-LeavesIn :
      (r : Received (List Bytes)) (k : List Bytes → Bytes → Incoming)
      → Leaves n r
      → ((vs : List Bytes) (rest : Bytes) → length rest ≤ n → LeavesIn n (k vs rest))
      → LeavesIn n (with_values r k)
  with_values-LeavesIn (received vs rest) k h f = f vs rest h
  with_values-LeavesIn closed k h f = tt
  with_values-LeavesIn overread k h f = tt
  with_values-LeavesIn out_of_fuel k h f = tt

pub utils_receive_and_deserialize-LeavesIn :
    (c : Commons) (alloc : ℕ → Bytes) (p : Protocol) (input : Bytes)
    → LeavesIn (length input) (utils_receive_and_deserialize c alloc p input)
unfolding utils_receive_and_deserialize
utils_receive_and_deserialize-LeavesIn c alloc p input =
    let n = length input in
    if-LeavesIn n (receives p) (with_values (utils_receive_package c input) (build c alloc p)) null
      (with_values-LeavesIn n (utils_receive_package c input) (build c alloc p)
        (utils_receive_package-Leaves c input) (build-LeavesIn n c alloc p))
      tt

-- A connection that has ended has no COPY.
pub copy-empty :
    (c : Commons) (alloc : ℕ → Bytes)
    → utils_receive_and_deserialize c alloc Protocol.copy [] ≡ lost
unfolding utils_receive_and_deserialize receives
copy-empty c alloc =
    ap (λ r. with_values r (build c alloc Protocol.copy)) (utils_receive_package-empty c)
