-- ===== src/Sockets/Setup.antt =====
-- Setting up sockets, shared-common/common/sockets.c. What the operating system answers is an argument.
use threaders.Sockets.{backlog}
use threaders.Base.{
  ℕ, zero, suc, Bool, true, false, ◌||◌, Option, none, some, List, [], ◌∷◌, ℤ, pos, negsuc,
  if◌then◌else◌, ltb, length,
}

-- "127.0.0.1"
abbrev pub local_ip : List ℕ
local_ip = 49 ∷ 50 ∷ 55 ∷ 46 ∷ 48 ∷ 46 ∷ 48 ∷ 46 ∷ 49 ∷ []

abbrev pub minus_one : ℤ
minus_one = negsuc 0

abbrev pub is_minus_one : ℤ → Bool
is_minus_one (negsuc zero) = true
is_minus_one (negsuc (suc n)) = false
is_minus_one (pos n) = false

abbrev pub negative : ℤ → Bool
negative (pos n) = false
negative (negsuc n) = true

-- What the calls answer: `getaddrinfo` leaves `server_info` unset when it fails, and `I` is what it points to otherwise.
pub record System (I : Type 0) : Type 0 where
  pub getaddrinfo : List ℕ → ℕ → Option I
  pub socket : I → ℤ
  pub bind : ℤ → I → ℤ
  pub listen : ℤ → ℕ → ℤ
  pub connect : ℤ → I → ℤ

-- The result with the descriptors that stay open, or an access through a pointer that was never set.
pub data Opened : Type 0 where
  opened : ℤ → List ℕ → Opened
  unset_fault : Opened

abbrev pub open_descriptor : ℤ → List ℕ
open_descriptor (pos fd) = fd ∷ []
open_descriptor (negsuc n) = []

module _ {I : Type 0} (os : System I) where
  abbrev pub listener_on : I → ℤ → Opened
  listener_on info server_socket =
      if is_minus_one server_socket || is_minus_one (os.bind server_socket info)
      then opened minus_one (open_descriptor server_socket)
      else if is_minus_one (os.listen server_socket backlog)
      then opened minus_one (open_descriptor server_socket)
      else opened server_socket (open_descriptor server_socket)

  abbrev pub listener_at : Option I → Opened
  listener_at none = unset_fault
  listener_at (some info) = listener_on info (os.socket info)

  -- `none` is a null pointer. A failed setsockopt is passed over.
  unfoldable pub socket_create_listener : Option (List ℕ) → ℕ → Opened
  socket_create_listener none port = opened minus_one []
  socket_create_listener (some ip) port = listener_at (os.getaddrinfo ip port)

  abbrev pub connected_on : I → ℤ → Opened
  connected_on info server_socket =
      if negative (os.connect server_socket info) || is_minus_one server_socket
      then opened minus_one (open_descriptor server_socket)
      else opened server_socket (open_descriptor server_socket)

  abbrev pub connected_at : Option I → Opened
  connected_at none = unset_fault
  connected_at (some info) = connected_on info (os.socket info)

  unfoldable pub socket_connect_to_server : Option (List ℕ) → ℕ → Opened
  socket_connect_to_server none port = opened minus_one []
  socket_connect_to_server (some ip) port = connected_at (os.getaddrinfo ip port)

-- What accept returned.
abbrev pub socket_accept_conection : ℤ → ℤ
socket_accept_conection client_socket = if negative client_socket then minus_one else client_socket

-- getpeername and inet_ntoa, into a block of 20 bytes: `none` for a null pointer, and outside of it a fault.
abbrev pub copied_ip : List ℕ → Option (Option (List ℕ))
copied_ip ip = if ltb (length ip) 20 then some (some ip) else none

abbrev pub socket_get_ip : Option (List ℕ) → Option (Option (List ℕ))
socket_get_ip none = some none
socket_get_ip (some ip) = copied_ip ip
