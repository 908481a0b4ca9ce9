-- ===== src/Sockets/Threads.antt =====
-- socket_start_listening_miltithreaded and server_handler, shared-common/common/sockets.c: a thread for each client, which
-- sends back what it gets. All threads share one static buffer.
pub mod Overlay
mod Examples
use threaders.Base.{
  ℕ, zero, suc, Option, none, some, List, [], ◌∷◌, ◌++◌, ℤ, pos, negsuc, length, drop, ltb, ◌==◌,
  if◌then◌else◌,
}
use threaders.Wire.Bytes.{Bytes, cstring}
use threaders.Sockets.{zeros}
use threaders.Sockets.Setup.{Opened, opened, unset_fault, socket_accept_conection}

abbrev pub buffer_size : ℕ
buffer_size = 2000

-- `static char client_message[2000]` before the first thread.
abbrev pub client_message : Bytes
client_message = zeros buffer_size

-- A recv of the thread of socket `sock` returns a message of 1 to 2000 bytes, or the thread sends back what it
-- finds in the buffer, or recv returns 0 or -1 and the thread ends.
pub data Event : Type 0 where
  received : (sock : ℕ) (message : Bytes) → Event
  echoed : (sock : ℕ) → Event
  ended : (sock : ℕ) → Event

-- The buffer, and what was written to which socket.
abbrev pub Served : Type 0
Served = Bytes × List (ℕ × Bytes)

abbrev pub then_written : ℕ → Bytes → Option Served → Option Served
then_written sock text none = none
then_written sock text (some (buffer, out)) = some (buffer, (sock, text) ∷ out)

-- `write(sock, client_message, strlen(client_message))`; `none` is a strlen that runs out of the buffer.
abbrev pub echo : ℕ → Option Bytes → Option Served → Option Served
echo sock none later = none
echo sock (some text) later = then_written sock text later

-- The threads' steps, in the order in which they happen.
unfoldable pub server_handler : List Event → Bytes → Option Served
server_handler [] buffer = some (buffer, [])
server_handler (received sock message ∷ events) buffer =
    server_handler events (message ++ drop (length message) buffer)
server_handler (echoed sock ∷ events) buffer =
    echo sock (cstring buffer) (server_handler events buffer)
server_handler (ended sock ∷ events) buffer = server_handler events buffer

-- The descriptors that threads are started with, and whether the loop has ended: only 0 ends it, not the -1 of
-- a failed accept.
unfoldable pub threads_of : List ℤ → List ℤ
threads_of [] = []
threads_of (accepted ∷ rest) = started (socket_accept_conection accepted) (threads_of rest)
  where
    started : ℤ → List ℤ → List ℤ
    started (pos zero) later = []
    started (pos (suc fd)) later = pos (suc fd) ∷ later
    started (negsuc n) later = negsuc n ∷ later

-- `none` for the end of the program without a listener, or a fault.
abbrev pub socket_start_listening_miltithreaded : Opened → List ℤ → Option (List ℤ)
socket_start_listening_miltithreaded unset_fault accepted = none
socket_start_listening_miltithreaded (opened (negsuc n) left) accepted = none
socket_start_listening_miltithreaded (opened (pos master) left) accepted =
    some (threads_of accepted)
