-- ===== src/Sac/Server.antt =====
-- main and init_server of sac_server/src/sac_server.c, with the port of config/sac_server_config.c: a thread for each
-- connection that accept returns. pthread_create and the attributes of a thread always succeed.
pub mod Messages
mod Examples
use threaders.Base.{ℕ, zero, suc, Option, none, some, List, [], ◌∷◌, ℤ, pos, negsuc, length}
use threaders.Commons.{Commons}
use threaders.Wire.Bytes.{Bytes}
use threaders.Sockets.Setup.{local_ip, System, Opened, opened, unset_fault, socket_create_listener}
use threaders.Sac.Connection.{Connection, disconnected, handle_connection}

-- The lines of the log about a listener that could not be made.
pub data Message : Type 0 where
  no_fd_error bind_error listen_error : Message

-- The end of the process with what it logged, a null or unset pointer that it reads, or the ends of the threads, each
-- as if no other thread crashed.
pub data Run : Type 0 where
  exited : (status : ℕ) → List Message → Run
  fault : Run
  threads : List Connection → Run

-- The cases -1, -2 and -3.
abbrev pub message_of : ℤ → List Message
message_of (negsuc zero) = no_fd_error ∷ []
message_of (negsuc (suc zero)) = bind_error ∷ []
message_of (negsuc (suc (suc zero))) = listen_error ∷ []
message_of _ = []

-- What accept returned with the bytes that come in on it, and those of the thread's variable `protocol` at first.
pub record Accepted : Type 0 where
  pub accepted_fd : ℤ
  pub input : Bytes
  pub held : Bytes

module _ (c : Commons) (alloc : ℕ → Bytes) where
  -- A recv from a negative descriptor fails, which ends the loop.
  abbrev pub thread_of : ℕ → Accepted → ℤ → Connection
  thread_of n a (pos fd) = handle_connection c alloc n a.held a.input
  thread_of n a (negsuc k) = disconnected

  abbrev pub threads_of : ℕ → List Accepted → List Connection
  threads_of n [] = []
  threads_of n (a ∷ rest) = thread_of n a a.accepted_fd ∷ threads_of n rest

  -- exit_gracefully is exit.
  abbrev pub listening : ℕ → List Accepted → Opened → Run
  listening n accepts unset_fault = fault
  listening n accepts (opened (negsuc k) left) = exited 1 (message_of (negsuc k))
  listening n accepts (opened (pos fd) left) = threads (threads_of n accepts)

  module _ {I : Type 0} (os : System I) where
    unfoldable pub init_server : ℕ → List Accepted → ℕ → Run
    init_server n accepts port =
        listening n accepts (socket_create_listener os (some local_ip) port)

    -- The port of the configuration file; without the file the pointer to the configuration is null.
    unfoldable pub main : ℕ → List Accepted → Option ℕ → Run
    main n accepts none = fault
    main n accepts (some listen_port) = init_server n accepts listen_port
