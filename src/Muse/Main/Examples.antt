-- ===== src/Muse/Main/Examples.antt =====
-- main of muse/src/muse.c at concrete values.
use threaders.Base.{ℕ, none, some, [], ◌∷◌, pos, arith}
use threaders.Commons.{reference, reference-Documented}
use threaders.Muse.{filled}
use threaders.Muse.Server.{Environment}
use threaders.Muse.Main.{Key, key_listen_port, key_memory_size, key_page_size, key_swap_size, main}
use threaders.Muse.Main.Ended.{Ended, main-Ended}
use threaders.Sockets.Setup.{System}

abbrev environment : Environment
environment = record {
  alloc = λ n. filled n 3;
  usable = λ n. 24;
  base = 4096;
  page_size = 16;
  fuel = 16;
  padding = 0;
  behind = none;
  recorer = λ m s size. none;
}

abbrev system : System ℕ
system = record {
  getaddrinfo = λ ip port. some port;
  socket = λ info. pos 3;
  bind = λ fd info. pos 0;
  listen = λ fd n. pos 0;
  connect = λ fd info. pos 0;
}

abbrev value_of : Key → ℕ
value_of key_listen_port = 5003
value_of key_memory_size = 64
value_of key_page_size = 16
value_of key_swap_size = 32

-- A HANDSHAKE, and two bytes.
main-Ended_example : Ended (
    main reference environment system
      (pos 0)
      (some value_of)
      6
      (9 ∷ 9 ∷ 9 ∷ 9 ∷ [])
      (0 ∷ 0 ∷ 0 ∷ 0 ∷ 1 ∷ 0 ∷ [])
      (pos 4))
main-Ended_example =
    main-Ended environment system (pos 0) (some value_of) 6 (9 ∷ 9 ∷ 9 ∷ 9 ∷ [])
      (0 ∷ 0 ∷ 0 ∷ 0 ∷ 1 ∷ 0 ∷ []) (pos 4) reference-Documented (omega arith)
