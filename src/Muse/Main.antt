-- ===== src/Muse/Main.antt =====
-- The program of muse/src/muse.c: its configuration (muse/src/config/muse_config.c), the connection to one
-- client, and the rounds with it. The numbers of the configuration file are not negative.
pub mod Ended
mod Examples
use threaders.Base.{
  ℕ, zero, suc, ◌+◌, Option, none, some, List, [], ◌∷◌, ◌++◌, ℤ, pos, negsuc, length, take, drop,
  ◌==◌, if◌then◌else◌,
}
use threaders.Commons.{Commons}
use threaders.Wire.Bytes.{Bytes}
use threaders.Sockets.Setup.{
  System, Opened, opened, unset_fault, socket_create_listener, socket_accept_conection, local_ip,
}
use threaders.Muse.{Muse, muse_init}
use threaders.Muse.Server.{Environment, Round, round, disconnected, torn, crashed, running, serve}

pub record MuseConfig : Type 0 where
  pub listen_port : ℕ
  pub memory_size : ℕ
  pub page_size : ℕ
  pub swap_size : ℕ

pub data Key : Type 0 where
  key_listen_port key_memory_size key_page_size key_swap_size : Key

abbrev pub read_config : (Key → ℕ) → MuseConfig
read_config config_get_int_value = record {
  listen_port = config_get_int_value key_listen_port;
  memory_size = config_get_int_value key_memory_size;
  page_size = config_get_int_value key_page_size;
  swap_size = config_get_int_value key_swap_size;
}

-- The end of the program before there is a memory, or with it and what was sent; a connection that ends within a
-- message; an access outside an object, or a division by zero; a MEMFREE, or the loop, without an end so far.
pub data Run : Type 0 where
  not_started : ℤ → Run
  exited : ℤ → Muse → Bytes → Run
  cut_off : Run
  fault : Run
  freeing : Run
  serving : Run

abbrev pub after_sending : Bytes → Run → Run
after_sending sent (exited status m out) = exited status m (sent ++ out)
after_sending sent (not_started status) = not_started status
after_sending sent cut_off = cut_off
after_sending sent fault = fault
after_sending sent freeing = freeing
after_sending sent serving = serving

-- The end of the connection between messages is an exit(1).
abbrev pub after_round : Muse → Round → (Muse → Bytes → Run) → Run
after_round m (round after sent rest) next = after_sending sent (next after rest)
after_round m disconnected next = exited (pos 1) m []
after_round m torn next = cut_off
after_round m crashed next = fault
after_round m running next = freeing

module _ (c : Commons) (e : Environment) where
  -- The four bytes of the variable `protocol` after a round.
  abbrev pub next_held : Bytes → Bytes → Bytes
  next_held held input = take 4 (input ++ drop (length input) held)

  unfoldable pub server_loop : ℕ → Bytes → Muse → Bytes → Run
  server_loop n held m [] = exited (pos 1) m []
  server_loop zero held m (b ∷ input) = serving
  server_loop (suc n) held m (b ∷ input) =
      after_round m (serve c e held m (b ∷ input))
        λ after rest. server_loop n (next_held held (b ∷ input)) after rest

  -- Without a listener or a client the function returns, and main with it.
  abbrev pub with_client : ℕ → Bytes → Muse → Bytes → ℤ → Run
  with_client n held m input (negsuc k) = exited (pos 0) m []
  with_client n held m input (pos fd) = server_loop n held m input

  abbrev pub with_listener : ℕ → Bytes → Muse → Bytes → ℤ → Opened → Run
  with_listener n held m input accepted unset_fault = fault
  with_listener n held m input accepted (opened (negsuc k) left) = exited (pos 0) m []
  with_listener n held m input accepted (opened (pos fd) left) =
      with_client n held m input (socket_accept_conection accepted)

-- `accepted` is what accept returns, `input` what then comes in, and `held` what the variable `protocol` holds first.
module _ (c : Commons) (e : Environment) {I : Type 0} (os : System I) where
  unfoldable pub muse_server_init : ℕ → Bytes → Muse → Bytes → ℤ → ℕ → Run
  muse_server_init n held m input accepted listen_port =
      with_listener c e n held m input accepted
        (socket_create_listener os (some local_ip) listen_port)

module _ (c : Commons) (e : Environment) {I : Type 0} (os : System I) where
  abbrev pub configured : ℕ → Bytes → Bytes → ℤ → MuseConfig → Run
  configured n held input accepted config =
      if config.page_size == 0
      then fault
      else muse_server_init c (record e { page_size = config.page_size }) os n held
          (muse_init c e.alloc config.memory_size config.page_size config.swap_size) input accepted
          config.listen_port

  abbrev pub loaded : ℕ → Bytes → Bytes → ℤ → Option (Key → ℕ) → Run
  loaded n held input accepted none = not_started (negsuc 0)
  loaded n held input accepted (some f) = configured n held input accepted (read_config f)

  -- `logger` is what muse_logger_create returns, and `none` a configuration file that is not there.
  unfoldable pub main : ℤ → Option (Key → ℕ) → ℕ → Bytes → Bytes → ℤ → Run
  main (negsuc k) file n held input accepted = not_started (negsuc k)
  main (pos k) file n held input accepted = loaded n held input accepted file
