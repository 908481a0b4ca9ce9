-- ===== src/Muse/Main/Ended.antt =====
-- How the program of muse/src/muse.c ends.
use threaders.Base.{
  ℕ, zero, suc, ◌≤◌, Bool, true, false, Option, none, some, [], ◌∷◌, ℤ, pos, negsuc, arith, length,
  drop, ◌==◌, if◌then◌else◌,
}
use threaders.Commons.{Commons, Documented}
use threaders.Wire.Bytes.{Bytes}
use threaders.Wire.Protocol.{Protocol, malloc, memfree, get, copy, Object}
use threaders.Wire.Message.Fill.{length-drop}
use threaders.Wire.Message.{
  Incoming, null, message, lost, fault_in, fuel_in, utils_receive_and_deserialize,
}
use threaders.Wire.Message.Rest.{LeavesIn, utils_receive_and_deserialize-LeavesIn}
use threaders.Sockets.Setup.{
  local_ip, System, Opened, opened, unset_fault, socket_create_listener, socket_accept_conection,
}
use threaders.Muse.{Muse, muse_init}
use threaders.Muse.Access.{Handled, handled, fault}
use threaders.Muse.Free.{Freed, freed, free_fault, freeing}
use threaders.Muse.Alloc.{Allocated, allocated, alloc_fault}
use threaders.Muse.Server.Sound.{Sound}
use threaders.Muse.Server.Reached.{SoundRound, serve-Sound}
use threaders.Muse.Frames.Isolated.{muse_init-Isolated}
use threaders.Muse.Main.{
  MuseConfig, Key, read_config, Run, not_started, exited, cut_off, fault as program_fault, serving,
  after_sending, after_round, next_held, server_loop, with_client, with_listener, muse_server_init,
  configured, main, freeing as program_freeing,
}
use threaders.Muse.Server.{
  Environment, Round, round, disconnected, torn, crashed, running, sent_round, allocated_round,
  freed_round, handled_round, with_message, dispatch_message, serve,
}

-- A round leaves no more than `n` bytes.
abbrev pub LeavesRound : ℕ → Round → Type 0
LeavesRound n (round m sent rest) = length rest ≤ n
LeavesRound n disconnected = Unit {0}
LeavesRound n torn = Unit {0}
LeavesRound n crashed = Unit {0}
LeavesRound n running = Unit {0}

module _ (n : ℕ) where
  sent_round-LeavesRound :
      (m : Muse) (o : Option Bytes) (rest : Bytes)
      → length rest ≤ n
      → LeavesRound n (sent_round m o rest)
  sent_round-LeavesRound m none rest h = tt
  sent_round-LeavesRound m (some bytes) rest h = h

  allocated_round-LeavesRound :
      (a : Allocated) (rest : Bytes) → length rest ≤ n → LeavesRound n (allocated_round a rest)
  allocated_round-LeavesRound (allocated m o) rest h = sent_round-LeavesRound m o rest h
  allocated_round-LeavesRound alloc_fault rest h = tt

  freed_round-LeavesRound :
      (a : Freed) (rest : Bytes) → length rest ≤ n → LeavesRound n (freed_round a rest)
  freed_round-LeavesRound (freed m o) rest h = sent_round-LeavesRound m o rest h
  freed_round-LeavesRound free_fault rest h = tt
  freed_round-LeavesRound freeing rest h = tt

  handled_round-LeavesRound :
      (a : Handled) (rest : Bytes) → length rest ≤ n → LeavesRound n (handled_round a rest)
  handled_round-LeavesRound (handled m o) rest h = sent_round-LeavesRound m o rest h
  handled_round-LeavesRound fault rest h = tt

  with_message-LeavesRound :
      (i : Incoming) (k : Object → Bytes → Round)
      → LeavesIn n i
      → ((o : Object) (rest : Bytes) → length rest ≤ n → LeavesRound n (k o rest))
      → LeavesRound n (with_message i k)
  with_message-LeavesRound null k h f = tt
  with_message-LeavesRound (message o rest) k h f = f o rest h
  with_message-LeavesRound lost k h f = tt
  with_message-LeavesRound fault_in k h f = tt
  with_message-LeavesRound fuel_in k h f = tt

LeavesRound-trans : {n k : ℕ} (r : Round) → n ≤ k → LeavesRound n r → LeavesRound k r
LeavesRound-trans (round m sent rest) h l = omega arith
LeavesRound-trans disconnected h l = tt
LeavesRound-trans torn h l = tt
LeavesRound-trans crashed h l = tt
LeavesRound-trans running h l = tt

drop-shorter : (b : ℕ) (input : Bytes) → length (drop 4 (b ∷ input)) ≤ length input
drop-shorter b input = omega (arith, length-drop 3 input)

module _ (c : Commons) (e : Environment) where
  received-LeavesRound :
      (p : Protocol) (rest : Bytes) (k : Object → Bytes → Round)
      → ((o : Object) (more : Bytes)
          → length more ≤ length rest
          → LeavesRound (length rest) (k o more))
      → LeavesRound (length rest) (with_message (utils_receive_and_deserialize c e.alloc p rest) k)
  received-LeavesRound p rest k f =
      with_message-LeavesRound (length rest) (utils_receive_and_deserialize c e.alloc p rest) k
        (utils_receive_and_deserialize-LeavesIn c e.alloc p rest) f

  dispatch_message-LeavesRound :
      (m : Muse) (p : Option Protocol) (rest : Bytes)
      → LeavesRound (length rest) (dispatch_message c e m p rest)
  unfolding dispatch_message
  dispatch_message-LeavesRound m (some malloc) rest =
      received-LeavesRound malloc rest _
        λ o more h. allocated_round-LeavesRound (length rest) _ more h
  dispatch_message-LeavesRound m (some memfree) rest =
      received-LeavesRound memfree rest _ λ o more h. freed_round-LeavesRound (length rest) _ more h
  dispatch_message-LeavesRound m (some get) rest =
      received-LeavesRound get rest _ λ o more h. handled_round-LeavesRound (length rest) _ more h
  dispatch_message-LeavesRound m (some copy) rest =
      received-LeavesRound copy rest _ λ o more h. handled_round-LeavesRound (length rest) _ more h
  dispatch_message-LeavesRound m _ rest = omega arith

  serve-LeavesRound :
      (held : Bytes) (m : Muse) (b : ℕ) (input : Bytes)
      → LeavesRound (length input) (serve c e held m (b ∷ input))
  unfolding serve
  serve-LeavesRound held m b input =
      LeavesRound-trans _ (drop-shorter b input)
        (dispatch_message-LeavesRound m _ (drop 4 (b ∷ input)))

-- The program comes to an end, and the pages and frames are in order when it returns or exits.
abbrev pub Ended : Run → Type 0
Ended (not_started status) = Unit {0}
Ended (exited status m sent) = Sound m
Ended cut_off = Unit {0}
Ended program_fault = Unit {0}
Ended program_freeing = Unit {0}
Ended serving = ⊥

either_Ended : (t : Bool) (r : Run) → Ended r → Ended (if t then program_fault else r)
either_Ended true r v = tt
either_Ended false r v = v

after_sending-Ended : (sent : Bytes) (r : Run) → Ended r → Ended (after_sending sent r)
after_sending-Ended sent (exited status m out) v = v
after_sending-Ended sent (not_started status) v = v
after_sending-Ended sent cut_off v = v
after_sending-Ended sent program_fault v = v
after_sending-Ended sent program_freeing v = v
after_sending-Ended sent serving v = absurd v

after_round-Ended :
    (n : ℕ) (m : Muse) (r : Round) (next : Muse → Bytes → Run)
    → Sound m
    → SoundRound r
    → LeavesRound n r
    → ((after : Muse) (rest : Bytes) → Sound after → length rest ≤ n → Ended (next after rest))
    → Ended (after_round m r next)
after_round-Ended n m (round after sent rest) next v w h f =
    after_sending-Ended sent (next after rest) (f after rest w h)
after_round-Ended n m disconnected next v w h f = v
after_round-Ended n m torn next v w h f = tt
after_round-Ended n m crashed next v w h f = tt
after_round-Ended n m running next v w h f = tt

module _ {c : Commons} (d : Documented c) (e : Environment) where
  server_loop-Ended :
      (n : ℕ) (held : Bytes) (m : Muse) (input : Bytes)
      → Sound m
      → length input ≤ n
      → Ended (server_loop c e n held m input)
  unfolding server_loop
  server_loop-Ended n held m [] v h = v
  server_loop-Ended zero held m (b ∷ input) v h = omega arith
  server_loop-Ended (suc n) held m (b ∷ input) v h =
      after_round-Ended (length input) m (serve c e held m (b ∷ input)) _ v
        (serve-Sound d e held m (b ∷ input) v) (serve-LeavesRound c e held m b input)
        λ after rest w k.
          server_loop-Ended n (next_held c e held (b ∷ input)) after rest w (omega arith)

  with_client-Ended :
      (n : ℕ) (held : Bytes) (m : Muse) (input : Bytes) (fd : ℤ)
      → Sound m
      → length input ≤ n
      → Ended (with_client c e n held m input fd)
  with_client-Ended n held m input (negsuc k) v h = v
  with_client-Ended n held m input (pos fd) v h = server_loop-Ended n held m input v h

  with_listener-Ended :
      (n : ℕ) (held : Bytes) (m : Muse) (input : Bytes) (accepted : ℤ) (o : Opened)
      → Sound m
      → length input ≤ n
      → Ended (with_listener c e n held m input accepted o)
  with_listener-Ended n held m input accepted unset_fault v h = tt
  with_listener-Ended n held m input accepted (opened (negsuc k) left) v h = v
  with_listener-Ended n held m input accepted (opened (pos fd) left) v h =
      with_client-Ended n held m input (socket_accept_conection accepted) v h

module _ {c : Commons} (d : Documented c) (e : Environment) {I : Type 0} (os : System I) where
  muse_server_init-Ended :
      (n : ℕ) (held : Bytes) (m : Muse) (input : Bytes) (accepted : ℤ) (listen_port : ℕ)
      → Sound m
      → length input ≤ n
      → Ended (muse_server_init c e os n held m input accepted listen_port)
  unfolding muse_server_init
  muse_server_init-Ended n held m input accepted listen_port v h =
      with_listener-Ended d e n held m input accepted
        (socket_create_listener os (some local_ip) listen_port) v h

module _ {c : Commons} (d : Documented c) (e : Environment) {I : Type 0} (os : System I) where
  configured-Ended :
      (n : ℕ) (held input : Bytes) (accepted : ℤ) (config : MuseConfig)
      → length input ≤ n
      → Ended (configured c e os n held input accepted config)
  configured-Ended n held input accepted config h =
      let settled = record e { page_size = config.page_size } in
      let m = muse_init c e.alloc config.memory_size config.page_size config.swap_size in
      let run = muse_server_init c settled os n held m input accepted config.listen_port in
      either_Ended (config.page_size == 0) run (
        muse_server_init-Ended d settled os n held m input accepted config.listen_port
          (muse_init-Isolated c e.alloc config.memory_size config.page_size config.swap_size []) h)

-- With the list operations as documented, the loop of rounds in main of muse.c comes to an end for any logger,
-- configuration, listener, client and bytes: it needs no more rounds than bytes come in. main returns or exits, stops at
-- a fault or where the connection ends within a message, or is within the MEMFREE of one round, of whose own loop the
-- theorem does not say that it ends. When main returns or exits with its memory set up, as many frames as pages
-- are free, a page that is taken has a frame that is taken, and no two taken pages share a frame.
pub main-Ended :
    {c : Commons} (e : Environment) {I : Type 0} (os : System I) (logger : ℤ)
    (file : Option (Key → ℕ)) (n : ℕ) (held input : Bytes) (accepted : ℤ)
    → Documented c
    → length input ≤ n
    → Ended (main c e os logger file n held input accepted)
unfolding main
main-Ended e os (negsuc k) file n held input accepted d h = tt
main-Ended e os (pos k) none n held input accepted d h = tt
main-Ended e os (pos k) (some f) n held input accepted d h =
    configured-Ended d e os n held input accepted (read_config f) h
