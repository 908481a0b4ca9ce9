-- ===== src/ClientTests.antt =====
-- client-tests/src/client-tests.c: a program that uses the memory server by libmuse/libmuse.c, and its threads for
-- hilolay. The server of muse/src/muse.c runs one round for each request; the program's other calls, with a connection
-- that failed, are not followed.
pub mod Turns
mod Examples
use threaders.Base.{
  ℕ, zero, suc, ◌+◌, ◌*◌, ◌%◌, Option, none, some, List, [], ◌∷◌, ◌++◌, ℤ, pos, negsuc, length,
  ◌==◌, if◌then◌else◌,
}
use threaders.Sockets.Setup.{local_ip}
use threaders.Commons.{Commons}
use threaders.Wire.Bytes.{Bytes, le, unle}
use threaders.Muse.{Muse}
use threaders.Muse.Main.{next_held}
use threaders.Muse.Server.{Environment, Round, round, disconnected, torn, crashed, running, serve}
use threaders.Libmuse.{
  Reply, returned, hung_up, unreturned, reply_fault, muse_init, muse_alloc_request,
  muse_free_request, muse_get_request, muse_cpy_request, muse_alloc_reply, muse_free_reply,
  muse_get_reply, muse_cpy_reply,
}

-- What a thread of the program does besides printing.
pub data Effect : Type 0 where
  usleep : (micros : ℕ) → Effect
  th_yield : Effect

-- The iterations of a thread whose products are an `int`, from the `i`th on, with `n` left. recursiva has no effect.
abbrev pub yields_after : ℕ → ℕ → List Effect → List Effect
yields_after tid i rest = if (i + tid) % 5 == 0 then th_yield ∷ rest else rest

unfoldable pub test1 : ℕ → ℕ → ℕ → List Effect
test1 tid i zero = []
test1 tid i (suc n) = usleep (5000 * i * tid) ∷ yields_after tid i (test1 tid (suc i) n)

unfoldable pub test2 : ℕ → ℕ → ℕ → List Effect
test2 tid i zero = []
test2 tid i (suc n) = usleep (2000 * i * tid) ∷ test2 tid (suc i) n

-- The connection of the program: the server with its variable `protocol`, the bytes that it has not read yet, and
-- those that the program has not.
pub record Link : Type 0 where
  pub server : Muse
  pub held : Bytes
  pub unread : Bytes
  pub incoming : Bytes

-- Why a run stops within a call: no byte comes as an answer, the connection ends or the answer is not whole, a
-- function ends without a return, or a fault.
pub data Stop : Type 0 where
  waiting : Muse → Stop
  cut : Stop
  no_return : Stop
  client_fault : Stop

-- The end of main with the bytes that it stored in `des`, a stop in the call with this number, or no connection.
pub data Progress : Type 0 where
  finished : ℤ → Bytes → Muse → Progress
  stopped : ℕ → Stop → Progress
  unconnected : Progress

abbrev pub after_reply : {A : Type 0} → ℕ → Link → Reply A → (A → Link → Progress) → Progress
after_reply i k (returned a rest) next = next a (record k { incoming = rest })
after_reply i k hung_up next = stopped i cut
after_reply i k unreturned next = stopped i no_return
after_reply i k reply_fault next = stopped i client_fault

abbrev pub read_reply :
    {A : Type 0} → ℕ → Link → Bytes → (Bytes → Reply A) → (A → Link → Progress) → Progress
read_reply i k [] reply next = stopped i (waiting k.server)
read_reply i k (b ∷ bytes) reply next = after_reply i k (reply (b ∷ bytes)) next

abbrev pub uint32 : ℕ → ℕ
uint32 n = n % 4294967296

-- "fernando", with its zero.
abbrev pub algo : Bytes
algo = 102 ∷ 101 ∷ 114 ∷ 110 ∷ 97 ∷ 110 ∷ 100 ∷ 111 ∷ 0 ∷ []

-- `alloc` is the malloc of the program, and `padding` and `address` the bytes of a t_copy that no message holds.
module _ (c : Commons) (e : Environment) (alloc : ℕ → Bytes) (pid padding address : ℕ) where
  -- A server that stops closes the connection; one that waits for more of a message, or is in a MEMFREE, does not.
  abbrev pub after_serving :
      {A : Type 0} → ℕ → Link → Bytes → Round → (Bytes → Reply A) → (A → Link → Progress) → Progress
  after_serving i k input (round after sent rest) reply next =
      let now : Link = record {
        server = after;
        held = next_held c e k.held input;
        unread = rest;
        incoming = [];
      } in
      read_reply i now (k.incoming ++ sent) reply next
  after_serving i k input disconnected reply next = read_reply i k k.incoming reply next
  after_serving i k input torn reply next = read_reply i k k.incoming reply next
  after_serving i k input crashed reply next = after_reply i k (reply k.incoming) next
  after_serving i k input running reply next = read_reply i k k.incoming reply next

  abbrev pub call :
      {A : Type 0} → ℕ → Link → Option Bytes → (Bytes → Reply A) → (A → Link → Progress) → Progress
  call i k none reply next = stopped i client_fault
  call i k (some request) reply next =
      let input = k.unread ++ request in
      after_serving i k input (serve c e k.held k.server input) reply next

  abbrev pub free_ptr : ℕ → Bytes → Link → Progress
  free_ptr ptr des k =
      call 5 k (muse_free_request pid ptr) (muse_free_reply c alloc)
        λ done k. finished (pos 0) des k.server

  abbrev pub read_back : ℕ → Link → Progress
  read_back ptr k =
      call 4 k (muse_get_request pid ptr 4) (muse_get_reply c alloc) λ got k. free_ptr ptr got.1 k

  abbrev pub copy_num : ℕ → Link → Progress
  copy_num ptr k =
      call 3 k (muse_cpy_request pid padding address (le 4 9) ptr 4) (muse_cpy_reply c alloc)
        λ status k. read_back ptr k

  abbrev pub copy_algo : ℕ → Link → Progress
  copy_algo ptr k =
      call 2 k (muse_cpy_request pid padding address algo ptr (length algo))
        (muse_cpy_reply c alloc) λ status k. copy_num ptr k

  abbrev pub second_alloc : Link → Progress
  second_alloc k =
      call 1 k (muse_alloc_request pid 2) (muse_alloc_reply c alloc)
        λ ptr k. copy_algo (uint32 ptr) k

  abbrev pub first_alloc : Link → Progress
  first_alloc k =
      call 0 k (muse_alloc_request pid 200) (muse_alloc_reply c alloc) λ ptr k. second_alloc k

  abbrev pub connected : ℤ × ℤ → Link → Progress
  connected (pos fd, status) k = first_alloc k
  connected (negsuc n, status) k = unconnected

  unfoldable pub main : (List ℕ → ℕ → ℤ) → Bytes → Muse → Progress
  main connect held server =
      connected (muse_init connect local_ip 5003)
        (record { server = server; held = held; unread = []; incoming = [] })
