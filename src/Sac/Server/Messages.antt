-- ===== src/Sac/Server/Messages.antt =====
-- What sac_server/src/sac_server.c logs when it does not come to listen, and how its threads end.
use threaders.Base.{
  ℕ, ◌≤◌, ◌≡◌, refl, Bool, true, false, Option, none, some, List, [], ◌∷◌, ℤ, pos, negsuc, sym, ap,
  length, subst, if◌then◌else◌, inl, inr, ◌⊎◌, suc, ◌||◌,
}
use threaders.Commons.{Commons}
use threaders.Sockets.{backlog}
use threaders.Sockets.Setup.{
  local_ip, System, opened, socket_create_listener, minus_one, is_minus_one, listener_on,
  listener_at,
}
use threaders.Wire.Bytes.{Bytes}
use threaders.Sac.Connection.{Connection}
use threaders.Sac.Connection.Ends.{Left, handle_connection-Left}
use threaders.Sac.Server.{
  no_fd_error, Run, exited, fault, threads, Accepted, thread_of, threads_of, listening, init_server,
  main,
}

-- What socket() documents: a descriptor or -1.
abbrev pub Descriptors : {I : Type 0} → System I → Type 0
Descriptors {I} os = (i : I) → (os.socket i ≡ minus_one) ⊎ ((fd : ℕ) × (os.socket i ≡ pos fd))

abbrev pub AllLeft : List Connection → Type 0
AllLeft [] = Unit {0}
AllLeft (x ∷ rest) = Left x × AllLeft rest

-- Every input fits the fuel.
abbrev pub Fits : ℕ → List Accepted → Type 0
Fits n [] = Unit {0}
Fits n (a ∷ rest) = (length a.input ≤ n) × Fits n rest

-- Whether socket, bind or listen fails.
abbrev pub refused : {I : Type 0} → System I → I → Bool
refused os info =
    is_minus_one (os.socket info)
    || (is_minus_one (os.bind (os.socket info) info)
        || is_minus_one (os.listen (os.socket info) backlog))

-- Every accepted connection has a thread, which leaves its loop.
abbrev pub Outcome : Bool → List Accepted → Run → Type 0
Outcome true accepts run = run ≡ exited 1 (no_fd_error ∷ [])
Outcome false accepts run =
    (ends : List Connection) × (run ≡ threads ends) × (length ends ≡ length accepts) × AllLeft ends

abbrev pub Answered : {I : Type 0} → System I → List Accepted → Option I → Run → Type 0
Answered os accepts none run = run ≡ fault
Answered os accepts (some info) run = Outcome (refused os info) accepts run

abbrev pub Reported : {I : Type 0} → System I → List Accepted → Option ℕ → Run → Type 0
Reported os accepts none run = run ≡ fault
Reported os accepts (some listen_port) run =
    Answered os accepts (os.getaddrinfo local_ip listen_port) run

module _ (c : Commons) (alloc : ℕ → Bytes) (n : ℕ) where
  thread_of-Left : (a : Accepted) (fd : ℤ) → length a.input ≤ n → Left (thread_of c alloc n a fd)
  thread_of-Left a (pos fd) h = handle_connection-Left c alloc n a.held a.input h
  thread_of-Left a (negsuc k) h = tt

  threads_of-Left :
      (accepts : List Accepted) → Fits n accepts → AllLeft (threads_of c alloc n accepts)
  threads_of-Left [] h = tt
  threads_of-Left (a ∷ rest) h = (thread_of-Left a a.accepted_fd h.0, threads_of-Left rest h.1)

  length-threads_of :
      (accepts : List Accepted) → length (threads_of c alloc n accepts) ≡ length accepts
  length-threads_of [] = refl
  length-threads_of (a ∷ rest) = ap suc (length-threads_of rest)

  either_Outcome :
      (accepts : List Accepted) (b q : Bool) (fd : ℕ) (left : List ℕ)
      → Fits n accepts
      → Outcome (b || q) accepts (
          listening c alloc n accepts (
            if b
            then opened minus_one left
            else if q
            then opened minus_one left
            else opened (pos fd) left))
  either_Outcome accepts true q fd left h = refl
  either_Outcome accepts false true fd left h = refl
  either_Outcome accepts false false fd left h =
      (threads_of c alloc n accepts, refl, length-threads_of accepts, threads_of-Left accepts h)

  module _ {I : Type 0} (os : System I) (accepts : List Accepted) (h : Fits n accepts) where
    abbrev OutcomeOn : I → ℤ → Type 0
    OutcomeOn info s =
        Outcome
          (is_minus_one s || (is_minus_one (os.bind s info) || is_minus_one (os.listen s backlog)))
          accepts (listening c alloc n accepts (listener_on os info s))

    listener_on-Outcome :
        (info : I) (s : ℤ) → (s ≡ minus_one) ⊎ ((fd : ℕ) × (s ≡ pos fd)) → OutcomeOn info s
    listener_on-Outcome info s (inl e) = subst (OutcomeOn info) (sym e) refl
    listener_on-Outcome info s (inr (fd, e)) = subst (OutcomeOn info) (sym e) (
        either_Outcome accepts (is_minus_one (os.bind (pos fd) info))
          (is_minus_one (os.listen (pos fd) backlog)) fd (fd ∷ []) h)

    listener_at-Answered :
        (o : Option I)
        → Descriptors os
        → Answered os accepts o (listening c alloc n accepts (listener_at os o))
    listener_at-Answered none d = refl
    listener_at-Answered (some info) d = listener_on-Outcome info (os.socket info) (d info)

-- Where socket() gives a descriptor or -1, and with fuel for as many rounds as bytes come in on each connection, main of
-- sac_server.c: without a configuration file, or when getaddrinfo fails, it reads a null or unset pointer; when socket,
-- bind or listen fails, it exits with status 1 after the one message for want of a descriptor, those for bind and
-- listen being never logged; else it listens, and there is a thread for each result of accept, that of a failed one
-- included, and each leaves its loop.
pub main-Reported :
    (c : Commons) (alloc : ℕ → Bytes) {I : Type 0} (os : System I) (n : ℕ) (accepts : List Accepted)
    (file : Option ℕ)
    → Descriptors os
    → Fits n accepts
    → Reported os accepts file (main c alloc os n accepts file)
unfolding main init_server socket_create_listener
main-Reported c alloc os n accepts none d h = refl
main-Reported c alloc os n accepts (some listen_port) d h =
    listener_at-Answered c alloc n os accepts h (os.getaddrinfo local_ip listen_port) d
