-- ===== src/Sockets/Select.antt =====
-- The loop of socket_start_listening_select, shared-common/common/sockets.c. A round gets from outside what select makes
-- of its set, and what accept returns.
use threaders.Base.{
  ℕ, zero, suc, ◌+◌, ◌≡◌, ◌≢◌, refl, Bool, true, false, Option, none, some, List, [], ◌∷◌, ◌++◌, ℤ,
  pos, negsuc, arith, sym, ap, ◌∙◌, ◌==◌, ltb, if◌then◌else◌,
}
use mathlib.Core.List.{append_assoc, append-nil}
use threaders.Sockets.{backlog, socket_select_init_clients, socket_select_add_new_client}

abbrev pub FdSet : Type 0
FdSet = ℕ → Bool

abbrev pub fd_zero : FdSet
fd_zero sd = false

abbrev pub fd_set : ℕ → FdSet → FdSet
fd_set sd set x = if x == sd then true else set x

-- The local variables when the loop ends; the caller's are not changed, since all were passed by value.
pub socket_select_add_child_sockets_to_set : ℕ → ℕ → List ℕ → FdSet → ℕ × ℕ × FdSet
socket_select_add_child_sockets_to_set sd max_sd [] readfds = (sd, max_sd, readfds)
socket_select_add_child_sockets_to_set sd max_sd (client ∷ clients) readfds =
    socket_select_add_child_sockets_to_set client (if ltb max_sd client then client else max_sd)
      clients (if ltb 0 client then fd_set client readfds else readfds)

-- What happens in a round: the set that select leaves, for the number and the set that it gets, and the result of accept.
pub record Event : Type 0 where
  pub select : ℕ → FdSet → FdSet
  pub accepted : ℤ

abbrev pub accept_client : ℤ → List ℕ → Option (List ℕ)
accept_client (pos new_socket) clients = some (socket_select_add_new_client new_socket clients)
accept_client (negsuc n) clients = none

-- `none` is the end of the program after a failed accept.
abbrev pub socket_select_catch_incoming_conections : ℕ → List ℕ → FdSet → ℤ → Option (List ℕ)
socket_select_catch_incoming_conections master clients readfds accepted =
    if readfds master then accept_client accepted clients else some clients

-- `1 == 0` guards the one operation on a client that is ready.
abbrev pub socket_select_check_operations : List ℕ → FdSet → List ℕ
socket_select_check_operations clients readfds = clients

abbrev pub checked : FdSet → Option (List ℕ) → Option (List ℕ)
checked readfds none = none
checked readfds (some clients) = some (socket_select_check_operations clients readfds)

abbrev pub select_round : ℕ → Event → List ℕ → Option (List ℕ)
select_round master e clients =
    let readfds = fd_set master fd_zero in
    let child = socket_select_add_child_sockets_to_set 0 master clients readfds in
    let ready = e.select (master + 1) readfds in
    checked ready (socket_select_catch_incoming_conections master clients ready e.accepted)

abbrev pub and_rounds : Option (List ℕ) → (List ℕ → Option (List ℕ)) → Option (List ℕ)
and_rounds none k = none
and_rounds (some clients) k = k clients

pub select_rounds : ℕ → List Event → List ℕ → Option (List ℕ)
select_rounds master [] clients = some clients
select_rounds master (e ∷ es) clients =
    and_rounds (select_round master e clients) (select_rounds master es)

-- The array after these events, one a round.
pub socket_start_listening_select : ℕ → List Event → Option (List ℕ)
socket_start_listening_select master es = select_rounds master es socket_select_init_clients

-- The sockets that come in while select watches the listening socket alone; `none` after a failed accept.
abbrev pub then_arrival : ℤ → Option (List ℕ) → Option (List ℕ)
then_arrival (negsuc n) later = none
then_arrival (pos s) none = none
then_arrival (pos s) (some later) = some (s ∷ later)

abbrev pub arrivals : ℕ → List Event → Option (List ℕ)
arrivals master [] = some []
arrivals master (e ∷ es) =
    let later = arrivals master es in
    if e.select (master + 1) (fd_set master fd_zero) master
    then then_arrival e.accepted later
    else later

-- The first `n` sockets, and free entries behind them.
abbrev pub filled_up : ℕ → List ℕ → List ℕ
filled_up zero sds = []
filled_up (suc n) [] = 0 ∷ filled_up n []
filled_up (suc n) (a ∷ sds) = a ∷ filled_up n sds

abbrev pub first_ten : Option (List ℕ) → Option (List ℕ)
first_ten none = none
first_ten (some sds) = some (filled_up backlog sds)

-- No socket is 0, which marks a free entry.
abbrev pub NonZero : List ℕ → Type 0
NonZero [] = Unit {0}
NonZero (a ∷ sds) = (a ≢ 0) × NonZero sds

abbrev pub Accepts : List Event → Type 0
Accepts [] = Unit {0}
Accepts (e ∷ es) = (e.accepted ≢ pos 0) × Accepts es

add-filled_up :
    (n s : ℕ) (sds : List ℕ)
    → NonZero sds
    → socket_select_add_new_client s (filled_up n sds) ≡ filled_up n (sds ++ s ∷ [])
unfolding socket_select_add_new_client
add-filled_up zero s sds h = refl
add-filled_up (suc n) s [] h = refl
add-filled_up (suc n) s (a ∷ sds) h =
    let rest = add-filled_up n s sds h.1 in ground (arith, rest, h.0)

NonZero-add : (sds : List ℕ) (s : ℕ) → NonZero sds → s ≢ 0 → NonZero (sds ++ s ∷ [])
NonZero-add [] s h k = (k, tt)
NonZero-add (a ∷ sds) s h k = (h.0, NonZero-add sds s h.1 k)

abbrev behind : List ℕ → Option (List ℕ) → Option (List ℕ)
behind sds none = none
behind sds (some later) = some (filled_up backlog (sds ++ later))

behind-then_arrival :
    (sds : List ℕ) (s : ℕ) (o : Option (List ℕ))
    → behind (sds ++ s ∷ []) o ≡ behind sds (then_arrival (pos s) o)
behind-then_arrival sds s none = refl
behind-then_arrival sds s (some later) =
    ap (λ l. some (filled_up backlog l)) (append_assoc sds (s ∷ []) later)

-- One round, with what is known of the later ones.
round-behind :
    (k : List ℕ → Option (List ℕ)) (later : Option (List ℕ)) (set : FdSet) (sds : List ℕ)
    (ready : Bool) (accepted : ℤ)
    → ((l : List ℕ) → NonZero l → k (filled_up backlog l) ≡ behind l later)
    → NonZero sds
    → accepted ≢ pos 0
    → and_rounds
        (checked set (
          if ready
          then accept_client accepted (filled_up backlog sds)
          else some (filled_up backlog sds)))
        k
      ≡ behind sds (if ready then then_arrival accepted later else later)
round-behind k later set sds false accepted h z nz = h sds z
round-behind k later set sds true (negsuc n) h z nz = refl
round-behind k later set sds true (pos s) h z nz =
    ap k (add-filled_up backlog s sds z)
    ∙ h (sds ++ s ∷ []) (NonZero-add sds s z (λ e. nz (ap pos e)))
    ∙ behind-then_arrival sds s later

rounds-behind :
    (master : ℕ) (es : List Event) (sds : List ℕ)
    → Accepts es
    → NonZero sds
    → select_rounds master es (filled_up backlog sds) ≡ behind sds (arrivals master es)
unfolding select_rounds
rounds-behind master [] sds h z = ap (λ l. some (filled_up backlog l)) (sym (append-nil sds))
rounds-behind master (e ∷ es) sds h z =
    round-behind (select_rounds master es) (arrivals master es)
      (e.select (master + 1) (fd_set master fd_zero)) sds
      (e.select (master + 1) (fd_set master fd_zero) master) e.accepted
      (λ l y. rounds-behind master es l h.1 y) z h.0

behind-first_ten : (o : Option (List ℕ)) → behind [] o ≡ first_ten o
behind-first_ten none = refl
behind-first_ten (some l) = refl

-- Where accept never returns the descriptor 0: select gets the listening socket alone in every round, whatever clients
-- there are; a failed accept ends the program, and otherwise the array has the first ten sockets that came in, in their
-- order, with free entries behind them. Every later one is in no entry.
pub socket_start_listening_select-first_ten :
    (master : ℕ) (es : List Event)
    → Accepts es
    → socket_start_listening_select master es ≡ first_ten (arrivals master es)
unfolding socket_start_listening_select
socket_start_listening_select-first_ten master es h =
    rounds-behind master es [] h tt ∙ behind-first_ten (arrivals master es)
