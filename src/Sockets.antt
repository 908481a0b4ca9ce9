-- ===== src/Sockets.antt =====
-- shared-common/common/sockets.c: the array of client sockets that is kept for select. Its BACKLOG
-- entries are a list; a free entry is 0.
pub mod Select
pub mod Setup
pub mod Threads
mod Examples
use threaders.Base.{
  ℕ, zero, suc, ◌+◌, ◌≡◌, ◌≢◌, refl, Bool, true, false, Option, none, some, ◌⊎◌, List, [], ◌∷◌,
  arith, ap, ◌∙◌, ◌==◌, if◌then◌else◌, get_elem?, inl, inr, Bool-cases,
}

abbrev pub backlog : ℕ
backlog = 10

abbrev pub zeros : ℕ → List ℕ
zeros zero = []
zeros (suc n) = 0 ∷ zeros n

abbrev pub socket_select_init_clients : List ℕ
socket_select_init_clients = zeros backlog

-- The loop stops at the first free entry; with none, the socket goes nowhere.
pub socket_select_add_new_client : ℕ → List ℕ → List ℕ
socket_select_add_new_client new_socket [] = []
socket_select_add_new_client new_socket (sd ∷ clients) =
    let rest = socket_select_add_new_client new_socket clients in
    if sd == 0 then new_socket ∷ clients else sd ∷ rest

-- The entry `i` is free again; the socket that is closed is that of the operating system.
pub socket_select_close_and_reuse : ℕ → List ℕ → List ℕ
socket_select_close_and_reuse i [] = []
socket_select_close_and_reuse zero (sd ∷ clients) = 0 ∷ clients
socket_select_close_and_reuse (suc i) (sd ∷ clients) = sd ∷ socket_select_close_and_reuse i clients

abbrev pub Full : List ℕ → Type 0
Full [] = Unit {0}
Full (sd ∷ clients) = (sd ≢ 0) × Full clients

-- The new socket got an entry that was free, and giving it back restores the array.
abbrev pub Added : ℕ → List ℕ → Type 0
Added new_socket clients =
    (i : ℕ) × (get_elem? clients i ≡ some 0)
    × (get_elem? (socket_select_add_new_client new_socket clients) i ≡ some new_socket)
    × (socket_select_close_and_reuse i (socket_select_add_new_client new_socket clients) ≡ clients)

Added-here : (s : ℕ) (clients : List ℕ) → Added s (0 ∷ clients)
unfolding socket_select_add_new_client socket_select_close_and_reuse
Added-here s clients = (0, refl, refl, refl)

Added-later : (s sd : ℕ) (clients : List ℕ) → sd ≢ 0 → Added s clients → Added s (sd ∷ clients)
unfolding socket_select_add_new_client socket_select_close_and_reuse
Added-later s sd clients h (i, g, t, r) =
    let run : socket_select_add_new_client s (sd ∷ clients)
        ≡ sd ∷ socket_select_add_new_client s clients =
      ground arith in
    (
      suc i,
      g,
      ap (λ l. get_elem? l (suc i)) run ∙ t,
      ap (socket_select_close_and_reuse (suc i)) run ∙ ap (λ l. sd ∷ l) r,
    )

Full-later :
    (s sd : ℕ) (clients : List ℕ)
    → sd ≢ 0
    → socket_select_add_new_client s clients ≡ clients
    → socket_select_add_new_client s (sd ∷ clients) ≡ sd ∷ clients
unfolding socket_select_add_new_client
Full-later s sd clients h e = ground (arith, e)

-- A new client socket gets a free entry of the array, from which socket_select_close_and_reuse gives back
-- the array as it was; only when every entry is taken is the array left as it is and the socket lost.
pub socket_select_add_new_client-close_and_reuse :
    (new_socket : ℕ) (clients : List ℕ)
    → Added new_socket clients
      ⊎ (Full clients × (socket_select_add_new_client new_socket clients ≡ clients))
unfolding socket_select_add_new_client
socket_select_add_new_client-close_and_reuse s [] = inr (tt, refl)
socket_select_add_new_client-close_and_reuse s (zero ∷ clients) = inl (Added-here s clients)
socket_select_add_new_client-close_and_reuse s (suc sd ∷ clients) =
    elim (socket_select_add_new_client-close_and_reuse s clients) [
      | inl a ↦ inl (Added-later s (suc sd) clients (λ e. omega arith) a)
      | inr (f, e) ↦
          inr (((λ z. omega arith), f), Full-later s (suc sd) clients (λ z. omega arith) e)
    ]
