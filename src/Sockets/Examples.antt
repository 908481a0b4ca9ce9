-- ===== src/Sockets/Examples.antt =====
-- The array of clients of shared-common/common/sockets.c after a first client.
use threaders.Base.{ℕ, suc, ◌≡◌, ◌≢◌, false, some, List, [], ◌∷◌, arith, pos, pos_part, ap}
use threaders.Sockets.Select.{
  Event, Accepts, socket_start_listening_select, socket_start_listening_select-first_ten,
}

-- A round that accepts socket 4, and one in which select says nothing.
abbrev events : List Event
events =
    record { select = λ n set. set; accepted = pos 4 }
    ∷ record { select = λ n set sd. false; accepted = pos 5 }
    ∷ []

pos-ne : (n : ℕ) → pos (suc n) ≢ pos 0
pos-ne n e = let h : suc n ≡ 0 = ap pos_part e in omega (arith, h)

events-Accepts : Accepts events
events-Accepts =
    let second : Accepts (record { select = λ n set sd. false; accepted = pos 5 } ∷ []) =
      (pos-ne 4, tt) in
    (pos-ne 3, second)

socket_start_listening_select-first_ten_example :
    socket_start_listening_select 3 events ≡ some (4 ∷ 0 ∷ 0 ∷ 0 ∷ 0 ∷ 0 ∷ 0 ∷ 0 ∷ 0 ∷ 0 ∷ [])
socket_start_listening_select-first_ten_example =
    socket_start_listening_select-first_ten 3 events events-Accepts
