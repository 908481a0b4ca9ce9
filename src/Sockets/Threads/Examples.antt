-- ===== src/Sockets/Threads/Examples.antt =====
-- server_handler of shared-common/common/sockets.c at concrete values.
use threaders.Base.{ℕ, ◌≡◌, some, [], ◌∷◌, arith, List}
use threaders.Wire.Message.Paths.{IsText}
use threaders.Wire.Bytes.{Bytes}
use threaders.Sockets.Threads.{buffer_size, client_message, server_handler}
use threaders.Sockets.Threads.Overlay.{in_turn, Texts, filled_with, server_handler-overlays}

-- "abc" of one client, then "x" of another, which gets "xbc" back.
abbrev messages : List (ℕ × Bytes)
messages = (4, 97 ∷ 98 ∷ 99 ∷ []) ∷ (5, 120 ∷ []) ∷ []

server_handler-overlays_example :
    server_handler (in_turn messages) client_message
    ≡ some (
      filled_with buffer_size (120 ∷ 98 ∷ 99 ∷ []),
      (4, 97 ∷ 98 ∷ 99 ∷ []) ∷ (5, 120 ∷ 98 ∷ 99 ∷ []) ∷ [],
    )
server_handler-overlays_example =
    let abc : IsText (97 ∷ 98 ∷ 99 ∷ []) = (omega arith, (omega arith, (omega arith, tt))) in
    let x : IsText (120 ∷ []) = (omega arith, tt) in
    let second : Texts ((5, 120 ∷ []) ∷ []) = (x, omega arith, tt) in
    server_handler-overlays messages (abc, omega arith, second)
