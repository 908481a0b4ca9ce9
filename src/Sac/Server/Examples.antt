-- ===== src/Sac/Server/Examples.antt =====
-- main of sac_server/src/sac_server.c at concrete values.
use threaders.Base.{ℕ, some, List, [], ◌∷◌, pos, negsuc, arith, refl, inr}
use threaders.Commons.{reference}
use threaders.Muse.{filled}
use threaders.Sac.Server.{Accepted, main}
use threaders.Sac.Server.Messages.{Reported, main-Reported}
use threaders.Sockets.Setup.{System}

abbrev system : System ℕ
system = record {
  getaddrinfo = λ ip port. some port;
  socket = λ info. pos 3;
  bind = λ fd info. pos 0;
  listen = λ fd n. pos 0;
  connect = λ fd info. pos 0;
}

-- A client that sends three bytes, and an accept that fails.
abbrev accepts : List Accepted
accepts =
    record { accepted_fd = pos 4; input = 1 ∷ 0 ∷ 0 ∷ []; held = 9 ∷ 9 ∷ 9 ∷ 9 ∷ [] }
    ∷ record { accepted_fd = negsuc 0; input = []; held = 9 ∷ 9 ∷ 9 ∷ 9 ∷ [] }
    ∷ []

main-Reported_example :
    Reported system accepts
      (some 5004)
      (main reference (λ n. filled n 3) system 3 accepts (some 5004))
main-Reported_example =
    main-Reported reference (λ n. filled n 3) system 3 accepts (some 5004) (λ i. inr (3, refl))
      (omega arith, (omega arith, tt))
