-- ===== src/SacCli/Init.antt =====
-- sac_cli_init of sac_cli/sac_cli.c, as its unclosed branch is meant to stand: the options, then the connection to the file
-- system server, then the main loop of FUSE, whose functions are arguments.
use threaders.Base.{ℕ, Option, none, some, List, [], ℤ, pos, negsuc, length, ltb, if◌then◌else◌}
use threaders.Sockets.Setup.{
  System, Opened, opened, unset_fault, local_ip, minus_one, is_minus_one, socket_connect_to_server,
}

-- The result, with the sockets that stay open and the path of the disc; exit(0); or a path that is written over the end
-- of its array, or a pointer that was never set.
pub data Init : Type 0 where
  returned : ℤ → List ℕ → Init
  exited : ℕ → Init
  fault : Init

-- strcpy into `fuse_disc_path`, with the final zero.
abbrev pub fits_disc_path : List ℕ → Init → Init
fits_disc_path path next = if ltb (length path) 1000 then next else fault

-- close() of -1 does nothing.
abbrev pub connected : (List ℕ → ℤ) → List ℕ → Opened → Init
connected fuse_main path unset_fault = fault
connected fuse_main path (opened (negsuc k) left) = returned minus_one left
connected fuse_main path (opened (pos fd) left) = returned (fuse_main path) left

module _ {I : Type 0} (os : System I) (fuse_main : List ℕ → ℤ) where
  abbrev pub with_options : Option (List ℕ) → Init
  with_options none = exited 0
  with_options (some disc_path) =
      fits_disc_path disc_path
        (connected fuse_main disc_path (socket_connect_to_server os (some local_ip) 8003))

  -- What fuse_opt_parse returns, and the option --Disc-Path.
  unfoldable pub sac_cli_init : ℤ → Option (List ℕ) → Init
  sac_cli_init parsed disc_path =
      if is_minus_one parsed then returned (pos 1) [] else with_options disc_path
