-- ===== src/SacCli/Examples.antt =====
-- A call of sac_cli/sac_cli.c at a concrete path, and the theorem applied there.
use threaders.Base.{[], ◌∷◌}
use threaders.Commons.{reference, reference-Documented}
use threaders.SacCli.{open_op, sac_operations}
use threaders.SacCli.Fate.{Fate, sac_operations-Fate}

-- The path "a", and what the server's malloc returns is empty.
sac_operations-Fate_example :
    Fate reference (λ n. []) 3 [] open_op (sac_operations 4096 0 0 open_op (97 ∷ 0 ∷ [])) (1 ∷ [])
sac_operations-Fate_example =
    sac_operations-Fate reference-Documented (λ n. []) 3 [] (1 ∷ []) 4096 0 0 open_op (97 ∷ 0 ∷ [])
