-- ===== src/ClientTests/Examples.antt =====
-- The theorem of Turns, about client-tests/src/client-tests.c, at concrete values.
use threaders.Base.{◌≡◌}
use threaders.ClientTests.{test1}
use threaders.ClientTests.Turns.{yields, test1-yields}

test1-yields_example : yields (test1 3 0 10) ≡ 2
test1-yields_example = test1-yields 3 0 2
