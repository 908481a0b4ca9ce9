-- ===== src/Libmuse/Examples.antt =====
-- The calls of libmuse/libmuse.c and the server at concrete values, and the theorems applied there.
use threaders.Base.{
  some, ◌+◌, ◌≤◌, ◌++◌, ℕ, zero, suc, ◌≡◌, refl, ap, none, [], ◌∷◌, arith, length, true,
}
use threaders.Commons.{reference, reference-Documented}
use threaders.Wire.Bytes.{Bytes}
use threaders.Wire.Message.Delivered.{Allocates}
use threaders.Muse.{Muse, filled, muse_init}
use threaders.Muse.Server.{Environment}
use threaders.Libmuse.Copied.{Copied}
use threaders.Muse.Server.Sound.{Sound}
use threaders.Muse.Server.Reached.{initial, served, Reached-Sound}
use threaders.Libmuse.Fetched.{Fetched, muse_get-Fetched}

abbrev threes : ℕ → Bytes
threes n = filled n 3

length-threes : (n : ℕ) → length (threes n) ≡ n
length-threes zero = refl
length-threes (suc n) = ap suc (length-threes n)

threes-Allocates : Allocates threes
threes-Allocates = record { sized = length-threes }

abbrev environment : Environment
environment = record {
  alloc = threes;
  usable = λ n. 24;
  base = 4096;
  page_size = 16;
  fuel = 16;
  padding = 0;
  behind = some (7, 7);
  recorer = λ m s size. none;
}

-- One page of memory, with the bytes 1 to 8 from address 5 on.
abbrev machine : Muse
machine = record {
  memoria = 9 ∷ 0 ∷ 0 ∷ 0 ∷ 0 ∷ 1 ∷ 2 ∷ 3 ∷ 4 ∷ 5 ∷ 6 ∷ 7 ∷ 8 ∷ 0 ∷ 0 ∷ 0 ∷ [];
  frames = true ∷ [];
  paginas = [];
  lista_procesos = [];
}

-- Eight bytes are asked for.
muse_get-Fetched_example : Fetched reference environment threes [] machine 7 5 8 [] (6 ∷ [])
muse_get-Fetched_example =
    muse_get-Fetched environment threes [] machine 7 5 8 [] (6 ∷ []) reference-Documented
      threes-Allocates threes-Allocates (omega arith) (omega arith) (omega arith)

-- The server at its start, with 16 bytes of memory, and a muse_get as its first request.
abbrev start : Muse
start = muse_init reference threes 16 16 0

enough : 5 + 8 ≤ length start.memoria
unfolding muse_init
enough = omega arith

abbrev first_get : Fetched reference environment threes [] start 7 5 8 [] []
first_get =
    muse_get-Fetched environment threes [] start 7 5 8 [] [] reference-Documented threes-Allocates
      threes-Allocates (omega arith) (omega arith) enough

Reached-Sound_example : Sound first_get.after
Reached-Sound_example =
    Reached-Sound reference-Documented environment first_get.after
      (served [] (first_get.request ++ []) first_get.answer [] (initial 16 0) first_get.serves)

-- The block of 11 bytes behind a header at address 0, which is in use.
abbrev eight_bytes : Bytes
eight_bytes = 1 ∷ 2 ∷ 3 ∷ 4 ∷ 5 ∷ 6 ∷ 7 ∷ 8 ∷ []
