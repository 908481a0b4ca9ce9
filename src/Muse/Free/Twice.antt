-- ===== src/Muse/Free/Twice.antt =====
-- What MEMFREE of muse/src/muse.c does to a block that is in use, once and once more.
use threaders.Base.{
  ℕ, zero, suc, ◌+◌, ◌-◌, ◌≤◌, ◌<◌, ◌≡◌, refl, true, false, ◌||◌, none, some, arith, ap, ◌∙◌, leb,
  ltb, ◌==◌, if◌then◌else◌, length, get_elem?, take, drop,
}
use threaders.Commons.{Commons}
use threaders.Wire.Bytes.{Bytes, slice}
use threaders.Wire.Bytes.Splice.{
  spliced, overwrite-spliced, length-spliced, slice-before, spliced_twice, get-slice, get-written,
  slice-some,
}
use threaders.Wire.Protocol.{free_response, t_free_response}
use threaders.Wire.Message.{utils_serialize_and_send}
use threaders.Muse.{Muse, Proceso, existe_proceso_en_lista}
use threaders.Muse.Users.{existe_memoria}
use threaders.Muse.Access.{libre_of, byte_or_zero}
use threaders.Muse.Free.{
  uint32_mod, pointer_mod, int_limit, size_of, zeroes, walked, read_at, walk, freed, answer_freed,
  and_walk, join_closest, clear_block, free_header, free_block, handle_memfree,
}
use threaders.Muse.Free.Walk.{Chain, walk-Chain, Chain-same}

length-zeroes : (n : ℕ) → length (zeroes n) ≡ n
length-zeroes zero = refl
length-zeroes (suc n) = ap suc (length-zeroes n)

get-zeroes : (n k : ℕ) → k < n → get_elem? (zeroes n) k ≡ some 0
get-zeroes zero k h = absurd (omega arith)
get-zeroes (suc n) zero h = refl
get-zeroes (suc n) (suc k) h = get-zeroes n k (omega arith)

-- The memory after a block of `size` bytes at `dir` was given back.
abbrev pub cleared : ℕ → ℕ → Bytes → Bytes
cleared dir size m = spliced (dir + 5) (zeroes size) m

module _ (fuel base dir size : ℕ) (m : Bytes) (some_bytes : 1 ≤ size)
    (room : dir + size + 8 ≤ length m) (small : length m < int_limit) (low : 5 ≤ dir)
    (below : dir ≤ base) (high : base + uint32_mod ≤ pointer_mod) (enough : dir ≤ fuel)
    (chain : Chain m dir 0) where
  fits : dir + 5 + length (zeroes size) ≤ length m
  fits = omega (arith, length-zeroes size)

  length-cleared : length (cleared dir size m) ≡ length m
  length-cleared = length-spliced (dir + 5) (zeroes size) m fits

  read_before : (j : ℕ) → j + 8 ≤ dir + 3 → read_at j (cleared dir size m) ≡ read_at j m
  read_before j h =
      ap (λ o. if leb int_limit j then none else o)
        (slice-before j 8 (dir + 5) (zeroes size) m fits (omega arith))

  Chain-cleared : Chain (cleared dir size m) dir 0
  Chain-cleared = Chain-same m (cleared dir size m) dir 0 read_before low chain

  -- The flag of the next header is among the bytes that were cleared.
  closest-libre :
      (closest : Bytes)
      → slice (dir + size) 8 (cleared dir size m) ≡ some closest
      → libre_of closest ≡ 0
  closest-libre closest e =
      let k = size - 1 in
      let at : dir + size + 4 ≡ dir + 5 + k = omega arith in
      ap byte_or_zero (
        get-slice (dir + size) 8 4 (cleared dir size m) closest e (omega arith)
        ∙ ap (get_elem? (cleared dir size m)) at
        ∙ get-written (dir + 5) k (zeroes size) m fits (omega (arith, length-zeroes size))
        ∙ get-zeroes size k (omega arith))

  join_closest-cleared :
      join_closest fuel base dir size
        (cleared dir size m)
        (slice (dir + size) 8 (cleared dir size m))
      ≡ walked (cleared dir size m)
  join_closest-cleared =
      let m' = cleared dir size m in
      let closest = take 8 (drop (dir + size) m') in
      let read : slice (dir + size) 8 m' ≡ some closest =
        slice-some (dir + size) 8 m' (omega (arith, length-cleared)) in
      let flag : (libre_of closest == 0) ≡ true = ground (arith, closest-libre closest read) in
      let end : walk fuel base dir size 0 m' ≡ walked m' =
        walk-Chain fuel base dir size 0 m' below high low (omega arith) (omega arith) (omega arith)
          Chain-cleared in
      ap (join_closest fuel base dir size m') read ∙ ground (arith, flag, end)

  clear_block-cleared : clear_block fuel base dir size m ≡ walked (cleared dir size m)
  clear_block-cleared =
      ap (λ o. and_walk o λ x. join_closest fuel base dir size x (slice (dir + size) 8 x))
        (overwrite-spliced (dir + 5) (zeroes size) m fits)
      ∙ join_closest-cleared

-- The block of malloc(5) has room for the eight bytes that are copied into it.
free_block-taken :
    (usable : ℕ → ℕ) (fuel base dir : ℕ) (m : Muse) (p : Proceso) (header memoria : Bytes)
    → 8 ≤ usable 5
    → 5 ≤ dir
    → slice (dir - 5) 8 m.memoria ≡ some header
    → libre_of header ≡ 0
    → clear_block fuel base dir (size_of header) m.memoria ≡ walked memoria
    → free_block usable fuel base dir m (some p)
      ≡ freed
          (record m { memoria = memoria })
          (utils_serialize_and_send free_response (t_free_response 1))
free_block-taken usable fuel base dir m p header memoria room low e taken run =
    let fine : (ltb (usable 5) 8 || ltb dir 5) ≡ false = ground arith in
    let flag : (libre_of header == 0) ≡ true = ground arith in
    ap (λ b. free_header fuel base dir m (if b then none else slice (dir - 5) 8 m.memoria)) fine
    ∙ ap (free_header fuel base dir m) e
    ∙ ground (arith, flag, ap (answer_freed m) run)

-- Two MEMFREEs of one block: the memory after the first, and both answers.
abbrev pub FreedTwice : Commons → (ℕ → ℕ) → ℕ → ℕ → Muse → ℕ → ℕ → ℕ → Type 0
FreedTwice c usable fuel base m dir self_id size =
    let after = record m { memoria = cleared dir size m.memoria } in
    let answer = utils_serialize_and_send free_response (t_free_response 1) in
    (handle_memfree c usable fuel base m dir self_id ≡ freed after answer)
    × (handle_memfree c usable fuel base after dir self_id ≡ freed after answer)
    × (slice (dir - 5) 8 after.memoria ≡ slice (dir - 5) 8 m.memoria)

-- Where the process is known, the block of malloc(5) really has 8 bytes, `dir` is the start of a
-- block that is in use, of at least one byte and with 8 bytes of the memory behind it, the memory
-- lies at addresses from `dir` on, and the headers from the start of the memory lead to the
-- block: MEMFREE ends with fuel `dir` and answers that the block is free. It clears as many bytes
-- as the block has, but from five bytes behind its start, so that the header of the next block is
-- cleared, and joins no blocks. The header of the block says as before that it is in use, and a
-- second MEMFREE of it changes nothing more and gets the same answer.
pub handle_memfree-FreedTwice :
    (c : Commons) (usable : ℕ → ℕ) (fuel base : ℕ) (m : Muse) (dir self_id : ℕ) (p : Proceso)
    (header : Bytes)
    → existe_proceso_en_lista c m self_id ≡ some p
    → 8 ≤ usable 5
    → slice (dir - 5) 8 m.memoria ≡ some header
    → libre_of header ≡ 0
    → 1 ≤ size_of header
    → dir + size_of header + 8 ≤ length m.memoria
    → length m.memoria < int_limit
    → 5 ≤ dir
    → dir ≤ base
    → base + uint32_mod ≤ pointer_mod
    → dir ≤ fuel
    → Chain m.memoria dir 0
    → FreedTwice c usable fuel base m dir self_id (size_of header)
unfolding handle_memfree
handle_memfree-FreedTwice c usable fuel base m dir self_id p header known room e taken one fit small
      low below high enough chain =
    let size = size_of header in
    let m' = cleared dir size m.memoria in
    let after = record m { memoria = m' } in
    let same : slice (dir - 5) 8 m' ≡ slice (dir - 5) 8 m.memoria =
      slice-before (dir - 5) 8 (dir + 5) (zeroes size) m.memoria (omega (arith, length-zeroes size))
        (omega arith) in
    let len : length m' ≡ length m.memoria =
      length-cleared fuel base dir size m.memoria one fit small low below high enough chain in
    let first : clear_block fuel base dir size m.memoria ≡ walked m' =
      clear_block-cleared fuel base dir size m.memoria one fit small low below high enough chain in
    let second : clear_block fuel base dir size m' ≡ walked m' =
      clear_block-cleared fuel base dir size m' one (omega (arith, len)) (omega (arith, len)) low
        below high enough
        (Chain-cleared fuel base dir size m.memoria one fit small low below high enough chain)
      ∙ ap walked
          (spliced_twice (dir + 5) (zeroes size) m.memoria (omega (arith, length-zeroes size))) in
    (
      ap (free_block usable fuel base dir m) known
          ∙ free_block-taken usable fuel base dir m p header m' room low e taken first,
      ap (free_block usable fuel base dir after) (existe_memoria c m m' self_id ∙ known)
          ∙ free_block-taken usable fuel base dir after p header m' room low (same ∙ e) taken
              second,
      same,
    )
