-- ===== src/Muse/Free/Walk.antt =====
-- The loop of MEMFREE in muse/src/muse.c over the headers of the memory.
use threaders.Base.{
  ℕ, zero, suc, ◌+◌, ◌-◌, ◌%◌, ◌≤◌, ◌<◌, ◌≡◌, false, not, ◌&&◌, ◌||◌, some, arith, sym, ap, ◌∙◌,
  leb, ltb, ◌==◌, if◌then◌else◌,
}
use threaders.Wire.Bytes.{Bytes}
use threaders.Muse.Access.{libre_of}
use threaders.Muse.Free.{
  uint32_mod, pointer_mod, int_limit, size_of, memset_zero, Walked, walked, with_header,
  after_memset, read_at, meets, walk,
}

-- From `desp` on the headers lead to the one of the block at `dir`, or past it.
pub data Chain (m : Bytes) (dir : ℕ) : ℕ → Type 0 where
  last :
      {desp : ℕ} (h : Bytes)
      → read_at desp m ≡ some h
      → dir ≤ desp + size_of h + 6
      → desp + size_of h + 1 < int_limit
      → Chain m dir desp
  more :
      {desp : ℕ} (h : Bytes) (next : ℕ)
      → read_at desp m ≡ some h
      → next ≡ desp + size_of h + 1
      → next + 5 < dir
      → Chain m dir next
      → Chain m dir desp

-- The address `dir - 6` lies below the memory.
meets-false :
    (base dir desp size : ℕ)
    → dir ≤ base
    → base + uint32_mod ≤ pointer_mod
    → desp + size < int_limit
    → 5 ≤ dir
    → meets base dir desp size ≡ false
meets-false base dir desp size h l s d =
    let small : (base + desp + size) % pointer_mod ≡ base + desp + size = omega arith in
    ground (arith, small)

abbrev pass : ℕ → ℕ → ℕ → ℕ → ℕ → Bytes → Bytes → Walked
pass n base dir size desp m h =
    let met = meets base dir desp (size_of h) in
    let next = if met then desp else (desp + size_of h + 1) % uint32_mod in
    let rest = walk n base dir size next m in
    if met && not (libre_of h == 0)
    then after_memset (memset_zero (desp + 5) ((size_of h + size) % uint32_mod) m)
    else if leb int_limit next || ltb next (dir - 5)
    then rest
    else walked m

walk-pass :
    (n base dir size desp : ℕ) (m h : Bytes)
    → read_at desp m ≡ some h
    → walk (suc n) base dir size desp m ≡ pass n base dir size desp m h
unfolding walk
walk-pass n base dir size desp m h e = ap (λ o. with_header o (pass n base dir size desp m)) e

abbrev ends : ℕ → ℕ → ℕ → ℕ → ℕ → Bytes → Walked
ends n base dir size next m =
    if leb int_limit next || ltb next (dir - 5) then walk n base dir size next m else walked m

-- A pass that meets nothing.
pass-ends :
    (n base dir size desp : ℕ) (m h : Bytes)
    → dir ≤ base
    → base + uint32_mod ≤ pointer_mod
    → desp + size_of h + 1 < int_limit
    → 5 ≤ dir
    → pass n base dir size desp m h ≡ ends n base dir size (desp + size_of h + 1) m
pass-ends n base dir size desp m h hb hp hs hd =
    let no : meets base dir desp (size_of h) ≡ false =
      meets-false base dir desp (size_of h) hb hp (omega arith) hd in
    let small : (desp + size_of h + 1) % uint32_mod ≡ desp + size_of h + 1 = omega arith in
    ap
      (λ b.
        let next = if b then desp else (desp + size_of h + 1) % uint32_mod in
        if b && not (libre_of h == 0)
        then after_memset (memset_zero (desp + 5) ((size_of h + size) % uint32_mod) m)
        else ends n base dir size next m)
      no
    ∙ ap (λ k. ends n base dir size k m) small

-- The loop comes to the end of a chain with fuel `dir`, and changes nothing.
pub walk-Chain :
    (n base dir size desp : ℕ) (m : Bytes)
    → dir ≤ base
    → base + uint32_mod ≤ pointer_mod
    → 5 ≤ dir
    → dir < int_limit
    → desp < dir
    → dir ≤ n + desp
    → Chain m dir desp
    → walk n base dir size desp m ≡ walked m
walk-Chain zero base dir size desp m hb hp hd hi hl hn ch = absurd (omega arith)
walk-Chain (suc n) base dir size desp m hb hp hd hi hl hn (Chain.last h r e s) =
    walk-pass n base dir size desp m h r
    ∙ pass-ends n base dir size desp m h hb hp s hd
    ∙ ground arith
walk-Chain (suc n) base dir size desp m hb hp hd hi hl hn (Chain.more h next r e s ch) =
    let rest : walk n base dir size next m ≡ walked m =
      walk-Chain n base dir size next m hb hp hd hi (omega arith) (omega arith) ch in
    walk-pass n base dir size desp m h r
    ∙ pass-ends n base dir size desp m h hb hp (omega arith) hd
    ∙ ap (λ k. ends n base dir size k m) (sym e)
    ∙ ground (arith, rest)

-- A memory with the same bytes before `dir + 5` has the same chain.
pub Chain-same :
    (m m' : Bytes) (dir desp : ℕ)
    → ((j : ℕ) → j + 8 ≤ dir + 3 → read_at j m' ≡ read_at j m)
    → desp + 5 ≤ dir
    → Chain m dir desp
    → Chain m' dir desp
Chain-same m m' dir desp same l (Chain.last h r e s) =
    Chain.last h (same desp (omega arith) ∙ r) e s
Chain-same m m' dir desp same l (Chain.more h next r e s ch) =
    Chain.more h next (same desp (omega arith) ∙ r) e s
      (Chain-same m m' dir next same (omega arith) ch)
