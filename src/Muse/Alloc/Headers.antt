-- ===== src/Muse/Alloc/Headers.antt =====
-- The pages and the headers of a new block of MALLOC in muse/src/muse.c.
use threaders.Base.{
  ℕ, suc, ◌+◌, ◌-◌, ◌*◌, ◌/◌, ◌%◌, ◌≤◌, ◌<◌, ◌≡◌, refl, true, some, arith, ap, ◌∙◌, length, pos,
  ltb, if◌then◌else◌, sub_ℕ,
}
use threaders.Wire.Bytes.{Bytes, overwrite}
use threaders.Wire.Bytes.Splice.{spliced, overwrite-spliced, length-spliced}
use threaders.Muse.Free.{uint32_mod, int_limit}
use threaders.Muse.Alloc.{
  paginas_necesarias, heap_metadata, and_store_at, bytes_sobran, dir_proxima, headers_stored,
}

-- The pages that a block of `tam` bytes and its header take.
abbrev pub pages_of : ℕ → ℕ → ℕ
pages_of page_size tam = suc ((tam + 5) / page_size)

pub paginas_necesarias-pages_of :
    (page_size tam : ℕ)
    → tam + 5 < int_limit
    → paginas_necesarias page_size tam ≡ pos (pages_of page_size tam)
unfolding paginas_necesarias
paginas_necesarias-pages_of page_size tam h =
    let small : (tam + 5) % uint32_mod ≡ tam + 5 = omega arith in
    let under : ltb (tam + 5) int_limit ≡ true = ground arith in
    ap
      (λ r.
        if ltb r int_limit then pos (r / page_size + 1) else sub_ℕ 1 ((uint32_mod - r) / page_size))
      small
    ∙ ap
        (λ b.
          if b
          then pos ((tam + 5) / page_size + 1)
          else sub_ℕ 1 ((uint32_mod - (tam + 5)) / page_size))
        under
    ∙ ap pos (omega arith)

sobran_eq :
    (total tam : ℕ)
    → tam + 5 < total
    → total < uint32_mod
    → (total + uint32_mod - (tam + 5) % uint32_mod) % uint32_mod ≡ total - (tam + 5)
sobran_eq total tam h l = omega arith

-- What a store of five bytes that fit gives.
pub overwrite-five :
    (i : ℕ) (v m : Bytes)
    → length v ≡ 5
    → i + 5 ≤ length m
    → (overwrite i v m ≡ some (spliced i v m)) × (length (spliced i v m) ≡ length m)
overwrite-five i v m h l =
    (overwrite-spliced i v m (omega arith), length-spliced i v m (omega arith))

pub headers_stored-some :
    (page_size n tam primer frame : ℕ) (m : Bytes)
    → tam + 10 ≤ n * page_size
    → n * page_size < uint32_mod
    → n * page_size ≤ tam + 5 + page_size
    → primer * page_size + 5 ≤ length m
    → frame * page_size + page_size ≤ length m
    → (memoria : Bytes) × (headers_stored page_size n tam primer frame m ≡ some memoria)
      × (length memoria ≡ length m)
headers_stored-some page_size n tam primer frame m big small near first second =
    let sobran = n * page_size - (tam + 5) in
    let e : bytes_sobran page_size n tam ≡ sobran =
      sobran_eq (n * page_size) tam (omega arith) small in
    let i = frame * page_size + page_size - sobran in
    let place : dir_proxima page_size frame sobran ≡ some i = ground arith in
    let v = heap_metadata ((sobran + uint32_mod - 6) % uint32_mod) 1 in
    let a = overwrite-five (primer * page_size) (heap_metadata tam 0) m refl first in
    let m1 = spliced (primer * page_size) (heap_metadata tam 0) m in
    let b = overwrite-five i v m1 refl (omega (arith, a.1)) in
    (
      spliced i v m1,
      ap
            (λ x.
              and_store_at (overwrite (primer * page_size) (heap_metadata tam 0) m)
                (dir_proxima page_size frame x)
                (heap_metadata ((x + uint32_mod - 6) % uint32_mod) 1))
            e
          ∙ ap (λ o. and_store_at o (dir_proxima page_size frame sobran) v) a.0
          ∙ ap (λ o. and_store_at (some m1) o v) place
          ∙ b.0,
      b.1 ∙ a.1,
    )
