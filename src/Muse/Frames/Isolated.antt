-- ===== src/Muse/Frames/Isolated.antt =====
-- The pages that asignar_dir_memoria of muse/src/muse.c takes: no two of them share a frame.
use threaders.Base.{
  ℕ, zero, suc, ◌+◌, ◌/◌, ◌≤◌, ◌<◌, ◌≡◌, ◌≢◌, refl, Bool, true, false, Option, some, List, [], ◌∷◌,
  ◌++◌, arith, sym, ap, ◌∙◌, length, get_elem?, leb, ◌==◌, ℤ, pos, inl, inr, Bool-cases,
  length-append,
}
use threaders.Commons.{Commons, Documented, reference, for_documented}
use threaders.Wire.Bytes.{Bytes}
use threaders.Muse.{
  Pagina, free_page, filled, muse_init, first_libre, asignar_frame_libre,
  asignar_indice_vector_libre, existe_memoria_parar_paginas, set_at, set_at_int,
  cambiar_estado_pagina, Reserva, reserva_of, or_first, both, asignar_pagina, and_then,
  asignar_paginas,
}
use threaders.Muse.Frames.{
  count, libres, existe_memoria_parar_paginas-leb, Changed, set_at-Changed, first_libre-free,
  first_pagina-libres, libres-page, count-set_at, libres_some, libres-set_at, some_injective,
}

-- As many frames as pages are free; a page that is taken has a frame of its own that is taken.
pub record Isolated (r : Reserva) : Type 0 where
  pub equal : count r.frames ≡ count (libres r.paginas)
  pub backed :
      (i : ℕ) (p : Pagina)
      → get_elem? r.paginas i ≡ some p
      → p.libre ≡ false
      → (k : ℕ) × (p.frame ≡ pos k) × (get_elem? r.frames k ≡ some false)
  pub apart :
      (i j : ℕ) (p q : Pagina)
      → get_elem? r.paginas i ≡ some p
      → get_elem? r.paginas j ≡ some q
      → p.libre ≡ false
      → q.libre ≡ false
      → p.frame ≡ q.frame
      → i ≡ j

abbrev taken_by : ℤ → Pagina → Pagina
taken_by frame p = record p { frame = frame; libre = false }

-- One page more: the frame `k` and the page `x` were free.
module _ (r : Reserva) (v : Isolated r) (k x : ℕ) (page : Pagina)
    (fs : Changed r.frames k (λ l. false) true) (ps : Changed r.paginas x (taken_by (pos k)) page)
    (free : get_elem? r.frames k ≡ some true) where
  frame_kept : (j : ℕ) → get_elem? r.frames j ≡ some false → get_elem? fs.ys j ≡ some false
  frame_kept j h = elim (Bool-cases (j == k)) [
    | inl same ↦ let jk : j ≡ k = ground arith in ap (get_elem? fs.ys) jk ∙ fs.here
    | inr ne ↦ fs.others j (ground arith) ∙ h
  ]

  backed_after :
      (i : ℕ) (p : Pagina)
      → get_elem? ps.ys i ≡ some p
      → p.libre ≡ false
      → (n : ℕ) × (p.frame ≡ pos n) × (get_elem? fs.ys n ≡ some false)
  backed_after i p g t = elim (Bool-cases (i == x)) [
    | inl same ↦
        let ix : i ≡ x = ground arith in
        let new : taken_by (pos k) page ≡ p =
          some_injective (taken_by (pos k) page) p
            (sym ps.here ∙ ap (get_elem? ps.ys) (sym ix) ∙ g) in
        (k, ap (λ q. q.frame) (sym new), fs.here)
    | inr ne ↦
        let (n, e, h) = v.backed i p (sym (ps.others i (ground arith)) ∙ g) t in
        (n, e, frame_kept n h)
  ]

  -- An old page is not in the new frame.
  other_frame :
      (j : ℕ) (q : Pagina) → get_elem? r.paginas j ≡ some q → q.libre ≡ false → q.frame ≢ pos k
  other_frame j q g t e =
      let (n, f, h) = v.backed j q g t in
      let nk : pos n ≡ pos k = sym f ∙ e in
      let same : n ≡ k = cc nk in
      let clash : some false ≡ some true = sym h ∙ ap (get_elem? r.frames) same ∙ free in cc clash

  frame_new : (i : ℕ) (p : Pagina) → i ≡ x → get_elem? ps.ys i ≡ some p → p.frame ≡ pos k
  frame_new i p ix g =
      let new : taken_by (pos k) page ≡ p =
        some_injective (taken_by (pos k) page) p
          (sym ps.here ∙ ap (get_elem? ps.ys) (sym ix) ∙ g) in
      ap (λ q. q.frame) (sym new)

  apart_after :
      (i j : ℕ) (p q : Pagina)
      → get_elem? ps.ys i ≡ some p
      → get_elem? ps.ys j ≡ some q
      → p.libre ≡ false
      → q.libre ≡ false
      → p.frame ≡ q.frame
      → i ≡ j
  apart_after i j p q gp gq tp tq e = elim (Bool-cases (i == x)) [
    | inl it ↦ elim (Bool-cases (j == x)) [
      | inl jt ↦ ground arith
      | inr jf ↦ absurd (
          other_frame j q (sym (ps.others j (ground arith)) ∙ gq) tq
            (sym e ∙ frame_new i p (ground arith) gp))
    ]
    | inr if_ ↦ elim (Bool-cases (j == x)) [
      | inl jt ↦ absurd (
          other_frame i p (sym (ps.others i (ground arith)) ∙ gp) tp
            (e ∙ frame_new j q (ground arith) gq))
      | inr jf ↦
          v.apart i j p q (sym (ps.others i (ground arith)) ∙ gp)
            (sym (ps.others j (ground arith)) ∙ gq) tp tq e
    ]
  ]

count-Changed :
    (ls : List Bool) (k : ℕ) (ch : Changed ls k (λ l. false) true)
    → get_elem? ls k ≡ some true
    → count ch.ys + 1 ≡ count ls
count-Changed ls k ch g =
    let (ms, e, n) = count-set_at ls k g in
    let same : ms ≡ ch.ys = some_injective ms ch.ys (sym e ∙ ch.run) in
    ap (λ ys. count ys + 1) (sym same) ∙ n

count-pages :
    (ps : List Pagina) (x : ℕ) (frame : ℤ) (page : Pagina) (ch : Changed ps x (taken_by frame) page)
    → get_elem? (libres ps) x ≡ some true
    → count (libres ch.ys) + 1 ≡ count (libres ps)
count-pages ps x frame page ch g =
    let (ms, e, n) = count-set_at (libres ps) x g in
    let run : some (libres ch.ys) ≡ set_at (libres ps) x (λ l. false) =
      ap libres_some (sym ch.run) ∙ libres-set_at ps x (taken_by frame) (λ p. refl) in
    let same : ms ≡ libres ch.ys = some_injective ms (libres ch.ys) (sym e ∙ sym run) in
    ap (λ ys. count ys + 1) (sym same) ∙ n

-- One pass of the loop, for the frame `a` and the index `b` that it found.
abbrev pass : Reserva → ℤ → ℤ → Option Reserva
pass r a b =
    both (r.list_paginas ++ b ∷ []) (or_first r.primer_frame_libre a) a
      (set_at_int r.frames a (λ l. false)) (set_at_int r.paginas b (taken_by a))

pass-eq :
    (r : Reserva)
    → asignar_pagina reference r
      ≡ pass r (first_libre 0 r.frames) (first_libre 0 (libres r.paginas))
unfolding asignar_pagina asignar_frame_libre asignar_indice_vector_libre cambiar_estado_pagina
pass-eq r = ap (pass r (first_libre 0 r.frames)) (first_pagina-libres 0 r.paginas)

pub record Step (r : Reserva) : Type 0 where
  pub after : Reserva
  pub run : asignar_pagina reference r ≡ some after
  pub isolated : Isolated after
  pub frames : count after.frames + 1 ≡ count r.frames
  pub pages : length after.list_paginas ≡ length r.list_paginas + 1
  pub frame : ℕ
  pub free : get_elem? r.frames frame ≡ some true
  pub last : after.frame_libre ≡ some (pos frame)
  pub size : length after.frames ≡ length r.frames
  pub primer : after.primer_frame_libre ≡ some (or_first r.primer_frame_libre (pos frame))

pub asignar_pagina-Step : (r : Reserva) → Isolated r → 0 < count r.frames → Step r
asignar_pagina-Step r v h =
    let (k, e, g) = first_libre-free 0 r.frames h in
    let (x, ex, gx) = first_libre-free 0 (libres r.paginas) (omega (arith, v.equal)) in
    let (page, gp, tp) = libres-page r.paginas x gx in
    let fs = set_at-Changed r.frames k (λ l. false) true g in
    let ps = set_at-Changed r.paginas x (taken_by (pos k)) page gp in
    let list = r.list_paginas ++ pos x ∷ [] in
    let first = or_first r.primer_frame_libre (pos k) in
    let nf : count fs.ys + 1 ≡ count r.frames = count-Changed r.frames k fs g in
    let np : count (libres ps.ys) + 1 ≡ count (libres r.paginas) =
      count-pages r.paginas x (pos k) page ps gx in
    record {
      after = record {
        frames = fs.ys;
        paginas = ps.ys;
        list_paginas = list;
        primer_frame_libre = some first;
        frame_libre = some (pos k);
      };
      run =
          pass-eq r
          ∙ ap (λ a. pass r a (first_libre 0 (libres r.paginas))) (e ∙ ap pos (omega arith))
          ∙ ap (pass r (pos k)) (ex ∙ ap pos (omega arith))
          ∙ ap (λ o. both list first (pos k) o (set_at r.paginas x (taken_by (pos k)))) fs.run
          ∙ ap (both list first (pos k) (some fs.ys)) ps.run;
      isolated = record {
        equal = omega (arith, nf, np, v.equal);
        backed = backed_after r v k x page fs ps g;
        apart = apart_after r v k x page fs ps g;
      };
      frames = nf;
      frame = k;
      free = g;
      last = refl;
      primer = refl;
      size = fs.size;
      pages = length-append r.list_paginas (pos x ∷ []);
    }

-- What taking `n` pages does.
pub record Taken (c : Commons) (n : ℕ) (r : Reserva) : Type 0 where
  pub after : Reserva
  pub run : asignar_paginas c n r ≡ some after
  pub isolated : Isolated after
  pub frames : count after.frames + n ≡ count r.frames
  pub pages : length after.list_paginas ≡ length r.list_paginas + n

asignar_paginas-Taken_at :
    (n : ℕ) (r : Reserva) → Isolated r → n ≤ count r.frames → Taken reference n r
unfolding asignar_paginas
asignar_paginas-Taken_at zero r v h = record {
  after = r;
  run = refl;
  isolated = v;
  frames = omega arith;
  pages = omega arith;
}
asignar_paginas-Taken_at (suc n) r v h =
    let s = asignar_pagina-Step r v (omega arith) in
    let rest = asignar_paginas-Taken_at n s.after s.isolated (omega (arith, s.frames)) in
    record {
      after = rest.after;
      run = ap (λ o. and_then reference o (asignar_paginas reference n)) s.run ∙ rest.run;
      isolated = rest.isolated;
      frames = omega (arith, rest.frames, s.frames);
      pages = omega (arith, rest.pages, s.pages);
    }

-- With the list operations as documented, where existe_memoria_parar_paginas says that there is
-- memory for `n` pages, `n` not 0, and as many frames as pages are free and no two taken pages
-- share a frame, the loop of asignar_dir_memoria takes `n` pages without an access outside a
-- vector: it adds `n` pages to the segment, `n` frames fewer are free, and again no two taken
-- pages share a frame.
pub asignar_paginas-Taken :
    {c : Commons}
    → Documented c
    → (n : ℕ) (r : Reserva) → Isolated r
    → 0 < n
    → existe_memoria_parar_paginas r.frames n ≡ true
    → Taken c n r
asignar_paginas-Taken {c} d n r v h e =
    let enough : leb n (count r.frames) ≡ true =
      sym (existe_memoria_parar_paginas-leb r.frames n h) ∙ e in
    for_documented (λ o. Taken o n r) d (asignar_paginas-Taken_at n r v (ground arith))

filled-count : (n : ℕ) → count (filled n true) ≡ count (libres (filled n free_page))
filled-count zero = refl
filled-count (suc n) = ap (λ k. k + 1) (filled-count n)

filled-free : (n i : ℕ) (p : Pagina) → get_elem? (filled n free_page) i ≡ some p → p.libre ≡ true
filled-free zero i p h = absurd (cc h)
filled-free (suc n) zero p h =
    let e : free_page ≡ p = some_injective free_page p h in ap (λ q. q.libre) (sym e)
filled-free (suc n) (suc i) p h = filled-free n i p h

taken_nowhere :
    (n i : ℕ) (p : Pagina) → get_elem? (filled n free_page) i ≡ some p → p.libre ≡ false → ⊥
taken_nowhere n i p g t = let u : p.libre ≡ true = filled-free n i p g in cc (t, u)

-- The vectors that muse_init makes have as many free frames as free pages and no page that is taken, so
-- they meet what the loop needs.
pub muse_init-Isolated :
    (c : Commons) (alloc : ℕ → Bytes) (memory_size page_size swap_size : ℕ) (list : List ℤ)
    → Isolated (reserva_of (muse_init c alloc memory_size page_size swap_size) list)
unfolding muse_init
muse_init-Isolated c alloc memory_size page_size swap_size list =
    let total = memory_size / page_size + swap_size / page_size in
    record {
      equal = filled-count total;
      backed = λ i p g t. absurd (taken_nowhere total i p g t);
      apart = λ i j p q g gq t tq e. absurd (taken_nowhere total i p g t);
    }
