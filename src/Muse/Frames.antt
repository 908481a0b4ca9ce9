-- ===== src/Muse/Frames.antt =====
-- Frames and pages of muse/src/muse.c: the test for enough of them, and the loop that takes them.
pub mod Isolated
use threaders.Base.{
  ℕ, zero, suc, ◌+◌, ◌≤◌, ◌<◌, ◌≡◌, ◌≢◌, refl, Bool, true, false, Option, none, some, List, [], ◌∷◌,
  ◌++◌, arith, sym, ap, ◌∙◌, length, get_elem?, leb, ◌==◌, if◌then◌else◌, ℤ, pos, negsuc, subst,
  inl, inr, Bool-cases, length-append,
}
use threaders.Commons.{Commons, reference}
use threaders.Muse.{
  Pagina, first_libre, asignar_frame_libre, first_pagina, asignar_indice_vector_libre, contar,
  existe_memoria_parar_paginas, with_rest, set_at, set_at_int, cambiar_estado_pagina, Reserva, both,
  asignar_pagina, and_then, asignar_paginas,
}

-- The number of free entries.
abbrev pub count : List Bool → ℕ
count [] = 0
count (l ∷ ls) = if l then count ls + 1 else count ls

abbrev pub libres : List Pagina → List Bool
libres [] = []
libres (p ∷ ps) = p.libre ∷ libres ps

contar-count :
    (ls : List Bool) (n k : ℕ)
    → k < n
    → contar ls n k ≡ (if leb n (k + count ls) then n else k + count ls)
unfolding contar
contar-count [] n k h = ground arith
contar-count (true ∷ ls) n k h = ground (arith, contar-count ls n (k + 1))
contar-count (false ∷ ls) n k h = ground (arith, contar-count ls n k)

-- For a number of pages that is not 0, as the caller's always is, existe_memoria_parar_paginas tests whether
-- so many frames are free.
pub existe_memoria_parar_paginas-leb :
    (frames : List Bool) (n : ℕ)
    → 0 < n
    → existe_memoria_parar_paginas frames n ≡ leb n (count frames)
unfolding existe_memoria_parar_paginas
existe_memoria_parar_paginas-leb frames n h = ground (arith, contar-count frames n 0 h)

-- A vector with one entry changed.
pub record Changed {A : Type 0} (xs : List A) (k : ℕ) (f : A → A) (a : A) : Type 0 where
  pub ys : List A
  pub run : set_at xs k f ≡ some ys
  pub here : get_elem? ys k ≡ some (f a)
  pub others : (j : ℕ) → j ≢ k → get_elem? ys j ≡ get_elem? xs j
  pub size : length ys ≡ length xs

others-zero :
    {A : Type 0} (x y : A) (xs : List A) (j : ℕ)
    → j ≢ 0
    → get_elem? (y ∷ xs) j ≡ get_elem? (x ∷ xs) j
others-zero x y xs zero h = absurd (h refl)
others-zero x y xs (suc j) h = refl

others-suc :
    {A : Type 0} (x : A) (xs ys : List A) (k : ℕ)
    → ((j : ℕ) → j ≢ k → get_elem? ys j ≡ get_elem? xs j)
    → (j : ℕ) → j ≢ suc k
    → get_elem? (x ∷ ys) j ≡ get_elem? (x ∷ xs) j
others-suc x xs ys k f zero h = refl
others-suc x xs ys k f (suc j) h = f j (λ e. h (ap suc e))

abbrev map_head : {A B : Type 0} → (A → B) → Option A → Option B
map_head f none = none
map_head f (some a) = some (f a)

pub set_at-Changed :
    {A : Type 0} (xs : List A) (k : ℕ) (f : A → A) (a : A)
    → get_elem? xs k ≡ some a
    → Changed xs k f a
set_at-Changed [] k f a h = absurd (cc h)
set_at-Changed (x ∷ xs) zero f a h = record {
  ys = f x ∷ xs;
  run = refl;
  here = ap (map_head f) h;
  others = others-zero x (f x) xs;
  size = refl;
}
set_at-Changed (x ∷ xs) (suc k) f a h =
    let rest = set_at-Changed xs k f a h in
    record {
      ys = x ∷ rest.ys;
      run = ap (with_rest x) rest.run;
      here = rest.here;
      others = others-suc x xs rest.ys k rest.others;
      size = ap suc rest.size;
    }

pub first_libre-free :
    (i : ℕ) (ls : List Bool)
    → 0 < count ls
    → (k : ℕ) × (first_libre i ls ≡ pos (i + k)) × (get_elem? ls k ≡ some true)
unfolding first_libre
first_libre-free i [] h = absurd (omega arith)
first_libre-free i (true ∷ ls) h = (0, ap pos (omega arith), refl)
first_libre-free i (false ∷ ls) h =
    let (k, e, g) = first_libre-free (i + 1) ls h in (suc k, e ∙ ap pos (omega arith), g)

pub first_pagina-libres : (i : ℕ) (ps : List Pagina) → first_pagina i ps ≡ first_libre i (libres ps)
unfolding first_pagina first_libre
first_pagina-libres i [] = refl
first_pagina-libres i (p ∷ ps) =
    ap (λ z. if p.libre then pos i else z) (first_pagina-libres (i + 1) ps)

pub libres-page :
    (ps : List Pagina) (k : ℕ)
    → get_elem? (libres ps) k ≡ some true
    → (p : Pagina) × (get_elem? ps k ≡ some p) × (p.libre ≡ true)
libres-page [] k h = absurd (cc h)
libres-page (p ∷ ps) zero h = (p, refl, cc h)
libres-page (p ∷ ps) (suc k) h = libres-page ps k h

pub count-set_at :
    (ls : List Bool) (k : ℕ)
    → get_elem? ls k ≡ some true
    → (ms : List Bool) × (set_at ls k (λ l. false) ≡ some ms) × (count ms + 1 ≡ count ls)
count-set_at [] k h = absurd (cc h)
count-set_at (true ∷ ls) zero h = (false ∷ ls, refl, refl)
count-set_at (false ∷ ls) zero h = absurd (cc h)
count-set_at (true ∷ ls) (suc k) h =
    let (ms, e, n) = count-set_at ls k h in (true ∷ ms, ap (with_rest true) e, omega arith)
count-set_at (false ∷ ls) (suc k) h =
    let (ms, e, n) = count-set_at ls k h in (false ∷ ms, ap (with_rest false) e, n)

abbrev pub libres_some : Option (List Pagina) → Option (List Bool)
libres_some none = none
libres_some (some ps) = some (libres ps)

libres-with_rest :
    (p : Pagina) (o : Option (List Pagina))
    → libres_some (with_rest p o) ≡ with_rest p.libre (libres_some o)
libres-with_rest p none = refl
libres-with_rest p (some ps) = refl

pub libres-set_at :
    (ps : List Pagina) (k : ℕ) (f : Pagina → Pagina)
    → ((p : Pagina) → (f p).libre ≡ false)
    → libres_some (set_at ps k f) ≡ set_at (libres ps) k (λ l. false)
libres-set_at [] k f h = refl
libres-set_at (p ∷ ps) zero f h = ap (λ b. some (b ∷ libres ps)) (h p)
libres-set_at (p ∷ ps) (suc k) f h =
    libres-with_rest p (set_at ps k f) ∙ ap (with_rest p.libre) (libres-set_at ps k f h)

pub some_injective : {A : Type 0} (a b : A) → some a ≡ some b → a ≡ b
some_injective a b e = cc e
