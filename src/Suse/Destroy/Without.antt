-- ===== src/Suse/Destroy/Without.antt =====
-- Freeing a list of distinct blocks one after the other, as suse/src/scheduler/suse_scheduler.c does.
use threaders.Base.{
  ℕ, ◌≡◌, refl, Bool, true, false, ◌||◌, Option, none, some, List, [], ◌∷◌, ◌++◌, arith, sym, ap,
  ◌∙◌, ◌==◌, if◌then◌else◌, Bool-cases, inl, inr,
}
use threaders.Suse.Destroy.{Block, a_program, Heap, freed, program_destroy_thread, and_free}
use threaders.Suse.Destroy.Each.{each, and_then}
use threaders.Suse.Destroy.Twice.{is_live}

abbrev pub has : ℕ → List ℕ → Bool
has a [] = false
has a (b ∷ l) = a == b || has a l

abbrev pub Distinct : List ℕ → Type 0
Distinct [] = Unit {0}
Distinct (a ∷ l) = (has a l ≡ false) × Distinct l

abbrev pub Live : List ℕ → Heap → Type 0
Live l h = (a : ℕ) → has a l ≡ true → is_live (h a) ≡ true

abbrev pub Programs : List ℕ → Heap → Type 0
Programs l h = (p : ℕ) → has p l ≡ true → h p ≡ some a_program

abbrev cleared : ℕ → Heap → Heap
cleared a h b = if b == a then none else h b

-- The heap when the blocks of a list are freed.
abbrev pub without : List ℕ → Heap → Heap
without [] h = h
without (a ∷ l) h = without l (cleared a h)

pub has-append : (a : ℕ) (l m : List ℕ) → has a (l ++ m) ≡ (has a l || has a m)
has-append a [] m = refl
has-append a (b ∷ l) m =
    let rest = has-append a l m in
    elim (Bool-cases (a == b)) [ inl t ↦ rw t refl | inr f ↦ rw f rest ]

pub without-append : (l m : List ℕ) (h : Heap) → without (l ++ m) h ≡ without m (without l h)
without-append [] m h = refl
without-append (a ∷ l) m h = without-append l m (cleared a h)

-- A block that is not in the list stays.
pub without-other : (l : List ℕ) (h : Heap) (a : ℕ) → has a l ≡ false → without l h a ≡ h a
without-other [] h a e = refl
without-other (b ∷ l) h a e = without-other l (cleared b h) a (ground arith) ∙ ground arith

pub without-own : (l : List ℕ) (h : Heap) (a : ℕ) → has a l ≡ true → without l h a ≡ none
without-own [] h a e = absurd (cc e)
without-own (b ∷ l) h a e = elim (Bool-cases (has a l)) [
  | inl t ↦ without-own l (cleared b h) a t
  | inr f ↦ without-other l (cleared b h) a f ∙ ground arith
]

and_then-and_then :
    (o : Option Heap) (f g : Heap → Option Heap)
    → and_then (and_then o f) g ≡ and_then o (λ h. and_then (f h) g)
and_then-and_then none f g = refl
and_then-and_then (some h) f g = refl

pub each-append :
    (f : ℕ → Heap → Option Heap) (l m : List ℕ) (h : Heap)
    → each f (l ++ m) h ≡ and_then (each f l h) (each f m)
each-append f [] m h = refl
each-append f (a ∷ l) m h =
    ap (and_then (f a h)) (λ i after. each-append f l m after i)
    ∙ sym (and_then-and_then (f a h) (each f l) (each f m))

freed-live :
    (a : ℕ) (h : Heap) (o : Option Block) → is_live o ≡ true → freed a h o ≡ some (cleared a h)
freed-live a h none e = absurd (cc e)
freed-live a h (some block) e = refl

Live-cleared : (a : ℕ) (l : List ℕ) (h : Heap) → has a l ≡ false → Live l h → Live l (cleared a h)
Live-cleared a l h e v b k = elim (Bool-cases (b == a)) [
  | inl t ↦ let same : has a l ≡ true = ground arith in absurd (cc (sym e ∙ same))
  | inr f ↦ ap (λ q. is_live (if q then none else h b)) f ∙ v b k
]

-- Distinct blocks that are live are freed one after the other.
pub each-without :
    (l : List ℕ) (h : Heap)
    → Distinct l
    → Live l h
    → each program_destroy_thread l h ≡ some (without l h)
each-without [] h d v = refl
each-without (a ∷ l) h d v =
    let live : is_live (h a) ≡ true = v a (ground arith) in
    let rest : Live l h = λ b k. v b (ground arith) in
    ap (λ o. and_then o (each program_destroy_thread l)) (freed-live a h (h a) live)
    ∙ each-without l (cleared a h) d.1 (Live-cleared a l h d.0 rest)

pub Distinct-left : (l m : List ℕ) → Distinct (l ++ m) → Distinct l
Distinct-left [] m d = tt
Distinct-left (a ∷ l) m d =
    let apart : (has a l || has a m) ≡ false = sym (has-append a l m) ∙ d.0 in
    (ground arith, Distinct-left l m d.1)

pub Distinct-right : (l m : List ℕ) → Distinct (l ++ m) → Distinct m
Distinct-right [] m d = d
Distinct-right (a ∷ l) m d = Distinct-right l m d.1

pub Distinct-apart : (l m : List ℕ) → Distinct (l ++ m) → (a : ℕ) → has a m ≡ true → has a l ≡ false
Distinct-apart [] m d a k = refl
Distinct-apart (b ∷ l) m d a k =
    let apart : (has b l || has b m) ≡ false = sym (has-append b l m) ∙ d.0 in
    let rest : has a l ≡ false = Distinct-apart l m d.1 a k in
    elim (Bool-cases (a == b)) [
      | inl t ↦
          let same : has b m ≡ true = ground arith in
          let no : has b m ≡ false = ground arith in absurd (cc (sym no ∙ same))
      | inr f ↦ rw f rest
    ]

pub Live-left : (l m : List ℕ) (h : Heap) → Live (l ++ m) h → Live l h
Live-left l m h v a k = v a (has-append a l m ∙ ground arith)

-- What is behind a list is as it was when the list is freed.
pub behind :
    (l m : List ℕ) (h : Heap) → Distinct (l ++ m) → (a : ℕ) → has a m ≡ true → without l h a ≡ h a
behind l m h d a k = without-other l h a (Distinct-apart l m d a k)

pub Live-right :
    (l m : List ℕ) (h : Heap) → Distinct (l ++ m) → Live (l ++ m) h → Live m (without l h)
Live-right l m h d v a k = ap is_live (behind l m h d a k) ∙ v a (has-append a l m ∙ ground arith)

and_then-some : (o : Option Heap) → and_then o some ≡ o
and_then-some none = refl
and_then-some (some h) = refl

pub and_free-last :
    (p : ℕ) (o : Option Heap) → and_free p o ≡ and_then o (each program_destroy_thread (p ∷ []))
and_free-last p none = refl
and_free-last p (some h) = sym (and_then-some (freed p h (h p)))
