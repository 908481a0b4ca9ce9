-- ===== src/Hilolay/Queue.antt =====
-- The ready queue of hilolay/hilolay.c against a list of slots: what lib_enqueue and
-- lib_get_next_ult do to the chain of `next` pointers.
use threaders.Base.{
  ℕ, ◌≡◌, refl, inl, inr, Bool, true, false, ◌||◌, Option, none, some, List, [], ◌∷◌, ◌++◌, arith,
  sym, ap, ◌∙◌, ◌==◌, if◌then◌else◌, Bool-cases,
}
use threaders.Hilolay.{Tcb, Lib, head_or, lib_enqueue, lib_get_next_ult}

abbrev pub has : ℕ → List ℕ → Bool
has a [] = false
has a (x ∷ xs) = (a == x) || has a xs

abbrev pub IsDistinct : List ℕ → Type 0
IsDistinct [] = Unit {0}
IsDistinct (x ∷ xs) = (has x xs ≡ false) × IsDistinct xs

-- From `p` the `next` pointers lead through the slots of the list to a null pointer.
abbrev pub Chain : (ℕ → Tcb) → Option ℕ → List ℕ → Type 0
Chain f p [] = p ≡ none
Chain f p (x ∷ xs) = (p ≡ some x) × Chain f (f x).next xs

-- The tail pointer is the last slot. Of an empty queue it says nothing: it may be stale.
abbrev pub EndsAt : List ℕ → Option ℕ → Type 0
EndsAt [] t = Unit {0}
EndsAt (x ∷ []) t = t ≡ some x
EndsAt (x ∷ y ∷ xs) t = EndsAt (y ∷ xs) t

pub record IsQueue (s : Lib) (q : List ℕ) : Type 0 where
  pub chain : Chain s.ults s.head q
  pub ends : EndsAt q s.tail
  pub distinct : IsDistinct q

-- A chain survives any change of the table that keeps the pointers of its own slots.
pub Chain-frame :
    (f g : ℕ → Tcb) (p : Option ℕ) (q : List ℕ)
    → ((a : ℕ) → has a q ≡ true → (g a).next ≡ (f a).next)
    → Chain f p q
    → Chain g p q
Chain-frame f g p [] same c = c
Chain-frame f g p (x ∷ xs) same c = (
  c.0,
  Chain-frame f g (g x).next xs (λ a h. same a (ground arith)) (rw (same x (ground arith)) c.1),
)

pub has-snoc : (a u : ℕ) (q : List ℕ) → has a (q ++ u ∷ []) ≡ (has a q || a == u)
has-snoc a u [] = ground arith
has-snoc a u (x ∷ xs) = ground (arith, has-snoc a u xs)

pub IsDistinct-snoc :
    (u : ℕ) (q : List ℕ) → has u q ≡ false → IsDistinct q → IsDistinct (q ++ u ∷ [])
IsDistinct-snoc u [] h d = (refl, tt)
IsDistinct-snoc u (x ∷ xs) h d =
    (ground (arith, has-snoc x u xs), IsDistinct-snoc u xs (ground arith) d.1)

EndsAt-snoc : (u : ℕ) (q : List ℕ) → EndsAt (q ++ u ∷ []) (some u)
EndsAt-snoc u [] = refl
EndsAt-snoc u (x ∷ []) = refl
EndsAt-snoc u (x ∷ y ∷ xs) = EndsAt-snoc u (y ∷ xs)

EndsAt-has :
    (y : ℕ) (r : List ℕ) (t : Option ℕ)
    → EndsAt (y ∷ r) t
    → (l : ℕ) × (t ≡ some l) × (has l (y ∷ r) ≡ true)
EndsAt-has y [] t e = (y, e, ground arith)
EndsAt-has y (z ∷ r) t e =
    let found = EndsAt-has z r t e in (found.0, found.1, ground (arith, found.2))

abbrev points_to : Option ℕ → ℕ → Bool
points_to none a = false
points_to (some l) a = a == l

-- Linking `u` behind the slot that the tail points to extends the chain by `u`.
Chain-snoc :
    (f g : ℕ → Tcb) (u : ℕ) (t p : Option ℕ) (q : List ℕ)
    → Chain f p q
    → EndsAt q t
    → IsDistinct q
    → (g u).next ≡ none
    → ((a : ℕ) → has a q ≡ true → (g a).next ≡ (if points_to t a then some u else (f a).next))
    → Chain g (head_or p u) (q ++ u ∷ [])
Chain-snoc f g u t p [] c e d last same = rw c (refl, last)
Chain-snoc f g u t p (x ∷ []) c e d last same = (rw c.0 refl, (ground (arith, same x, e), last))
Chain-snoc f g u t p (x ∷ y ∷ r) c e d last same =
    let end = EndsAt-has y r t e in
    let step : (g x).next ≡ some y = ground (arith, same x, end.1, end.2) in
    let rest =
      Chain-snoc f g u t (some y) (y ∷ r) (refl, c.1.1) e d.1 last (λ a h. same a (ground arith)) in
    (rw c.0 refl, (step, rest.1))

next-enqueue :
    (u a : ℕ) (s : Lib)
    → (a == u) ≡ false
    → ((lib_enqueue u s).ults a).next ≡ (if points_to s.tail a then some u else (s.ults a).next)
unfolding lib_enqueue
next-enqueue u a s ne = ground arith

-- A member of a list is another slot than one that is none.
pub has-ne : (a u : ℕ) (q : List ℕ) → has a q ≡ true → has u q ≡ false → (a == u) ≡ false
has-ne a u q h out = elim (Bool-cases (a == u)) [
  | inl e ↦ let same : a ≡ u = ground arith in absurd (cc (sym h ∙ ap (λ x. has x q) same ∙ out))
  | inr ne ↦ ne
]

-- lib_enqueue appends its slot to the ready queue, a stale tail pointer included.
pub lib_enqueue-IsQueue :
    (u : ℕ) (s : Lib) (q : List ℕ)
    → IsQueue s q
    → has u q ≡ false
    → IsQueue (lib_enqueue u s) (q ++ u ∷ [])
unfolding lib_enqueue
lib_enqueue-IsQueue u s q is out = record {
  chain =
      Chain-snoc s.ults (lib_enqueue u s).ults u s.tail s.head q is.chain is.ends is.distinct
        (ground arith) (λ a h. next-enqueue u a s (has-ne a u q h out));
  ends = EndsAt-snoc u q;
  distinct = IsDistinct-snoc u q out is.distinct;
}

EndsAt-tail : (x : ℕ) (q : List ℕ) (t : Option ℕ) → EndsAt (x ∷ q) t → EndsAt q t
EndsAt-tail x [] t e = tt
EndsAt-tail x (y ∷ q) t e = e

-- lib_get_next_ult takes the first slot of a ready queue that has one.
pub lib_get_next_ult-cons :
    (x : ℕ) (s : Lib) (q : List ℕ)
    → IsQueue s (x ∷ q)
    → (s.head ≡ some x) × IsQueue (lib_get_next_ult s).1 q
unfolding lib_get_next_ult
lib_get_next_ult-cons x s q is = (
  is.chain.0,
  record {
    chain = rw is.chain.0 is.chain.1;
    ends = EndsAt-tail x q s.tail is.ends;
    distinct = is.distinct.1;
  },
)
