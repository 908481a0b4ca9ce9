-- ===== src/Suse/Destroy/Each.antt =====
-- What stays freed while suse/src frees one element of a list after the other.
use threaders.Base.{
  ℕ, zero, suc, ◌≡◌, refl, Bool, true, false, Option, none, some, List, [], ◌∷◌, arith, ap, ◌∙◌,
  get_elem?, ◌==◌, if◌then◌else◌, subst,
}
use threaders.Suse.Destroy.{Block, Heap, freed, program_destroy_thread, Destroyer}

abbrev pub and_then : Option Heap → (Heap → Option Heap) → Option Heap
and_then none next = none
and_then (some h) next = next h

-- What so-commons-library documents: the function is called for each element in order.
abbrev pub each : Destroyer
each destroy [] h = some h
each destroy (a ∷ l) h = and_then (destroy a h) (each destroy l)

-- A test of a block that says no of a freed one.
abbrev pub Test : Type 0
Test = (t : Option Block → Bool) × (t none ≡ false)

-- The test says no of the block at `a`, unless there was a fault.
abbrev pub Off : Test → ℕ → Option Heap → Type 0
Off t a none = Unit {0}
Off t a (some h) = t.0 (h a) ≡ false

-- What the test says no of stays so.
abbrev pub Keeps : (Heap → Option Heap) → Type 0
Keeps f = (t : Test) (a : ℕ) (h : Heap) → t.0 (h a) ≡ false → Off t a (f h)

pub freed-Off :
    (t : Test) (a b : ℕ) (h : Heap) (o : Option Block) → t.0 (h a) ≡ false → Off t a (freed b h o)
freed-Off t a b h none e = tt
freed-Off t a b h (some block) e = cleared (a == b)
  where
    cleared : (q : Bool) → t.0 (if q then none else h a) ≡ false
    cleared true = t.1
    cleared false = e

pub freed_own-Off : (t : Test) (a : ℕ) (h : Heap) (o : Option Block) → Off t a (freed a h o)
freed_own-Off t a h none = tt
freed_own-Off t a h (some block) =
    let same : (a == a) ≡ true = ground arith in ap (λ q. t.0 (if q then none else h a)) same ∙ t.1

pub program_destroy_thread-Keeps : (b : ℕ) → Keeps (program_destroy_thread b)
program_destroy_thread-Keeps b t a h e = freed-Off t a b h (h b) e

pub and_then-Off :
    (t : Test) (a : ℕ) (o : Option Heap) (next : Heap → Option Heap)
    → Keeps next
    → Off t a o
    → Off t a (and_then o next)
and_then-Off t a none next k e = tt
and_then-Off t a (some h) next k e = k t a h e

pub each-Keeps :
    (destroy : ℕ → Heap → Option Heap) (l : List ℕ)
    → ((b : ℕ) → Keeps (destroy b))
    → Keeps (each destroy l)
each-Keeps destroy [] k t a h e = e
each-Keeps destroy (b ∷ l) k t a h e =
    and_then-Off t a (destroy b h) (each destroy l) (each-Keeps destroy l k) (k b t a h e)

pub and_always :
    (t : Test) (a : ℕ) (o : Option Heap) (next : Heap → Option Heap)
    → ((h : Heap) → Off t a (next h))
    → Off t a (and_then o next)
and_always t a none next k = tt
and_always t a (some h) next k = k h

-- An element whose end switches the test off at `a`.
pub each-Off :
    (destroy : ℕ → Heap → Option Heap) (l : List ℕ) (i b : ℕ) (t : Test) (a : ℕ) (h : Heap)
    → ((b : ℕ) → Keeps (destroy b))
    → get_elem? l i ≡ some b
    → ((h : Heap) → Off t a (destroy b h))
    → Off t a (each destroy l h)
each-Off destroy [] i b t a h k e f = absurd (cc e)
each-Off destroy (x ∷ l) zero b t a h k e f =
    let same : b ≡ x = ground arith in
    and_then-Off t a (destroy x h) (each destroy l) (each-Keeps destroy l k)
      (subst (λ y. Off t a (destroy y h)) same (f h))
each-Off destroy (x ∷ l) (suc i) b t a h k e f =
    and_always t a (destroy x h) (each destroy l)
      λ after. each-Off destroy l i b t a after k (ground arith) f

pub and_then-fault :
    (t : Test) (a : ℕ) (o : Option Heap) (next : Heap → Option Heap)
    → Off t a o
    → ((h : Heap) → t.0 (h a) ≡ false → next h ≡ none)
    → and_then o next ≡ none
and_then-fault t a none next e f = refl
and_then-fault t a (some h) next e f = f h e

-- An element that cannot be destroyed while the test says no at `a`.
pub each-fault :
    (destroy : ℕ → Heap → Option Heap) (l : List ℕ) (i b : ℕ) (t : Test) (a : ℕ) (h : Heap)
    → ((b : ℕ) → Keeps (destroy b))
    → get_elem? l i ≡ some b
    → ((h : Heap) → t.0 (h a) ≡ false → destroy b h ≡ none)
    → t.0 (h a) ≡ false
    → each destroy l h ≡ none
each-fault destroy [] i b t a h k e f off = absurd (cc e)
each-fault destroy (x ∷ l) zero b t a h k e f off =
    let same : b ≡ x = ground arith in
    ap (λ o. and_then o (each destroy l)) (subst (λ y. destroy y h ≡ none) same (f h off))
each-fault destroy (x ∷ l) (suc i) b t a h k e f off =
    and_then-fault t a (destroy x h) (each destroy l) (k x t a h off)
      λ after off. each-fault destroy l i b t a after k (ground arith) f off
