-- ===== src/Suse/LongTerm.antt =====
-- scheduler_run_long_term_scheduler of suse/src/scheduler/suse_scheduler.c: which threads one run
-- moves from NEW to READY.
pub mod Admission
use mathlib.Core.List.{append_assoc, append-nil}
use mathlib.Core.List.Perm
use threaders.Base.{
  subst, ℕ, zero, suc, ◌+◌, ◌≤◌, ◌<◌, ◌≡◌, refl, true, false, Option, none, some, List, [], ◌∷◌,
  ◌++◌, arith, sym, ap, ◌∙◌, ℤ, pos, ◌-ℤ◌, leb_ℤ, length, get_elem?, length-append, if◌then◌else◌,
  inl, inr, Bool-cases,
}
use threaders.Commons.{reference, remove_at}
use threaders.Suse.{Scheduler, admit, long_term_loop, suse_decrease_multiprog}

-- What stays in NEW and what is admitted, from a queue of which the loop looks at the first, with
-- `n` threads in READY and the degree `m`. The loop steps over the successor of each admitted one.
pub pass : ℕ → ℤ → List ℕ → List ℕ × List ℕ
pass n m [] = ([], [])
pass n m (x ∷ []) = if leb_ℤ (pos n) m then ([], x ∷ []) else (x ∷ [], [])
pass n m (x ∷ y ∷ l) =
    let taken = pass (n + 1) (m -ℤ pos 1) l in
    let left = pass n m (y ∷ l) in
    if leb_ℤ (pos n) m then (y ∷ taken.0, x ∷ taken.1) else (x ∷ left.0, left.1)

-- The outcome of the loop, started at index `length before`.
pub record Passed (s : Scheduler) (before kept admitted : List ℕ) (o : Option Scheduler)
    : Type 0 where
  pub after : Scheduler
  pub result : o ≡ some after
  pub new : after.queue_new ≡ before ++ kept
  pub ready : after.queue_ready ≡ s.queue_ready ++ admitted
  pub degree : after.max_multiprog ≡ s.max_multiprog -ℤ pos (length admitted)

get_elem?-middle : (b : List ℕ) (x : ℕ) (r : List ℕ) → get_elem? (b ++ x ∷ r) (length b) ≡ some x
get_elem?-middle [] x r = refl
get_elem?-middle (y ∷ b) x r = get_elem?-middle b x r

remove_at-middle : (b : List ℕ) (x : ℕ) (r : List ℕ) → remove_at (b ++ x ∷ r) (length b) ≡ b ++ r
remove_at-middle [] x r = refl
remove_at-middle (y ∷ b) x r = ap (λ t. y ∷ t) (remove_at-middle b x r)

sub_add : (m : ℤ) (k : ℕ) → m -ℤ pos 1 -ℤ pos k ≡ m -ℤ pos (suc k)
unfolding ◌-ℤ◌
sub_add m k = ground arith

sub_zero : (m : ℤ) → m -ℤ pos 0 ≡ m
unfolding ◌-ℤ◌
sub_zero m = ground arith

-- The state after the loop has admitted `x` at index `length before`.
abbrev taken : List ℕ → ℕ → List ℕ → Scheduler → Scheduler
taken b x r s = record s {
  queue_new = b ++ r;
  queue_ready = s.queue_ready ++ x ∷ [];
  max_multiprog = s.max_multiprog -ℤ pos 1;
}

admit-taken :
    (b : List ℕ) (x : ℕ) (r : List ℕ) (s : Scheduler)
    → s.queue_new ≡ b ++ x ∷ r
    → leb_ℤ (pos (length s.queue_ready)) s.max_multiprog ≡ true
    → admit reference (length b) (get_elem? s.queue_new (length b)) s ≡ taken b x r s
unfolding admit suse_decrease_multiprog
admit-taken b x r s e h =
    ap (λ o. admit reference (length b) o s)
      (ap (λ l. get_elem? l (length b)) e ∙ get_elem?-middle b x r)
    ∙ rw h (
        ap
          (λ l. record s {
            queue_new = l;
            queue_ready = s.queue_ready ++ x ∷ [];
            max_multiprog = s.max_multiprog -ℤ pos 1;
          })
          (ap (λ l. remove_at l (length b)) e ∙ remove_at-middle b x r))

admit-left :
    (i : ℕ) (o : Option ℕ) (s : Scheduler)
    → leb_ℤ (pos (length s.queue_ready)) s.max_multiprog ≡ false
    → admit reference i o s ≡ s
unfolding admit
admit-left i none s h = refl
admit-left i (some x) s h = rw h

loop-step :
    (n i : ℕ) (s : Scheduler)
    → i < length s.queue_new
    → long_term_loop reference (suc n) i s
      ≡ long_term_loop reference n (i + 1) (admit reference i (get_elem? s.queue_new i) s)
unfolding long_term_loop
loop-step n i s h = ground arith

loop-end :
    (n i : ℕ) (s : Scheduler) → length s.queue_new ≤ i → long_term_loop reference n i s ≡ some s
unfolding long_term_loop
loop-end zero i s h = ground arith
loop-end (suc n) i s h = ground arith

abbrev PassedOf : Scheduler → List ℕ → List ℕ × List ℕ → Option Scheduler → Type 0
PassedOf s before p o = Passed s before p.0 p.1 o

-- One admission in front of what the rest of the loop does.
Passed-taken :
    (b kept admitted : List ℕ) (x y : ℕ) (r : List ℕ) (s : Scheduler) (o : Option Scheduler)
    → Passed (taken b x (y ∷ r) s) (b ++ y ∷ []) kept admitted o
    → Passed s b (y ∷ kept) (x ∷ admitted) o
Passed-taken b kept admitted x y r s o p = record {
  after = p.after;
  result = p.result;
  new = p.new ∙ append_assoc b (y ∷ []) kept;
  ready = p.ready ∙ append_assoc s.queue_ready (x ∷ []) admitted;
  degree = p.degree ∙ sub_add s.max_multiprog (length admitted);
}

Passed-left :
    (b kept admitted : List ℕ) (x : ℕ) (s : Scheduler) (o : Option Scheduler)
    → Passed s (b ++ x ∷ []) kept admitted o
    → Passed s b (x ∷ kept) admitted o
Passed-left b kept admitted x s o p = record {
  after = p.after;
  result = p.result;
  new = p.new ∙ append_assoc b (x ∷ []) kept;
  ready = p.ready;
  degree = p.degree;
}

Passed-end :
    (b rest : List ℕ) (s : Scheduler) → s.queue_new ≡ b ++ rest → Passed s b rest [] (some s)
Passed-end b rest s e = record {
  after = s;
  result = refl;
  new = e;
  ready = sym (append-nil s.queue_ready);
  degree = sym (sub_zero s.max_multiprog);
}

Passed-last : (b : List ℕ) (x : ℕ) (s : Scheduler) → Passed s b [] (x ∷ []) (some (taken b x [] s))
Passed-last b x s = record {
  after = taken b x [] s;
  result = refl;
  new = refl;
  ready = refl;
  degree = refl;
}

module _ (n i k : ℕ) (b : List ℕ) (x : ℕ) (r : List ℕ) (s : Scheduler)
    (e : s.queue_new ≡ b ++ x ∷ r) (ie : i ≡ length b) (ke : k ≡ length s.queue_ready) where
  inside : i < length s.queue_new
  inside = omega (arith, ap length e, length-append b (x ∷ r))

  loop-taken :
      leb_ℤ (pos k) s.max_multiprog ≡ true
      → long_term_loop reference (suc n) i s ≡ long_term_loop reference n (i + 1) (taken b x r s)
  loop-taken h =
      loop-step n i s inside
      ∙ ap (λ j. long_term_loop reference n (i + 1) (admit reference j (get_elem? s.queue_new j) s))
          ie
      ∙ ap (long_term_loop reference n (i + 1))
          (admit-taken b x r s e (subst (λ m. leb_ℤ (pos m) s.max_multiprog ≡ true) ke h))

  loop-left :
      leb_ℤ (pos k) s.max_multiprog ≡ false
      → long_term_loop reference (suc n) i s ≡ long_term_loop reference n (i + 1) s
  loop-left h =
      loop-step n i s inside
      ∙ ap (long_term_loop reference n (i + 1)) (
          admit-left i (get_elem? s.queue_new i) s
            (subst (λ m. leb_ℤ (pos m) s.max_multiprog ≡ false) ke h))

-- The loop does what `pass` says, whatever part of the queue it has behind it.
loop-Passed :
    (n i k : ℕ) (before rest : List ℕ) (s : Scheduler)
    → s.queue_new ≡ before ++ rest
    → i ≡ length before
    → k ≡ length s.queue_ready
    → length rest ≤ n
    → PassedOf s before (pass k s.max_multiprog rest) (long_term_loop reference n i s)
unfolding pass
loop-Passed n i k before [] s e ie ke le =
    rw (loop-end n i s (omega (arith, ap length e, length-append before [])))
      (Passed-end before [] s e)
loop-Passed zero i k before (x ∷ []) s e ie ke le = absurd (omega arith)
loop-Passed (suc n) i k before (x ∷ []) s e ie ke le =
    elim (Bool-cases (leb_ℤ (pos k) s.max_multiprog)) [
      | inl h ↦
          rw
            (
              h,
              loop-taken n i k before x [] s e ie ke h,
              loop-end n (i + 1) (taken before x [] s) (omega (arith, length-append before [])),
            )
            (Passed-last before x s)
      | inr h ↦
          rw
            (
              h,
              loop-left n i k before x [] s e ie ke h,
              loop-end n (i + 1) s (omega (arith, ap length e, length-append before (x ∷ []))),
            )
            (Passed-end before (x ∷ []) s e)
    ]
loop-Passed zero i k before (x ∷ y ∷ l) s e ie ke le = absurd (omega arith)
loop-Passed (suc n) i k before (x ∷ y ∷ l) s e ie ke le =
    elim (Bool-cases (leb_ℤ (pos k) s.max_multiprog)) [
      | inl h ↦
          rw (h, loop-taken n i k before x (y ∷ l) s e ie ke h)
            (Passed-taken before _ _ x y l s _ (
              loop-Passed n (i + 1) (k + 1) (before ++ y ∷ []) l (taken before x (y ∷ l) s)
                (sym (append_assoc before (y ∷ []) l))
                (omega (arith, length-append before (y ∷ [])))
                (omega (arith, length-append s.queue_ready (x ∷ []))) (omega arith)))
      | inr h ↦
          rw (h, loop-left n i k before x (y ∷ l) s e ie ke h)
            (Passed-left before _ _ x s _ (
              loop-Passed n (i + 1) k (before ++ x ∷ []) (y ∷ l) s
                (e ∙ sym (append_assoc before (x ∷ []) (y ∷ l)))
                (omega (arith, length-append before (x ∷ []))) ke (omega arith)))
    ]
