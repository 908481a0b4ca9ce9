-- ===== src/Suse/Fold.antt =====
-- The choice of the shortest job by a fold, as the short-term scheduler of
-- suse/src/scheduler/suse_scheduler.c makes it, for any order on the queue's elements.
use threaders.Base.{
  subst, ℕ, zero, suc, ◌≡◌, refl, Bool, true, ◌&&◌, some, List, [], ◌∷◌, arith, sym, ap, ◌∙◌,
  get_elem?, if◌then◌else◌, inl, inr, ◌⊎◌, Bool-cases, ◌==◌,
}
use threaders.Commons.{fold_left}

module _ (leq : ℕ → ℕ → Bool) where
  abbrev pub shorter : ℕ → ℕ → ℕ
  shorter a b = if leq a b then a else b

  pub least : ℕ → List ℕ → Bool
  least t [] = true
  least t (x ∷ l) = leq t x && least t l

module _ (leq : ℕ → ℕ → Bool) (total : (a b : ℕ) → (leq a b ≡ true) ⊎ (leq b a ≡ true))
    (trans : (a b d : ℕ) → leq a b ≡ true → leq b d ≡ true → leq a d ≡ true) where
  leq_refl : (a : ℕ) → leq a a ≡ true
  leq_refl a = ground (arith, total a a)

  pub least-elem :
      (t : ℕ) (l : List ℕ) (j : ℕ) {u : ℕ}
      → least leq t l ≡ true
      → get_elem? l j ≡ some u
      → leq t u ≡ true
  unfolding least
  least-elem t [] j h e = absurd (cc e)
  least-elem t (x ∷ l) zero h e = ground arith
  least-elem t (x ∷ l) (suc j) h e = least-elem t l j (ground arith) e

  pub least_trans :
      (t u : ℕ) (l : List ℕ) → leq t u ≡ true → least leq u l ≡ true → least leq t l ≡ true
  unfolding least
  least_trans t u [] h k = refl
  least_trans t u (x ∷ l) h k = ground (arith, trans t u x, least_trans t u l)

  fold-le : (l : List ℕ) (s : ℕ) → leq (fold_left l s (shorter leq)) s ≡ true
  fold-le [] s = leq_refl s
  fold-le (x ∷ l) s =
      trans _ (shorter leq s x) s (fold-le l (shorter leq s x))
        (ground (arith, total s x, leq_refl s))

  pub fold-least : (l : List ℕ) (s : ℕ) → least leq (fold_left l s (shorter leq)) l ≡ true
  unfolding least
  fold-least [] s = refl
  fold-least (x ∷ l) s =
      let r = fold_left l (shorter leq s x) (shorter leq) in
      let below : leq r x ≡ true =
        trans r (shorter leq s x) x (fold-le l (shorter leq s x))
          (ground (arith, total s x, leq_refl x)) in
      rw below (fold-least l (shorter leq s x))

  -- A seed that is least itself stays.
  pub fold_self : (l : List ℕ) (s : ℕ) → least leq s l ≡ true → fold_left l s (shorter leq) ≡ s
  unfolding least
  fold_self [] s h = refl
  fold_self (x ∷ l) s h =
      let k : leq s x ≡ true = ground arith in rw k (fold_self l s (ground arith))

  -- The test of the loop: the fold gives its seed back exactly when the seed is least.
  pub fold_test : (l : List ℕ) (s : ℕ) → (s == fold_left l s (shorter leq)) ≡ least leq s l
  fold_test l s = elim (Bool-cases (least leq s l)) [
    | inl h ↦ rw (fold_self l s h, h) (ground arith)
    | inr h ↦ elim (Bool-cases (s == fold_left l s (shorter leq))) [
      | inl e ↦
          let same : fold_left l s (shorter leq) ≡ s = ground arith in
          absurd (cc (sym h ∙ sym (ap (λ t. least leq t l) same) ∙ fold-least l s))
      | inr ne ↦ ne ∙ sym h
    ]
  ]

  pub fold-elem :
      (l : List ℕ) (s : ℕ)
      → (fold_left l s (shorter leq) ≡ s)
        ⊎ ((k : ℕ) × (get_elem? l k ≡ some (fold_left l s (shorter leq))))
  fold-elem [] s = inl refl
  fold-elem (x ∷ l) s = elim (fold-elem l (shorter leq s x)) [
    | inr (k, e) ↦ inr (suc k, e)
    | inl e ↦ elim (Bool-cases (leq s x)) [
      | inl h ↦ inl (e ∙ rw h)
      | inr h ↦ inr (zero, sym (ap some (e ∙ rw h)))
    ]
  ]

  -- A queue that is not empty holds a least element.
  pub least_exists :
      (x : ℕ) (l : List ℕ)
      → (k : ℕ) × (t : ℕ) × (get_elem? (x ∷ l) k ≡ some t) × (least leq t (x ∷ l) ≡ true)
  least_exists x l = elim (fold-elem (x ∷ l) x) [
    | inl e ↦ (zero, x, refl, subst (λ t. least leq t (x ∷ l) ≡ true) e (fold-least (x ∷ l) x))
    | inr (k, e) ↦ (k, fold_left (x ∷ l) x (shorter leq), e, fold-least (x ∷ l) x)
  ]
