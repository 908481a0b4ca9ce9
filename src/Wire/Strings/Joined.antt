-- ===== src/Wire/Strings/Joined.antt =====
-- What utils_array_to_string of shared-common/common/utils.c returns, and what it leaves of its array.
use threaders.Base.{
  ℕ, ◌≡◌, false, none, some, List, [], ◌∷◌, ◌++◌, arith, sym, ap, ◌∙◌, ◌==◌, if◌then◌else◌, inl,
  inr, Bool-cases,
}
use mathlib.Core.List.{append_assoc}
use threaders.Wire.Strings.{
  Text, CommonsString, DocumentedString, Store, free_block, with_text, with_comma, append_all,
  utils_array_to_string,
}

-- The array's strings are live, with these texts.
abbrev pub Holds : Store → List ℕ → List Text → Type 0
Holds st [] [] = Unit {0}
Holds st [] (t ∷ ts) = ⊥
Holds st (a ∷ l) [] = ⊥
Holds st (a ∷ l) (t ∷ ts) = (st a ≡ some t) × Holds st l ts

abbrev pub Fresh : ℕ → List ℕ → Type 0
Fresh a [] = Unit {0}
Fresh a (b ∷ l) = ((b == a) ≡ false) × Fresh a l

-- No entry of the first array is one of the second.
abbrev pub Apart : List ℕ → List ℕ → Type 0
Apart [] l = Unit {0}
Apart (a ∷ k) l = Fresh a l × Apart k l

abbrev pub Distinct : List ℕ → Type 0
Distinct [] = Unit {0}
Distinct (a ∷ l) = Fresh a l × Distinct l

abbrev pub freed_all : List ℕ → Store → Store
freed_all [] st = st
freed_all (a ∷ l) st = freed_all l (free_block a st)

-- The texts with commas between them.
abbrev pub joined : List Text → Text
joined [] = []
joined (t ∷ []) = t
joined (t ∷ s ∷ ts) = t ++ (44 ∷ joined (s ∷ ts))

abbrev pub bracketed : List Text → Text
bracketed ts = 91 ∷ (joined ts ++ 93 ∷ [])

free_block-Holds :
    (a : ℕ) (st : Store) (l : List ℕ) (ts : List Text)
    → Holds st l ts
    → Fresh a l
    → Holds (free_block a st) l ts
free_block-Holds a st [] [] h f = h
free_block-Holds a st [] (t ∷ ts) h f = h
free_block-Holds a st (b ∷ l) [] h f = h
free_block-Holds a st (b ∷ l) (t ∷ ts) h f =
    (ap (λ x. if x then none else st b) f.0 ∙ h.0, free_block-Holds a st l ts h.1 f.1)

pub freed_all-Holds :
    (k : List ℕ) (st : Store) (l : List ℕ) (ts : List Text)
    → Holds st l ts
    → Apart k l
    → Holds (freed_all k st) l ts
freed_all-Holds [] st l ts h p = h
freed_all-Holds (a ∷ k) st l ts h p =
    freed_all-Holds k (free_block a st) l ts (free_block-Holds a st l ts h p.0) p.1

-- What is freed stays so.
pub freed_all-none : (k : List ℕ) (st : Store) (b : ℕ) → st b ≡ none → freed_all k st b ≡ none
freed_all-none [] st b h = h
freed_all-none (a ∷ k) st b h = freed_all-none k (free_block a st) b (elim (Bool-cases (b == a)) [
  | inl t ↦ ap (λ x. if x then none else st b) t
  | inr f ↦ ap (λ x. if x then none else st b) f ∙ h
])

pub freed_all-head : (a : ℕ) (k : List ℕ) (st : Store) → freed_all (a ∷ k) st a ≡ none
freed_all-head a k st = freed_all-none k (free_block a st) a (ground arith)

module _ {c : CommonsString} (d : DocumentedString c) where
  append_all-joined :
      (st : Store) (l : List ℕ) (ts : List Text) (ret : Text)
      → Holds st l ts
      → Distinct l
      → append_all c st l ret ≡ some (freed_all l st, ret ++ (joined ts ++ 93 ∷ []))
  unfolding append_all
  append_all-joined st [] [] ret h p = ap (λ s. some (st, s)) (d.append_law ret (93 ∷ []))
  append_all-joined st [] (t ∷ ts) ret h p = absurd h
  append_all-joined st (a ∷ l) [] ret h p = absurd h
  append_all-joined st (a ∷ []) (t ∷ []) ret h p =
      ap
        (λ o.
          with_text o
            λ x. append_all c (free_block a st) [] (with_comma c [] (c.string_append ret x)))
        h.0
      ∙ ap (λ r. some (free_block a st, r))
          (d.append_law (c.string_append ret t) (93 ∷ [])
            ∙ ap (λ r. r ++ 93 ∷ []) (d.append_law ret t)
            ∙ append_assoc ret t (93 ∷ []))
  append_all-joined st (a ∷ []) (t ∷ s ∷ ts) ret h p = absurd h.1
  append_all-joined st (a ∷ b ∷ l) (t ∷ []) ret h p = absurd h.1
  append_all-joined st (a ∷ b ∷ l) (t ∷ s ∷ ts) ret h p =
      let l' = b ∷ l in
      let rest = joined (s ∷ ts) ++ 93 ∷ [] in
      let left = freed_all l' (free_block a st) in
      ap
        (λ o.
          with_text o
            λ x. append_all c (free_block a st) l' (with_comma c l' (c.string_append ret x)))
        h.0
      ∙ append_all-joined (free_block a st) l' (s ∷ ts) (with_comma c l' (c.string_append ret t))
          (free_block-Holds a st l' (s ∷ ts) h.1 p.0) p.1
      ∙ ap (λ r. some (left, r ++ rest))
          (d.append_law (c.string_append ret t) (44 ∷ [])
            ∙ ap (λ r. r ++ 44 ∷ []) (d.append_law ret t))
      ∙ ap (λ r. some (left, r))
          (append_assoc (ret ++ t) (44 ∷ []) rest
            ∙ append_assoc ret t (44 ∷ rest)
            ∙ ap (λ r. ret ++ r) (sym (append_assoc t (44 ∷ joined (s ∷ ts)) (93 ∷ []))))

  pub utils_array_to_string-bracketed :
      (st : Store) (l : List ℕ) (ts : List Text)
      → Holds st l ts
      → Distinct l
      → utils_array_to_string c st l ≡ some (freed_all l st, bracketed ts)
  unfolding utils_array_to_string
  utils_array_to_string-bracketed st l ts h p =
      append_all-joined st l ts _ h p
      ∙ ap (λ r. some (freed_all l st, r ++ (joined ts ++ 93 ∷ [])))
          (d.append_law c.string_new (91 ∷ []) ∙ ap (λ r. r ++ 91 ∷ []) d.new_law)
