-- ===== src/Sac/Nodes/Fields.antt =====
-- The name fields of the nodes of sac_server/src: strcmp and strcpy on them.
use threaders.Base.{
  length-drop, ℕ, ◌+◌, ◌≤◌, ◌<◌, ◌≡◌, ◌≢◌, refl, true, none, some, List, [], ◌∷◌, ◌++◌, arith,
  length, drop, length-append,
}
use threaders.Sac.Paths.{Text}
use threaders.Sac.Nodes.{strcmp_field, strcpy_field}

-- No byte of a text is its final zero.
abbrev pub IsText : Text → Type 0
IsText [] = Unit {0}
IsText (b ∷ t) = (b ≢ 0) × IsText t

pub strcmp_field-append : (t : Text) (m : List ℕ) → strcmp_field t (t ++ 0 ∷ m) ≡ true
unfolding strcmp_field
strcmp_field-append [] m = ground arith
strcmp_field-append (b ∷ t) m = ground (arith, strcmp_field-append t m)

pub strcmp_field-eq :
    (s t : Text) (m : List ℕ) → IsText s → IsText t → strcmp_field s (t ++ 0 ∷ m) ≡ true → s ≡ t
unfolding strcmp_field
strcmp_field-eq [] [] m hs ht e = refl
strcmp_field-eq [] (b ∷ t) m hs ht e = absurd (ground (arith, ht.0))
strcmp_field-eq (a ∷ s) [] m hs ht e = absurd (ground (arith, hs.0))
strcmp_field-eq (a ∷ s) (b ∷ t) m hs ht e =
    let ab : a ≡ b = ground arith in
    let st : s ≡ t = strcmp_field-eq s t m hs.1 ht.1 (ground arith) in cc (ab, st)

-- The field after strcpy of a text that fits.
abbrev pub field_of : Text → List ℕ → List ℕ
field_of t m = t ++ 0 ∷ drop (length t + 1) m

pub strcpy_field-some :
    (t : Text) (m : List ℕ)
    → length t < length m
    → (strcpy_field t m ≡ some (field_of t m)) × (length (field_of t m) ≡ length m)
unfolding strcpy_field
strcpy_field-some t m h = (
  ground arith,
  omega (
    arith,
    length-append t (0 ∷ drop (length t + 1) m),
    length-drop (length t + 1) m (omega arith),
  ),
)

pub strcpy_field-none : (t : Text) (m : List ℕ) → length m ≤ length t → strcpy_field t m ≡ none
unfolding strcpy_field
strcpy_field-none t m h = ground arith
