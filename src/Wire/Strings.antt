-- ===== src/Wire/Strings.antt =====
-- The functions on strings of shared-common/common/utils.c. A string is its bytes without the final zero; where one
-- is freed, strings are blocks of a store, and an access to a block that is not live is a fault, `none`.
pub mod Joined
use threaders.Base.{
  ℕ, zero, suc, ◌≡◌, Bool, true, false, not, ◌&&◌, ◌||◌, Option, none, some, List, [], ◌∷◌, ◌++◌,
  leb, ◌==◌, if◌then◌else◌, get_elem?, take, drop, length,
}

abbrev pub Text : Type 0
Text = List ℕ

-- The string functions of so-commons-library.
pub record CommonsString : Type 0 where
  pub string_new : Text
  pub string_append : Text → Text → Text
  pub string_is_empty : Text → Bool

pub record DocumentedString (c : CommonsString) : Type 0 where
  pub new_law : c.string_new ≡ []
  pub append_law : (s t : Text) → c.string_append s t ≡ s ++ t
  pub empty_law : (s : Text) → c.string_is_empty s ≡ (length s == 0)

abbrev pub new_line : ℕ
new_line = 10

-- A final new line is cut off.
unfoldable pub utils_end_string : Text → Text
utils_end_string [] = []
utils_end_string (b ∷ []) = if b == new_line then [] else b ∷ []
utils_end_string (b ∷ d ∷ s) = b ∷ utils_end_string (d ∷ s)

-- `none` is a null pointer.
abbrev pub utils_is_empty : CommonsString → Option Text → Bool
utils_is_empty c none = true
utils_is_empty c (some s) = c.string_is_empty s

abbrev pub or_empty : Option Text → Text
or_empty none = []
or_empty (some s) = s

abbrev pub with_end : List Text → List Text
with_end [] = [] ∷ []
with_end (s ∷ rest) = s ∷ with_end rest

-- The null pointer that ends the array gives an empty string; behind it, `none`, is no entry.
unfoldable pub utils_get_parameter_i : List Text → ℕ → Option Text
utils_get_parameter_i array i = get_elem? (with_end array) i

abbrev pub behind_in : ℕ → Text → Bool → Option (ℕ × Text) → Option (ℕ × Text)
behind_in b s here none = if here then some (0, s) else none
behind_in b s here (some (i, t)) = some (suc i, t)

-- strrchr: the place of the last `c`, and what stands behind it.
unfoldable pub behind_last : ℕ → Text → Option (ℕ × Text)
behind_last c [] = none
behind_last c (b ∷ s) = behind_in b s (b == c) (behind_last c s)

abbrev pub unless_first : Option (ℕ × Text) → Text
unless_first none = []
unless_first (some (zero, t)) = []
unless_first (some (suc i, t)) = t

unfoldable pub utils_get_extension : Text → Text
utils_get_extension file_name = unless_first (behind_last 46 file_name)

unfoldable pub utils_get_file_name : Text → Text
utils_get_file_name path = unless_first (behind_last 47 path)

abbrev pub is_digit : ℕ → Bool
is_digit b = leb 48 b && leb b 57

abbrev pub all_digits : Text → Bool
all_digits [] = true
all_digits (b ∷ s) = is_digit b && all_digits s

unfoldable pub utils_is_number : Text → Bool
utils_is_number s = all_digits s && not (length s == 0)

-- The live strings by their addresses.
abbrev pub Store : Type 0
Store = ℕ → Option Text

abbrev pub free_block : ℕ → Store → Store
free_block a st b = if b == a then none else st b

abbrev pub with_text : {A : Type 0} → Option Text → (Text → Option A) → Option A
with_text none k = none
with_text (some t) k = k t

-- The strings of an array, then the array itself, which nothing reads afterwards.
unfoldable pub utils_free_array : Store → List ℕ → Option Store
utils_free_array st [] = some st
utils_free_array st (a ∷ array) = with_text (st a) λ t. utils_free_array (free_block a st) array

module _ (c : CommonsString) where
  abbrev pub with_comma : List ℕ → Text → Text
  with_comma [] ret = ret
  with_comma (a ∷ array) ret = c.string_append ret (44 ∷ [])

  -- Each string is freed once it is appended.
  unfoldable pub append_all : Store → List ℕ → Text → Option (Store × Text)
  append_all st [] ret = some (st, c.string_append ret (93 ∷ []))
  append_all st (a ∷ array) ret =
      with_text (st a)
        λ t. append_all (free_block a st) array (with_comma array (c.string_append ret t))

  unfoldable pub utils_array_to_string : Store → List ℕ → Option (Store × Text)
  utils_array_to_string st array = append_all st array (c.string_append c.string_new (91 ∷ []))
