-- ===== src/Sac/Paths.antt =====
-- split_path of sac_server/src/sac_operate.c.
pub mod Laws
use threaders.Base.{
  ℕ, zero, suc, ◌+◌, ◌-◌, Bool, true, false, Option, none, some, List, [], ◌∷◌, ◌++◌, length, take,
  drop, ◌==◌, if◌then◌else◌,
}

abbrev pub Text : Type 0
Text = List ℕ

abbrev pub slash : ℕ
slash = 47

abbrev pub last_or : ℕ → Text → ℕ
last_or d [] = d
last_or d (b ∷ t) = last_or b t

-- The last byte is `chr`. Of the empty text the source reads the byte before the buffer; it calls
-- this for texts that are not empty.
unfoldable pub lastchar : Text → ℕ → Bool
lastchar [] chr = false
lastchar (b ∷ t) chr = last_or b t == chr

-- The text without its last byte, over which a zero is written.
abbrev pub chop : Text → Text
chop [] = []
chop (b ∷ []) = []
chop (b ∷ c ∷ t) = b ∷ chop (c ∷ t)

abbrev pub after_in : ℕ → Text → Option Text → Option Text
after_in b t (some r) = some r
after_in b t none = if b == slash then some t else none

-- strrchr(text, '/') + 1: what stands behind the last slash; `none` for a null pointer.
unfoldable pub after_last_slash : Text → Option Text
after_last_slash [] = none
after_last_slash (b ∷ t) = after_in b t (after_last_slash t)

abbrev pub trim : Text → Text
trim t = if lastchar t slash then chop t else t

-- The two outputs, the upper path and the name; `none` where the path has no slash left and
-- strrchr gives a null pointer.
abbrev pub with_name : Text → Option Text → Option (Text × Text)
with_name t none = none
with_name t (some name) = some (take (length t - length name) t, name)

unfoldable pub split_path : Text → Option (Text × Text)
split_path path = with_name (trim path) (after_last_slash (trim path))
