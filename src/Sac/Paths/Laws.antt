-- ===== src/Sac/Paths/Laws.antt =====
-- What split_path of sac_server/src/sac_operate.c makes of a path.
use threaders.Base.{
  ℕ, ◌+◌, ◌-◌, ◌≡◌, ◌≢◌, refl, true, false, none, some, [], ◌∷◌, ◌++◌, arith, sym, ap, ◌∙◌, length,
  take, ◌==◌, length-append, take-append,
}
use mathlib.Core.List.{append_assoc}
use threaders.Sac.Paths.{
  Text, slash, last_or, lastchar, chop, after_last_slash, trim, with_name, split_path,
}

-- A name has no slash in it, and is not empty.
abbrev pub NoSlash : Text → Type 0
NoSlash [] = Unit {0}
NoSlash (b ∷ t) = (b ≢ slash) × NoSlash t

after_last_slash-NoSlash : (name : Text) → NoSlash name → after_last_slash name ≡ none
unfolding after_last_slash
after_last_slash-NoSlash [] h = refl
after_last_slash-NoSlash (b ∷ t) h = ground (arith, after_last_slash-NoSlash t h.1)

after_last_slash-append :
    (dir name : Text) → NoSlash name → after_last_slash (dir ++ slash ∷ name) ≡ some name
unfolding after_last_slash
after_last_slash-append [] name h = ground (arith, after_last_slash-NoSlash name h)
after_last_slash-append (b ∷ dir) name h = ground (arith, after_last_slash-append dir name h)

last_or-append : (d b : ℕ) (s t : Text) → last_or d (s ++ b ∷ t) ≡ last_or b t
last_or-append d b [] t = refl
last_or-append d b (c ∷ s) t = last_or-append c b s t

last_or-NoSlash : (b : ℕ) (t : Text) → b ≢ slash → NoSlash t → last_or b t ≢ slash
last_or-NoSlash b [] h n = h
last_or-NoSlash b (c ∷ t) h n = last_or-NoSlash c t n.0 n.1

lastchar-append :
    (d : Text) (b : ℕ) (t : Text) (c : ℕ) → lastchar (d ++ b ∷ t) c ≡ (last_or b t == c)
unfolding lastchar
lastchar-append [] b t c = refl
lastchar-append (a ∷ d) b t c = ap (λ x. x == c) (last_or-append a b d t)

chop-append : (d : Text) (b : ℕ) → chop (d ++ b ∷ []) ≡ d
chop-append [] b = refl
chop-append (a ∷ []) b = refl
chop-append (a ∷ c ∷ d) b = ap (λ t. a ∷ t) (chop-append (c ∷ d) b)

module _ (dir : Text) (b : ℕ) (name : Text) (nb : b ≢ slash) (n : NoSlash name) where
  abbrev whole : Text
  whole = dir ++ slash ∷ b ∷ name

  trim-whole : trim whole ≡ whole
  trim-whole =
      let e : lastchar whole slash ≡ false =
        lastchar-append dir slash (b ∷ name) slash ∙ ground (arith, last_or-NoSlash b name nb n) in
      rw e

  trim-slash : trim (whole ++ slash ∷ []) ≡ whole
  trim-slash =
      let e : lastchar (whole ++ slash ∷ []) slash ≡ true = lastchar-append whole slash [] slash in
      rw e (chop-append whole slash)

  split_whole : with_name whole (after_last_slash whole) ≡ some (dir ++ slash ∷ [], b ∷ name)
  split_whole =
      let joined : whole ≡ (dir ++ slash ∷ []) ++ b ∷ name =
        sym (append_assoc dir (slash ∷ []) (b ∷ name)) in
      let size : length whole - length (b ∷ name) ≡ length dir + 1 =
        omega (arith, length-append dir (slash ∷ b ∷ name)) in
      ap (with_name whole) (after_last_slash-append dir (b ∷ name) (nb, n))
      ∙ ap (λ k. some (take k whole, b ∷ name)) size
      ∙ ap (λ t. some (take (length dir + 1) t, b ∷ name)) joined
      ∙ ap (λ t. some (t, b ∷ name))
          (take-append (length dir + 1) (dir ++ slash ∷ []) (b ∷ name)
            (omega (arith, length-append dir (slash ∷ []))))

  -- A path `dir/name`, with or without a slash behind it, is split into `dir/` and `name`: the upper
  -- path keeps its last slash.
  pub split_path-slash :
      (split_path whole ≡ some (dir ++ slash ∷ [], b ∷ name))
      × (split_path (whole ++ slash ∷ []) ≡ some (dir ++ slash ∷ [], b ∷ name))
  unfolding split_path
  split_path-slash = (
    ap (λ t. with_name t (after_last_slash t)) trim-whole ∙ split_whole,
    ap (λ t. with_name t (after_last_slash t)) trim-slash ∙ split_whole,
  )
