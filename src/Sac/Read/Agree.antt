-- ===== src/Sac/Read/Agree.antt =====
-- The calls of sac_server/src/sac_read.c against each other and against the content of the file.
use threaders.Base.{
  take-prefix, length-take, length-drop, ℕ, zero, suc, ◌+◌, ◌-◌, ◌%◌, ◌≤◌, ◌<◌, ◌≡◌, ◌≢◌, refl,
  true, false, ◌⊎◌, [], ◌∷◌, ◌++◌, length, take, drop, ltb, leb, ◌==◌, if◌then◌else◌, pos, arith,
  sym, ap, ◌∙◌, inl, inr, subst, Bool-cases,
}
use threaders.Sac.Paths.{Text}
use threaders.Sac.Nodes.{text_eq, root, enoent}
use threaders.Sac.Read.{
  default_file_content, default_file_path, default_file_name, s_ifdir, s_ifreg, sac_getattr,
  sac_open, sac_readdir, size_mod, ReadResult, read_bytes, overread, memcpy_content, sac_read,
  eacces,
}

take-drop-append :
    (n k : ℕ) (s t : Text) → k + n ≤ length s → take n (drop k (s ++ t)) ≡ take n (drop k s)
take-drop-append n zero s t h = take-prefix n s t (omega arith)
take-drop-append n (suc k) [] t h = absurd (omega arith)
take-drop-append n (suc k) (b ∷ s) t h = take-drop-append n k s t (omega arith)

take-all : (n : ℕ) (s : Text) → length s ≤ n → take n s ≡ s
take-all zero [] h = refl
take-all zero (b ∷ s) h = absurd (omega arith)
take-all (suc n) [] h = refl
take-all (suc n) (b ∷ s) h = ap (λ t. b ∷ t) (take-all n s (omega arith))

drop-all : (k : ℕ) (s : Text) → length s ≤ k → drop k s ≡ []
drop-all zero [] h = refl
drop-all zero (b ∷ s) h = absurd (omega arith)
drop-all (suc k) [] h = refl
drop-all (suc k) (b ∷ s) h = drop-all k s (omega arith)

take-nil : (n : ℕ) → take {A = ℕ} n [] ≡ []
take-nil zero = refl
take-nil (suc n) = refl

-- A text as it is read: its bytes and their number.
abbrev slice_of : Text → ReadResult
slice_of t = read_bytes t (pos (length t))

memcpy_content-slice :
    (offset size : ℕ)
    → offset + size ≤ length default_file_content
    → memcpy_content offset size ≡ slice_of (take size (drop offset default_file_content))
memcpy_content-slice offset size h =
    let content = default_file_content in
    let number : length (take size (drop offset content)) ≡ size =
      length-take size (drop offset content) (omega (arith, length-drop offset content)) in
    let bytes : take size (drop offset (content ++ 0 ∷ [])) ≡ take size (drop offset content) =
      take-drop-append size offset content (0 ∷ []) h in
    let fits : leb (offset + size) (length content + 1) ≡ true = ground arith in
    ap
      (λ b.
        if b then read_bytes (take size (drop offset (content ++ 0 ∷ []))) (pos size) else overread)
      fits
    ∙ ap (λ t. read_bytes t (pos size)) bytes
    ∙ ap (λ n. read_bytes (take size (drop offset content)) (pos n)) (sym number)

abbrev asked : ℕ → ℕ → ℕ → ReadResult
asked len size offset =
    if ltb offset len
    then memcpy_content offset (if ltb len ((offset + size) % size_mod) then len - offset else size)
    else read_bytes [] (pos 0)

mod-small : (n : ℕ) → n < size_mod → n % size_mod ≡ n
mod-small n h = omega arith

asked-within :
    (size offset : ℕ)
    → offset + size < size_mod
    → offset < length default_file_content
    → asked (length default_file_content) size offset
      ≡ memcpy_content offset (
          if ltb (length default_file_content) (offset + size)
          then length default_file_content - offset
          else size)
asked-within size offset h l =
    let len = length default_file_content in
    let t : ltb offset len ≡ true = ground arith in
    ap
      (λ b.
        if b
        then memcpy_content offset
            (if ltb len ((offset + size) % size_mod) then len - offset else size)
        else read_bytes [] (pos 0))
      t
    ∙ ap (λ n. memcpy_content offset (if ltb len n then len - offset else size))
        (mod-small (offset + size) h)

asked-slice :
    (size offset : ℕ)
    → offset + size < size_mod
    → asked (length default_file_content) size offset
      ≡ slice_of (take size (drop offset default_file_content))
asked-slice size offset h = elim (Bool-cases (ltb offset (length default_file_content))) [
  | inr behind ↦
      let empty : take size (drop offset default_file_content) ≡ [] =
        ap (take size) (drop-all offset default_file_content (ground arith)) ∙ take-nil size in
      let run : asked (length default_file_content) size offset ≡ read_bytes [] (pos 0) =
        ground arith in
      run ∙ ap slice_of (sym empty)
  | inl within ↦ elim (Bool-cases (ltb (length default_file_content) (offset + size))) [
    | inl past ↦
        let len = length default_file_content in
        let rest = drop offset default_file_content in
        let left : length rest + offset ≡ len =
          length-drop offset default_file_content (ground arith) in
        let whole : take (len - offset) rest ≡ take size rest =
          take-all (len - offset) rest (omega arith) ∙ sym (take-all size rest (ground arith)) in
        let run : asked len size offset ≡ memcpy_content offset (len - offset) =
          asked-within size offset h (ground arith)
          ∙ ap (λ b. memcpy_content offset (if b then len - offset else size)) past in
        run ∙ memcpy_content-slice offset (len - offset) (ground arith) ∙ ap slice_of whole
    | inr inside ↦
        asked-within size offset h (ground arith)
        ∙ ap (λ b. memcpy_content offset (if b then length default_file_content - offset else size))
            inside
        ∙ memcpy_content-slice offset size (ground arith)
  ]
]

-- sac_read of the file, where offset and size do not wrap: it puts those of the `size` bytes from
-- `offset` on that the content has, and returns their number.
pub sac_read-slice :
    (size offset : ℕ)
    → offset + size < size_mod
    → sac_read default_file_path size offset
      ≡ read_bytes
          (take size (drop offset default_file_content))
          (pos (length (take size (drop offset default_file_content))))
unfolding sac_read text_eq
sac_read-slice size offset h = asked-slice size offset h

text_eq-true : (s t : Text) → text_eq s t ≡ true → s ≡ t
unfolding text_eq
text_eq-true [] [] h = refl
text_eq-true [] (b ∷ t) h = absurd (cc h)
text_eq-true (a ∷ s) [] h = absurd (cc h)
text_eq-true (a ∷ s) (b ∷ t) h =
    let ab : a ≡ b = ground arith in let st : s ≡ t = text_eq-true s t (ground arith) in cc (ab, st)

text_eq_refl : (s : Text) → text_eq s s ≡ true
unfolding text_eq
text_eq_refl [] = refl
text_eq_refl (b ∷ s) = ground (arith, text_eq_refl s)

text_eq-ne : (s t : Text) → text_eq s t ≡ false → s ≢ t
text_eq-ne s t h e =
    let same : text_eq s t ≡ true = ap (text_eq s) (sym e) ∙ text_eq_refl s in cc (same, h)

-- What the four calls say of a path, each for the other three.
abbrev pub IsDirectory : Text → ℕ → ℕ → ℕ → Type 0
IsDirectory path flags size offset =
    (path ≡ root)
    × (sac_getattr path ≡ (pos 0, record { st_mode = s_ifdir + 493; st_nlink = 2; st_size = 0 }))
    × (sac_readdir path ≡ (pos 0, (46 ∷ []) ∷ (46 ∷ 46 ∷ []) ∷ default_file_name ∷ []))
    × (sac_open path flags ≡ enoent)
    × (sac_read path size offset ≡ read_bytes [] enoent)

abbrev pub IsFile : Text → ℕ → ℕ → ℕ → Type 0
IsFile path flags size offset =
    (path ≡ default_file_path)
    × (sac_getattr path ≡ (
      pos 0,
      record { st_mode = s_ifreg + 292; st_nlink = 1; st_size = length default_file_content },
    ))
    × (sac_readdir path ≡ (enoent, []))
    × (sac_open path flags ≡ (if flags % 4 == 0 then pos 0 else eacces))
    × (sac_read path size offset ≡ slice_of (take size (drop offset default_file_content)))

abbrev pub IsMissing : Text → ℕ → ℕ → ℕ → Type 0
IsMissing path flags size offset =
    (path ≢ root)
    × (path ≢ default_file_path)
    × (sac_getattr path ≡ (enoent, record { st_mode = 0; st_nlink = 0; st_size = 0 }))
    × (sac_readdir path ≡ (enoent, []))
    × (sac_open path flags ≡ enoent)
    × (sac_read path size offset ≡ read_bytes [] enoent)

IsMissing-case :
    (path : Text) (flags size offset : ℕ)
    → text_eq path root ≡ false
    → text_eq path default_file_path ≡ false
    → IsMissing path flags size offset
unfolding sac_getattr sac_readdir sac_open sac_read
IsMissing-case path flags size offset r f = (
  text_eq-ne path root r,
  text_eq-ne path default_file_path f,
  rw r (rw f refl),
  rw r refl,
  rw f refl,
  rw f refl,
)

IsDirectory-case : (flags size offset : ℕ) → IsDirectory root flags size offset
unfolding sac_getattr sac_readdir sac_open sac_read text_eq
IsDirectory-case flags size offset = (refl, refl, refl, refl, refl)

IsFile-case :
    (flags size offset : ℕ) → offset + size < size_mod → IsFile default_file_path flags size offset
unfolding sac_getattr sac_readdir sac_open text_eq
IsFile-case flags size offset h = (refl, refl, refl, refl, sac_read-slice size offset h)

-- Where offset and size do not wrap, the four calls agree on every path: it is the root, a directory
-- with three entries that can be neither opened nor read; or the default file, whose size in its
-- attributes is the length of the content that is read, which opens when the flags ask to read only
-- and else gives -EACCES; or there is no such file, and each call returns -ENOENT.
pub sac_getattr-sac_open :
    (path : Text) (flags size offset : ℕ)
    → offset + size < size_mod
    → IsDirectory path flags size offset
      ⊎ (IsFile path flags size offset ⊎ IsMissing path flags size offset)
sac_getattr-sac_open path flags size offset h = elim (Bool-cases (text_eq path root)) [
  | inl r ↦ inl (
      subst (λ p. IsDirectory p flags size offset) (sym (text_eq-true path root r))
        (IsDirectory-case flags size offset))
  | inr r ↦ elim (Bool-cases (text_eq path default_file_path)) [
    | inl f ↦ inr (
        inl (
          subst (λ p. IsFile p flags size offset) (sym (text_eq-true path default_file_path f))
            (IsFile-case flags size offset h)))
    | inr f ↦ inr (inr (IsMissing-case path flags size offset r f))
  ]
]
