-- ===== src/Wire/Message/Paths.antt =====
-- The messages of the file system that shared-common/common/utils.c sends with a path name.
use threaders.Base.{
  ℕ, ◌+◌, ◌<◌, ◌≡◌, refl, Bool, true, false, Option, some, [], ◌∷◌, ◌++◌, arith, sym, ap, ◌∙◌,
  length, length-append,
}
use threaders.Wire.Bytes.{Bytes, le, slice, cstring}
use threaders.Wire.Protocol.{
  Protocol, code, Object, t_path, open_file, get_attr, create_dir, write, rm_dir, mk_dir, read,
}
use threaders.Wire.Package.{frame, int_limit, sent-frame}
use threaders.Wire.Message.Fill.{slice-all}
use threaders.Wire.Message.{
  outgoing, Outgoing, values, then_value, packed, path_values, pointer_bytes, text,
  utils_serialize_and_send,
}

-- The codes whose case copies from `&pathname`.
abbrev pub sends_pointer : Protocol → Bool
sends_pointer open_file = true
sends_pointer get_attr = true
sends_pointer create_dir = true
sends_pointer write = true
sends_pointer rm_dir = true
sends_pointer mk_dir = true
sends_pointer _ = false

outgoing-path : (p : Protocol) (o : Object) → sends_pointer p ≡ true → outgoing p o ≡ path_values o
unfolding outgoing
outgoing-path open_file o h = refl
outgoing-path get_attr o h = refl
outgoing-path create_dir o h = refl
outgoing-path write o h = refl
outgoing-path rm_dir o h = refl
outgoing-path mk_dir o h = refl
outgoing-path _ o h = absurd (cc h)

abbrev of_image : Bytes → Option Bytes → Outgoing
of_image m t =
    then_value (slice 8 4 m)
      (then_value (pointer_bytes (record { image = m; pointee = [] }) t) (values []))

of_image-length : (m s t : Bytes) → length s ≡ length t → of_image m (some s) ≡ of_image m (some t)
of_image-length m s t h =
    ap (λ n. then_value (slice 8 4 m) (then_value (slice 0 n m) (values []))) h

-- OPEN, GET_ATTR, CREATE_DIR, WRITE, RM_DIR and MK_DIR do not send the path, only its length: two paths
-- of equal length in structures with equal bytes, the same pointer among them, give the same message. READ and READ_DIR
-- are not among them.
pub utils_serialize_and_send_blind :
    (p : Protocol) (o o' : Object) (s t : Bytes)
    → sends_pointer p ≡ true
    → o.image ≡ o'.image
    → cstring o.pointee ≡ some s
    → cstring o'.pointee ≡ some t
    → length s ≡ length t
    → utils_serialize_and_send p o ≡ utils_serialize_and_send p o'
unfolding utils_serialize_and_send
utils_serialize_and_send_blind p o o' s t h e es et len = ap (packed p) (
    outgoing-path p o h
    ∙ ap (of_image o.image) es
    ∙ of_image-length o.image s t len
    ∙ ap (λ m. of_image m (some t)) e
    ∙ ap (of_image o'.image) (sym et)
    ∙ sym (outgoing-path p o' h))

-- No byte of the text is zero.
abbrev pub IsText : Bytes → Type 0
IsText [] = Unit {0}
IsText (b ∷ t) = (0 < b) × IsText t

pub cstring-text : (t m : Bytes) → IsText t → cstring (t ++ 0 ∷ m) ≡ some t
unfolding cstring
cstring-text [] m h = refl
cstring-text (b ∷ t) m h = ground (arith, cstring-text t m h.1)

whole_text : (t : Bytes) → slice 0 (length t + 1) (t ++ 0 ∷ []) ≡ some (t ++ 0 ∷ [])
whole_text t =
    let e : length t + 1 ≡ length (t ++ 0 ∷ []) = omega (arith, length-append t (0 ∷ [])) in
    ap (λ n. slice 0 n (t ++ 0 ∷ [])) e ∙ slice-all (t ++ 0 ∷ [])

-- READ sends the id and the path, with its final zero.
pub utils_serialize_and_send-read :
    (address id padding : ℕ) (path : Bytes)
    → IsText path
    → length path < 2147483635
    → utils_serialize_and_send read (t_path address id padding (path ++ 0 ∷ []))
      ≡ some (
          le 4 (code read)
          ++ (le 4 (length (frame (le 4 id ∷ (path ++ 0 ∷ []) ∷ [])))
              ++ frame (le 4 id ∷ (path ++ 0 ∷ []) ∷ [])))
unfolding utils_serialize_and_send outgoing
utils_serialize_and_send-read address id padding path h lt =
    let o = t_path address id padding (path ++ 0 ∷ []) in
    let text_read : text o (cstring o.pointee) ≡ some (path ++ 0 ∷ []) =
      ap (text o) (cstring-text path [] h) ∙ whole_text path in
    let small : length (frame (le 4 id ∷ (path ++ 0 ∷ []) ∷ [])) < int_limit =
      omega (arith, length-append (path ++ 0 ∷ []) [], length-append path (0 ∷ [])) in
    ap (λ v. packed read (then_value (some (le 4 id)) (then_value v (values [])))) text_read
    ∙ sent-frame (code read) (le 4 id ∷ (path ++ 0 ∷ []) ∷ []) small
