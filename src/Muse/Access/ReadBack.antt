-- ===== src/Muse/Access/ReadBack.antt =====
-- What a GET of muse/src/muse.c reads after a COPY.
use threaders.Base.{
  ℕ, suc, ◌+◌, ◌-◌, ◌≤◌, ◌<◌, ◌≡◌, true, some, ◌⊎◌, ◌++◌, arith, sym, ap, ◌∙◌, length, take, drop,
  ltb, ◌==◌, if◌then◌else◌, get_elem?, length-append, length-drop, inl, inr, Bool-cases, subst,
}
use threaders.Commons.{Commons, Documented}
use threaders.Wire.Bytes.Splice.{
  spliced, overwrite-spliced, length-spliced, slice-spliced, get-spliced, slice-length,
}
use threaders.Wire.Bytes.{Bytes, le, slice, overwrite}
use threaders.Wire.Protocol.{get_ok}
use threaders.Wire.Message.Fill.{slice-all}
use threaders.Wire.Package.{take-all}
use threaders.Wire.Message.{utils_serialize_and_send}
use threaders.Muse.{Muse, existe_proceso_en_lista, procesar_id}
use threaders.Muse.Users.{
  procesar_id-Known, procesar_id-some, procesar_id-memoria, procesar_id-only, existe_memoria,
}
use threaders.Muse.Access.{
  handled, get_response, send_got, get_from, copy_failed, copy_done, and_store, bytes_of, libre_of,
  Behind, copy_response, copy_over, header_at, copy_to, handle_get, handle_copy,
}

-- A header of five bytes, with a size that replaces its own.
abbrev resized : ℕ → Bytes → Bytes
resized size heap = le 4 size ++ drop 4 heap

abbrev stored : ℕ → ℕ → Bytes → Bytes → Bytes → Bytes
stored dst size content heap m = spliced dst content (spliced (dst - 5) (resized size heap) m)

resized-length : (size : ℕ) (heap : Bytes) → length heap ≡ 5 → length (resized size heap) ≡ 5
resized-length size heap h =
    omega (arith, length-append (le 4 size) (drop 4 heap), length-drop 4 heap (omega arith))

module _ (dst size : ℕ) (content heap m : Bytes) (low : 5 ≤ dst) (high : dst + size ≤ length m)
    (whole : length content ≡ size) (five : length heap ≡ 5) where
  middle-length : length (spliced (dst - 5) (resized size heap) m) ≡ length m
  middle-length =
      length-spliced (dst - 5) (resized size heap) m (omega (arith, resized-length size heap five))

  stored-length : length (stored dst size content heap m) ≡ length m
  stored-length =
      length-spliced dst content (spliced (dst - 5) (resized size heap) m)
        (omega (arith, middle-length))
      ∙ middle-length

  stored-get :
      (j : ℕ)
      → (j < dst - 5) ⊎ (dst + size ≤ j)
      → get_elem? (stored dst size content heap m) j ≡ get_elem? m j
  stored-get j h =
      let len = resized-length size heap five in
      get-spliced dst content (spliced (dst - 5) (resized size heap) m) j
        (omega (arith, middle-length)) (ground (arith, h, whole))
      ∙ get-spliced (dst - 5) (resized size heap) m j (omega (arith, len)) (ground (arith, h, len))

  stored-slice :
      (n : ℕ) → n ≤ size → slice dst n (stored dst size content heap m) ≡ some (take n content)
  stored-slice n l =
      slice-spliced dst n content (spliced (dst - 5) (resized size heap) m)
        (omega (arith, middle-length)) (omega arith)

  stored-run :
      size < 2147483648
      → and_store (overwrite (dst - 5) (resized size heap) m) dst (bytes_of content size)
        ≡ some (stored dst size content heap m)
  stored-run small =
      let head : overwrite (dst - 5) (resized size heap) m
          ≡ some (spliced (dst - 5) (resized size heap) m) =
        overwrite-spliced (dst - 5) (resized size heap) m
          (omega (arith, resized-length size heap five)) in
      let all : bytes_of content size ≡ some content =
        ap (bytes_of content) (sym whole) ∙ ground (arith, slice-all content) in
      ap (λ o. and_store o dst (bytes_of content size)) head
      ∙ ap (and_store (some (spliced (dst - 5) (resized size heap) m)) dst) all
      ∙ overwrite-spliced dst content (spliced (dst - 5) (resized size heap) m)
          (omega (arith, middle-length))

header_at-length : (dst : ℕ) (m heap : Bytes) → header_at dst m ≡ some heap → length heap ≡ 5
header_at-length dst m heap h = elim (Bool-cases (ltb dst 5)) [
  | inl t ↦ absurd (ground arith)
  | inr f ↦ slice-length (dst - 5) 5 m heap (ground arith)
]

copy_over-stored :
    (behind : Behind) (known : Muse) (dst size : ℕ) (content heap : Bytes)
    → libre_of heap ≡ 0
    → size < 2147483648
    → 5 ≤ dst
    → dst + size ≤ length known.memoria
    → length content ≡ size
    → length heap ≡ 5
    → copy_over behind known dst size content (some heap)
      ≡ copy_done behind known (some (stored dst size content heap known.memoria))
copy_over-stored behind known dst size content heap taken small low high whole five =
    let flag : (libre_of heap == 0) ≡ true = ground arith in
    ap
      (λ b.
        if b
        then copy_done behind known (
            and_store (overwrite (dst - 5) (resized size heap) known.memoria) dst
              (bytes_of content size))
        else copy_failed known)
      flag
    ∙ ap (copy_done behind known)
        (stored-run dst size content heap known.memoria low high whole five small)

-- What a COPY and a GET of the same place do.
pub record CopiedBack (c : Commons) (behind : Behind) (m : Muse) (dst self_id size padding : ℕ)
    (content : Bytes) (j : ℕ) : Type 0 where
  pub after : Muse
  pub copy_run :
      handle_copy c behind m dst self_id size content
      ≡ handled after (utils_serialize_and_send get_ok (copy_response behind))
  pub get_run :
      handle_get c after padding dst self_id
      ≡ handled after (utils_serialize_and_send get_ok (get_response (take 8 content) padding))
  pub holds : slice dst size after.memoria ≡ some content
  pub same_frames : after.frames ≡ m.frames
  pub same_paginas : after.paginas ≡ m.paginas
  pub same_length : length after.memoria ≡ length m.memoria
  pub kept : get_elem? after.memoria j ≡ get_elem? m.memoria j

-- With the list operations as documented, a COPY of at least 8 and fewer than 2^31 bytes to a
-- block whose header says that it is in use, and which lies in the memory, stores them all. Of the
-- memory it changes no others but the five of the header before them, and the frames and pages stay.
-- A GET of that place by the same process, right after the COPY and before any other round, answers
-- with the first eight of the bytes.
pub handle_copy-handle_get :
    {c : Commons}
    → Documented c
    → (behind : Behind) (m : Muse) (dst self_id size padding : ℕ) (content heap : Bytes) (j : ℕ)
    → header_at dst m.memoria ≡ some heap
    → libre_of heap ≡ 0
    → 5 ≤ dst
    → dst + size ≤ length m.memoria
    → length content ≡ size
    → 8 ≤ size
    → size < 2147483648
    → (j < dst - 5) ⊎ (dst + size ≤ j)
    → CopiedBack c behind m dst self_id size padding content j
unfolding handle_copy handle_get
handle_copy-handle_get {c} d behind m dst self_id size padding content heap j header taken low high
      whole eight small out =
    let known = (procesar_id c m self_id).0 in
    let p = (procesar_id c m self_id).1 in
    let same : known.memoria ≡ m.memoria = procesar_id-memoria c m self_id in
    let k = procesar_id-Known d m self_id (suc self_id) (λ e. omega arith) in
    let there : existe_proceso_en_lista c known self_id ≡ some p = k.1 in
    let five : length heap ≡ 5 = header_at-length dst m.memoria heap header in
    let above : dst + size ≤ length known.memoria =
      subst (λ x. dst + size ≤ length x) (sym same) high in
    let memoria = stored dst size content heap known.memoria in
    let after = record known { memoria = memoria } in
    let still : existe_proceso_en_lista c after self_id ≡ some p =
      existe_memoria c known memoria self_id ∙ there in
    let again : procesar_id c after self_id ≡ (after, p) =
      procesar_id-some c after self_id p still in
    record {
      after = after;
      copy_run =
          ap (copy_to behind known dst size content) there
          ∙ ap (copy_over behind known dst size content) (ap (header_at dst) same ∙ header)
          ∙ copy_over-stored behind known dst size content heap taken small low above whole five;
      get_run =
          ap (λ r. get_from r.0 padding dst (existe_proceso_en_lista c r.0 self_id)) again
          ∙ ap (get_from after padding dst) still
          ∙ ap (send_got after padding)
              (stored-slice dst size content heap known.memoria low above whole five 8 eight);
      holds =
          stored-slice dst size content heap known.memoria low above whole five size (omega arith)
          ∙ ap (λ k. some (take k content)) (sym whole)
          ∙ ap some (take-all content);
      same_frames = ap (λ x. x.frames) (procesar_id-only c m self_id).1;
      same_paginas = ap (λ x. x.paginas) (procesar_id-only c m self_id).1;
      same_length =
          stored-length dst size content heap known.memoria low above whole five ∙ ap length same;
      kept =
          stored-get dst size content heap known.memoria low above whole five j out
          ∙ ap (λ x. get_elem? x j) same;
    }
