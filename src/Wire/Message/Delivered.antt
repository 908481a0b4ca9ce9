-- ===== src/Wire/Message/Delivered.antt =====
-- Each message of the memory server through utils_serialize_and_send and
-- utils_receive_and_deserialize of shared-common/common/utils.c.
use threaders.Base.{
  ℕ, ◌+◌, ◌<◌, ◌≡◌, refl, some, List, [], ◌∷◌, ◌++◌, arith, sym, ap, ◌∙◌, length, take, drop,
  length-append, take-append, true,
}
use mathlib.Core.List.{append_assoc, append-nil}
use threaders.Commons.{Commons, reference}
use threaders.Wire.Bytes.{Bytes, le, unle, unle-le, slice, overwrite, slice-front, slice-behind}
use threaders.Wire.Protocol.{
  Protocol, code, Object, malloc, memfree, copy, get, malloc_ok, free_response, get_ok, t_malloc,
  t_free, t_get, t_copy, t_malloc_ok, t_free_response,
}
use threaders.Wire.Message.Fill.{length-drop, drop-all, slice-all, fill_one, fill_two, fill_three}
use threaders.Wire.Package.{
  frame, int_limit, sent-frame, utils_receive_package, utils_receive_package-frame, received,
}
use threaders.Wire.Message.{
  utils_serialize_and_send, utils_receive_and_deserialize, outgoing, values, packed,
  utils_get_from_list_to, message, with_values, as_message, copied, store_at, build, then_value,
  sized_content, with_content, receives,
}

-- malloc(n) returns `n` bytes.
pub record Allocates (alloc : ℕ → Bytes) : Type 0 where
  pub sized : (n : ℕ) → length (alloc n) ≡ n

-- A structure with the first `n` bytes and the pointee of another.
pub record Same (n : ℕ) (o o' : Object) : Type 0 where
  pub bytes : take n o'.image ≡ take n o.image
  pub size : length o'.image ≡ length o.image
  pub pointed : o'.pointee ≡ o.pointee

-- The object goes out behind its code, and comes in with the same fields, whatever follows it.
pub record Delivered (c : Commons) (alloc : ℕ → Bytes) (n : ℕ) (p : Protocol) (o : Object)
    (more : Bytes) : Type 0 where
  pub body : Bytes
  pub object : Object
  pub sends : utils_serialize_and_send p o ≡ some (le 4 (code p) ++ body)
  pub arrives : utils_receive_and_deserialize c alloc p (body ++ more) ≡ message object more
  pub same : Same n o object

pub sends-values :
    (p : Protocol) (o : Object) (vs : List Bytes)
    → outgoing p o ≡ values vs
    → length (frame vs) < int_limit
    → utils_serialize_and_send p o ≡ some (le 4 (code p) ++ (le 4 (length (frame vs)) ++ frame vs))
unfolding utils_serialize_and_send
sends-values p o vs e h = ap (packed p) e ∙ sent-frame (code p) vs h

arrives-values :
    (vs : List Bytes) (more : Bytes)
    → length (frame vs) < int_limit
    → utils_receive_package reference ((le 4 (length (frame vs)) ++ frame vs) ++ more)
      ≡ received vs more
arrives-values vs more h =
    ap (utils_receive_package reference) (append_assoc (le 4 (length (frame vs))) (frame vs) more)
    ∙ utils_receive_package-frame vs more h

-- A message whose values the switch puts back together.
delivered :
    (alloc : ℕ → Bytes) (more : Bytes) (n : ℕ) (p : Protocol) (o o' : Object) (vs : List Bytes)
    → outgoing p o ≡ values vs
    → length (frame vs) < int_limit
    → receives p ≡ true
    → build reference alloc p vs more ≡ message o' more
    → Same n o o'
    → Delivered reference alloc n p o more
unfolding utils_receive_and_deserialize
delivered alloc more n p o o' vs e h r b same = record {
  body = le 4 (length (frame vs)) ++ frame vs;
  object = o';
  sends = sends-values p o vs e h;
  arrives = rw r (ap (λ k. with_values k (build reference alloc p)) (arrives-values vs more h) ∙ b);
  same = same;
}

whole : (n : ℕ) (o : Object) → Same n o o
whole n o = record { bytes = refl; size = refl; pointed = refl }

take_two : (x y z : Bytes) → length x ≡ 8 → length y ≡ 4 → take 12 (x ++ (y ++ z)) ≡ x ++ y
take_two x y z hx hy =
    ap (take 12) (sym (append_assoc x y z))
    ∙ take-append 12 (x ++ y) z (omega (arith, length-append x y))

module _ (alloc : ℕ → Bytes) (a : Allocates alloc) (more : Bytes) where
  pair_built :
      (x y : Bytes)
      → length x ≡ 4
      → length y ≡ 4
      → store_at (some y) 4 (overwrite 0 x (alloc 8)) ≡ some (x ++ y)
  pair_built x y hx hy =
      ap (λ k. store_at (some y) k (overwrite 0 x (alloc 8))) (sym hx)
      ∙ fill_two x y (alloc 8) (omega (arith, a.sized 8))
      ∙ ap (λ t. some (x ++ (y ++ t)))
          (drop-all (length y) _ (omega (arith, length-drop (length x) (alloc 8), a.sized 8)))
      ∙ ap (λ t. some (x ++ t)) (append-nil y)

  pub malloc-Delivered : (tam id : ℕ) → Delivered reference alloc 8 malloc (t_malloc tam id) more
  unfolding build utils_get_from_list_to outgoing receives
  malloc-Delivered tam id =
      delivered alloc more 8 malloc (t_malloc tam id) (t_malloc tam id) (le 4 tam ∷ le 4 id ∷ [])
        refl (omega arith) refl
        (ap (λ k. as_message k [] more) (pair_built (le 4 tam) (le 4 id) refl refl))
        (whole 8 (t_malloc tam id))

  pub memfree-Delivered : (dir id : ℕ) → Delivered reference alloc 8 memfree (t_free dir id) more
  unfolding build utils_get_from_list_to outgoing receives
  memfree-Delivered dir id =
      delivered alloc more 8 memfree (t_free dir id) (t_free dir id) (le 4 dir ∷ le 4 id ∷ []) refl
        (omega arith) refl
        (ap (λ k. as_message k [] more) (pair_built (le 4 dir) (le 4 id) refl refl))
        (whole 8 (t_free dir id))

  pub get-Delivered : (src id size : ℕ) → Delivered reference alloc 12 get (t_get src id size) more
  unfolding build utils_get_from_list_to outgoing receives
  get-Delivered src id size =
      let x = le 4 src in
      let y = le 4 id in
      let z = le 4 size in
      delivered alloc more 12 get (t_get src id size) (t_get src id size) (x ∷ y ∷ z ∷ []) refl
        (omega arith) refl
        (ap (λ k. as_message k [] more)
          (fill_three x y z (alloc 12) (omega (arith, a.sized 12))
            ∙ ap (λ t. some (x ++ (y ++ (z ++ t))))
                (drop-all 4 (drop 4 (drop 4 (alloc 12))) (
                  omega (
                    arith,
                    length-drop 4 (drop 4 (alloc 12)),
                    length-drop 4 (alloc 12),
                    a.sized 12,
                  )))))
        (whole 12 (t_get src id size))

  one_built : (x : Bytes) → length x ≡ 4 → overwrite 0 x (alloc 4) ≡ some x
  one_built x hx =
      fill_one x (alloc 4) (omega (arith, a.sized 4))
      ∙ ap (λ t. some (x ++ t)) (drop-all (length x) (alloc 4) (omega (arith, a.sized 4)))
      ∙ ap some (append-nil x)

  pub malloc_ok-Delivered : (ptr : ℕ) → Delivered reference alloc 4 malloc_ok (t_malloc_ok ptr) more
  unfolding build utils_get_from_list_to outgoing receives
  malloc_ok-Delivered ptr =
      delivered alloc more 4 malloc_ok (t_malloc_ok ptr) (t_malloc_ok ptr) (le 4 ptr ∷ []) refl
        (omega arith) refl (ap (λ k. as_message k [] more) (one_built (le 4 ptr) refl))
        (whole 4 (t_malloc_ok ptr))

  pub free_response-Delivered :
      (res : ℕ) → Delivered reference alloc 4 free_response (t_free_response res) more
  unfolding build utils_get_from_list_to outgoing receives
  free_response-Delivered res =
      delivered alloc more 4 free_response (t_free_response res) (t_free_response res)
        (le 4 res ∷ []) refl (omega arith) refl
        (ap (λ k. as_message k [] more) (one_built (le 4 res) refl)) (whole 4 (t_free_response res))

  -- Any eight bytes may stand for the pointer.
  pub get_ok-Delivered :
      (x : Bytes) (tamres padding : ℕ)
      → length x ≡ 8
      → Delivered reference alloc 12 get_ok
          (record { image = x ++ (le 4 tamres ++ le 4 padding); pointee = [] })
          more
  unfolding build utils_get_from_list_to outgoing receives
  get_ok-Delivered x tamres padding h =
      let y = le 4 tamres in
      let rest = drop 4 (drop 8 (alloc 16)) in
      let o : Object = record { image = x ++ (y ++ le 4 padding); pointee = [] } in
      let o' : Object = record { image = x ++ (y ++ rest); pointee = [] } in
      let sent : outgoing get_ok o ≡ values (x ∷ y ∷ []) =
        ap (λ v. then_value v (then_value (slice 8 4 o.image) (values [])))
          (slice-front 8 x (y ++ le 4 padding) h)
        ∙ ap (λ v. then_value (some x) (then_value v (values [])))
            (slice-behind 8 4 x y (le 4 padding) h refl) in
      let stored : store_at (some y) 8 (overwrite 0 x (alloc 16)) ≡ some (x ++ (y ++ rest)) =
        ap (λ k. store_at (some y) k (overwrite 0 x (alloc 16))) (sym h)
        ∙ fill_two x y (alloc 16) (omega (arith, a.sized 16))
        ∙ ap (λ k. some (x ++ (y ++ drop 4 (drop k (alloc 16))))) h in
      delivered alloc more 12 get_ok o o' (x ∷ y ∷ []) sent
        (omega (arith, h, length-append x (le 4 (length y) ++ (y ++ [])))) refl
        (ap (λ k. as_message k [] more) stored)
        (record {
          bytes = take_two x y rest h refl ∙ sym (take_two x y (le 4 padding) h refl);
          size = omega (
            arith,
            length-append x (y ++ rest),
            length-append x (y ++ le 4 padding),
            length-drop 4 (drop 8 (alloc 16)),
            length-drop 8 (alloc 16),
            a.sized 16,
          );
          pointed = refl;
        })

  -- The content goes into a block of the size that the third field says.
  content_built :
      (x y z rest content : Bytes)
      → length x + length y ≡ 8
      → length z ≡ 4
      → unle z ≡ length content
      → copied reference alloc (x ∷ y ∷ z ∷ content ∷ []) more (some (x ++ (y ++ (z ++ rest))))
        ≡ message (record { image = x ++ (y ++ (z ++ rest)); pointee = content }) more
  unfolding copied utils_get_from_list_to
  content_built x y z rest content hb hz size =
      let m = x ++ (y ++ (z ++ rest)) in
      let block = alloc (length content) in
      let read : slice 8 4 m ≡ some z =
        ap (slice 8 4) (sym (append_assoc x y (z ++ rest)))
        ∙ slice-behind 8 4 (x ++ y) z rest (length-append x y ∙ hb) hz in
      ap (λ o. sized_content m more o λ n. overwrite 0 content (alloc n)) read
      ∙ ap (λ n. with_content m more (overwrite 0 content (alloc n))) size
      ∙ ap (with_content m more) (
          fill_one content block (omega (arith, a.sized (length content)))
          ∙ ap (λ t. some (content ++ t))
              (drop-all (length content) block (omega (arith, a.sized (length content))))
          ∙ ap some (append-nil content))

  pub copy-Delivered :
      (dst id padding address : ℕ) (content : Bytes)
      → length content < 2147483620
      → Delivered reference alloc 12 copy
          (t_copy dst id (length content) padding address content)
          more
  unfolding build utils_get_from_list_to outgoing receives
  copy-Delivered dst id padding address content h =
      let x = le 4 dst in
      let y = le 4 id in
      let z = le 4 (length content) in
      let rest = drop 4 (drop 4 (drop 4 (alloc 24))) in
      let o = t_copy dst id (length content) padding address content in
      let size : unle z ≡ length content = unle-le (length content) (omega arith) in
      delivered alloc more 12 copy o (record { image = x ++ (y ++ (z ++ rest)); pointee = content })
        (x ∷ y ∷ z ∷ content ∷ [])
        (ap
          (λ v.
            then_value (some x)
              (then_value (some y) (then_value (some z) (then_value v (values [])))))
          (ap (λ k. slice 0 k content) size ∙ slice-all content))
        (omega (arith, ap length (append-nil content))) refl
        (ap (copied reference alloc (x ∷ y ∷ z ∷ content ∷ []) more)
            (fill_three x y z (alloc 24) (omega (arith, a.sized 24)))
          ∙ content_built x y z rest content refl refl size)
        (record {
          bytes = refl;
          size = omega (
            arith,
            length-drop 4 (drop 4 (drop 4 (alloc 24))),
            length-drop 4 (drop 4 (alloc 24)),
            length-drop 4 (alloc 24),
            a.sized 24,
          );
          pointed = refl;
        })
