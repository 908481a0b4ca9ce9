-- ===== src/Libmuse/Fetched.antt =====
-- muse_get of libmuse/libmuse.c and the GET of muse/src/muse.c together.
use threaders.Base.{
  ℕ, ◌+◌, ◌≤◌, ◌<◌, ◌≡◌, Option, some, ◌++◌, arith, ap, ◌∙◌, pos, length, take, drop, length-append,
  length-take, length-drop, drop-append,
}
use mathlib.Core.List.{append_assoc}
use threaders.Commons.{Commons, Documented, for_documented}
use threaders.Wire.Bytes.{Bytes, le, unle, unle-le, slice}
use threaders.Wire.Bytes.Splice.{take-drop-take, slice-some}
use threaders.Wire.Protocol.{
  Protocol, code, selected, selected-code, code-lt, get, get_ok, Object, field_at,
}
use threaders.Wire.Message.Delivered.{Allocates, Delivered, Same, get_ok-Delivered}
use threaders.Muse.{Muse, procesar_id}
use threaders.Muse.Users.{procesar_id-memoria}
use threaders.Muse.Access.{get_response, send_got}
use threaders.Muse.Access.Answers.{handle_get-send_got}
use threaders.Muse.Server.{Environment, round, sent_round, handled_round, serve}
use threaders.Libmuse.{
  Reply, returned, with_object, with_reply, stored_reply, get_case, muse_get_request,
  muse_get_reply,
}
use threaders.Libmuse.Served.{call_get, serve-handled_call, part-Same, field-Same}

-- An answer whose code comes first goes to its case.
pub with_reply-code :
    {A : Type 0} (q p : Protocol) (body : Bytes) (k : Option Protocol → Bytes → Reply A)
    → with_reply q (le 4 (code p) ++ body) k ≡ k (some p) body
with_reply-code q p body k =
    ap (λ n. k (selected n) body) (unle-le (code p) (code-lt p))
    ∙ ap (λ o. k o body) (selected-code p)

-- What muse_get stores of the structure that has arrived.
stored-response :
    (x : Bytes) (padding : ℕ) (o : Object) (rest : Bytes)
    → 8 ≤ length x
    → Same 12 (get_response (take 8 x) padding) o
    → stored_reply (slice 0 (field_at o 8) o.image) rest ≡ returned (pos 0, take 4 x) rest
stored-response x padding o rest h s =
    let sent = get_response (take 8 x) padding in
    let tail = le 4 4 ++ le 4 padding in
    let eight : length (take 8 x) ≡ 8 = length-take 8 x h in
    let long : length sent.image ≡ 16 = omega (arith, length-append (take 8 x) tail, eight) in
    let tamres : field_at o 8 ≡ 4 =
      field-Same 12 8 sent o s (omega arith) (omega (arith, long))
      ∙ ap (λ t. unle (take 4 t)) (drop-append 8 (take 8 x) tail eight) in
    let front : take 4 o.image ≡ take 4 x =
      part-Same 12 0 sent o s (omega arith) (omega (arith, long))
      ∙ take-drop-take 0 8 4 x tail (omega arith) h in
    ap (λ n. stored_reply (slice 0 n o.image) rest) tamres
    ∙ ap (λ y. stored_reply y rest) (slice-some 0 4 o.image (omega (arith, s.size, long)))
    ∙ ap (λ t. returned (pos 0, t) rest) front

-- A muse_get and the round of the server that it meets: the request, the answer, the state behind it, and
-- what the call returns, whatever follows on the two connections.
pub record Fetched (c : Commons) (e : Environment) (alloc : ℕ → Bytes) (held : Bytes) (m : Muse)
    (pid src n : ℕ) (more rest : Bytes) : Type 0 where
  pub request : Bytes
  pub answer : Bytes
  pub after : Muse
  pub sends : muse_get_request pid src n ≡ some request
  pub serves : serve c e held m (request ++ more) ≡ round after answer more
  pub memory : after.memoria ≡ m.memoria
  pub returns :
      muse_get_reply c alloc (answer ++ rest) ≡ returned (pos 0, take 4 (drop src m.memoria)) rest

-- With the list operations as documented and a malloc on either side that returns as many bytes as it is
-- asked for, a muse_get of any size from an address with eight bytes of memory behind it is served, and
-- returns 0 with the four bytes at that address: not with as many as it asks for. The memory stays as it is.
pub muse_get-Fetched :
    {c : Commons} (e : Environment) (alloc : ℕ → Bytes) (held : Bytes) (m : Muse) (pid src n : ℕ)
    (more rest : Bytes)
    → Documented c
    → Allocates e.alloc
    → Allocates alloc
    → pid < 4294967296
    → src < 4294967296
    → src + 8 ≤ length m.memoria
    → Fetched c e alloc held m pid src n more rest
unfolding muse_get_reply
muse_get-Fetched {c} e alloc held m pid src n more rest d a a' p r inside =
    let known = (procesar_id c m pid).0 in
    let bytes = take 8 (drop src m.memoria) in
    let behind : 8 ≤ length (drop src m.memoria) =
      omega (arith, length-drop src m.memoria (omega arith)) in
    let h = serve-handled_call e held m pid (call_get src n) more d a p r in
    let got : Delivered c alloc 12 get_ok (get_response bytes e.padding) rest =
      for_documented (λ c. Delivered c alloc 12 get_ok (get_response bytes e.padding) rest) d
        (get_ok-Delivered alloc a' rest bytes 4 e.padding
          (length-take 8 (drop src m.memoria) behind)) in
    record {
      request = h.bytes;
      answer = le 4 (code get_ok) ++ got.body;
      after = known;
      sends = h.sends;
      serves =
          h.runs
          ∙ ap (λ x. handled_round x more)
              (handle_get-send_got d m e.padding src pid
                ∙ ap (send_got known e.padding) (slice-some src 8 m.memoria inside))
          ∙ ap (λ x. sent_round known x more) got.sends;
      memory = procesar_id-memoria c m pid;
      returns =
          ap (muse_get_reply c alloc) (append_assoc (le 4 (code get_ok)) got.body rest)
          ∙ with_reply-code get get_ok (got.body ++ rest) (get_case c alloc)
          ∙ ap (λ i. with_object i λ o r. stored_reply (slice 0 (field_at o 8) o.image) r)
              got.arrives
          ∙ stored-response (drop src m.memoria) e.padding got.object rest behind got.same;
    }
