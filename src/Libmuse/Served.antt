-- ===== src/Libmuse/Served.antt =====
-- What the memory server of muse/src/muse.c does with the requests of libmuse/libmuse.c.
use threaders.Base.{
  ℕ, ◌+◌, ◌≤◌, ◌<◌, ◌≡◌, refl, Option, some, [], ◌++◌, arith, sym, ap, ◌∙◌, length, take, drop,
}
use mathlib.Core.List.{append_assoc}
use threaders.Commons.{Commons, Documented}
use threaders.Wire.Bytes.{Bytes, le, unle, unle-le}
use threaders.Wire.Bytes.Splice.{take-drop-take}
use threaders.Wire.Protocol.{
  Protocol, code, selected, selected-code, code-lt, malloc, memfree, copy, get, Object, field_at,
  t_malloc, t_free, t_get, t_copy,
}
use threaders.Wire.Message.{utils_serialize_and_send}
use threaders.Wire.Message.Delivered.{Allocates, Delivered, Same}
use threaders.Wire.Message.RoundTrip.{
  allocate, release, fetch, place, utils_receive_and_deserialize-serialize,
}
use threaders.Muse.{Muse}
use threaders.Muse.Access.{handle_get, handle_copy}
use threaders.Muse.Free.{handle_memfree}
use threaders.Muse.Alloc.{handle_malloc}
use threaders.Muse.Server.{
  Environment, Round, allocated_round, freed_round, handled_round, with_message, dispatch_message,
  serve, receive,
}
use threaders.Libmuse.{
  muse_alloc_request, muse_free_request, muse_get_request, muse_cpy_request, size_t_to_int,
}

-- Four bytes among the first `n` of a structure.
pub part-Same :
    (n i : ℕ) (o o' : Object)
    → Same n o o'
    → i + 4 ≤ n
    → n ≤ length o.image
    → take 4 (drop i o'.image) ≡ take 4 (drop i o.image)
part-Same n i o o' s h l =
    sym (take-drop-take i n 4 o'.image [] h (omega (arith, s.size)))
    ∙ ap (λ t. take 4 (drop i (t ++ []))) s.bytes
    ∙ take-drop-take i n 4 o.image [] h l

pub field-Same :
    (n i : ℕ) (o o' : Object)
    → Same n o o'
    → i + 4 ≤ n
    → n ≤ length o.image
    → field_at o' i ≡ field_at o i
field-Same n i o o' s h l = ap unle (part-Same n i o o' s h l)

-- What is made of the first two fields of a structure that has arrived.
two_fields :
    (n : ℕ) (o o' : Object) (x y : ℕ) (f : ℕ → ℕ → Round)
    → Same n o o'
    → 8 ≤ n
    → n ≤ length o.image
    → field_at o 0 ≡ x
    → field_at o 4 ≡ y
    → f (field_at o' 0) (field_at o' 4) ≡ f x y
two_fields n o o' x y f s h l e e' =
    ap (λ i. f i (field_at o' 4)) (field-Same n 0 o o' s (omega (arith, h)) l ∙ e)
    ∙ ap (f x) (field-Same n 4 o o' s (omega (arith, h)) l ∙ e')

-- A message whose code comes first goes to its case.
serve-code :
    (c : Commons) (e : Environment) (held : Bytes) (m : Muse) (p : Protocol) (body : Bytes)
    → serve c e held m (le 4 (code p) ++ body) ≡ dispatch_message c e m (some p) body
unfolding serve
serve-code c e held m p body =
    ap (λ n. dispatch_message c e m (selected n) body) (unle-le (code p) (code-lt p))
    ∙ ap (λ o. dispatch_message c e m o body) (selected-code p)

-- A request that is received goes to its handler.
receive-Delivered :
    (c : Commons) (e : Environment) (n : ℕ) (p : Protocol) (o : Object) (more : Bytes)
    (k : Object → Bytes → Round) (d : Delivered c e.alloc n p o more)
    → receive c e p (d.body ++ more) k ≡ k d.object more
receive-Delivered c e n p o more k d = ap (λ i. with_message i k) d.arrives

-- The bytes of a request, and what the server does with them and those behind them.
pub record Handles (c : Commons) (e : Environment) (held : Bytes) (m : Muse)
    (request : Option Bytes) (more : Bytes) (result : Round) : Type 0 where
  pub bytes : Bytes
  pub sends : request ≡ some bytes
  pub runs : serve c e held m (bytes ++ more) ≡ result

handles :
    (c : Commons) (e : Environment) (held : Bytes) (m : Muse) (n : ℕ) (p : Protocol) (o : Object)
    (more : Bytes) (k : Object → Bytes → Round) (result : Round)
    (d : Delivered c e.alloc n p o more)
    → ((input : Bytes) → dispatch_message c e m (some p) input ≡ receive c e p input k)
    → k d.object more ≡ result
    → Handles c e held m (utils_serialize_and_send p o) more result
handles c e held m n p o more k result d s r = record {
  bytes = le 4 (code p) ++ d.body;
  sends = d.sends;
  runs =
      ap (serve c e held m) (append_assoc (le 4 (code p)) d.body more)
      ∙ serve-code c e held m p (d.body ++ more)
      ∙ s (d.body ++ more)
      ∙ receive-Delivered c e n p o more k d
      ∙ r;
}

-- A call of the library, with its arguments: the size of a copy is that of its content.
pub data Call : Type 0 where
  call_alloc : (tam : ℕ) → Call
  call_free : (dir : ℕ) → Call
  call_get : (src n : ℕ) → Call
  call_cpy : (padding address dst : ℕ) (src : Bytes) → Call

abbrev pub request_of : ℕ → Call → Option Bytes
request_of pid (call_alloc tam) = muse_alloc_request pid tam
request_of pid (call_free dir) = muse_free_request pid dir
request_of pid (call_get src n) = muse_get_request pid src n
request_of pid (call_cpy padding address dst src) =
    muse_cpy_request pid padding address src dst (length src)

-- Addresses and sizes have 32 bits, and a copy leaves room in an `int` for the sizes in its package.
abbrev pub InRange : Call → Type 0
InRange (call_alloc tam) = tam < 4294967296
InRange (call_free dir) = dir < 4294967296
InRange (call_get src n) = src < 4294967296
InRange (call_cpy padding address dst src) = (dst < 4294967296) × (length src < 2147483620)

-- The handler of a call, with the arguments of the call and the id of the caller.
abbrev pub handled_call : Commons → Environment → Muse → ℕ → Call → Bytes → Round
handled_call c e m pid (call_alloc tam) more =
    allocated_round (handle_malloc c e.recorer e.page_size m tam pid) more
handled_call c e m pid (call_free dir) more =
    freed_round (handle_memfree c e.usable e.fuel e.base m dir pid) more
handled_call c e m pid (call_get src n) more = handled_round (handle_get c m e.padding src pid) more
handled_call c e m pid (call_cpy padding address dst src) more =
    handled_round (handle_copy c e.behind m dst pid (length src) src) more

pub serve-handled_call :
    {c : Commons} (e : Environment) (held : Bytes) (m : Muse) (pid : ℕ) (call : Call) (more : Bytes)
    → Documented c
    → Allocates e.alloc
    → pid < 4294967296
    → InRange call
    → Handles c e held m (request_of pid call) more (handled_call c e m pid call more)
unfolding muse_alloc_request muse_free_request muse_get_request muse_cpy_request dispatch_message
serve-handled_call {c} e held m pid (call_alloc tam) more d a p r =
    let sent = utils_receive_and_deserialize-serialize more (allocate tam pid) d a tt in
    handles c e held m 8 malloc (t_malloc tam pid) more _ _ sent (λ input. refl)
      (two_fields 8 (t_malloc tam pid) sent.object tam pid
        (λ x y. allocated_round (handle_malloc c e.recorer e.page_size m x y) more) sent.same
        (omega arith) (omega arith) (unle-le tam r) (unle-le pid p))
serve-handled_call {c} e held m pid (call_free dir) more d a p r =
    let sent = utils_receive_and_deserialize-serialize more (release dir pid) d a tt in
    handles c e held m 8 memfree (t_free dir pid) more _ _ sent (λ input. refl)
      (two_fields 8 (t_free dir pid) sent.object dir pid
        (λ x y. freed_round (handle_memfree c e.usable e.fuel e.base m x y) more) sent.same
        (omega arith) (omega arith) (unle-le dir r) (unle-le pid p))
serve-handled_call {c} e held m pid (call_get src n) more d a p r =
    let o = t_get src pid (size_t_to_int n) in
    let sent =
      utils_receive_and_deserialize-serialize more (fetch src pid (size_t_to_int n)) d a tt in
    handles c e held m 12 get o more _ _ sent (λ input. refl)
      (two_fields 12 o sent.object src pid
        (λ x y. handled_round (handle_get c m e.padding x y) more) sent.same (omega arith)
        (omega arith) (unle-le src r) (unle-le pid p))
serve-handled_call {c} e held m pid (call_cpy padding address dst src) more d a p r =
    let o = t_copy dst pid (length src) padding address src in
    let sent =
      utils_receive_and_deserialize-serialize more (place dst pid padding address src) d a r.1 in
    let size : field_at sent.object 8 ≡ length src =
      field-Same 12 8 o sent.object sent.same (omega arith) (omega arith)
      ∙ unle-le (length src) (omega (arith, r.1)) in
    handles c e held m 12 copy o more _ _ sent (λ input. refl)
      (two_fields 12 o sent.object dst pid
          (λ x y.
            handled_round
              (handle_copy c e.behind m x y (field_at sent.object 8) sent.object.pointee) more)
          sent.same (omega arith) (omega arith) (unle-le dst r.0) (unle-le pid p)
        ∙ ap (λ n. handled_round (handle_copy c e.behind m dst pid n sent.object.pointee) more) size
        ∙ ap (λ t. handled_round (handle_copy c e.behind m dst pid (length src) t) more)
            sent.same.pointed)
