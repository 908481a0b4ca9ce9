-- ===== src/Muse/Access/Answers.antt =====
-- What the handler of GET of muse/src/muse.c sends.
use threaders.Base.{ℕ, suc, ◌≡◌, arith, ap, ◌∙◌}
use threaders.Commons.{Commons, Documented}
use threaders.Wire.Bytes.{slice}
use threaders.Muse.{Muse, procesar_id}
use threaders.Muse.Users.{procesar_id-Known, procesar_id-memoria}
use threaders.Muse.Access.{send_got, get_from, handle_get}

-- With the list operations as documented, a GET is never refused: its process is known when it is
-- looked up, and the answer has the eight bytes at the address that it names, if they are in the
-- memory.
pub handle_get-send_got :
    {c : Commons}
    → Documented c
    → (m : Muse) (padding src id_libmuse : ℕ)
    → handle_get c m padding src id_libmuse
      ≡ send_got (procesar_id c m id_libmuse).0 padding (slice src 8 m.memoria)
unfolding handle_get
handle_get-send_got {c} d m padding src id_libmuse =
    let known = (procesar_id c m id_libmuse).0 in
    let k = procesar_id-Known d m id_libmuse (suc id_libmuse) (λ e. omega arith) in
    ap (get_from known padding src) k.1
    ∙ ap (λ x. send_got known padding (slice src 8 x)) (procesar_id-memoria c m id_libmuse)
