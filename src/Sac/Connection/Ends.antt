-- ===== src/Sac/Connection/Ends.antt =====
-- How handle_connection of sac_server/src/sac_server.c ends.
use threaders.Base.{
  ℕ, zero, suc, ◌≤◌, ◌<◌, ◌≡◌, refl, true, Option, none, some, List, [], ◌∷◌, ◌++◌, arith, sym, ap,
  ◌∙◌, length, take, drop, subst, inl, inr, Bool-cases,
}
use threaders.Commons.{Commons, Documented, for_documented}
use threaders.Wire.Bytes.{Bytes, le, unle, unle-le}
use threaders.Wire.Protocol.{
  Protocol, code, selected, selected-code, code-lt, read_dir, get_attr, read, open_file, mk_dir,
  create_dir, write, rm_dir,
}
use threaders.Wire.Package.{
  Received, received, closed, overread, out_of_fuel, utils_receive_package, frame, int_limit,
  utils_receive_package-frame,
}
use threaders.Wire.Package.Ends.{Ended, utils_receive_package-Ended}
use threaders.Wire.Message.Fill.{length-drop}
use threaders.Wire.Message.Unset.{has_path, has_path-fault_in}
use threaders.Wire.Message.{fault_in, with_values, utils_receive_and_deserialize}
use threaders.Sac.Connection.{
  Connection, crashed, serving, has_case, logged, in_case, handle_code, handle_connection,
}

-- The loop is left.
abbrev pub Left : Connection → Type 0
Left serving = ⊥
Left _ = Unit {0}

has_case-has_path : (p : Protocol) → has_case p ≡ true → has_path p ≡ true
has_case-has_path read_dir h = refl
has_case-has_path get_attr h = refl
has_case-has_path read h = refl
has_case-has_path open_file h = refl
has_case-has_path mk_dir h = refl
has_case-has_path create_dir h = refl
has_case-has_path write h = refl
has_case-has_path rm_dir h = refl
has_case-has_path _ h = absurd (cc h)

logged_values-Left :
    (r : Received (List Bytes)) (k : Bytes → Connection)
    → Ended r
    → Left (logged (with_values r (λ vs rest. fault_in)) k)
logged_values-Left (received vs rest) k e = tt
logged_values-Left closed k e = tt
logged_values-Left overread k e = tt
logged_values-Left out_of_fuel k e = e

handle_code-Left :
    (c : Commons) (alloc : ℕ → Bytes) (o : Option Protocol) (rest : Bytes) (k : Bytes → Connection)
    → Left (k rest)
    → Left (handle_code c alloc o rest k)
handle_code-Left c alloc none rest k h = h
handle_code-Left c alloc (some p) rest k h = elim (Bool-cases (has_case p)) [
  | inl t ↦
      subst Left
        (sym (
          ap (λ b. in_case c alloc b p rest k) t
          ∙ ap (λ i. logged i k) (has_path-fault_in c alloc p rest (has_case-has_path p t))))
        (logged_values-Left (utils_receive_package c rest) k (utils_receive_package-Ended c rest))
  | inr f ↦ subst (λ b. Left (in_case c alloc b p rest k)) (sym f) h
]

-- With fuel for as many rounds as there are bytes of input, the loop of handle_connection is left: at the end of the
-- connection, within a message, or by an access outside an object.
pub handle_connection-Left :
    (c : Commons) (alloc : ℕ → Bytes) (n : ℕ) (held input : Bytes)
    → length input ≤ n
    → Left (handle_connection c alloc n held input)
unfolding handle_connection
handle_connection-Left c alloc n held [] h = tt
handle_connection-Left c alloc zero held (b ∷ input) h = absurd (omega arith)
handle_connection-Left c alloc (suc n) held (b ∷ input) h =
    let protocol = take 4 ((b ∷ input) ++ drop (length (b ∷ input)) held) in
    handle_code-Left c alloc (selected (unle protocol)) (drop 4 (b ∷ input))
      (handle_connection c alloc n protocol)
      (handle_connection-Left c alloc n protocol (drop 4 (b ∷ input))
        (omega (arith, length-drop 4 (b ∷ input))))

-- What is read as a code when it comes first.
code_first :
    (c : Commons) (alloc : ℕ → Bytes) (n : ℕ) (held body : Bytes) (p : Protocol)
    → has_case p ≡ true
    → handle_connection c alloc (suc n) held (le 4 (code p) ++ body)
      ≡ logged
          (utils_receive_and_deserialize c alloc p body)
          (handle_connection c alloc n (le 4 (code p)))
unfolding handle_connection
code_first c alloc n held body p h =
    let next = handle_connection c alloc n (le 4 (code p)) in
    ap (λ k. handle_code c alloc (selected k) body next) (unle-le (code p) (code-lt p))
    ∙ ap (λ o. handle_code c alloc o body next) (selected-code p)
    ∙ ap (λ b. in_case c alloc b p body next) h

-- A request of the file system, whatever values it holds, that has come in completely as the first one: the
-- server does not survive it.
pub handle_connection-crashed :
    {c : Commons} (alloc : ℕ → Bytes) (n : ℕ) (held : Bytes) (p : Protocol) (vs : List Bytes)
    (more : Bytes)
    → Documented c
    → has_case p ≡ true
    → length (frame vs) < int_limit
    → handle_connection c alloc
        (suc n)
        held
        (le 4 (code p) ++ (le 4 (length (frame vs)) ++ (frame vs ++ more)))
      ≡ crashed
handle_connection-crashed {c} alloc n held p vs more d h small =
    let body = le 4 (length (frame vs)) ++ (frame vs ++ more) in
    let read : utils_receive_package c body ≡ received vs more =
      for_documented (λ c. utils_receive_package c body ≡ received vs more) d
        (utils_receive_package-frame vs more small) in
    let next = handle_connection c alloc n (le 4 (code p)) in
    code_first c alloc n held body p h
    ∙ ap (λ i. logged i next) (has_path-fault_in c alloc p body (has_case-has_path p h))
    ∙ ap (λ r. logged (with_values r (λ vs rest. fault_in)) next) read
