-- ===== src/SacCli/Fate.antt =====
-- What becomes of the calls of sac_cli/sac_cli.c in handle_connection of sac_server/src/sac_server.c.
use threaders.Base.{
  ℕ, suc, ◌%◌, ◌<◌, ◌≡◌, refl, true, some, List, [], ◌∷◌, ◌++◌, arith, sym, ap, ◌∙◌, length,
}
use mathlib.Core.List.{append_assoc}
use threaders.Commons.{Commons, Documented}
use threaders.Wire.Bytes.{Bytes, le, cstring}
use threaders.Wire.Protocol.{
  Protocol, code, Object, t_path, read_dir, read, open_file, get_attr, write, rm_dir,
}
use threaders.Wire.Package.{frame, int_limit}
use threaders.Wire.Message.{outgoing, values, utils_serialize_and_send}
use threaders.Wire.Message.Delivered.{sends-values}
use threaders.Sac.Connection.{Connection, crashed, has_case, handle_connection}
use threaders.Sac.Connection.Ends.{handle_connection-crashed}
use threaders.SacCli.{
  root_path, niconico_path, Call, Operation, getattr, readdir, open_op, read_op, mkdir, write_op,
  rmdir, sac_operations,
}

-- mkdir leaves the connection as it is.
abbrev pub fate : Operation → Connection → Connection
fate mkdir next = next
fate _ next = crashed

-- A call says that it has succeeded; and the server, when it gets its bytes.
pub record Fate (c : Commons) (alloc : ℕ → Bytes) (n : ℕ) (held : Bytes) (op : Operation)
    (call : Call) (more : Bytes) : Type 0 where
  pub result : call.0 ≡ 0
  pub bytes : Bytes
  pub sends : call.1 ≡ some bytes
  pub runs :
      handle_connection c alloc (suc n) held (bytes ++ more)
      ≡ fate op (handle_connection c alloc (suc n) held more)

module _ {c : Commons} (d : Documented c) (alloc : ℕ → Bytes) (n : ℕ) (held more : Bytes) where
  two_values :
      (op : Operation) (p : Protocol) (o : Object) (vs : List Bytes)
      → outgoing p o ≡ values vs
      → length (frame vs) < int_limit
      → has_case p ≡ true
      → fate op (handle_connection c alloc (suc n) held more) ≡ crashed
      → Fate c alloc n held op (0, utils_serialize_and_send p o) more
  two_values op p o vs e small h f = record {
    result = refl;
    bytes = le 4 (code p) ++ (le 4 (length (frame vs)) ++ frame vs);
    sends = sends-values p o vs e small;
    runs =
        ap (handle_connection c alloc (suc n) held) (
          append_assoc (le 4 (code p)) (le 4 (length (frame vs)) ++ frame vs) more
          ∙ ap (λ t. le 4 (code p) ++ t) (append_assoc (le 4 (length (frame vs))) (frame vs) more))
        ∙ handle_connection-crashed alloc n held p vs more d h small
        ∙ sym f;
  }

-- With the list operations as documented, every call of the file system's client returns 0, whatever path
-- it is given, and sends bytes that are in its structures. A server that gets those of mkdir goes on as before;
-- those of each other call, as its next request, it does not survive, whatever follows.
pub sac_operations-Fate :
    {c : Commons}
    → Documented c
    → (alloc : ℕ → Bytes) (n : ℕ) (held more : Bytes) (address padding mode : ℕ) (op : Operation)
      (path : Bytes)
    → Fate c alloc n held op (sac_operations address padding mode op path) more
unfolding sac_operations outgoing cstring
sac_operations-Fate d alloc n held more address padding mode getattr path =
    two_values d alloc n held more getattr get_attr (t_path address 1011 padding root_path)
      (le 4 1011 ∷ (address % 256 ∷ []) ∷ []) refl (omega arith) refl refl
sac_operations-Fate d alloc n held more address padding mode readdir path =
    two_values d alloc n held more readdir read_dir (t_path address 123 padding root_path)
      (le 4 123 ∷ (address % 256 ∷ []) ∷ []) refl (omega arith) refl refl
sac_operations-Fate d alloc n held more address padding mode open_op path =
    two_values d alloc n held more open_op open_file (t_path address 789 padding root_path)
      (le 4 789 ∷ (address % 256 ∷ []) ∷ []) refl (omega arith) refl refl
sac_operations-Fate d alloc n held more address padding mode read_op path =
    two_values d alloc n held more read_op read (t_path address 456 padding niconico_path)
      (le 4 456 ∷ niconico_path ∷ []) refl (omega arith) refl refl
sac_operations-Fate d alloc n held more address padding mode mkdir path = record {
  result = refl;
  bytes = [];
  sends = refl;
  runs = refl;
}
sac_operations-Fate d alloc n held more address padding mode write_op path =
    two_values d alloc n held more write_op write (t_path address 1112 padding root_path)
      (le 4 1112 ∷ (address % 256 ∷ []) ∷ []) refl (omega arith) refl refl
sac_operations-Fate d alloc n held more address padding mode rmdir path =
    two_values d alloc n held more rmdir rm_dir (t_path address 1314 padding root_path)
      (le 4 1314 ∷ (address % 256 ∷ []) ∷ []) refl (omega arith) refl refl
