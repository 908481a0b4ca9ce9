-- ===== src/Wire/Protocol.antt =====
-- shared-common/common/protocols.h: the message codes, and the byte images of the structures.
use threaders.Base.{
  ℕ, ◌<◌, ◌≡◌, refl, Option, none, some, List, [], ◌∷◌, ◌++◌, arith, ◌==◌, take, drop,
  if◌then◌else◌,
}
use threaders.Wire.Bytes.{Bytes, le, unle}

pub data Protocol : Type 0 where
  handshake malloc memfree copy get map unmap sync malloc_ok free_response get_ok : Protocol
  copy_response map_ok unmap_ok sync_ok seg_fault get_attr read_dir read open_file : Protocol
  mk_dir create_dir write rm_dir : Protocol

-- The enumerators count from 0.
unfoldable pub code : Protocol → ℕ
code handshake = 0
code malloc = 1
code memfree = 2
code copy = 3
code get = 4
code map = 5
code unmap = 6
code sync = 7
code malloc_ok = 8
code free_response = 9
code get_ok = 10
code copy_response = 11
code map_ok = 12
code unmap_ok = 13
code sync_ok = 14
code seg_fault = 15
code get_attr = 16
code read_dir = 17
code read = 18
code open_file = 19
code mk_dir = 20
code create_dir = 21
code write = 22
code rm_dir = 23

-- A structure in memory: its bytes, and the bytes that its one pointer points to.
pub record Object : Type 0 where
  pub image : Bytes
  pub pointee : Bytes

-- The four bytes of a structure at offset `i`, as a number.
abbrev pub field_at : Object → ℕ → ℕ
field_at o i = unle (take 4 (drop i o.image))

abbrev pub t_malloc : ℕ → ℕ → Object
t_malloc tam id_libmuse = record { image = le 4 tam ++ le 4 id_libmuse; pointee = [] }

abbrev pub t_free : ℕ → ℕ → Object
t_free dir self_id = record { image = le 4 dir ++ le 4 self_id; pointee = [] }

abbrev pub t_get : ℕ → ℕ → ℕ → Object
t_get src id_libmuse size = record {
  image = le 4 src ++ (le 4 id_libmuse ++ le 4 size);
  pointee = [];
}

-- Four bytes of padding stand before the pointer.
abbrev pub t_copy : ℕ → ℕ → ℕ → ℕ → ℕ → Bytes → Object
t_copy dst self_id size padding address content = record {
  image = le 4 dst ++ (le 4 self_id ++ (le 4 size ++ (le 4 padding ++ le 8 address)));
  pointee = content;
}

abbrev pub t_malloc_ok : ℕ → Object
t_malloc_ok ptr = record { image = le 4 ptr; pointee = [] }

abbrev pub t_free_response : ℕ → Object
t_free_response res = record { image = le 4 res; pointee = [] }

abbrev pub t_get_ok : ℕ → ℕ → ℕ → Object
t_get_ok res tamres padding = record {
  image = le 8 res ++ (le 4 tamres ++ le 4 padding);
  pointee = [];
}

abbrev pub t_copy_response : ℕ → Object
t_copy_response res = record { image = le 4 res; pointee = [] }

-- t_read_dir, t_read, t_open, t_get_attr, t_create_directory, t_write, t_rm_directory and
-- t_mk_directory have this layout: the pointer, the id, four bytes of padding.
abbrev pub t_path : ℕ → ℕ → ℕ → Bytes → Object
t_path address id_sac_cli padding pathname = record {
  image = le 8 address ++ (le 4 id_sac_cli ++ le 4 padding);
  pointee = pathname;
}

abbrev pub protocols : List Protocol
protocols =
    handshake ∷ malloc ∷ memfree ∷ copy ∷ get ∷ map ∷ unmap ∷ sync ∷ malloc_ok ∷ free_response
    ∷ get_ok ∷ copy_response ∷ map_ok ∷ unmap_ok ∷ sync_ok ∷ seg_fault ∷ get_attr ∷ read_dir ∷ read
    ∷ open_file ∷ mk_dir ∷ create_dir ∷ write ∷ rm_dir ∷ []

abbrev pub with_code : ℕ → List Protocol → Option Protocol
with_code n [] = none
with_code n (p ∷ ps) = if code p == n then some p else with_code n ps

-- The case of a switch that a code selects, if there is one of that name.
unfoldable pub selected : ℕ → Option Protocol
selected n = with_code n protocols

pub selected-code : (p : Protocol) → selected (code p) ≡ some p
unfolding selected code
selected-code handshake = refl
selected-code malloc = refl
selected-code memfree = refl
selected-code copy = refl
selected-code get = refl
selected-code map = refl
selected-code unmap = refl
selected-code sync = refl
selected-code malloc_ok = refl
selected-code free_response = refl
selected-code get_ok = refl
selected-code copy_response = refl
selected-code map_ok = refl
selected-code unmap_ok = refl
selected-code sync_ok = refl
selected-code seg_fault = refl
selected-code get_attr = refl
selected-code read_dir = refl
selected-code read = refl
selected-code open_file = refl
selected-code mk_dir = refl
selected-code create_dir = refl
selected-code write = refl
selected-code rm_dir = refl

pub code-lt : (p : Protocol) → code p < 4294967296
unfolding code
code-lt handshake = omega arith
code-lt malloc = omega arith
code-lt memfree = omega arith
code-lt copy = omega arith
code-lt get = omega arith
code-lt map = omega arith
code-lt unmap = omega arith
code-lt sync = omega arith
code-lt malloc_ok = omega arith
code-lt free_response = omega arith
code-lt get_ok = omega arith
code-lt copy_response = omega arith
code-lt map_ok = omega arith
code-lt unmap_ok = omega arith
code-lt sync_ok = omega arith
code-lt seg_fault = omega arith
code-lt get_attr = omega arith
code-lt read_dir = omega arith
code-lt read = omega arith
code-lt open_file = omega arith
code-lt mk_dir = omega arith
code-lt create_dir = omega arith
code-lt write = omega arith
code-lt rm_dir = omega arith
