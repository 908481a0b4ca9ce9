-- ===== src/Sac/Nodes.antt =====
-- The table of nodes of sac_server/src: determinar_nodo (sac_operate.c) and sac_create_directory
-- (sac_write.c). The table is mapped memory, so it goes on behind its 1024 nodes.
pub mod Fields
pub mod Scan
pub mod Resolve
pub mod Added
pub mod Lookup
pub mod Branches
pub mod Create
use threaders.Base.{
  ℕ, zero, suc, ◌+◌, ◌-◌, Bool, true, false, not, ◌&&◌, Option, none, some, List, [], ◌∷◌, ◌++◌,
  length, drop, ◌==◌, ltb, leb, if◌then◌else◌, ℤ, pos, negsuc,
}
use threaders.Sac.Paths.{Text, slash, split_path}

-- `state` is 0 for a deleted node, 1 for a file, 2 for a directory; `file_name` has 71 bytes.
pub record SFile : Type 0 where
  pub state : ℕ
  pub file_name : List ℕ
  pub parent_dir_block : ℕ
  pub file_size : ℕ
  pub creation_date : ℕ
  pub modified_date : ℕ
  pub block_indirect : List ℕ

abbrev pub Table : Type 0
Table = ℕ → SFile

abbrev pub node_table_size : ℕ
node_table_size = 1024

abbrev pub sac_file_name_length : ℕ
sac_file_name_length = 71

abbrev pub directory_t : ℕ
directory_t = 2

-- (uint32_t) -1
abbrev pub no_block : ℕ
no_block = 4294967295

-- strcmp(path, other) == 0, for two texts.
unfoldable pub text_eq : Text → Text → Bool
text_eq [] [] = true
text_eq [] (b ∷ t) = false
text_eq (a ∷ s) [] = false
text_eq (a ∷ s) (b ∷ t) = a == b && text_eq s t

-- strcmp(text, field) == 0, for a field that holds a text and its final zero.
unfoldable pub strcmp_field : Text → List ℕ → Bool
strcmp_field t [] = false
strcmp_field [] (b ∷ m) = b == 0
strcmp_field (a ∷ t) (b ∷ m) = a == b && strcmp_field t m

-- The negation of the test of the loop in determinar_nodo.
unfoldable pub matches : Table → ℕ → Text → ℕ → Bool
matches table parent name i =
    (table i).parent_dir_block == parent
    && (strcmp_field name (table i).file_name && not ((table i).state == 0))

-- The first index, of `n` from `i` on, at which the test holds.
unfoldable pub scan : ℕ → ℕ → (ℕ → Bool) → Option ℕ
scan zero i f = none
scan (suc n) i f = elim (f i) [ true ↦ some i | false ↦ scan n (i + 1) f ]

abbrev pub block_of : Option ℕ → ℕ
block_of none = no_block
block_of (some i) = i + 1

unfoldable pub search_node : Table → ℕ → Text → ℕ
search_node table parent name = block_of (scan node_table_size 0 (matches table parent name))

pub data Found : Type 0 where
  block : ℕ → Found
  null_name : Found
  out_of_fuel : Found

abbrev pub in_parent : Table → Text → Found → Found
in_parent table name (block p) = block (search_node table p name)
in_parent table name null_name = null_name
in_parent table name out_of_fuel = out_of_fuel

abbrev pub in_split : Table → Option (Text × Text) → (Text → Found) → Found
in_split table none rec = null_name
in_split table (some (super, name)) rec = in_parent table name (rec super)

abbrev pub root : Text
root = slash ∷ []

-- determinar_nodo on fuel, for its calls of itself.
unfoldable pub find_node : ℕ → Table → Text → Found
find_node zero table path = out_of_fuel
find_node (suc n) table path =
    let below = in_split table (split_path path) (find_node n table) in
    if text_eq path root then block 0 else below

-- Each call is for a shorter path.
unfoldable pub determinar_nodo : Table → Text → Found
determinar_nodo table path = find_node (length path) table path

-- `for (i = 0; (node->state != 0) & (i <= NODE_TABLE_SIZE); i++) node = &(node_table_start[i]);`
unfoldable pub free_loop : ℕ → Table → ℕ → ℕ → ℕ × ℕ
free_loop zero table i node = (i, node)
free_loop (suc n) table i node =
    let rest = free_loop n table (i + 1) i in
    if not ((table node).state == 0) && leb i node_table_size then rest else (i, node)

-- The free node that the loop stops at, unless it ran over the table.
unfoldable pub free_node : Table → Option ℕ
free_node table =
    let r = free_loop (node_table_size + 2) table 0 0 in
    if ltb node_table_size r.0 then none else some r.1

-- strcpy into a field; `none` when text and final zero are longer than it.
unfoldable pub strcpy_field : Text → List ℕ → Option (List ℕ)
strcpy_field t m =
    if leb (length t + 1) (length m) then some (t ++ 0 ∷ drop (length t + 1) m) else none

-- A return code with the table that the call leaves, or a crash.
pub data Made : Type 0 where
  returns : ℤ → Table → Made
  crashed : Made

-- -EEXIST, -ENOENT, -EDQUOT
abbrev pub eexist : ℤ
eexist = negsuc 16

abbrev pub enoent : ℤ
enoent = negsuc 1

abbrev pub edquot : ℤ
edquot = negsuc 121

abbrev pub put_node : Table → ℕ → SFile → Table
put_node table k node a = if a == k then node else table a

abbrev pub write_node : Table → ℕ → ℕ → Option (List ℕ) → Made
write_node table father k none = crashed
write_node table father k (some field) = returns (pos 0) (
    put_node table k (record (table k) {
      state = directory_t;
      file_name = field;
      file_size = 0;
      parent_dir_block = father;
    }))

abbrev pub fill_node : Table → ℕ → Text → Option ℕ → Made
fill_node table father name none = returns edquot table
fill_node table father name (some k) =
    write_node table father k (strcpy_field name (table k).file_name)

-- `father_node` is an `int`, so that a block from 2^31 on is negative.
abbrev pub under_father : Table → Text → Found → Made
under_father table name (block father) =
    if leb 2147483648 father
    then returns enoent table
    else fill_node table father name (free_node table)
under_father table name null_name = crashed
under_father table name out_of_fuel = crashed

abbrev pub father_of : Table → Text → Found
father_of table dir_padre =
    if text_eq dir_padre root then block 0 else determinar_nodo table dir_padre

abbrev pub create_in : Table → Option (Text × Text) → Made
create_in table none = crashed
create_in table (some (dir_padre, nombre)) = under_father table nombre (father_of table dir_padre)

abbrev pub create_unless : Table → Text → Found → Made
create_unless table path (block b) =
    if b == no_block then create_in table (split_path path) else returns eexist table
create_unless table path null_name = crashed
create_unless table path out_of_fuel = crashed

unfoldable pub sac_create_directory : Table → Text → Made
sac_create_directory table path = create_unless table path (determinar_nodo table path)
