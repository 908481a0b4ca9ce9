-- ===== src/Sac/Nodes/Branches.antt =====
-- The branches of sac_create_directory of sac_server/src/sac_write.c, for the blocks of the path and of its directory.
use threaders.Base.{
  ℕ, ◌≤◌, ◌≡◌, refl, not, ◌⊎◌, Option, none, some, List, [], ◌∷◌, arith, ap, ◌∙◌, length, ◌==◌, ltb,
  if◌then◌else◌, inl, inr, Bool-cases, pos,
}
use threaders.Sac.Paths.{Text, split_path}
use threaders.Sac.Nodes.Fields.{strcpy_field-some, strcpy_field-none}
use threaders.Sac.Nodes.Resolve.{
  AllNames, front, directory, resolve, text_eq-length, split_path-names, length-front,
  length-directory, determinar_nodo-resolve,
}
use threaders.Sac.Nodes.{
  Table, text_eq, root, strcpy_field, block, determinar_nodo, node_table_size, sac_file_name_length,
  no_block, free_node, Made, returns, crashed, eexist, enoent, edquot, write_node, fill_node,
  under_father, father_of, create_in, create_unless, sac_create_directory,
}
use threaders.Sac.Nodes.Added.{WellFormed, added, resolve-cases}

pub father_of-resolve :
    (table : Table) (up : List Text)
    → AllNames up
    → father_of table (directory up) ≡ block (resolve table up)
unfolding text_eq
father_of-resolve table [] h = refl
father_of-resolve table (name ∷ up) h =
    ap (λ b. if b then block 0 else determinar_nodo table (directory (name ∷ up)))
      (text_eq-length (directory (name ∷ up)) root
        (omega (arith, length-directory (name ∷ up), length-front name up h.0)))
    ∙ (determinar_nodo-resolve table name up h).1

-- What the call is to do with a path of `name` in the directory `up`.
abbrev pub made_in : Table → ℕ → Text → Option ℕ → Made
made_in table father name none = returns edquot table
made_in table father name (some k) =
    if ltb (length name) sac_file_name_length
    then returns (pos 0) (added table k father name)
    else crashed

-- The path is that of block `b`, its directory of block `p`, and `free` a node to take.
abbrev pub made_as : Table → Text → ℕ → ℕ → Option ℕ → Made
made_as table name b p free =
    if not (b == no_block)
    then returns eexist table
    else if p == no_block
    then returns enoent table
    else made_in table p name free

abbrev pub made : Table → Text → List Text → Made
made table name up =
    made_as table name (resolve table (name ∷ up)) (resolve table up) (free_node table)

write_node-made :
    (table : Table) (father k : ℕ) (name : Text)
    → WellFormed table
    → write_node table father k (strcpy_field name (table k).file_name)
      ≡ made_in table father name (some k)
write_node-made table father k name w = elim (Bool-cases (ltb (length name) sac_file_name_length)) [
  | inl fits ↦
      ap (write_node table father k)
        (strcpy_field-some name (table k).file_name (ground (arith, (w k).0))).0
      ∙ ground arith
  | inr long ↦
      ap (write_node table father k)
        (strcpy_field-none name (table k).file_name (ground (arith, (w k).0)))
      ∙ ground arith
]

fill_node-made :
    (table : Table) (father : ℕ) (name : Text) (o : Option ℕ)
    → WellFormed table
    → fill_node table father name o ≡ made_in table father name o
fill_node-made table father name none w = refl
fill_node-made table father name (some k) w = write_node-made table father k name w

under_father-made :
    (table : Table) (name : Text) (father : ℕ)
    → WellFormed table
    → (father ≡ no_block) ⊎ (father ≤ node_table_size)
    → under_father table name (block father) ≡ (
        if father == no_block
        then returns enoent table
        else made_in table father name (free_node table))
under_father-made table name father w (inl e) = ground arith
under_father-made table name father w (inr l) =
    ground (arith, fill_node-made table father name (free_node table) w)

create_unless-made :
    (table : Table) (path name : Text) (up : List Text)
    → WellFormed table
    → AllNames (name ∷ up)
    → split_path path ≡ some (directory up, name)
    → create_unless table path (block (resolve table (name ∷ up))) ≡ made table name up
create_unless-made table path name up w h s =
    let inside : create_in table (split_path path) ≡ (
        if resolve table up == no_block
        then returns enoent table
        else made_in table (resolve table up) name (free_node table)) =
      ap (create_in table) s
      ∙ ap (under_father table name) (father_of-resolve table up h.1.1)
      ∙ under_father-made table name (resolve table up) w (resolve-cases table up) in
    ground (arith, inside)

pub create_directory-made :
    (table : Table) (name : Text) (up : List Text)
    → WellFormed table
    → AllNames (name ∷ up)
    → (sac_create_directory table (front (name ∷ up)) ≡ made table name up)
      × (sac_create_directory table (directory (name ∷ up)) ≡ made table name up)
unfolding sac_create_directory
create_directory-made table name up w h =
    let split = split_path-names name up h.0 in
    let found = determinar_nodo-resolve table name up h in
    (
      ap (create_unless table (front (name ∷ up))) found.0
          ∙ create_unless-made table (front (name ∷ up)) name up w h split.0,
      ap (create_unless table (directory (name ∷ up))) found.1
          ∙ create_unless-made table (directory (name ∷ up)) name up w h split.1,
    )
