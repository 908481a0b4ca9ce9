-- ===== src/Sac/Examples.antt =====
-- Runs of the file system server, and its theorems on them: a table with the directory /home.
use threaders.Base.{
  ℕ, zero, suc, ◌≡◌, ◌≢◌, refl, some, List, [], ◌∷◌, ◌++◌, arith, ◌==◌, if◌then◌else◌, inl, inr,
  Bool-cases, sym, ◌∙◌, subst, ◌⊎◌,
}
use threaders.Sac.Paths.{Text, slash, split_path, lastchar, after_last_slash}
use threaders.Sac.Nodes.{
  SFile, Table, directory_t, no_block, block, determinar_nodo, search_node, father_of, find_node,
  text_eq, scan, matches, strcmp_field,
}
use threaders.Sac.Nodes.Resolve.{AllNames, front, directory, resolve, determinar_nodo-resolve}
use threaders.Sac.Nodes.Added.{GoodNode, WellFormed}
use threaders.Sac.Nodes.Create.{
  Created, MadeOf, sac_create_directory-made, sac_create_directory-found,
}
use threaders.Commons.{reference}
use threaders.Sac.Connection.{handle_connection}
use threaders.Sac.Connection.Ends.{Left, handle_connection-Left}
use threaders.Sac.Read.{default_file_path}
use threaders.Sac.Read.Agree.{sac_getattr-sac_open, IsDirectory, IsFile, IsMissing}

abbrev zeros : ℕ → List ℕ
zeros zero = []
zeros (suc n) = 0 ∷ zeros n

abbrev home : Text
home = 104 ∷ 111 ∷ 109 ∷ 101 ∷ []

abbrev user : Text
user = 117 ∷ []

abbrev home_node : SFile
home_node = record {
  state = directory_t;
  file_name = home ++ zeros 67;
  parent_dir_block = 0;
  file_size = 0;
  creation_date = 0;
  modified_date = 0;
  block_indirect = [];
}

abbrev deleted_node : SFile
deleted_node = record home_node { state = 0; file_name = zeros 71 }

abbrev table : Table
table a = if a == 0 then home_node else deleted_node

table-WellFormed : WellFormed table
table-WellFormed a = elim (Bool-cases (a == 0)) [
  | inl t ↦
      let here : table a ≡ home_node = ground arith in
      subst GoodNode (sym here) (refl, λ h. omega arith)
  | inr f ↦
      let here : table a ≡ deleted_node = ground arith in
      subst GoodNode (sym here) (refl, λ h. omega arith)
]

-- "/home" is found in block 1, "/home/u" is not found.
home_found : determinar_nodo table (front (home ∷ [])) ≡ block 1
unfolding determinar_nodo find_node split_path lastchar after_last_slash text_eq search_node scan
    matches strcmp_field
home_found = refl

user_missing : determinar_nodo table (front (user ∷ home ∷ [])) ≡ block no_block
unfolding determinar_nodo find_node split_path lastchar after_last_slash text_eq search_node scan
    matches strcmp_field
user_missing = refl

split_path_run : split_path (directory (user ∷ home ∷ [])) ≡ some (directory (home ∷ []), user)
unfolding split_path lastchar after_last_slash
split_path_run = refl

abbrev letter : 117 ≢ slash
letter e = absurd (omega arith)

abbrev home_names : AllNames (home ∷ [])
home_names = (
  ((λ e. omega arith), ((λ e. omega arith), ((λ e. omega arith), ((λ e. omega arith), tt)))),
  (((λ e. omega arith), ((λ e. omega arith), ((λ e. omega arith), ((λ e. omega arith), tt)))), tt),
)

abbrev user_names : AllNames (user ∷ home ∷ [])
user_names = (((λ e. omega arith), tt), (((λ e. omega arith), tt), home_names))

determinar_nodo-resolve_example :
    (determinar_nodo table (front (home ∷ [])) ≡ block (resolve table (home ∷ [])))
    × (determinar_nodo table (directory (home ∷ [])) ≡ block (resolve table (home ∷ [])))
determinar_nodo-resolve_example = determinar_nodo-resolve table home [] home_names

sac_create_directory-made_example : MadeOf table user (home ∷ [])
sac_create_directory-made_example =
    sac_create_directory-made table user (home ∷ []) table-WellFormed user_names

home_there : father_of table (directory (home ∷ [])) ≢ block no_block
unfolding text_eq determinar_nodo find_node split_path lastchar after_last_slash search_node scan
    matches strcmp_field
home_there e = absurd (cc e)

home_kept : determinar_nodo table (front (home ∷ [])) ≢ block no_block
home_kept e = let one : block 1 ≡ block no_block = sym home_found ∙ e in absurd (cc one)

sac_create_directory-found_example : Created table user (home ∷ []) (front (home ∷ []))
sac_create_directory-found_example =
    sac_create_directory-found table user (home ∷ []) 1 home [] table-WellFormed user_names
      (omega arith) user_missing home_there (omega arith) refl home_names home_kept

sac_getattr-sac_open_example :
    IsDirectory default_file_path 0 5 6
    ⊎ (IsFile default_file_path 0 5 6 ⊎ IsMissing default_file_path 0 5 6)
sac_getattr-sac_open_example = sac_getattr-sac_open default_file_path 0 5 6 (omega arith)

-- A code that no case has, and a READ that ends within its package.
handle_connection-Left_example :
    Left (handle_connection reference (λ n. []) 9 [] (1 ∷ 0 ∷ 0 ∷ 0 ∷ 18 ∷ 0 ∷ 0 ∷ 0 ∷ 7 ∷ []))
handle_connection-Left_example =
    handle_connection-Left reference (λ n. []) 9 [] (1 ∷ 0 ∷ 0 ∷ 0 ∷ 18 ∷ 0 ∷ 0 ∷ 0 ∷ 7 ∷ [])
      (omega arith)
