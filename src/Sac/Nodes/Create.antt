-- ===== src/Sac/Nodes/Create.antt =====
-- sac_create_directory of sac_server/src/sac_write.c.
use threaders.Base.{
  ℕ, ◌+◌, ◌<◌, ◌≡◌, ◌≢◌, refl, Option, none, some, List, ◌∷◌, arith, sym, ap, ◌∙◌, length, pos,
}
use threaders.Sac.Paths.{Text}
use threaders.Sac.Nodes.Scan.{FirstFree, free_node-FirstFree}
use threaders.Sac.Nodes.Resolve.{AllNames, front, directory, resolve, determinar_nodo-resolve}
use threaders.Sac.Nodes.{
  Table, search_node, block, determinar_nodo, node_table_size, sac_file_name_length, no_block,
  free_node, returns, father_of, sac_create_directory,
}
use threaders.Sac.Nodes.Lookup.{FirstEntry, LeadsTo, search_node-FirstEntry, resolve-LeadsTo}
use threaders.Sac.Nodes.Added.{
  WellFormed, added, added-WellFormed, resolve-cases, resolve-kept, search_node-new,
}
use threaders.Sac.Nodes.Branches.{made_in, made_as, made, father_of-resolve, create_directory-made}

-- The call on the path with and without a slash behind it, for the blocks of the path and of its directory and the first
-- free node.
pub record MadeOf (table : Table) (name : Text) (up : List Text) : Type 0 where
  pub found : ℕ
  pub father : ℕ
  pub free : Option ℕ
  pub father_found : LeadsTo table up father
  pub entry : FirstEntry table father name found
  pub first : FirstFree table free
  pub front_run :
      sac_create_directory table (front (name ∷ up)) ≡ made_as table name found father free
  pub directory_run :
      sac_create_directory table (directory (name ∷ up)) ≡ made_as table name found father free

-- For a table that is well formed and names that are not empty and have no slash and no zero byte,
-- sac_create_directory does, on the path with or without a slash behind it: -EEXIST where the path is
-- found, looking for the first entry of each name in the directory before, else -ENOENT where its directory is not, else
-- -EDQUOT where no node of the table is free, all three with the table unchanged; else it makes a directory of the
-- first node that is free and returns 0, but for a name of more than 70 bytes it writes over the end of the node's field.
pub sac_create_directory-made :
    (table : Table) (name : Text) (up : List Text)
    → WellFormed table
    → AllNames (name ∷ up)
    → MadeOf table name up
sac_create_directory-made table name up w h =
    let runs = create_directory-made table name up w h in
    record {
      found = resolve table (name ∷ up);
      father = resolve table up;
      free = free_node table;
      father_found = resolve-LeadsTo table up;
      entry = search_node-FirstEntry table (resolve table up) name;
      first = free_node-FirstFree table;
      front_run = runs.0;
      directory_run = runs.1;
    }

abbrev pub Created : Table → Text → List Text → Text → Type 0
Created table name up other =
    (k : ℕ) × (after : Table) × (sac_create_directory table (front (name ∷ up))
      ≡ returns (pos 0) after)
    × (k < node_table_size)
    × ((table k).state ≡ 0)
    × WellFormed after
    × (determinar_nodo after (front (name ∷ up)) ≡ block (k + 1))
    × (determinar_nodo after other ≡ determinar_nodo table other)

first_free :
    (table : Table) (b : ℕ) (o : Option ℕ)
    → FirstFree table o
    → b < node_table_size
    → (table b).state ≡ 0
    → (k : ℕ) × (o ≡ some k) × (k < node_table_size) × ((table k).state ≡ 0)
first_free table b none h l free = absurd (h b l free)
first_free table b (some k) h l free = (k, refl, h.0, h.1)

made-added :
    (table : Table) (name : Text) (up : List Text) (k : ℕ)
    → resolve table (name ∷ up) ≡ no_block
    → resolve table up ≢ no_block
    → free_node table ≡ some k
    → length name < sac_file_name_length
    → made table name up ≡ returns (pos 0) (added table k (resolve table up) name)
made-added table name up k gone there f short =
    let inside : made_in table (resolve table up) name (free_node table)
        ≡ returns (pos 0) (added table k (resolve table up) name) =
      ap (made_in table (resolve table up) name) f ∙ ground arith in
    ground (arith, inside)

block_injective : (a b : ℕ) → block a ≡ block b → a ≡ b
block_injective a b e = cc e

-- In a well-formed table, where a path of names that are not empty and have no slash and no zero
-- byte, the last of at most 70 bytes, is not found, its directory is found and some node `b` is
-- free, sac_create_directory returns 0 with a table that is well formed, in which the path is
-- found at a node that was free; any other path that was found is found where it was.
pub sac_create_directory-found :
    (table : Table) (name : Text) (up : List Text) (b : ℕ) (n : Text) (above : List Text)
    → WellFormed table
    → AllNames (name ∷ up)
    → length name < sac_file_name_length
    → determinar_nodo table (front (name ∷ up)) ≡ block no_block
    → father_of table (directory up) ≢ block no_block
    → b < node_table_size
    → (table b).state ≡ 0
    → AllNames (n ∷ above)
    → determinar_nodo table (front (n ∷ above)) ≢ block no_block
    → Created table name up (front (n ∷ above))
sac_create_directory-found table name up b n above w h short missing father lb free ho found =
    let gone : resolve table (name ∷ up) ≡ no_block =
      block_injective (resolve table (name ∷ up)) no_block
        (sym ((determinar_nodo-resolve table name up h).0) ∙ missing) in
    let there : resolve table up ≢ no_block =
      λ e. father (father_of-resolve table up h.1.1 ∙ ap block e) in
    let (k, fk, lk, sk) =
      first_free table b (free_node table) (free_node-FirstFree table) lb free in
    let after = added table k (resolve table up) name in
    let good : WellFormed after =
      added-WellFormed table k (resolve table up) name h.1.0 sk w short
        (ground (arith, resolve-cases table up)) in
    let upper : resolve after up ≡ resolve table up =
      resolve-kept table k (resolve table up) name h.1.0 sk up h.1.1 w gone there in
    (
      k,
      after,
      (create_directory-made table name up w h).0 ∙ made-added table name up k gone there fk short,
      lk,
      sk,
      good,
      (determinar_nodo-resolve after name up h).0
          ∙ ap (λ p. block (search_node after p name)) upper
          ∙ ap block (search_node-new table k (resolve table up) name h.1.0 sk lk gone),
      (determinar_nodo-resolve after n above ho).0
          ∙ ap block (
              resolve-kept table k (resolve table up) name h.1.0 sk (n ∷ above) ho w gone
                (λ e. found ((determinar_nodo-resolve table n above ho).0 ∙ ap block e)))
          ∙ sym ((determinar_nodo-resolve table n above ho).0),
    )
