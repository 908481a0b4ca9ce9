-- ===== src/Sac/Nodes/Added.antt =====
-- The table of nodes of sac_server/src with one node added: what determinar_nodo finds in it.
use threaders.Base.{
  ℕ, ◌+◌, ◌≤◌, ◌<◌, ◌≡◌, ◌≢◌, refl, Bool, true, false, not, ◌&&◌, ◌⊎◌, none, List, [], ◌∷◌, arith,
  sym, ap, ◌∙◌, length, drop, ◌==◌, inl, inr, subst, Bool-cases, Option-cases,
}
use threaders.Sac.Paths.{Text}
use threaders.Sac.Nodes.Fields.{
  IsText, strcmp_field-append, strcmp_field-eq, field_of, strcpy_field-some,
}
use threaders.Sac.Nodes.Scan.{scan-none, scan-congr, scan-first, scan-lt, scan-true}
use threaders.Sac.Nodes.Resolve.{AllNames, resolve}
use threaders.Sac.Nodes.{
  SFile, Table, search_node, block_of, matches, scan, strcmp_field, node_table_size,
  sac_file_name_length, directory_t, no_block, put_node,
}

-- Every name field has its 71 bytes, and a node that is taken stands in the root or in a block of the table.
abbrev pub GoodNode : SFile → Type 0
GoodNode node =
    (length node.file_name ≡ sac_file_name_length)
    × (node.state ≢ 0 → node.parent_dir_block ≤ node_table_size)

abbrev pub WellFormed : Table → Type 0
WellFormed table = (a : ℕ) → GoodNode (table a)

-- The node that a directory gets.
abbrev pub new_node : SFile → ℕ → Text → SFile
new_node node father name = record node {
  state = directory_t;
  file_name = field_of name node.file_name;
  file_size = 0;
  parent_dir_block = father;
}

abbrev pub added : Table → ℕ → ℕ → Text → Table
added table k father name = put_node table k (new_node (table k) father name)

pub search_node-cases :
    (table : Table) (p : ℕ) (name : Text)
    → (search_node table p name ≡ no_block) ⊎ (search_node table p name ≤ node_table_size)
unfolding search_node
search_node-cases table p name =
    elim (Option-cases (scan node_table_size 0 (matches table p name))) [
      | inl e ↦ inl (ap block_of e)
      | inr (i, e) ↦
          let below : i < node_table_size =
            omega (arith, scan-lt node_table_size 0 (matches table p name) e) in
          let found : block_of (scan node_table_size 0 (matches table p name)) ≡ i + 1 =
            ap block_of e in
          inr (omega arith)
    ]

pub resolve-cases :
    (table : Table) (names : List Text)
    → (resolve table names ≡ no_block) ⊎ (resolve table names ≤ node_table_size)
resolve-cases table [] = inr (omega arith)
resolve-cases table (name ∷ up) = search_node-cases table (resolve table up) name

-- In a missing directory nothing is found.
search_node-missing :
    (table : Table) (name : Text) → WellFormed table → search_node table no_block name ≡ no_block
unfolding search_node matches
search_node-missing table name w =
    elim (Option-cases (scan node_table_size 0 (matches table no_block name))) [
      | inl e ↦ ap block_of e
      | inr (i, e) ↦
          let below : i < node_table_size =
            omega (arith, scan-lt node_table_size 0 (matches table no_block name) e) in
          let hit : matches table no_block name i ≡ true =
            scan-true node_table_size 0 (matches table no_block name) e in
          let taken : (table i).state ≢ 0 = ground arith in
          let parent : (table i).parent_dir_block ≡ no_block = ground arith in
          absurd (omega (arith, (w i).1 taken))
    ]

-- The directory of what is found is found.
resolve-up :
    (table : Table) (name : Text) (up : List Text)
    → WellFormed table
    → resolve table (name ∷ up) ≢ no_block
    → resolve table up ≢ no_block
resolve-up table name up w h e =
    h (ap (λ p. search_node table p name) e ∙ search_node-missing table name w)

-- The new node `k`, which was free, against what determinar_nodo looks for.
module _ (table : Table) (k father : ℕ) (name : Text) (text : IsText name)
    (free : (table k).state ≡ 0) where
  abbrev after : Table
  after = added table k father name

  matches-other : (p : ℕ) (n : Text) (a : ℕ) → a ≢ k → matches after p n a ≡ matches table p n a
  unfolding matches
  matches-other p n a h =
      let same : after a ≡ table a = ground arith in
      ap
        (λ node.
          node.parent_dir_block == p && (strcmp_field n node.file_name && not (node.state == 0)))
        same

  matches-new : matches after father name k ≡ true
  unfolding matches
  matches-new =
      let here : after k ≡ new_node (table k) father name = ground arith in
      ap
        (λ node.
          node.parent_dir_block == father
          && (strcmp_field name node.file_name && not (node.state == 0)))
        here
      ∙ ground (arith, strcmp_field-append name (drop (length name + 1) (table k).file_name))

  matches-before : (p : ℕ) (n : Text) → matches table p n k ≡ false
  unfolding matches
  matches-before p n = ground (arith, free)

  matches-only :
      (p : ℕ) (n : Text) → IsText n → matches after p n k ≡ true → (p ≡ father) × (n ≡ name)
  unfolding matches
  matches-only p n tn e =
      let test : SFile → Bool = λ node.
        node.parent_dir_block == p && (strcmp_field n node.file_name && not (node.state == 0)) in
      let here : after k ≡ new_node (table k) father name = ground arith in
      let new : test (new_node (table k) father name) ≡ true = sym (ap test here) ∙ e in
      (
        ground arith,
        strcmp_field-eq n name (drop (length name + 1) (table k).file_name) tn text (ground arith),
      )

  -- What is found before stays where it is, and the new name is found where it was put.
  pub search_node-kept :
      (p : ℕ) (n : Text)
      → IsText n
      → search_node table father name ≡ no_block
      → search_node table p n ≢ no_block
      → search_node after p n ≡ search_node table p n
  unfolding search_node
  search_node-kept p n tn missing found = elim (Bool-cases (matches after p n k)) [
    | inl t ↦
        let pn : (p ≡ father) × (n ≡ name) = matches-only p n tn t in
        absurd (found (cc (pn.0, pn.1, missing)))
    | inr f ↦ ap block_of (
        scan-congr node_table_size 0 (matches table p n) (matches after p n) (λ a.
          elim (Bool-cases (a == k)) [
            | inl same ↦
                let ak : a ≡ k = ground arith in
                ap (matches after p n) ak
                ∙ f
                ∙ sym (matches-before p n)
                ∙ ap (matches table p n) (sym ak)
            | inr ne ↦ matches-other p n a (ground arith)
          ]))
  ]

  pub search_node-new :
      k < node_table_size
      → search_node table father name ≡ no_block
      → search_node after father name ≡ k + 1
  unfolding search_node
  search_node-new l missing =
      let nowhere : scan node_table_size 0 (matches table father name) ≡ none =
        elim (Option-cases (scan node_table_size 0 (matches table father name))) [
          | inl e ↦ e
          | inr (i, e) ↦
              let below : i < node_table_size =
                omega (arith, scan-lt node_table_size 0 (matches table father name) e) in
              let found : block_of (scan node_table_size 0 (matches table father name)) ≡ i + 1 =
                ap block_of e in
              absurd (omega arith)
        ] in
      ap block_of (
        scan-first node_table_size 0 (matches after father name) k (omega arith) (omega arith)
          matches-new
          (λ a la.
            matches-other father name a (omega arith)
            ∙ scan-none node_table_size 0 (matches table father name) a nowhere (omega arith)
                (omega arith)))

  pub resolve-kept :
      (names : List Text)
      → AllNames names
      → WellFormed table
      → search_node table father name ≡ no_block
      → resolve table names ≢ no_block
      → resolve after names ≡ resolve table names
  resolve-kept [] h w missing found = refl
  resolve-kept (n ∷ up) h w missing found =
      ap (λ p. search_node after p n)
        (resolve-kept up h.1.1 w missing (resolve-up table n up w found))
      ∙ search_node-kept (resolve table up) n h.1.0 missing found

  pub added-WellFormed :
      WellFormed table
      → length name < sac_file_name_length
      → father ≤ node_table_size
      → WellFormed after
  added-WellFormed w l f a = elim (Bool-cases (a == k)) [
    | inl same ↦
        let here : after a ≡ new_node (table k) father name = ground arith in
        let size : length (field_of name (table k).file_name) ≡ length (table k).file_name =
          (strcpy_field-some name (table k).file_name (ground (arith, (w k).0))).1 in
        subst GoodNode (sym here) (size ∙ (w k).0, λ t. f)
    | inr ne ↦ let other : after a ≡ table a = ground arith in subst GoodNode (sym other) (w a)
  ]
