-- ===== src/Sac/Nodes/Lookup.antt =====
-- What is found in the node table of sac_server/src under a name, and under the names of a path.
use threaders.Base.{
  ℕ, ◌+◌, ◌<◌, ◌≡◌, refl, true, false, ◌⊎◌, List, [], ◌∷◌, arith, ap, inl, inr, Option-cases,
}
use threaders.Sac.Paths.{Text}
use threaders.Sac.Nodes.{Table, matches, scan, search_node, block_of, node_table_size, no_block}
use threaders.Sac.Nodes.Scan.{scan-none, scan-before, scan-lt, scan-true}
use threaders.Sac.Nodes.Resolve.{resolve}

-- The block `b` is that of the first entry of this name in the directory `p`, or none where there is no such entry.
abbrev pub FirstEntry : Table → ℕ → Text → ℕ → Type 0
FirstEntry table p name b =
    ((b ≡ no_block) × ((a : ℕ) → a < node_table_size → matches table p name a ≡ false))
    ⊎ ((k : ℕ) × (b ≡ k + 1)
        × (k < node_table_size)
        × (matches table p name k ≡ true)
        × ((a : ℕ) → a < k → matches table p name a ≡ false))

-- The block `b` is reached from the root by these names, the last one first.
abbrev pub LeadsTo : Table → List Text → ℕ → Type 0
LeadsTo table [] b = b ≡ 0
LeadsTo table (name ∷ up) b = (p : ℕ) × LeadsTo table up p × FirstEntry table p name b

pub search_node-FirstEntry :
    (table : Table) (p : ℕ) (name : Text) → FirstEntry table p name (search_node table p name)
unfolding search_node
search_node-FirstEntry table p name =
    let f = matches table p name in
    elim (Option-cases (scan node_table_size 0 f)) [
      | inl e ↦
          inl (
            ap block_of e,
            λ a l. scan-none node_table_size 0 f a e (omega arith) (omega (arith, l)),
          )
      | inr (k, e) ↦ inr (
        k,
        ap block_of e,
        omega (arith, scan-lt node_table_size 0 f e),
        scan-true node_table_size 0 f e,
        λ a l. scan-before node_table_size 0 f k a e (omega arith) l,
      )
    ]

pub resolve-LeadsTo :
    (table : Table) (names : List Text) → LeadsTo table names (resolve table names)
resolve-LeadsTo table [] = refl
resolve-LeadsTo table (name ∷ up) = (
  resolve table up,
  resolve-LeadsTo table up,
  search_node-FirstEntry table (resolve table up) name,
)
