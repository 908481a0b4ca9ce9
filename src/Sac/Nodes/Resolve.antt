-- ===== src/Sac/Nodes/Resolve.antt =====
-- determinar_nodo of sac_server/src/sac_operate.c on the paths of lists of names.
use threaders.Base.{
  ℕ, zero, suc, ◌+◌, ◌≤◌, ◌≡◌, ◌≢◌, refl, false, some, List, [], ◌∷◌, ◌++◌, arith, ap, ◌∙◌, length,
  if◌then◌else◌, length-append,
}
use threaders.Sac.Paths.{Text, slash, split_path}
use threaders.Sac.Paths.Laws.{NoSlash, split_path-slash}
use threaders.Sac.Nodes.Fields.{IsText}
use threaders.Sac.Nodes.{
  Table, text_eq, root, search_node, block, in_parent, in_split, find_node, determinar_nodo,
}

-- A name: some bytes, none of them a slash.
abbrev pub IsName : Text → Type 0
IsName [] = ⊥
IsName (b ∷ t) = (b ≢ slash) × NoSlash t

abbrev pub AllNames : List Text → Type 0
AllNames [] = Unit {0}
AllNames (name ∷ up) = IsName name × (IsText name × AllNames up)

-- The path of a list of names, the innermost first; of no name, the empty text.
abbrev pub front : List Text → Text
front [] = []
front (name ∷ up) = front up ++ slash ∷ name

-- The same with a slash behind it; of no name, the root.
abbrev pub directory : List Text → Text
directory names = front names ++ slash ∷ []

-- What determinar_nodo is to find: the names looked up one in the other, from the root.
abbrev pub resolve : Table → List Text → ℕ
resolve table [] = 0
resolve table (name ∷ up) = search_node table (resolve table up) name

pub text_eq-length : (s t : Text) → length s ≢ length t → text_eq s t ≡ false
unfolding text_eq
text_eq-length [] [] h = absurd (h refl)
text_eq-length [] (b ∷ t) h = refl
text_eq-length (a ∷ s) [] h = refl
text_eq-length (a ∷ s) (b ∷ t) h = ground (arith, text_eq-length s t)

-- A step into a path that is not the root and that is split into a directory and a name.
find_node-split :
    (n : ℕ) (table : Table) (path : Text) (up : List Text) (name : Text)
    → text_eq path root ≡ false
    → split_path path ≡ some (directory up, name)
    → find_node n table (directory up) ≡ block (resolve table up)
    → find_node (suc n) table path ≡ block (resolve table (name ∷ up))
unfolding find_node
find_node-split n table path up name r s rec =
    ap (λ b. if b then block 0 else in_split table (split_path path) (find_node n table)) r
    ∙ ap (λ o. in_split table o (find_node n table)) s
    ∙ ap (in_parent table name) rec

pub length-front :
    (name : Text) (up : List Text)
    → IsName name
    → length (front up) + 2 ≤ length (front (name ∷ up))
length-front [] up h = absurd h
length-front (b ∷ t) up h = omega (arith, length-append (front up) (slash ∷ b ∷ t))

pub length-directory : (names : List Text) → length (directory names) ≡ length (front names) + 1
length-directory names = length-append (front names) (slash ∷ [])

pub split_path-names :
    (name : Text) (up : List Text)
    → IsName name
    → (split_path (front (name ∷ up)) ≡ some (directory up, name))
      × (split_path (directory (name ∷ up)) ≡ some (directory up, name))
split_path-names [] up h = absurd h
split_path-names (b ∷ t) up h = split_path-slash (front up) b t h.0 h.1

pub find_node-directory :
    (names : List Text) (n : ℕ) (table : Table)
    → AllNames names
    → length (directory names) ≤ n
    → find_node n table (directory names) ≡ block (resolve table names)
unfolding find_node text_eq
find_node-directory names zero table h l = absurd (omega (arith, length-directory names))
find_node-directory [] (suc n) table h l = refl
find_node-directory (name ∷ up) (suc n) table h l =
    find_node-split n table (directory (name ∷ up)) up name
      (text_eq-length (directory (name ∷ up)) root
        (omega (arith, length-directory (name ∷ up), length-front name up h.0)))
      ((split_path-names name up h.0).1)
      (find_node-directory up n table h.1.1 (
        omega (arith, length-directory (name ∷ up), length-directory up, length-front name up h.0)))

find_node-front :
    (n : ℕ) (table : Table) (name : Text) (up : List Text)
    → AllNames (name ∷ up)
    → length (front (name ∷ up)) ≤ n
    → find_node n table (front (name ∷ up)) ≡ block (resolve table (name ∷ up))
find_node-front zero table name up h l = absurd (omega (arith, length-front name up h.0))
find_node-front (suc n) table name up h l =
    find_node-split n table (front (name ∷ up)) up name
      (text_eq-length (front (name ∷ up)) root (omega (arith, length-front name up h.0)))
      ((split_path-names name up h.0).0)
      (find_node-directory up n table h.1.1
        (omega (arith, length-directory up, length-front name up h.0)))

-- For names that are not empty and have no slash and no zero byte, determinar_nodo ends, with its fuel, and finds
-- the block of the names looked up one in the other from the root, whether the path ends in a slash or not.
pub determinar_nodo-resolve :
    (table : Table) (name : Text) (up : List Text)
    → AllNames (name ∷ up)
    → (determinar_nodo table (front (name ∷ up)) ≡ block (resolve table (name ∷ up)))
      × (determinar_nodo table (directory (name ∷ up)) ≡ block (resolve table (name ∷ up)))
unfolding determinar_nodo
determinar_nodo-resolve table name up h = (
  find_node-front (length (front (name ∷ up))) table name up h (omega arith),
  find_node-directory (name ∷ up) (length (directory (name ∷ up))) table h (omega arith),
)
