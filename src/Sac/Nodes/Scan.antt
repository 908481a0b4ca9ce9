-- ===== src/Sac/Nodes/Scan.antt =====
-- The scans of the node table of sac_server/src: for a match, and for a free node.
use threaders.Base.{
  ℕ, zero, suc, ◌+◌, ◌≤◌, ◌<◌, ◌≡◌, ◌≢◌, refl, Bool, true, false, not, ◌&&◌, ◌⊎◌, Option, none,
  some, arith, sym, ap, ◌∙◌, ◌==◌, ltb, leb, if◌then◌else◌, inl, inr, subst, Bool-cases,
}
use threaders.Sac.Nodes.{Table, scan, free_loop, free_node, node_table_size}

pub scan-none :
    (n i : ℕ) (f : ℕ → Bool) (a : ℕ) → scan n i f ≡ none → i ≤ a → a < i + n → f a ≡ false
unfolding scan
scan-none zero i f a e l h = absurd (omega arith)
scan-none (suc n) i f a e l h = elim (Bool-cases (f i)) [
  | inl t ↦ absurd (ground arith)
  | inr t ↦ elim (Bool-cases (a == i)) [
    | inl same ↦ let ai : a ≡ i = ground arith in ap f ai ∙ t
    | inr ne ↦ scan-none n (i + 1) f a (ground arith) (ground arith) (omega arith)
  ]
]

pub scan-before :
    (n i : ℕ) (f : ℕ → Bool) (k a : ℕ) → scan n i f ≡ some k → i ≤ a → a < k → f a ≡ false
unfolding scan
scan-before zero i f k a e l h = absurd (cc e)
scan-before (suc n) i f k a e l h = elim (Bool-cases (f i)) [
  | inl t ↦ let ik : some i ≡ some k = ground arith in absurd (ground arith)
  | inr t ↦ elim (Bool-cases (a == i)) [
    | inl same ↦ let ai : a ≡ i = ground arith in ap f ai ∙ t
    | inr ne ↦ scan-before n (i + 1) f k a (ground arith) (ground arith) h
  ]
]

pub scan-congr : (n i : ℕ) (f g : ℕ → Bool) → ((a : ℕ) → g a ≡ f a) → scan n i g ≡ scan n i f
unfolding scan
scan-congr zero i f g h = refl
scan-congr (suc n) i f g h = ground (arith, h i, scan-congr n (i + 1) f g h)

pub scan-first :
    (n i : ℕ) (f : ℕ → Bool) (k : ℕ)
    → i ≤ k
    → k < i + n
    → f k ≡ true
    → ((a : ℕ) → a < k → f a ≡ false)
    → scan n i f ≡ some k
unfolding scan
scan-first zero i f k l h t before = absurd (omega arith)
scan-first (suc n) i f k l h t before = elim (Bool-cases (i == k)) [
  | inl same ↦ let ik : i ≡ k = ground arith in let fi : f i ≡ true = ap f ik ∙ t in ground arith
  | inr ne ↦
      ground (arith, before i, scan-first n (i + 1) f k (ground arith) (omega arith) t before)
]

pub scan-lt : (n i : ℕ) (f : ℕ → Bool) {k : ℕ} → scan n i f ≡ some k → k < i + n
unfolding scan
scan-lt zero i f e = absurd (cc e)
scan-lt (suc n) i f {k} e = elim (Bool-cases (f i)) [
  | inl t ↦ ground arith
  | inr t ↦ omega (arith, scan-lt n (i + 1) f {k = k} (ground arith))
]

pub scan-true : (n i : ℕ) (f : ℕ → Bool) {k : ℕ} → scan n i f ≡ some k → f k ≡ true
unfolding scan
scan-true zero i f e = absurd (cc e)
scan-true (suc n) i f {k} e = elim (Bool-cases (f i)) [
  | inl t ↦ let ik : some i ≡ some k = ground arith in ground arith
  | inr t ↦ scan-true n (i + 1) f {k = k} (ground arith)
]

-- Where the loop stops: at a free node, or behind the table.
pub record Stopped (table : Table) (r : ℕ × ℕ) : Type 0 where
  pub at : (r.1 < node_table_size) × ((table r.1).state ≡ 0) ⊎ (node_table_size < r.0)
  pub taken : (a : ℕ) → a < r.1 → a < node_table_size → (table a).state ≢ 0
  pub index : r.0 ≤ r.1 + 1

free_loop-Stopped :
    (n i node : ℕ) (table : Table)
    → i ≡ node + 1
    → i + n ≡ node_table_size + 2
    → i ≤ node_table_size + 1
    → ((a : ℕ) → a < node → a < node_table_size → (table a).state ≢ 0)
    → Stopped table (free_loop n table i node)
unfolding free_loop
free_loop-Stopped zero i node table e h l before = absurd (omega arith)
free_loop-Stopped (suc n) i node table e h l before =
    elim (Bool-cases (not ((table node).state == 0) && leb i node_table_size)) [
      | inl go ↦
          let busy : (table node).state ≢ 0 = ground arith in
          let below : (a : ℕ) → a < i → a < node_table_size → (table a).state ≢ 0 = λ a la sa.
            elim (Bool-cases (a == node)) [
              | inl same ↦
                  let an : a ≡ node = ground arith in subst (λ x. (table x).state ≢ 0) (sym an) busy
              | inr ne ↦ before a (ground arith) sa
            ] in
          let run : free_loop (suc n) table i node ≡ free_loop n table (i + 1) i = ground arith in
          subst (Stopped table) (sym run)
            (free_loop-Stopped n (i + 1) i table refl (omega arith) (ground arith) below)
      | inr stop ↦
          let run : free_loop (suc n) table i node ≡ (i, node) = ground arith in
          subst (Stopped table) (sym run)
            (record { at = ground arith; taken = before; index = ground arith })
    ]

-- The first free node, or none where all are taken.
abbrev pub FirstFree : Table → Option ℕ → Type 0
FirstFree table none = (a : ℕ) → a < node_table_size → (table a).state ≢ 0
FirstFree table (some k) =
    (k < node_table_size) × ((table k).state ≡ 0) × ((a : ℕ) → a < k → (table a).state ≢ 0)

abbrev node_at : ℕ × ℕ → Option ℕ
node_at r = if ltb node_table_size r.0 then none else some r.1

node_at-FirstFree : (table : Table) (r : ℕ × ℕ) → Stopped table r → FirstFree table (node_at r)
node_at-FirstFree table (i, node) s = elim (Bool-cases (ltb node_table_size i)) [
  | inl t ↦
      let run : node_at (i, node) ≡ none = ground arith in
      subst (FirstFree table) (sym run) (λ a l. s.taken a (ground (arith, s.index)) l)
  | inr t ↦
      let run : node_at (i, node) ≡ some node = ground arith in
      let free : (node < node_table_size) × ((table node).state ≡ 0) = ground (arith, s.at) in
      subst (FirstFree table) (sym run)
        (free.0, free.1, λ a l. s.taken a l (ground (arith, free.0)))
]

first_loop-Stopped :
    (n : ℕ) (table : Table) → n ≡ node_table_size + 1 → Stopped table (free_loop (suc n) table 0 0)
unfolding free_loop
first_loop-Stopped n table h = elim (Bool-cases ((table 0).state == 0)) [
  | inl free ↦
      let run : free_loop (suc n) table 0 0 ≡ (0, 0) = ground arith in
      subst (Stopped table) (sym run)
        (record { at = ground arith; taken = λ a l. absurd (omega arith); index = ground arith })
  | inr busy ↦
      let state : (table 0).state ≢ 0 = ground arith in
      let run : free_loop (suc n) table 0 0 ≡ free_loop n table 1 0 = ground arith in
      subst (Stopped table) (sym run) (
        free_loop-Stopped n 1 0 table refl (omega arith) (omega arith)
          (λ a l. absurd (omega arith)))
]

pub free_node-FirstFree : (table : Table) → FirstFree table (free_node table)
unfolding free_node
free_node-FirstFree table =
    node_at-FirstFree table (free_loop (node_table_size + 2) table 0 0)
      (first_loop-Stopped (node_table_size + 1) table refl)
