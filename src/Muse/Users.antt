-- ===== src/Muse/Users.antt =====
-- The processes that muse/src/muse.c knows.
use threaders.Base.{
  ℕ, ◌≡◌, ◌≢◌, refl, none, some, List, [], ◌∷◌, ◌++◌, arith, sym, ap, ◌∙◌, ◌==◌, inl, inr,
  Bool-cases, Option-cases,
}
use threaders.Commons.{Commons, Documented, reference, for_documented, find_first}
use threaders.Muse.{Muse, Proceso, crear_nodo, existe_proceso_en_lista, found_or_new, procesar_id}

find-append-new :
    (l : List Proceso) (id : ℕ) (p : Proceso)
    → find_first l (λ q. q.id == id) ≡ none
    → p.id ≡ id
    → find_first (l ++ p ∷ []) (λ q. q.id == id) ≡ some p
find-append-new [] id p h e = ground arith
find-append-new (q ∷ l) id p h e = ground (arith, find-append-new l id p)

find-append-other :
    (l : List Proceso) (id : ℕ) (p : Proceso)
    → p.id ≢ id
    → find_first (l ++ p ∷ []) (λ q. q.id == id) ≡ find_first l (λ q. q.id == id)
find-append-other [] id p e = ground arith
find-append-other (q ∷ l) id p e = ground (arith, find-append-other l id p e)

find-id :
    (l : List Proceso) (id : ℕ) (p : Proceso) → find_first l (λ q. q.id == id) ≡ some p → p.id ≡ id
find-id [] id p h = absurd (cc h)
find-id (q ∷ l) id p h = elim (Bool-cases (q.id == id)) [
  | inl t ↦
      let run : find_first (q ∷ l) (λ x. x.id == id) ≡ some q = ground arith in
      let same : some q ≡ some p = sym run ∙ h in
      let qp : q ≡ p = cc same in
      let qid : q.id ≡ id = ground arith in ap (λ x. x.id) (sym qp) ∙ qid
  | inr f ↦ find-id l id p (ground arith)
]

-- What procesar_id promises for the process `id`, and for another one.
abbrev pub Known : Commons → Muse → ℕ → ℕ → Type 0
Known c m id other =
    ((procesar_id c m id).1.id ≡ id)
    × (existe_proceso_en_lista c (procesar_id c m id).0 id ≡ some ((procesar_id c m id).1))
    × (procesar_id c (procesar_id c m id).0 id ≡ procesar_id c m id)
    × (existe_proceso_en_lista c (procesar_id c m id).0 other ≡ existe_proceso_en_lista c m other)

Known-some :
    (m : Muse) (id other : ℕ) (p : Proceso)
    → find_first m.lista_procesos (λ q. q.id == id) ≡ some p
    → Known reference m id other
unfolding existe_proceso_en_lista procesar_id
Known-some m id other p h =
    let run : procesar_id reference m id ≡ (m, p) = ap (found_or_new reference m id) h in
    (
      ap (λ r. r.1.id) run ∙ find-id m.lista_procesos id p h,
      ap (λ r. existe_proceso_en_lista reference r.0 id) run ∙ h ∙ ap (λ r. some (r.1)) (sym run),
      ap (λ r. procesar_id reference r.0 id) run,
      ap (λ r. existe_proceso_en_lista reference r.0 other) run,
    )

Known-none :
    (m : Muse) (id other : ℕ)
    → find_first m.lista_procesos (λ q. q.id == id) ≡ none
    → other ≢ id
    → Known reference m id other
unfolding existe_proceso_en_lista procesar_id crear_nodo
Known-none m id other h ne =
    let new = crear_nodo reference id in
    let after = record m { lista_procesos = m.lista_procesos ++ new ∷ [] } in
    let run : procesar_id reference m id ≡ (after, new) = ap (found_or_new reference m id) h in
    let there : existe_proceso_en_lista reference after id ≡ some new =
      find-append-new m.lista_procesos id new h refl in
    (
      ap (λ r. r.1.id) run,
      ap (λ r. existe_proceso_en_lista reference r.0 id) run
          ∙ there
          ∙ ap (λ r. some (r.1)) (sym run),
      ap (λ r. procesar_id reference r.0 id) run
          ∙ ap (found_or_new reference after id) there
          ∙ sym run,
      ap (λ r. existe_proceso_en_lista reference r.0 other) run
          ∙ find-append-other m.lista_procesos other new (λ e. ne (sym e)),
    )

-- With the list operations as documented, procesar_id gives the process of an id, a new one if
-- there was none: it is found in the list from then on, a second call gives the same and changes
-- nothing, and what the list has for another id stays.
pub procesar_id-Known :
    {c : Commons} → Documented c → (m : Muse) (id other : ℕ) → other ≢ id → Known c m id other
procesar_id-Known d m id other ne =
    for_documented (λ o. Known o m id other) d
      (elim (Option-cases (find_first m.lista_procesos (λ q. q.id == id))) [
        | inl h ↦ Known-none m id other h ne
        | inr (p, h) ↦ Known-some m id other p h
      ])

pub procesar_id-some :
    (c : Commons) (m : Muse) (id : ℕ) (p : Proceso)
    → existe_proceso_en_lista c m id ≡ some p
    → procesar_id c m id ≡ (m, p)
unfolding procesar_id
procesar_id-some c m id p h = ap (found_or_new c m id) h

pub procesar_id-memoria :
    (c : Commons) (m : Muse) (id : ℕ) → (procesar_id c m id).0.memoria ≡ m.memoria
unfolding procesar_id
procesar_id-memoria c m id = elim (Option-cases (existe_proceso_en_lista c m id)) [
  | inl h ↦ ap (λ o. (found_or_new c m id o).0.memoria) h
  | inr (p, h) ↦ ap (λ o. (found_or_new c m id o).0.memoria) h
]

-- The memory is not what processes are looked up in.
pub existe_memoria :
    (c : Commons) (m : Muse) (memoria : List ℕ) (id : ℕ)
    → existe_proceso_en_lista c (record m { memoria = memoria }) id ≡ existe_proceso_en_lista c m id
unfolding existe_proceso_en_lista
existe_memoria c m memoria id = refl

-- procesar_id changes no more than the list.
pub procesar_id-only :
    (c : Commons) (m : Muse) (id : ℕ)
    → (l : List Proceso) × ((procesar_id c m id).0 ≡ record m { lista_procesos = l })
unfolding procesar_id
procesar_id-only c m id = elim (Option-cases (existe_proceso_en_lista c m id)) [
  | inl h ↦
      (c.list_add Proceso m.lista_procesos (crear_nodo c id), ap (λ o. (found_or_new c m id o).0) h)
  | inr (p, h) ↦ (m.lista_procesos, ap (λ o. (found_or_new c m id o).0) h)
]
