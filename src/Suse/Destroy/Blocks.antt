-- ===== src/Suse/Destroy/Blocks.antt =====
-- Freeing distinct programs and semaphores of suse/src one after the other.
use threaders.Base.{
  ℕ, ◌≡◌, refl, true, Option, none, some, List, [], ◌∷◌, ◌++◌, arith, sym, ap, ◌∙◌, ◌==◌,
  Bool-cases, inl, inr,
}
use threaders.Suse.{Program}
use threaders.Suse.Destroy.Twice.{is_live}
use threaders.Suse.Destroy.{
  and_free, SemaphoreBlocks, semaphore_freed, semaphore_destroy, Block, a_program, Heap,
  program_destroy_thread, destroyed_as, program_destroy,
}
use threaders.Suse.Destroy.Each.{each, and_then}
use threaders.Suse.Destroy.Without.{
  has, Distinct, Live, Programs, without, has-append, without-append, each-append, each-without,
  Distinct-left, Distinct-right, Live-left, behind, Live-right, and_free-last,
}

module _ (program_at : ℕ → Program) where
  abbrev pub blocks_of : List ℕ → List ℕ
  blocks_of [] = []
  blocks_of (p ∷ ps) = ((program_at p).threads ++ p ∷ []) ++ blocks_of ps

  program_destroy-without :
      (p : ℕ) (h : Heap)
      → h p ≡ some a_program
      → Distinct ((program_at p).threads ++ p ∷ [])
      → Live ((program_at p).threads ++ p ∷ []) h
      → program_destroy each program_at p h ≡ some (without ((program_at p).threads ++ p ∷ []) h)
  unfolding program_destroy
  program_destroy-without p h e d v =
      let threads = (program_at p).threads in
      ap (destroyed_as each (program_at p) p h) e
      ∙ and_free-last p (each program_destroy_thread threads h)
      ∙ sym (each-append program_destroy_thread threads (p ∷ []) h)
      ∙ each-without (threads ++ p ∷ []) h d v

  pub has-blocks_of : (p : ℕ) (ps : List ℕ) → has p ps ≡ true → has p (blocks_of ps) ≡ true
  has-blocks_of p [] k = k
  has-blocks_of p (q ∷ ps) k =
      let threads = (program_at q).threads in
      let whole = has-append p (threads ++ q ∷ []) (blocks_of ps) in
      let own = has-append p threads (q ∷ []) in
      elim (Bool-cases (p == q)) [
        | inl t ↦
            let here : has p (threads ++ q ∷ []) ≡ true = own ∙ ground arith in whole ∙ ground arith
        | inr f ↦
            let later : has p (blocks_of ps) ≡ true = has-blocks_of p ps (ground arith) in
            whole ∙ ground arith
      ]

  pub each_program-without :
      (ps : List ℕ) (h : Heap)
      → Programs ps h
      → Distinct (blocks_of ps)
      → Live (blocks_of ps) h
      → each (program_destroy each program_at) ps h ≡ some (without (blocks_of ps) h)
  each_program-without [] h e d v = refl
  each_program-without (p ∷ ps) h e d v =
      let own = (program_at p).threads ++ p ∷ [] in
      let rest = blocks_of ps in
      let destroy = program_destroy each program_at in
      let left : Programs ps (without own h) =
        λ q k. behind own rest h d q (has-blocks_of q ps k) ∙ e q (ground arith) in
      ap (λ o. and_then o (each destroy ps))
        (program_destroy-without p h (e p (ground arith)) (Distinct-left own rest d)
          (Live-left own rest h v))
      ∙ each_program-without ps (without own h) left (Distinct-right own rest d)
          (Live-right own rest h d v)
      ∙ ap some (sym (without-append own rest h))

and_free-each :
    (a : ℕ) (o : Option Heap) (l : List ℕ)
    → and_then (and_free a o) (each program_destroy_thread l)
      ≡ and_then o (each program_destroy_thread (a ∷ l))
and_free-each a none l = refl
and_free-each a (some h) l = refl

-- Three blocks freed one after the other.
three_freed :
    (a b d : ℕ) (h : Heap)
    → and_free d (and_free b (and_free a (some h))) ≡ each program_destroy_thread (a ∷ b ∷ d ∷ []) h
three_freed a b d h =
    and_free-last d (and_free b (and_free a (some h)))
    ∙ and_free-each b (and_free a (some h)) (d ∷ [])
    ∙ and_free-each a (some h) (b ∷ d ∷ [])

module _ (semaphore_at : ℕ → SemaphoreBlocks) where
  abbrev pub semaphore_blocks : List ℕ → List ℕ
  semaphore_blocks [] = []
  semaphore_blocks (sem ∷ sems) =
      ((semaphore_at sem).id ∷ (semaphore_at sem).queue ∷ sem ∷ []) ++ semaphore_blocks sems

  semaphore_destroy-without :
      (sem : ℕ) (h : Heap)
      → Distinct ((semaphore_at sem).id ∷ (semaphore_at sem).queue ∷ sem ∷ [])
      → Live ((semaphore_at sem).id ∷ (semaphore_at sem).queue ∷ sem ∷ []) h
      → semaphore_destroy semaphore_at sem h
        ≡ some (without ((semaphore_at sem).id ∷ (semaphore_at sem).queue ∷ sem ∷ []) h)
  unfolding semaphore_destroy
  semaphore_destroy-without sem h d v =
      let blocks = semaphore_at sem in
      read_first blocks (h sem) (v sem (ground arith))
      ∙ three_freed blocks.id blocks.queue sem h
      ∙ each-without (blocks.id ∷ blocks.queue ∷ sem ∷ []) h d v
    where
      read_first :
          (blocks : SemaphoreBlocks) (o : Option Block)
          → is_live o ≡ true
          → semaphore_freed blocks sem h o
            ≡ and_free sem (and_free blocks.queue (and_free blocks.id (some h)))
      read_first blocks none e = absurd (cc e)
      read_first blocks (some block) e = refl

  pub each_semaphore-without :
      (sems : List ℕ) (h : Heap)
      → Distinct (semaphore_blocks sems)
      → Live (semaphore_blocks sems) h
      → each (semaphore_destroy semaphore_at) sems h ≡ some (without (semaphore_blocks sems) h)
  each_semaphore-without [] h d v = refl
  each_semaphore-without (sem ∷ sems) h d v =
      let own = (semaphore_at sem).id ∷ (semaphore_at sem).queue ∷ sem ∷ [] in
      let rest = semaphore_blocks sems in
      ap (λ o. and_then o (each (semaphore_destroy semaphore_at) sems))
        (semaphore_destroy-without sem h (Distinct-left own rest d) (Live-left own rest h v))
      ∙ each_semaphore-without sems (without own h) (Distinct-right own rest d)
          (Live-right own rest h d v)
      ∙ ap some (sym (without-append own rest h))
