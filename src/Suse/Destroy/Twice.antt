-- ===== src/Suse/Destroy/Twice.antt =====
-- Blocks that scheduler_destroy of suse/src/scheduler/suse_scheduler.c frees more than once, or takes for a program.
use threaders.Base.{ℕ, ◌≡◌, refl, Bool, true, false, Option, none, some, List, get_elem?}
use threaders.Suse.{Program}
use threaders.Suse.Destroy.{
  Block, a_thread, a_program, other, SemaphoreBlocks, semaphore_freed, semaphore_destroy, Heap,
  freed, program_destroy_thread, and_free, destroyed_as, program_destroy, and_destroyed,
}
use threaders.Suse.Destroy.Each.{
  each, Test, Off, Keeps, freed-Off, freed_own-Off, program_destroy_thread-Keeps, each-Keeps,
  each-Off, each-fault,
}

abbrev pub is_program : Option Block → Bool
is_program none = false
is_program (some a_thread) = false
is_program (some other) = false
is_program (some a_program) = true

abbrev pub is_live : Option Block → Bool
is_live none = false
is_live (some block) = true

abbrev pub program_test : Test
program_test = (is_program, refl)

abbrev pub live_test : Test
live_test = (is_live, refl)

and_free-Off : (t : Test) (a b : ℕ) (o : Option Heap) → Off t a o → Off t a (and_free b o)
and_free-Off t a b none e = tt
and_free-Off t a b (some h) e = freed-Off t a b h (h b) e

and_free_own-Off : (t : Test) (a : ℕ) (o : Option Heap) → Off t a (and_free a o)
and_free_own-Off t a none = tt
and_free_own-Off t a (some h) = freed_own-Off t a h (h a)

module _ (program_at : ℕ → Program) where
  pub program_destroy-Keeps : (p : ℕ) → Keeps (program_destroy each program_at p)
  unfolding program_destroy
  program_destroy-Keeps p t a h e = by_block (h p)
    where
      by_block : (o : Option Block) → Off t a (destroyed_as each (program_at p) p h o)
      by_block none = tt
      by_block (some a_thread) = tt
      by_block (some other) = tt
      by_block (some a_program) =
          and_free-Off t a p (each program_destroy_thread (program_at p).threads h) (
            each-Keeps program_destroy_thread (program_at p).threads program_destroy_thread-Keeps t
              a h e)

  -- The program itself is gone, and so is each of its threads.
  pub program_destroy_own :
      (t : Test) (p : ℕ) (h : Heap) → Off t p (program_destroy each program_at p h)
  unfolding program_destroy
  program_destroy_own t p h = by_block (h p)
    where
      by_block : (o : Option Block) → Off t p (destroyed_as each (program_at p) p h o)
      by_block none = tt
      by_block (some a_thread) = tt
      by_block (some other) = tt
      by_block (some a_program) =
          and_free_own-Off t p (each program_destroy_thread (program_at p).threads h)

  pub program_destroy_threads :
      (t : Test) (p i a : ℕ) (h : Heap)
      → get_elem? (program_at p).threads i ≡ some a
      → Off t a (program_destroy each program_at p h)
  unfolding program_destroy
  program_destroy_threads t p i a h e = by_block (h p)
    where
      by_block : (o : Option Block) → Off t a (destroyed_as each (program_at p) p h o)
      by_block none = tt
      by_block (some a_thread) = tt
      by_block (some other) = tt
      by_block (some a_program) =
          and_free-Off t a p (each program_destroy_thread (program_at p).threads h) (
            each-Off program_destroy_thread (program_at p).threads i a t a h
              program_destroy_thread-Keeps e λ h. freed_own-Off t a h (h a))

  pub program_destroy-fault :
      (p : ℕ) (h : Heap) → is_program (h p) ≡ false → program_destroy each program_at p h ≡ none
  unfolding program_destroy
  program_destroy-fault p h e = by_block (h p) e
    where
      by_block :
          (o : Option Block) → is_program o ≡ false → destroyed_as each (program_at p) p h o ≡ none
      by_block none e = refl
      by_block (some a_thread) e = refl
      by_block (some other) e = refl
      by_block (some a_program) e = absurd (cc e)

pub semaphore_destroy-Keeps :
    (semaphore_at : ℕ → SemaphoreBlocks) (sem : ℕ) → Keeps (semaphore_destroy semaphore_at sem)
unfolding semaphore_destroy
semaphore_destroy-Keeps semaphore_at sem t a h e = by_block (h sem)
  where
    by_block : (o : Option Block) → Off t a (semaphore_freed (semaphore_at sem) sem h o)
    by_block none = tt
    by_block (some block) =
        let blocks = semaphore_at sem in
        let without_id = and_free blocks.id (some h) in
        and_free-Off t a sem (and_free blocks.queue without_id)
          (and_free-Off t a blocks.queue without_id (and_free-Off t a blocks.id (some h) e))

pub program_destroy_thread-fault :
    (a : ℕ) (h : Heap) → is_live (h a) ≡ false → program_destroy_thread a h ≡ none
program_destroy_thread-fault a h e = by_block (h a) e
  where
    by_block : (o : Option Block) → is_live o ≡ false → freed a h o ≡ none
    by_block none e = refl
    by_block (some block) e = absurd (cc e)

pub and_destroyed-Off :
    (destroy : ℕ → Heap → Option Heap) (l : List ℕ) (t : Test) (a : ℕ) (o : Option Heap)
    → ((b : ℕ) → Keeps (destroy b))
    → Off t a o
    → Off t a (and_destroyed each destroy l o)
and_destroyed-Off destroy l t a none k e = tt
and_destroyed-Off destroy l t a (some h) k e = each-Keeps destroy l k t a h e

pub and_destroyed_own :
    (destroy : ℕ → Heap → Option Heap) (l : List ℕ) (i b : ℕ) (t : Test) (a : ℕ) (o : Option Heap)
    → ((b : ℕ) → Keeps (destroy b))
    → get_elem? l i ≡ some b
    → ((h : Heap) → Off t a (destroy b h))
    → Off t a (and_destroyed each destroy l o)
and_destroyed_own destroy l i b t a none k e f = tt
and_destroyed_own destroy l i b t a (some h) k e f = each-Off destroy l i b t a h k e f

pub and_destroyed-fault :
    (destroy : ℕ → Heap → Option Heap) (l : List ℕ) (i b : ℕ) (t : Test) (a : ℕ) (o : Option Heap)
    → ((b : ℕ) → Keeps (destroy b))
    → get_elem? l i ≡ some b
    → ((h : Heap) → t.0 (h a) ≡ false → destroy b h ≡ none)
    → Off t a o
    → and_destroyed each destroy l o ≡ none
and_destroyed-fault destroy l i b t a none k e f off = refl
and_destroyed-fault destroy l i b t a (some h) k e f off = each-fault destroy l i b t a h k e f off
