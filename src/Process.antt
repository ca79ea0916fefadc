-- ===== src/Process.antt =====
-- What the command-line parser works on: the `argv` array, whose entries it replaces by NULL, and
-- the memory that it takes from `malloc` and `calloc`. `exit` ends the process.
pub mod Ensures
use zenoh_flat_c.Base.{
  ℕ, suc, ◌+◌, ◌≡◌, List, [], ◌∷◌, Option, none, some, ◌==◌, if◌then◌else◌, arith,
}
use zenoh_flat_c.Base.Int.{ℤ, pos, negsuc}
use zenoh_flat_c.Base.Text.{Str}

-- `argv[0]` is the program's name; an argument that was consumed is NULL.
abbrev pub Argv : Type 0
Argv = List (Option Str)

-- A pointer to a block, as a number, and the pointers to the blocks that are allocated.
abbrev pub Block : Type 0
Block = ℕ

abbrev pub Heap : Type 0
Heap = List Block

pub record Process : Type 0 where
  pub argv : Argv
  -- the blocks from `malloc` or `calloc` that are not freed yet
  pub blocks : Heap

-- Why the process exits: the help text was printed, and `exit(1)` follows, or a message about a wrong
-- argument, and `exit(-1)` follows.
pub data Exit : Type 0 where
  help_shown : Exit
  complaint : Str → Exit

-- `fault` is a `free` of a block that is not allocated.
pub data Run (A : Type 0) : Type 0 where
  ok : A → Process → Run A
  exits : Exit → Run A
  fault : Run A
  out_of_fuel : Run A

abbrev pub Cmd : Type 0 → Type 0
Cmd A = Process → Run A

abbrev pub pure : {A : Type 0} → A → Cmd A
pure = ok

abbrev pub exit_with : {A : Type 0} → Exit → Cmd A
exit_with e p = exits e

module _ {A B : Type 0} where
  abbrev pub and_then : Run A → (A → Cmd B) → Run B
  and_then (ok a p) k = k a p
  and_then (exits e) k = exits e
  and_then fault k = fault
  and_then out_of_fuel k = out_of_fuel

  infixl 5 ◌>>=◌ ◌>>◌
  abbrev pub ◌>>=◌ : Cmd A → (A → Cmd B) → Cmd B
  m >>= k = λ p. and_then (m p) k

  abbrev pub ◌>>◌ : Cmd A → Cmd B → Cmd B
  m >> n = m >>= λ _. n

-- A pointer that no allocated block has: it is above each.
unfoldable pub fresh : Heap → Block
fresh [] = 0
fresh (b ∷ heap) = b + suc (fresh heap)

abbrev pub grown : Heap → Heap
grown heap = fresh heap ∷ heap

-- `malloc` and `calloc`, which are taken to succeed, as the program takes them to.
abbrev pub allocate : Cmd Block
allocate p = ok (fresh p.blocks) (record p { blocks = grown p.blocks })

abbrev put_back : Block → Option Heap → Option Heap
put_back c none = none
put_back c (some heap) = some (c ∷ heap)

-- The heap without a block, if it is there.
unfoldable pub without : Block → Heap → Option Heap
without b [] = none
without b (c ∷ heap) = let rest = without b heap in if b == c then some heap else put_back c rest

abbrev pub freed : Option Heap → Process → Run (Unit {0})
freed none p = fault
freed (some heap) p = ok tt (record p { blocks = heap })

abbrev pub free : Block → Cmd (Unit {0})
free b p = freed (without b p.blocks) p

-- The block that was allocated last is freed.
pub without-first : (b : Block) (heap : Heap) → without b (b ∷ heap) ≡ some heap
unfolding without
without-first b heap = ground arith

-- The one in front of it is freed.
pub without-second :
    (b : Block) (heap : Heap) → without b (grown (b ∷ heap)) ≡ some (fresh (b ∷ heap) ∷ heap)
unfolding without fresh
without-second b heap = ground arith
