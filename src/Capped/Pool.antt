-- ===== src/Capped/Pool.antt =====
-- src/capped/pool.cc: the free list. `none` stands for the exception TMemoryCapReached. The mutex
-- makes each call one step.
use dory.Common.{
  ℕ, zero, suc, ◌+◌, ◌-◌, ◌≤◌, ◌<◌, ◌≡◌, refl, ap, ◌∙◌, List, [], ◌∷◌, Option, none, some, arith,
  length, max, take, drop, count_if, length-take, Bool,
}
use native.Mathlib.Decide.{dec_lt}

pub record Pool : Type 0 where
  pub block_size : ℕ
  pub block_count : ℕ
  pub free : List ℕ

-- The size of a pointer, which each block spends on its link.
abbrev pub block_overhead : ℕ
block_overhead = 8

-- sizeof(TBlock): the link and a placeholder of the size of a pointer.
abbrev pub min_block_size : ℕ
min_block_size = 16

-- The constructor links block after block to the head of the list.
link_blocks : ℕ → List ℕ
link_blocks zero = []
link_blocks (suc n) = n ∷ link_blocks n

pub new_pool : ℕ → ℕ → Pool
unfolding link_blocks
new_pool block_size block_count = record {
  block_size = max block_size min_block_size;
  block_count = block_count;
  free = link_blocks block_count;
}

unfoldable pub get_data_size : Pool → ℕ
get_data_size p = p.block_size - block_overhead

pub alloc : Pool → Option (ℕ × Pool)
alloc p = elim p.free [ [] ↦ none | b ∷ rest ↦ some (b, record p { free = rest }) ]

-- DoFreeList returns the blocks of a chain one by one.
pub free_list : List ℕ → Pool → Pool
free_list [] p = p
free_list (b ∷ bs) p = free_list bs (record p { free = b ∷ p.free })

-- The loop of AllocList, with the chain `taken` so far; what is taken is returned if the pool is out.
take_blocks : ℕ → List ℕ → List ℕ → Pool → Pool × Option (List ℕ)
take_blocks zero free taken p = (record p { free = free }, some taken)
take_blocks (suc n) [] taken p = (free_list taken (record p { free = [] }), none)
take_blocks (suc n) (b ∷ free) taken p = take_blocks n free (b ∷ taken) p

pub alloc_list : Pool → ℕ → Pool × Option (List ℕ)
unfolding take_blocks free_list
alloc_list p n = take_blocks n p.free [] p

-- The blocks in the order in which they were pushed.
abbrev pub push_all : List ℕ → List ℕ → List ℕ
push_all [] ys = ys
push_all (x ∷ xs) ys = push_all xs (x ∷ ys)

free_list-push_all :
    (bs : List ℕ) (p : Pool) → free_list bs p ≡ record p { free = push_all bs p.free }
unfolding free_list
free_list-push_all [] p = refl
free_list-push_all (b ∷ bs) p = free_list-push_all bs (record p { free = b ∷ p.free })

-- What was taken goes back in the opposite order, so the free list is as it was.
take_blocks-short :
    (n : ℕ) (free taken : List ℕ) (p : Pool)
    → length free < n
    → take_blocks n free taken p ≡ (record p { free = push_all taken free }, none)
unfolding take_blocks
take_blocks-short zero free taken p h = absurd (omega arith)
take_blocks-short (suc n) [] taken p h = ap (λ q. (q, none)) (free_list-push_all taken _)
take_blocks-short (suc n) (b ∷ free) taken p h =
    take_blocks-short n free (b ∷ taken) p (omega arith)

take_blocks-enough :
    (n : ℕ) (free taken : List ℕ) (p : Pool)
    → n ≤ length free
    → take_blocks n free taken p
      ≡ (record p { free = drop n free }, some (push_all (take n free) taken))
unfolding take_blocks
take_blocks-enough zero free taken p h = refl
take_blocks-enough (suc n) [] taken p h = absurd (omega arith)
take_blocks-enough (suc n) (b ∷ free) taken p h =
    take_blocks-enough n free (b ∷ taken) p (omega arith)

-- With enough free blocks AllocList takes that many from the head of the free list.
pub alloc_list-enough :
    (p : Pool) (n : ℕ)
    → n ≤ length p.free
    → alloc_list p n ≡ (record p { free = drop n p.free }, some (push_all (take n p.free) []))
unfolding alloc_list
alloc_list-enough p n h = take_blocks-enough n p.free [] p h

-- With too few, it throws and leaves the pool as it was, down to the order of the free list.
pub alloc_list-short : (p : Pool) (n : ℕ) → length p.free < n → alloc_list p n ≡ (p, none)
unfolding alloc_list
alloc_list-short p n h = take_blocks-short n p.free [] p h

length-push_all : (xs ys : List ℕ) → length (push_all xs ys) ≡ length xs + length ys
length-push_all [] ys = omega arith
length-push_all (x ∷ xs) ys = omega (arith, length-push_all xs (x ∷ ys))

count_if-push_all :
    (f : ℕ → Bool) (xs ys : List ℕ) → count_if f (push_all xs ys) ≡ count_if f xs + count_if f ys
count_if-push_all f [] ys = omega arith
count_if-push_all f (x ∷ xs) ys = omega (arith, count_if-push_all f xs (x ∷ ys))

count_if-take-drop :
    (f : ℕ → Bool) (n : ℕ) (xs : List ℕ)
    → count_if f (take n xs) + count_if f (drop n xs) ≡ count_if f xs
count_if-take-drop f zero xs = omega arith
count_if-take-drop f (suc n) [] = omega arith
count_if-take-drop f (suc n) (x ∷ xs) = omega (arith, count_if-take-drop f n xs)

-- What a call of AllocList has to do: with enough free blocks, hand over exactly `n` of them, so that
-- the chain and the free list are together the old free list; with too few, throw and change nothing.
abbrev pub Allocates : Pool → ℕ → Pool × Option (List ℕ) → Type 0
Allocates p n (q, none) = (length p.free < n) × (q ≡ p)
Allocates p n (q, some chain) =
    (length chain ≡ n)
    × ((f : ℕ → Bool) → count_if f chain + count_if f q.free ≡ count_if f p.free)
    × (q.block_size ≡ p.block_size)

-- AllocList of n blocks returns a chain of n blocks, which together with the blocks still free are
-- those that were free, each as often, or, if fewer than n are free, throws with the pool as it
-- was.
pub alloc_list-Allocates : (p : Pool) (n : ℕ) → Allocates p n (alloc_list p n)
alloc_list-Allocates p n = elim (dec_lt (length p.free) n) [
  | yes short ↦ rw (alloc_list-short p n short) (short, refl)
  | no enough ↦ rw (alloc_list-enough p n (omega arith)) (
    length-push_all (take n p.free) [] ∙ omega (arith, length-take n p.free (omega arith)),
    λ f. omega (arith, count_if-push_all f (take n p.free) [], count_if-take-drop f n p.free),
    refl,
  )
]

-- Free gives the blocks back: each is in the free list once more.
pub count_if-free_list :
    (f : ℕ → Bool) (bs : List ℕ) (p : Pool)
    → count_if f (free_list bs p).free ≡ count_if f bs + count_if f p.free
count_if-free_list f bs p = rw (free_list-push_all bs p) (count_if-push_all f bs p.free)
