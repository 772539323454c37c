-- ===== src/Capped/Writer/Blocks.antt =====
-- Counting the blocks of a writer's chain and of the pool (src/capped/writer.cc).
use dory.Common.{
  ℕ, ◌+◌, ◌≡◌, refl, List, [], ◌∷◌, ◌++◌, Option, none, some, arith, length, take, drop, map, leb,
  ltb, Bool, Bool-cases, inl, inr, count_if,
}
use dory.Common.Bytes.{Bytes}
use dory.Capped.Pool.{
  Pool, get_data_size, alloc_list, Allocates, alloc_list-Allocates, count_if-free_list,
}
use dory.Capped.Writer.{
  Block, Writer, avail, append_last, fill_blocks, blocks_needed, grow, write_chain, write,
  cancel_blob,
}

-- The number of blocks of a chain that pass a test.
abbrev pub count_chain : (ℕ → Bool) → List Block → ℕ
count_chain f chain = count_if f (map (λ b. b.0) chain)

-- How the blocks passing `f` are spread over the chain and the pool after a call that had `n` of them:
-- a failed call leaves the old chain to its writer.
abbrev pub Keeps : (ℕ → Bool) → ℕ → List Block → Pool × Option Writer → Type 0
Keeps f n chain (q, none) = count_chain f chain + count_if f q.free ≡ n
Keeps f n chain (q, some w) = count_chain f w.blocks + count_if f q.free ≡ n

module _ (f : ℕ → Bool) where
  count_chain-append :
      (xs ys : List Block) → count_chain f (xs ++ ys) ≡ count_chain f xs + count_chain f ys
  count_chain-append [] ys = omega arith
  count_chain-append (x ∷ xs) ys = omega (arith, count_chain-append xs ys)

  count_chain-append_last :
      (chain : List Block) (bytes : Bytes)
      → count_chain f (append_last chain bytes) ≡ count_chain f chain
  unfolding append_last
  count_chain-append_last [] bytes = refl
  count_chain-append_last ((b, d) ∷ []) bytes = refl
  count_chain-append_last (x ∷ y ∷ rest) bytes =
      omega (arith, count_chain-append_last (y ∷ rest) bytes)

  count_empty : (bs : List ℕ) → count_chain f (map (λ c. (c, [])) bs) ≡ count_if f bs
  count_empty [] = refl
  count_empty (b ∷ bs) = omega (arith, count_empty bs)

  count_chain-fill_blocks :
      (size : ℕ) (bs : List ℕ) (bytes : Bytes)
      → count_chain f (fill_blocks size bs bytes) ≡ count_if f bs
  unfolding fill_blocks
  count_chain-fill_blocks size [] bytes = refl
  count_chain-fill_blocks size (b ∷ bs) bytes = elim (Bool-cases (ltb size (length bytes))) [
    | inl e ↦ rw e (omega (arith, count_chain-fill_blocks size bs (drop size bytes)))
    | inr e ↦ rw e (omega (arith, count_empty bs))
  ]

  grow-Keeps :
      (p : Pool) (old chain : List Block) (bytes : Bytes) (n : ℕ)
      → count_chain f chain ≡ count_chain f old
      → Keeps f (count_chain f old + count_if f p.free) old (grow p chain bytes n)
  unfolding grow
  grow-Keeps p old chain bytes n same =
      go (alloc_list p (blocks_needed size (length bytes)))
        (alloc_list-Allocates p (blocks_needed size (length bytes)))
    where
      size : ℕ
      size = get_data_size p

      go :
          (r : Pool × Option (List ℕ))
          → Allocates p (blocks_needed size (length bytes)) r
          → Keeps f (count_chain f old + count_if f p.free) old (elim r.1 [
            | none ↦ (r.0, none)
            | some bs ↦
                (r.0, some (record { blocks = chain ++ fill_blocks size bs bytes; num_bytes = n }))
          ])
      go (q, none) a = rw a.1 refl
      go (q, some bs) a = omega (
        arith,
        same,
        a.1 f,
        count_chain-append chain (fill_blocks size bs bytes),
        count_chain-fill_blocks size bs bytes,
      )

  -- For every test on blocks, the writer's chain and the pool's free list have together as many
  -- blocks that pass it after Write as before, where a writer whose Write throws has its old chain.
  pub write-Keeps :
      (p : Pool) (w : Writer) (bytes : Bytes)
      → Keeps f (count_chain f w.blocks + count_if f p.free) w.blocks (write p w bytes)
  unfolding write write_chain
  write-Keeps p w bytes = go w.blocks
    where
      total : ℕ
      total = w.num_bytes + length bytes

      go :
          (chain : List Block)
          → Keeps f
              (count_chain f chain + count_if f p.free)
              chain
              (write_chain p chain bytes total)
      go [] = grow-Keeps p [] [] bytes total refl
      go (x ∷ xs) =
          let room = avail (get_data_size p) (x ∷ xs) in
          elim (Bool-cases (leb (length bytes) room)) [
            | inl e ↦ rw e (omega (arith, count_chain-append_last (x ∷ xs) bytes))
            | inr e ↦ rw e (
                grow-Keeps p (x ∷ xs) (append_last (x ∷ xs) (take room bytes)) (drop room bytes)
                  total (count_chain-append_last (x ∷ xs) (take room bytes)))
          ]

  -- CancelBlob and the destructor return the chain.
  pub count-cancel_blob :
      (p : Pool) (w : Writer)
      → count_if f (cancel_blob p w).0.free ≡ count_chain f w.blocks + count_if f p.free
  unfolding cancel_blob
  count-cancel_blob p w = count_if-free_list f (map (λ b. b.0) w.blocks) p
