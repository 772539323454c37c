-- ===== src/Capped/Writer/Room.antt =====
-- When src/capped/writer.cc runs out of blocks.
use dory.Common.{
  ℕ, zero, suc, ◌+◌, ◌*◌, ◌≤◌, ◌<◌, ◌≡◌, refl, sym, ap, ◌∙◌, subst, List, [], ◌∷◌, ◌++◌, Option,
  none, some, arith, length, take, drop, leb, length-append, length-drop, Bool-cases, inl, inr,
  true, count_if,
}
use dory.Common.Bytes.{Bytes}
use dory.Capped.Pool.{Pool, get_data_size, alloc_list, Allocates, alloc_list-Allocates}
use dory.Capped.Writer.{
  Block, Writer, avail, append_last, fill_blocks, blocks_needed, grow, write_chain, write, contents,
  IsPacked, IsValid,
}
use dory.Capped.Writer.Append.{Appends, write-Appends, blocks_needed_bounds}
use dory.Capped.Writer.Blocks.{count_chain, Keeps, write-Keeps}

fewer_blocks : (size a b : ℕ) → a * size < b * size + size → a ≤ b
fewer_blocks size zero b h = omega arith
fewer_blocks size (suc a) zero h = absurd (omega arith)
fewer_blocks size (suc a) (suc b) h = omega (arith, fewer_blocks size a b (omega arith))

-- The number of blocks that hold so many bytes, all but the last of them full.
blocks_needed_unique :
    (size n k : ℕ) → 0 < size → n ≤ k * size → k * size < n + size → k ≡ blocks_needed size n
blocks_needed_unique size n k positive low high =
    let m = blocks_needed size n in
    let bounds = blocks_needed_bounds size n positive in
    omega (
      arith,
      fewer_blocks size k m (omega (arith, high, bounds.0)),
      fewer_blocks size m k (omega (arith, low, bounds.1)),
    )

pub blocks_needed_mono :
    (size n m : ℕ) → 0 < size → n ≤ m → blocks_needed size n ≤ blocks_needed size m
blocks_needed_mono size n m positive le =
    let low = blocks_needed_bounds size n positive in
    let high = blocks_needed_bounds size m positive in
    fewer_blocks size (blocks_needed size n) (blocks_needed size m)
      (omega (arith, le, low.1, high.0))

packed_bounds :
    (size : ℕ) (blocks : List Block)
    → 0 < size
    → IsPacked size blocks
    → (length (contents blocks) ≤ length blocks * size)
      × (length blocks * size < length (contents blocks) + size)
unfolding contents
packed_bounds size [] positive k = (omega arith, omega arith)
packed_bounds size ((b, d) ∷ []) positive k =
    (omega (arith, length-append d []), omega (arith, length-append d []))
packed_bounds size ((b, d) ∷ y ∷ rest) positive k =
    let more = packed_bounds size (y ∷ rest) positive k.1 in
    let both = length-append d (contents (y ∷ rest)) in
    (omega (arith, more, both, k.0), omega (arith, more, both, k.0))

-- A chain has as many blocks as its bytes need.
pub length-packed :
    (size : ℕ) (blocks : List Block)
    → 0 < size
    → IsPacked size blocks
    → length blocks ≡ blocks_needed size (length (contents blocks))
length-packed size blocks positive k =
    let bounds = packed_bounds size blocks positive k in
    blocks_needed_unique size (length (contents blocks)) (length blocks) positive bounds.0 bounds.1

packed_room :
    (size : ℕ) (x : Block) (xs : List Block)
    → IsPacked size (x ∷ xs)
    → length (contents (x ∷ xs)) + avail size (x ∷ xs) ≡ length (x ∷ xs) * size
unfolding contents avail
packed_room size (b, d) [] k = omega (arith, length-append d [], k)
packed_room size (b, d) (y ∷ rest) k =
    omega (arith, packed_room size y rest k.1, length-append d (contents (y ∷ rest)), k.0)

-- Blocks for so many bytes more behind a chain whose last block is full.
blocks_needed-more :
    (size n l back : ℕ)
    → 0 < size
    → n ≡ l * size + back
    → blocks_needed size n ≡ l + blocks_needed size back
blocks_needed-more size n l back positive e =
    let k = blocks_needed size back in
    let bounds = blocks_needed_bounds size back positive in
    sym (
      blocks_needed_unique size n (l + k) positive (omega (arith, e, bounds.0))
        (omega (arith, e, bounds.1)))

-- What a throw means: with so many free blocks, more would be needed.
abbrev Lacks : ℕ → ℕ → Pool × Option Writer → Type 0
Lacks free needed (q, none) = free < needed
Lacks free needed (q, some w) = Unit {0}

grow-Lacks :
    (p : Pool) (chain : List Block) (back : Bytes) (n : ℕ)
    → Lacks (length p.free) (blocks_needed (get_data_size p) (length back)) (grow p chain back n)
unfolding grow
grow-Lacks p chain back n =
    go (alloc_list p (blocks_needed size (length back)))
      (alloc_list-Allocates p (blocks_needed size (length back)))
  where
    size : ℕ
    size = get_data_size p

    go :
        (r : Pool × Option (List ℕ))
        → Allocates p (blocks_needed size (length back)) r
        → Lacks (length p.free) (blocks_needed size (length back)) (elim r.1 [
          | none ↦ (r.0, none)
          | some bs ↦
              (r.0, some (record { blocks = chain ++ fill_blocks size bs back; num_bytes = n }))
        ])
    go (q, none) a = a.0
    go (q, some bs) a = tt

Lacks-more :
    (l free needed : ℕ) (r : Pool × Option Writer)
    → Lacks free needed r
    → Lacks (l + free) (l + needed) r
Lacks-more l free needed (q, none) h = omega (arith, h)
Lacks-more l free needed (q, some w) h = tt

write_chain-Lacks :
    (p : Pool) (blocks : List Block) (bytes : Bytes) (total : ℕ)
    → 0 < get_data_size p
    → IsPacked (get_data_size p) blocks
    → Lacks
        (length blocks + length p.free)
        (blocks_needed (get_data_size p) (length (contents blocks) + length bytes))
        (write_chain p blocks bytes total)
unfolding write_chain contents
write_chain-Lacks p [] bytes total positive k =
    subst
      (λ f. Lacks f (blocks_needed (get_data_size p) (0 + length bytes)) (grow p [] bytes total))
      (omega arith)
      (subst
        (λ n. Lacks (length p.free) (blocks_needed (get_data_size p) n) (grow p [] bytes total))
        (omega arith) (grow-Lacks p [] bytes total))
write_chain-Lacks p (x ∷ xs) bytes total positive k =
    let size = get_data_size p in
    let room = avail size (x ∷ xs) in
    let l = length (x ∷ xs) in
    elim (Bool-cases (leb (length bytes) room)) [
      | inl fits ↦ rw fits tt
      | inr more ↦
          let longer : room < length bytes = ground (arith, more) in
          let back = drop room bytes in
          let chain = append_last (x ∷ xs) (take room bytes) in
          let needed =
            blocks_needed-more size (length (contents (x ∷ xs)) + length bytes) l (length back)
              positive (omega (arith, longer, packed_room size x xs k, length-drop room bytes)) in
          rw more (
            subst (λ n. Lacks (l + length p.free) n (grow p chain back total)) (sym needed)
              (Lacks-more l (length p.free) (blocks_needed size (length back))
                (grow p chain back total) (grow-Lacks p chain back total)))
    ]

count-all : {A : Type 0} (xs : List A) → count_if (λ x. true) xs ≡ length xs
count-all [] = refl
count-all (x ∷ xs) = omega (arith, count-all xs)

count_chain-all : (blocks : List Block) → count_chain (λ b. true) blocks ≡ length blocks
count_chain-all [] = refl
count_chain-all (x ∷ rest) = omega (arith, count_chain-all rest)

-- When Write has room: a throw means that the writer's blocks and the free ones are too few for all the
-- bytes, and otherwise the chain is as long as they need, and the free list as much shorter.
abbrev pub Fits : Pool → Writer → Bytes → Pool × Option Writer → Type 0
Fits p w bytes (q, none) =
    length w.blocks + length p.free
    < blocks_needed (get_data_size p) (length (contents w.blocks) + length bytes)
Fits p w bytes (q, some w') =
    (length w'.blocks ≡ blocks_needed (get_data_size p) (length (contents w.blocks) + length bytes))
    × (length w'.blocks + length q.free ≡ length w.blocks + length p.free)

pub write-Fits :
    (p : Pool) (w : Writer) (bytes : Bytes)
    → 0 < get_data_size p
    → IsValid (get_data_size p) w
    → Fits p w bytes (write p w bytes)
write-Fits p w bytes positive v =
    go (write p w bytes)
      (unfold write in
        write_chain-Lacks p w.blocks bytes (w.num_bytes + length bytes) positive v.packed)
      (write-Appends p w bytes positive v) (write-Keeps (λ b. true) p w bytes)
  where
    go :
        (r : Pool × Option Writer)
        → Lacks
            (length w.blocks + length p.free)
            (blocks_needed (get_data_size p) (length (contents w.blocks) + length bytes))
            r
        → Appends p w bytes r
        → Keeps
            (λ b. true)
            (count_chain (λ b. true) w.blocks + count_if (λ b. true) p.free)
            w.blocks
            r
        → Fits p w bytes r
    go (q, none) lacks a k = lacks
    go (q, some w') lacks a k = (
      length-packed (get_data_size p) w'.blocks positive a.1.packed
          ∙ ap (blocks_needed (get_data_size p))
              (ap length a.0 ∙ length-append (contents w.blocks) bytes),
      omega (
        arith,
        k,
        count_chain-all w'.blocks,
        count_chain-all w.blocks,
        count-all p.free,
        count-all q.free,
      ),
    )
