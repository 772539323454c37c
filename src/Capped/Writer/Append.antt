-- ===== src/Capped/Writer/Append.antt =====
-- What TWriter::Write does to the bytes written so far, on success and on failure.
use dory.Common.{
  ℕ, zero, suc, ◌+◌, ◌-◌, ◌*◌, ◌≤◌, ◌<◌, ◌≡◌, refl, sym, ap, ◌∙◌, List, [], ◌∷◌, ◌++◌, Option, none,
  some, arith, length, take, drop, map, leb, ltb, append_assoc, append-nil, length-append,
  length-take, length-drop, Bool-cases, inl, inr, true, false, ◌⊎◌,
}
use dory.Common.Bytes.{Bytes}
use dory.Capped.Pool.{Pool, get_data_size, alloc_list, Allocates, alloc_list-Allocates}
use dory.Capped.Writer.{
  Block, Writer, avail, append_last, fill_blocks, blocks_needed, grow, write_chain, write, contents,
  IsPacked, IsValid,
}
use mathlib.Core.Path.{ap₂}
use native.Mathlib.Nat.{div-add-mod, mod-lt}

contents-append : (xs ys : List Block) → contents (xs ++ ys) ≡ contents xs ++ contents ys
unfolding contents
contents-append [] ys = refl
contents-append ((b, d) ∷ rest) ys =
    ap (◌++◌ d) (contents-append rest ys) ∙ sym (append_assoc d (contents rest) (contents ys))

contents-append_last :
    (x : Block) (xs : List Block) (bytes : Bytes)
    → contents (append_last (x ∷ xs) bytes) ≡ contents (x ∷ xs) ++ bytes
unfolding contents append_last
contents-append_last (b, d) [] bytes = simp (append-nil)
contents-append_last (b, d) (y ∷ rest) bytes =
    ap (◌++◌ d) (contents-append_last y rest bytes) ∙ sym (append_assoc d _ bytes)

-- The number of new blocks is right: the data fits, and does not fit into one fewer.
pub blocks_needed_bounds :
    (size n : ℕ)
    → 0 < size
    → (n ≤ blocks_needed size n * size) × (blocks_needed size n * size < n + size)
blocks_needed_bounds size n h =
    let e = div-add-mod (n + size - 1) size in
    let r = mod-lt (n + size - 1) h in (omega (arith, e, r), omega (arith, e, r))

take-append-drop : (n : ℕ) (xs : Bytes) → take n xs ++ drop n xs ≡ xs
take-append-drop zero xs = refl
take-append-drop (suc n) [] = refl
take-append-drop (suc n) (x ∷ xs) = ap (◌∷◌ x) (take-append-drop n xs)

fill_blocks-cons :
    (size b : ℕ) (bs : List ℕ) (bytes : Bytes)
    → (y : Block) × (ys : List Block) × (fill_blocks size (b ∷ bs) bytes ≡ y ∷ ys)
unfolding fill_blocks
fill_blocks-cons size b bs bytes = elim (Bool-cases (ltb size (length bytes))) [
  | inl e ↦ ((b, take size bytes), fill_blocks size bs (drop size bytes), rw e)
  | inr e ↦ ((b, bytes), map (λ c. (c, [])) bs, rw e)
]

IsPacked-cons :
    (size b : ℕ) (d : Bytes) (y : Block) (ys rest : List Block)
    → rest ≡ y ∷ ys
    → length d ≡ size
    → IsPacked size rest
    → IsPacked size ((b, d) ∷ rest)
IsPacked-cons size b d y ys rest e h k = rw e (h, rw e at k)

contents-fill_blocks :
    (size : ℕ) (bs : List ℕ) (bytes : Bytes)
    → length bytes ≤ length bs * size
    → length bs * size < length bytes + size
    → (contents (fill_blocks size bs bytes) ≡ bytes) × IsPacked size (fill_blocks size bs bytes)
unfolding contents fill_blocks
contents-fill_blocks size [] [] h k = (refl, tt)
contents-fill_blocks size [] (x ∷ xs) h k = absurd (omega arith)
contents-fill_blocks size (b ∷ []) bytes h k =
    let last : ltb size (length bytes) ≡ false = ground arith in
    rw last (append-nil bytes, (omega arith, omega arith))
contents-fill_blocks size (b ∷ c ∷ bs) bytes h k =
    let grown : size ≤ suc (length bs) * size = omega arith in
    let more : ltb size (length bytes) ≡ true = ground arith in
    let cut = length-drop size bytes in
    let rest = contents-fill_blocks size (c ∷ bs) (drop size bytes) (omega arith) (omega arith) in
    let (y, ys, e) = fill_blocks-cons size c bs (drop size bytes) in
    rw more (
      ap (◌++◌ (take size bytes)) rest.0 ∙ take-append-drop size bytes,
      IsPacked-cons size b (take size bytes) y ys _ e (length-take size bytes (omega arith)) rest.1,
    )

abbrev AllFull : ℕ → List Block → Type 0
AllFull size [] = Unit {0}
AllFull size ((b, d) ∷ rest) = (length d ≡ size) × AllFull size rest

IsPacked-append :
    (size : ℕ) (xs : List Block) (y : Block) (ys : List Block)
    → AllFull size xs
    → IsPacked size (y ∷ ys)
    → IsPacked size (xs ++ (y ∷ ys))
IsPacked-append size [] y ys f k = k
IsPacked-append size ((b, d) ∷ []) y ys f k = (f.0, k)
IsPacked-append size ((b, d) ∷ x ∷ xs) y ys f k = (f.0, IsPacked-append size (x ∷ xs) y ys f.1 k)

append_last-AllFull :
    (size : ℕ) (x : Block) (xs : List Block) (extra : Bytes)
    → IsPacked size (x ∷ xs)
    → length extra ≡ avail size (x ∷ xs)
    → AllFull size (append_last (x ∷ xs) extra)
unfolding append_last avail
append_last-AllFull size (b, d) [] extra k e = (omega (arith, length-append d extra), tt)
append_last-AllFull size (b, d) (y ∷ rest) extra k e =
    (k.0, append_last-AllFull size y rest extra k.1 e)

append_last-IsPacked :
    (size : ℕ) (x : Block) (xs : List Block) (extra : Bytes)
    → IsPacked size (x ∷ xs)
    → length extra ≤ avail size (x ∷ xs)
    → IsPacked size (append_last (x ∷ xs) extra)
unfolding append_last avail
append_last-IsPacked size (b, d) [] extra k e =
    (omega (arith, length-append d extra), omega (arith, length-append d extra))
append_last-IsPacked size (b, d) (y ∷ []) extra k e =
    (k.0, append_last-IsPacked size y [] extra k.1 e)
append_last-IsPacked size (b, d) (y ∷ z ∷ rest) extra k e =
    (k.0, append_last-IsPacked size y (z ∷ rest) extra k.1 e)

-- What Write has to do: append the bytes to those written so far and keep the chain well formed, or,
-- with too few free blocks, throw and leave the pool as it was (the writer is not assigned then).
abbrev pub Appends : Pool → Writer → Bytes → Pool × Option Writer → Type 0
Appends p w bytes (q, none) = q ≡ p
Appends p w bytes (q, some w') =
    (contents w'.blocks ≡ contents w.blocks ++ bytes)
    × IsValid (get_data_size p) w'
    × (get_data_size q ≡ get_data_size p)

Appends-of :
    (p q : Pool) (w w' : Writer) (bytes : Bytes)
    → contents w'.blocks ≡ contents w.blocks ++ bytes
    → IsPacked (get_data_size p) w'.blocks
    → w'.num_bytes ≡ w.num_bytes + length bytes
    → w.num_bytes ≡ length (contents w.blocks)
    → q.block_size ≡ p.block_size
    → Appends p w bytes (q, some w')
unfolding get_data_size
Appends-of p q w w' bytes e k n c s = (
  e,
  record {
    packed = k;
    counted = omega (arith, ap length e, length-append (contents w.blocks) bytes);
  },
  rw s,
)

-- The chain that `grow` makes of a chain of full blocks.
grown-IsPacked :
    (size : ℕ) (chain : List Block) (bs : List ℕ) (bytes : Bytes)
    → AllFull size chain
    → IsPacked size (fill_blocks size bs bytes)
    → (chain ≡ []) ⊎ (0 < length bs)
    → IsPacked size (chain ++ fill_blocks size bs bytes)
grown-IsPacked size chain bs bytes f k (inl e) = rw e k
grown-IsPacked size chain [] bytes f k (inr h) = absurd (omega arith)
grown-IsPacked size chain (b ∷ bs) bytes f k (inr h) =
    let (y, ys, e) = fill_blocks-cons size b bs bytes in
    rw e (IsPacked-append size chain y ys f (rw e at k))

positive_blocks : (n k size : ℕ) → 0 < n → n ≤ k * size → 0 < k
positive_blocks n zero size h e = absurd (omega arith)
positive_blocks n (suc k) size h e = omega arith

module _ (p : Pool) (w : Writer) (bytes : Bytes) (positive : 0 < get_data_size p)
    (counted : w.num_bytes ≡ length (contents w.blocks)) where
  grow-Appends :
      (chain : List Block) (front back : Bytes)
      → front ++ back ≡ bytes
      → contents chain ≡ contents w.blocks ++ front
      → AllFull (get_data_size p) chain
      → (chain ≡ []) ⊎ (0 < length back)
      → Appends p w bytes (grow p chain back (w.num_bytes + length bytes))
  unfolding grow
  grow-Appends chain front back split e full some_left =
      go (alloc_list p (blocks_needed size (length back)))
        (alloc_list-Allocates p (blocks_needed size (length back)))
    where
      size : ℕ
      size = get_data_size p

      go :
          (r : Pool × Option (List ℕ))
          → Allocates p (blocks_needed size (length back)) r
          → Appends p w bytes (elim r.1 [
            | none ↦ (r.0, none)
            | some bs ↦ (
              r.0,
              some (record {
                blocks = chain ++ fill_blocks size bs back;
                num_bytes = w.num_bytes + length bytes;
              }),
            )
          ])
      go (q, none) a = a.1
      go (q, some bs) a =
          let bounds = blocks_needed_bounds size (length back) positive in
          let n = a.0 in
          let filled = contents-fill_blocks size bs back (rw n bounds.0) (rw n bounds.1) in
          Appends-of p q w _ bytes
            (contents-append chain (fill_blocks size bs back)
              ∙ ap₂ ◌++◌ e filled.0
              ∙ append_assoc (contents w.blocks) front back
              ∙ ap (◌++◌ (contents w.blocks)) split)
            (grown-IsPacked size chain bs back full filled.1 (some_blocks some_left)) refl counted
            a.2
        where
          some_blocks : (chain ≡ []) ⊎ (0 < length back) → (chain ≡ []) ⊎ (0 < length bs)
          some_blocks (inl empty) = inl empty
          some_blocks (inr more) = inr (
              positive_blocks (length back) (length bs) size more
                (rw a.0 (blocks_needed_bounds size (length back) positive).0))

write_chain-Appends :
    (p : Pool) (blocks : List Block) (n : ℕ) (bytes : Bytes)
    → 0 < get_data_size p
    → IsPacked (get_data_size p) blocks
    → n ≡ length (contents blocks)
    → let w : Writer = record { blocks = blocks; num_bytes = n } in
      Appends p w bytes (write_chain p blocks bytes (n + length bytes))
unfolding write_chain
write_chain-Appends p [] n bytes positive k c =
    grow-Appends p (record { blocks = []; num_bytes = n }) bytes positive c [] [] bytes refl
      (sym (append-nil (contents []))) tt (inl refl)
write_chain-Appends p (x ∷ xs) n bytes positive k c =
    let size = get_data_size p in
    let room = avail size (x ∷ xs) in
    let w : Writer = record { blocks = x ∷ xs; num_bytes = n } in
    elim (Bool-cases (leb (length bytes) room)) [
      | inl fits ↦ rw fits (
          Appends-of p p w _ bytes (contents-append_last x xs bytes)
            (append_last-IsPacked size x xs bytes k (ground (arith, fits))) refl c refl)
      | inr more ↦
          let longer : room < length bytes = ground (arith, more) in
          rw more (
            grow-Appends p w bytes positive c (append_last (x ∷ xs) (take room bytes))
              (take room bytes) (drop room bytes) (take-append-drop room bytes)
              (contents-append_last x xs (take room bytes))
              (append_last-AllFull size x xs (take room bytes) k
                (length-take room bytes (omega arith)))
              (inr (omega (arith, length-drop room bytes))))
    ]

-- With blocks that have room for data, and a writer whose blocks are full but for the last, whose
-- last block holds something and whose size is that of its bytes, Write makes a writer of the same
-- kind that holds its bytes followed by the new ones, or throws and leaves the pool as it was.
pub write-Appends :
    (p : Pool) (w : Writer) (bytes : Bytes)
    → 0 < get_data_size p
    → IsValid (get_data_size p) w
    → Appends p w bytes (write p w bytes)
unfolding write
write-Appends p w bytes positive v =
    write_chain-Appends p w.blocks w.num_bytes bytes positive v.packed v.counted
