-- ===== src/Capped/Writer.antt =====
-- src/capped/writer.cc and blob.h: data is appended to a chain of blocks that comes from the pool. A
-- cursor into the last block is the number of bytes written to it.
pub mod Append
pub mod Blocks
pub mod Room
use dory.Common.{
  ℕ, zero, suc, ◌+◌, ◌-◌, ◌*◌, ◌/◌, ◌%◌, ◌≤◌, ◌<◌, ◌≡◌, refl, sym, ap, ◌∙◌, List, [], ◌∷◌, ◌++◌,
  Option, none, some, arith, length, take, drop, map, leb, ltb, if◌then◌else◌, append_assoc,
  append-nil, length-append, length-take, length-drop, Bool-cases, inl, inr, true, false, ◌⊎◌,
}
use dory.Common.Bytes.{Bytes}
use dory.Capped.Pool.{Pool, get_data_size, alloc_list, free_list, Allocates, alloc_list-Allocates}
use native.Mathlib.Nat.{div-add-mod, mod-lt}

abbrev pub Block : Type 0
Block = ℕ × Bytes

pub record Writer : Type 0 where
  pub blocks : List Block
  pub num_bytes : ℕ

unfoldable pub new_writer : Writer
new_writer = record { blocks = []; num_bytes = 0 }

-- The room behind the cursor.
pub avail : ℕ → List Block → ℕ
avail size [] = 0
avail size ((b, d) ∷ []) = size - length d
avail size (x ∷ y ∷ rest) = avail size (y ∷ rest)

-- A memcpy to the cursor.
pub append_last : List Block → Bytes → List Block
append_last [] data_bytes = []
append_last ((b, d) ∷ []) data_bytes = (b, d ++ data_bytes) ∷ []
append_last (x ∷ y ∷ rest) data_bytes = x ∷ append_last (y ∷ rest) data_bytes

-- The copying loop over new blocks: whole blocks, then what is left.
pub fill_blocks : ℕ → List ℕ → Bytes → List Block
fill_blocks size [] bytes = []
fill_blocks size (b ∷ bs) bytes =
    let rest = fill_blocks size bs (drop size bytes) in
    if ltb size (length bytes)
    then (b, take size bytes) ∷ rest
    else (b, bytes) ∷ map (λ c. (c, [])) bs

abbrev pub blocks_needed : ℕ → ℕ → ℕ
blocks_needed size n = (n + size - 1) / size

-- The second half of Write: allocate the blocks for `bytes` behind the chain so far, and fill them.
pub grow : Pool → List Block → Bytes → ℕ → Pool × Option Writer
grow p chain bytes num_bytes =
    let size = get_data_size p in
    let (p', got) = alloc_list p (blocks_needed size (length bytes)) in
    elim got [
      | none ↦ (p', none)
      | some bs ↦
          (p', some (record { blocks = chain ++ fill_blocks size bs bytes; num_bytes = num_bytes }))
    ]

-- Write on a chain: start one, or use the room in the last block and start more blocks for the rest.
pub write_chain : Pool → List Block → Bytes → ℕ → Pool × Option Writer
write_chain p [] bytes total = grow p [] bytes total
write_chain p (x ∷ xs) bytes total =
    let room = avail (get_data_size p) (x ∷ xs) in
    if leb (length bytes) room
    then (p, some (record { blocks = append_last (x ∷ xs) bytes; num_bytes = total }))
    else grow p (append_last (x ∷ xs) (take room bytes)) (drop room bytes) total

-- `none` is the exception of the pool: the writer's own fields are not assigned then.
unfoldable pub write : Pool → Writer → Bytes → Pool × Option Writer
write p w bytes = write_chain p w.blocks bytes (w.num_bytes + length bytes)

-- CancelBlob drops the data, and DraftBlob hands the chain over as a blob; both reset the writer.
unfoldable pub cancel_blob : Pool → Writer → Pool × Writer
cancel_blob p w = (free_list (map (λ b. b.0) w.blocks) p, new_writer)

-- The number of bytes in the last block: `Cursor - LastBlock->Data`.
unfoldable pub last_size : List Block → ℕ
last_size [] = 0
last_size ((b, d) ∷ []) = length d
last_size (x ∷ y ∷ rest) = last_size (y ∷ rest)

pub record Blob : Type 0 where
  pub block_size : ℕ
  pub blocks : List Block
  pub last_block_size : ℕ
  pub num_bytes : ℕ

unfoldable pub draft_blob : Pool → Writer → Blob × Writer
unfolding new_writer
draft_blob p w = (
  record {
    block_size = get_data_size p;
    blocks = w.blocks;
    last_block_size = last_size w.blocks;
    num_bytes = w.num_bytes;
  },
  new_writer,
)

-- The bytes of a chain.
unfoldable pub contents : List Block → Bytes
contents [] = []
contents ((b, d) ∷ rest) = d ++ contents rest

-- Every block but the last is full, and the last holds something.
abbrev pub IsPacked : ℕ → List Block → Type 0
IsPacked size [] = Unit {0}
IsPacked size ((b, d) ∷ []) = (0 < length d) × (length d ≤ size)
IsPacked size ((b, d) ∷ y ∷ rest) = (length d ≡ size) × IsPacked size (y ∷ rest)

pub record IsValid (size : ℕ) (w : Writer) : Type 0 where
  pub packed : IsPacked size w.blocks
  pub counted : w.num_bytes ≡ length (contents w.blocks)
