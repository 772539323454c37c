-- ===== src/Tests/Blobs.antt =====
-- Concrete runs of src/capped.
use dory.Common.{◌≡◌, refl, [], ◌∷◌, take, drop, leb, length, arith}
use dory.Common.Bytes.{Bytes}
use dory.Capped.Pool.{Pool, get_data_size}
use dory.Capped.Writer.{Writer, Blob, write, contents}
use dory.Capped.Writer.Append.{Appends, write-Appends}
use dory.Capped.Reader.{new_reader, advance, unread}
use dory.Capped.Reader.Advance.{IsDrafted, advance-Reads}

-- Blocks with room for two bytes.
abbrev pool : Pool
pool = record { block_size = 10; block_count = 4; free = 7 ∷ 5 ∷ 3 ∷ [] }

-- One byte of five is in a block of its own.
abbrev writer : Writer
writer = record { blocks = (1, 65 ∷ []) ∷ []; num_bytes = 1 }

abbrev five_bytes : Bytes
five_bytes = 66 ∷ 67 ∷ 68 ∷ 69 ∷ 70 ∷ []

abbrev blob : Blob
blob = record {
  block_size = 2;
  blocks = (1, 65 ∷ 66 ∷ []) ∷ (7, 67 ∷ []) ∷ [];
  last_block_size = 1;
  num_bytes = 3;
}

write-Appends_example : Appends pool writer five_bytes (write pool writer five_bytes)
unfolding get_data_size contents
write-Appends_example =
    write-Appends pool writer five_bytes (omega arith)
      (record { packed = (omega arith, omega arith); counted = refl })

blob-IsDrafted : IsDrafted blob
unfolding contents
blob-IsDrafted = record { chain_ok = (refl, refl); counted = refl }

advance-Reads_example :
    let r = advance blob (new_reader blob) 2 in
    (r.copied ≡ take 2 (contents blob.blocks))
    × (unread r.reader.chain r.reader.offset ≡ drop 2 (contents blob.blocks))
    × (r.returned ≡ leb 2 (length (contents blob.blocks)))
advance-Reads_example = advance-Reads blob 2 blob-IsDrafted
