-- ===== src/Capped/Reader.antt =====
-- src/capped/reader.cc: a forward pass over a blob. The reader is at a block of the chain, or past its
-- end, with `offset` bytes of that block already consumed.
pub mod Advance
use dory.Common.{
  ℕ, zero, suc, ◌+◌, ◌-◌, ◌≤◌, ◌<◌, ◌≡◌, refl, sym, ap, ◌∙◌, List, [], ◌∷◌, ◌++◌, Option, none,
  some, arith, length, take, drop, ltb, ◌==◌, if◌then◌else◌, append_assoc, append-nil,
  length-append, length-drop, length-take, Bool-cases, inl, inr, true, false, Bool,
}
use dory.Common.Bytes.{Bytes}
use dory.Capped.Pool.{Pool, get_data_size}
use dory.Capped.Writer.{Block, Blob, Writer, contents, last_size, draft_blob, IsPacked, IsValid}

pub record Reader : Type 0 where
  pub chain : List Block
  pub offset : ℕ
  pub bytes_remaining : ℕ

unfoldable pub new_reader : Blob → Reader
new_reader b = record { chain = b.blocks; offset = 0; bytes_remaining = b.num_bytes }

-- The size of the data of the first block of the chain.
pub block_len : ℕ → ℕ → List Block → ℕ
block_len size last [] = 0
block_len size last (x ∷ []) = last
block_len size last (x ∷ y ∷ rest) = size

-- What Advance leaves: the reader, the bytes copied, and whether it returned (and did not throw).
pub record Read : Type 0 where
  pub reader : Reader
  pub copied : Bytes
  pub returned : Bool

pub advance_loop : ℕ → ℕ → List Block → ℕ → ℕ → ℕ → Bytes → Read
advance_loop size last [] offset remaining n copied =
    let r : Reader = record { chain = []; offset = 0; bytes_remaining = remaining } in
    record { reader = r; copied = copied; returned = n == 0 }
advance_loop size last ((b, d) ∷ rest) offset remaining n copied =
    let avail = block_len size last ((b, d) ∷ rest) - offset in
    let next =
      advance_loop size last rest 0 (remaining - avail) (n - avail)
        (copied ++ take avail (drop offset d)) in
    if n == 0
    then record {
      reader = record { chain = (b, d) ∷ rest; offset = offset; bytes_remaining = remaining };
      copied = copied;
      returned = true;
    }
    else if ltb n avail
    then record {
      reader = record {
        chain = (b, d) ∷ rest;
        offset = offset + n;
        bytes_remaining = remaining - n;
      };
      copied = copied ++ take n (drop offset d);
      returned = true;
    }
    else next

pub advance : Blob → Reader → ℕ → Read
advance blob r n =
    if n == 0
    then record { reader = r; copied = []; returned = true }
    else if blob.num_bytes == 0
    then record { reader = r; copied = []; returned = false }
    else advance_loop blob.block_size blob.last_block_size r.chain r.offset r.bytes_remaining n []

-- The bytes that are not consumed yet.
pub unread : List Block → ℕ → Bytes
unread [] offset = []
unread ((b, d) ∷ rest) offset = drop offset d ++ contents rest
