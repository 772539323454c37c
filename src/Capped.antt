-- ===== src/Capped.antt =====
-- src/capped: storage blocks from a pool of fixed size, and byte strings kept in chains of blocks.
-- A block is named by its number. The linked list of free blocks is the list of their numbers, and
-- the chain of a writer or a blob is the list of its blocks with the bytes written to each.
pub mod Pool
pub mod Writer
pub mod Reader
