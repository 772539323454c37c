-- ===== src/Stream/Buf.antt =====
-- src/base/buf.h: a buffer of bytes that is filled at its end and consumed from its front, in a vector
-- whose size only grows when the moved data leaves too little room. A byte of the vector that was never
-- written is 0.
use dory.Common.{
  ℕ, zero, suc, ◌+◌, ◌-◌, ◌≤◌, ◌<◌, ◌≡◌, ◌⊎◌, inl, inr, refl, sym, ap, ◌∙◌, [], ◌∷◌, ◌++◌, arith,
  length, take, drop, ltb, ◌==◌, if◌then◌else◌, Bool-cases, true, false, length-append, length-take,
  length-drop, append_assoc,
}
use dory.Common.Slices.{
  take-append_of, take-append_le, drop-append_le, drop-take, drop-drop, drop-take_sub,
}
use dory.Common.Bytes.{Bytes}
pub mod Data

pub record Buf : Type 0 where
  pub storage : Bytes
  pub item_offset : ℕ
  pub item_count : ℕ

abbrev pub empty_buf : Buf
empty_buf = record { storage = []; item_offset = 0; item_count = 0 }

-- The bytes that Data() points at and that DataSize() counts.
unfoldable pub data_of : Buf → Bytes
data_of b = take b.item_count (drop b.item_offset b.storage)

abbrev pub space_size : Buf → ℕ
space_size b = length b.storage - b.item_offset - b.item_count

zeros : ℕ → Bytes
zeros zero = []
zeros (suc n) = 0 ∷ zeros n

-- The memmove leaves what stands behind its destination.
unfoldable pub move_data_to_front : Buf → Buf
unfolding data_of
move_data_to_front b =
    if b.item_offset == 0
    then b
    else record b { storage = data_of b ++ drop b.item_count b.storage; item_offset = 0 }

unfoldable pub do_add_space : ℕ → Buf → Buf
unfolding move_data_to_front zeros
do_add_space min_to_add b =
    let moved = move_data_to_front b in
    if ltb b.item_offset min_to_add
    then record moved { storage = moved.storage ++ zeros (min_to_add - b.item_offset) }
    else moved

pub add_space : ℕ → Buf → Buf
unfolding do_add_space
add_space min_to_add b = if min_to_add == 0 then b else do_add_space min_to_add b

unfoldable pub ensure_space : ℕ → Buf → Buf
unfolding do_add_space
ensure_space min_size b =
    if ltb (space_size b) min_size then do_add_space (min_size - space_size b) b else b

pub ensure_data_plus_space : ℕ → Buf → Buf
unfolding do_add_space
ensure_data_plus_space min_size b =
    let actual = length b.storage - b.item_offset in
    if ltb actual min_size then do_add_space (min_size - actual) b else b

-- What a read to Space() does to the storage, before MarkSpaceConsumed counts the bytes.
unfoldable pub write_space : Bytes → Buf → Buf
write_space bytes b =
    let used = b.item_offset + b.item_count in
    record b { storage = take used b.storage ++ (bytes ++ drop (used + length bytes) b.storage) }

unfoldable pub mark_space_consumed : ℕ → Buf → Buf
mark_space_consumed size b = record b { item_count = b.item_count + size }

unfoldable pub mark_data_consumed : ℕ → Buf → Buf
mark_data_consumed size b =
    let rest = b.item_count - size in
    record b { item_offset = if rest == 0 then 0 else b.item_offset + size; item_count = rest }

unfoldable pub clear : Buf → Buf
unfolding mark_data_consumed
clear b = mark_data_consumed b.item_count b
