-- ===== src/Capped/Reader/Advance.antt =====
-- TReader::Advance against the bytes of the blob.
use dory.Common.{
  ℕ, zero, suc, ◌+◌, ◌-◌, ◌≤◌, ◌<◌, ◌≡◌, refl, sym, ap, ◌∙◌, List, [], ◌∷◌, ◌++◌, arith, length,
  take, drop, ltb, leb, ◌==◌, append_assoc, append-nil, length-append, length-drop, Bool-cases, inl,
  inr,
}
use dory.Common.Bytes.{Bytes}
use dory.Capped.Pool.{Pool, get_data_size}
use dory.Capped.Writer.{Block, Blob, Writer, contents, last_size, draft_blob, IsPacked, IsValid}
use dory.Capped.Reader.{Read, new_reader, block_len, advance_loop, advance, unread}

take-append_lt : (n : ℕ) (xs ys : Bytes) → n ≤ length xs → take n (xs ++ ys) ≡ take n xs
take-append_lt zero xs ys h = refl
take-append_lt (suc n) [] ys h = absurd (omega arith)
take-append_lt (suc n) (x ∷ xs) ys h = ap (◌∷◌ x) (take-append_lt n xs ys (omega arith))

drop-append_lt : (n : ℕ) (xs ys : Bytes) → n ≤ length xs → drop n (xs ++ ys) ≡ drop n xs ++ ys
drop-append_lt zero xs ys h = refl
drop-append_lt (suc n) [] ys h = absurd (omega arith)
drop-append_lt (suc n) (x ∷ xs) ys h = drop-append_lt n xs ys (omega arith)

take-append_ge :
    (n : ℕ) (xs ys : Bytes) → length xs ≤ n → take n (xs ++ ys) ≡ xs ++ take (n - length xs) ys
take-append_ge n [] ys h = ap (λ k. take k ys) (omega arith)
take-append_ge zero (x ∷ xs) ys h = absurd (omega arith)
take-append_ge (suc n) (x ∷ xs) ys h =
    ap (◌∷◌ x) (take-append_ge n xs ys (omega arith) ∙ ap (λ k. xs ++ take k ys) (omega arith))

drop-append_ge :
    (n : ℕ) (xs ys : Bytes) → length xs ≤ n → drop n (xs ++ ys) ≡ drop (n - length xs) ys
drop-append_ge n [] ys h = ap (λ k. drop k ys) (omega arith)
drop-append_ge zero (x ∷ xs) ys h = absurd (omega arith)
drop-append_ge (suc n) (x ∷ xs) ys h =
    drop-append_ge n xs ys (omega arith) ∙ ap (λ k. drop k ys) (omega arith)

take_all : (n : ℕ) (xs : Bytes) → length xs ≤ n → take n xs ≡ xs
take_all zero [] h = refl
take_all zero (x ∷ xs) h = absurd (omega arith)
take_all (suc n) [] h = refl
take_all (suc n) (x ∷ xs) h = ap (◌∷◌ x) (take_all n xs (omega arith))

drop-nil : (n : ℕ) → drop {A = ℕ} n [] ≡ []
drop-nil zero = refl
drop-nil (suc n) = refl

drop-drop : (i n : ℕ) (xs : Bytes) → drop n (drop i xs) ≡ drop (i + n) xs
drop-drop zero n xs = ap (λ k. drop k xs) (omega arith)
drop-drop (suc i) n [] = drop-nil n ∙ sym (drop-nil (suc i + n))
drop-drop (suc i) n (x ∷ xs) =
    let e : suc (i + n) ≡ suc i + n = omega arith in drop-drop i n xs ∙ ap (λ k. drop k (x ∷ xs)) e

-- A chain as DraftBlob leaves it: full blocks, and a last one of the size recorded.
abbrev pub IsChain : ℕ → ℕ → List Block → Type 0
IsChain size last [] = Unit {0}
IsChain size last ((b, d) ∷ []) = length d ≡ last
IsChain size last ((b, d) ∷ y ∷ rest) = (length d ≡ size) × IsChain size last (y ∷ rest)

block_len-IsChain :
    (size last b : ℕ) (d : Bytes) (rest : List Block)
    → IsChain size last ((b, d) ∷ rest)
    → block_len size last ((b, d) ∷ rest) ≡ length d
unfolding block_len
block_len-IsChain size last b d [] h = sym h
block_len-IsChain size last b d (y ∷ rest) h = sym h.0

IsChain-rest :
    (size last b : ℕ) (d : Bytes) (rest : List Block)
    → IsChain size last ((b, d) ∷ rest)
    → IsChain size last rest
IsChain-rest size last b d [] h = tt
IsChain-rest size last b d (y ∷ rest) h = h.1

-- Where a reader may stand.
abbrev IsAt : ℕ → ℕ → List Block → ℕ → Type 0
IsAt size last [] offset = offset ≡ 0
IsAt size last ((b, d) ∷ rest) offset = (offset ≤ length d) × IsChain size last ((b, d) ∷ rest)

IsChain-IsAt :
    (size last : ℕ) (chain : List Block) → IsChain size last chain → IsAt size last chain 0
IsChain-IsAt size last [] h = refl
IsChain-IsAt size last ((b, d) ∷ rest) h = (omega arith, h)

unread-start : (chain : List Block) → unread chain 0 ≡ contents chain
unfolding unread contents
unread-start [] = refl
unread-start ((b, d) ∷ rest) = refl

-- What a read of `n` bytes has to do, where the bytes `u` are unread and `copied` were copied before.
pub record Reads (size last : ℕ) (u : Bytes) (n : ℕ) (copied : Bytes) (r : Read) : Type 0 where
  pub copied_ok : r.copied ≡ copied ++ take n u
  pub unread_ok : unread r.reader.chain r.reader.offset ≡ drop n u
  pub returned_ok : r.returned ≡ leb n (length u)
  stands : IsAt size last r.reader.chain r.reader.offset

take-nil : (n : ℕ) → take {A = ℕ} n [] ≡ []
take-nil zero = refl
take-nil (suc n) = refl

-- The read ends within the block: `d` is what is left of it and `more` what follows.
within_block :
    (n : ℕ) (d more : Bytes)
    → n ≤ length d
    → (take n d ≡ take n (d ++ more)) × (drop n d ++ more ≡ drop n (d ++ more))
within_block n d more h = (sym (take-append_lt n d more h), sym (drop-append_lt n d more h))

-- The read goes on behind the block.
past_block :
    (size last n avail : ℕ) (copied d more : Bytes) (r : Read)
    → avail ≡ length d
    → avail ≤ n
    → Reads size last more (n - avail) (copied ++ take avail d) r
    → Reads size last (d ++ more) n copied r
past_block size last n avail copied d more r e h v = record {
  copied_ok =
      v.copied_ok
      ∙ append_assoc copied (take avail d) (take (n - avail) more)
      ∙ ap (◌++◌ copied) (ap (λ x. x ++ take (n - avail) more) (take_all avail d (omega arith)))
      ∙ rw e (ap (◌++◌ copied) (sym (take-append_ge n d more (omega arith))));
  unread_ok = v.unread_ok ∙ rw e (sym (drop-append_ge n d more (omega arith)));
  returned_ok = v.returned_ok ∙ ground (arith, length-append d more);
  stands = v.stands;
}

module _ (size last : ℕ) where
  advance_loop-Reads :
      (chain : List Block) (offset remaining n : ℕ) (copied : Bytes)
      → IsAt size last chain offset
      → Reads size last
          (unread chain offset)
          n
          copied
          (advance_loop size last chain offset remaining n copied)
  unfolding advance_loop unread
  advance_loop-Reads [] offset remaining n copied at = record {
    copied_ok = rw (take-nil n) (sym (append-nil copied));
    unread_ok = sym (drop-nil n);
    returned_ok = ground arith;
    stands = refl;
  }
  advance_loop-Reads ((b, d) ∷ rest) offset remaining n copied at =
      let avail = block_len size last ((b, d) ∷ rest) - offset in
      let left = drop offset d in
      let whole_left : avail ≡ length left =
        omega (arith, block_len-IsChain size last b d rest at.1, length-drop offset d) in
      let chain_rest = IsChain-rest size last b d rest at.1 in
      let next =
        advance_loop-Reads rest 0 (remaining - avail) (n - avail) (copied ++ take avail left)
          (IsChain-IsAt size last rest chain_rest) in
      elim (Bool-cases (n == 0)) [
        | inl z ↦
            let e : n ≡ 0 = ground arith in
            rw z (record {
              copied_ok = rw e (sym (append-nil copied));
              unread_ok = rw e;
              returned_ok = ground arith;
              stands = at;
            })
        | inr nz ↦ rw nz (elim (Bool-cases (ltb n avail)) [
          | inl part ↦
              let fits : n < length left = ground (arith, whole_left) in
              let w = within_block n left (contents rest) (omega arith) in
              rw part (record {
                copied_ok = ap (◌++◌ copied) w.0;
                unread_ok = rw (← drop-drop offset n d) w.1;
                returned_ok = ground (arith, length-append left (contents rest));
                stands = (omega (arith, length-drop offset d), at.1);
              })
          | inr all ↦ rw all (
              past_block size last n avail copied left (contents rest) _ whole_left (ground arith)
                (rw (unread-start rest) at next))
        ])
      ]

-- A blob that DraftBlob made.
pub record IsDrafted (blob : Blob) : Type 0 where
  pub chain_ok : IsChain blob.block_size blob.last_block_size blob.blocks
  pub counted : blob.num_bytes ≡ length (contents blob.blocks)

IsPacked-IsChain :
    (size : ℕ) (blocks : List Block) → IsPacked size blocks → IsChain size (last_size blocks) blocks
unfolding last_size
IsPacked-IsChain size [] k = tt
IsPacked-IsChain size ((b, d) ∷ []) k = refl
IsPacked-IsChain size ((b, d) ∷ y ∷ rest) k = (k.0, IsPacked-IsChain size (y ∷ rest) k.1)

pub draft_blob-IsDrafted :
    (p : Pool) (w : Writer) → IsValid (get_data_size p) w → IsDrafted (draft_blob p w).0
unfolding draft_blob
draft_blob-IsDrafted p w v = record {
  chain_ok = IsPacked-IsChain (get_data_size p) w.blocks v.packed;
  counted = v.counted;
}

length-zero-nil : (xs : Bytes) → 0 ≡ length xs → xs ≡ []
length-zero-nil [] e = refl
length-zero-nil (x ∷ xs) e = absurd (omega arith)

-- On a blob whose blocks are full but for the last, whose last block's size and total size are
-- recorded, a new reader's Advance by n copies the first n bytes of the contents, or all of them if
-- there are fewer, stands before the rest, and returns exactly if there are n bytes, else throws.
pub advance-Reads :
    (blob : Blob) (n : ℕ)
    → IsDrafted blob
    → let r = advance blob (new_reader blob) n in
      (r.copied ≡ take n (contents blob.blocks))
      × (unread r.reader.chain r.reader.offset ≡ drop n (contents blob.blocks))
      × (r.returned ≡ leb n (length (contents blob.blocks)))
unfolding advance new_reader
advance-Reads blob n v =
    let start = unread-start blob.blocks in
    elim (Bool-cases (n == 0)) [
      | inl z ↦ let e : n ≡ 0 = ground arith in rw z (rw e refl, rw e start, ground arith)
      | inr nz ↦ rw nz (elim (Bool-cases (blob.num_bytes == 0)) [
        | inl z ↦
            let count : 0 ≡ length (contents blob.blocks) = ground (arith, v.counted) in
            let empty = length-zero-nil (contents blob.blocks) count in
            rw z (rw (empty, take-nil n), start ∙ rw (empty, drop-nil n), ground (arith, count))
        | inr nz' ↦
            let r =
              advance_loop-Reads blob.block_size blob.last_block_size blob.blocks 0 blob.num_bytes n
                [] (IsChain-IsAt blob.block_size blob.last_block_size blob.blocks v.chain_ok) in
            rw nz' (
              r.copied_ok ∙ ap (take n) start,
              r.unread_ok ∙ ap (drop n) start,
              r.returned_ok ∙ ap (λ u. leb n (length u)) start,
            )
      ])
    ]
