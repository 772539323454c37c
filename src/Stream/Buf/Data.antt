-- ===== src/Stream/Buf/Data.antt =====
-- The data of a buffer of src/base/buf.h through its methods.
use dory.Common.{
  ℕ, zero, suc, ◌+◌, ◌-◌, ◌≤◌, ◌<◌, ◌≡◌, ◌⊎◌, inl, inr, refl, sym, ap, ◌∙◌, ◌++◌, arith, length,
  take, drop, ltb, ◌==◌, Bool-cases, true, false, length-append, length-take, length-drop,
  append_assoc,
}
use dory.Common.Slices.{
  take-append_of, take-append_le, drop-append_le, drop-take, drop-drop, drop-take_sub,
}
use dory.Common.Bytes.{Bytes}
use dory.Stream.Buf.{
  zeros, Buf, data_of, space_size, move_data_to_front, do_add_space, ensure_space, write_space,
  mark_space_consumed, mark_data_consumed,
}

-- What the methods assert: the data is within the storage, and no data is at the front.
pub record IsValid (b : Buf) : Type 0 where
  pub within : b.item_offset + b.item_count ≤ length b.storage
  pub front : (b.item_offset ≡ 0) ⊎ (0 < b.item_count)

length-zeros : (n : ℕ) → length (zeros n) ≡ n
unfolding zeros
length-zeros zero = refl
length-zeros (suc n) = ap suc (length-zeros n)

pub length-data_of : (b : Buf) → IsValid b → length (data_of b) ≡ b.item_count
unfolding data_of
length-data_of b v =
    length-take b.item_count (drop b.item_offset b.storage)
      (omega (arith, length-drop b.item_offset b.storage, v.within))

-- A buffer that holds the same data as another and has at least its space.
pub record Keeps (b b' : Buf) : Type 0 where
  pub valid : IsValid b'
  pub same_data : data_of b' ≡ data_of b
  pub same_count : b'.item_count ≡ b.item_count

move_data_to_front-Keeps :
    (b : Buf)
    → IsValid b
    → Keeps b (move_data_to_front b)
      × ((move_data_to_front b).item_offset ≡ 0)
      × (length (move_data_to_front b).storage ≡ length b.storage)
unfolding move_data_to_front
move_data_to_front-Keeps b v = elim (Bool-cases (b.item_offset == 0)) [
  | inl e ↦
      rw e (record { valid = v; same_data = refl; same_count = refl }, ground (arith, e), refl)
  | inr e ↦
      let moved : Bytes = data_of b ++ drop b.item_count b.storage in
      let size : length moved ≡ length b.storage = omega (
        arith,
        length-append (data_of b) (drop b.item_count b.storage),
        length-data_of b v,
        length-drop b.item_count b.storage,
        v.within,
      ) in
      let same : take b.item_count moved ≡ data_of b =
        take-append_of (data_of b) (drop b.item_count b.storage) b.item_count
          (length-data_of b v) in
      rw e (
        record {
          valid = record { within = omega (arith, size, v.within); front = inl refl };
          same_data = unfold data_of in same;
          same_count = refl;
        },
        refl,
        size,
      )
]

data_of-longer :
    (b : Buf) (extra : Bytes)
    → IsValid b
    → data_of (record b { storage = b.storage ++ extra }) ≡ data_of b
unfolding data_of
data_of-longer b extra v =
    ap (take b.item_count) (drop-append_le b.item_offset b.storage extra (omega (arith, v.within)))
    ∙ take-append_le b.item_count (drop b.item_offset b.storage) extra
        (omega (arith, v.within, length-drop b.item_offset b.storage))

do_add_space-Keeps :
    (n : ℕ) (b : Buf)
    → IsValid b
    → let b' = do_add_space n b in Keeps b b' × (n + space_size b ≤ space_size b')
unfolding do_add_space
do_add_space-Keeps n b v =
    let (kept, front, size) = move_data_to_front-Keeps b v in
    let moved = move_data_to_front b in
    let old = moved.storage in
    let extra = zeros (n - b.item_offset) in
    let longer : length (old ++ extra) ≡ length b.storage + (n - b.item_offset) =
      omega (arith, length-append old extra, length-zeros (n - b.item_offset), size) in
    let more : ltb b.item_offset n ≡ true → b.item_offset < n = λ e. ground arith in
    let enough : ltb b.item_offset n ≡ false → n ≤ b.item_offset = λ e. ground arith in
    elim (Bool-cases (ltb b.item_offset n)) [
      | inl e ↦ rw e (
        record {
          valid = record {
            within = omega (arith, longer, kept.valid.within, size);
            front = inl front;
          };
          same_data = data_of-longer moved extra kept.valid ∙ kept.same_data;
          same_count = kept.same_count;
        },
        omega (arith, longer, front, kept.same_count, more e, v.within),
      )
      | inr e ↦ rw e (kept, omega (arith, size, front, kept.same_count, enough e, v.within))
    ]

pub ensure_space-Keeps :
    (n : ℕ) (b : Buf) → IsValid b → Keeps b (ensure_space n b) × (n ≤ space_size (ensure_space n b))
unfolding ensure_space
ensure_space-Keeps n b v = elim (Bool-cases (ltb (space_size b) n)) [
  | inl e ↦
      let more : space_size b < n = ground (arith, e) in
      let (kept, room) = do_add_space-Keeps (n - space_size b) b v in
      rw e (kept, omega (arith, room, more))
  | inr e ↦
      let enough : n ≤ space_size b = ground (arith, e) in
      rw e (record { valid = v; same_data = refl; same_count = refl }, enough)
]

-- What is written into the free space and marked as consumed stands behind the data.
pub data_of-filled :
    (bytes : Bytes) (b : Buf)
    → IsValid b
    → length bytes ≤ space_size b
    → let b' = mark_space_consumed (length bytes) (write_space bytes b) in
      (data_of b' ≡ data_of b ++ bytes) × IsValid b'
unfolding mark_space_consumed write_space data_of
data_of-filled bytes b v room =
    let used = b.item_offset + b.item_count in
    let rest = drop (used + length bytes) b.storage in
    let front = take used b.storage in
    let front_size : length front ≡ used = length-take used b.storage v.within in
    let cut : drop b.item_offset (front ++ (bytes ++ rest)) ≡ data_of b ++ (bytes ++ rest) =
      drop-append_le b.item_offset front (bytes ++ rest) (omega (arith, front_size))
      ∙ ap (λ xs. xs ++ (bytes ++ rest)) (drop-take b.item_offset b.item_count b.storage) in
    (
      ap (take (b.item_count + length bytes)) (cut ∙ sym (append_assoc (data_of b) bytes rest))
          ∙ take-append_of (data_of b ++ bytes) rest (b.item_count + length bytes)
              (omega (arith, length-append (data_of b) bytes, length-data_of b v)),
      record {
        within = omega (
          arith,
          front_size,
          length-append front (bytes ++ rest),
          length-append bytes rest,
          length-drop (used + length bytes) b.storage,
          v.within,
        );
        front = ground (arith, v.front);
      },
    )

pub data_of-consumed :
    (n : ℕ) (b : Buf)
    → IsValid b
    → n ≤ b.item_count
    → (data_of (mark_data_consumed n b) ≡ drop n (data_of b)) × IsValid (mark_data_consumed n b)
unfolding mark_data_consumed data_of
data_of-consumed n b v h =
    let cut : drop n (data_of b) ≡ take (b.item_count - n) (drop (b.item_offset + n) b.storage) =
      drop-take_sub n b.item_count (drop b.item_offset b.storage) h
      ∙ ap (take (b.item_count - n)) (drop-drop b.item_offset n b.storage) in
    elim (Bool-cases (b.item_count - n == 0)) [
      | inl e ↦
          let none_left : b.item_count - n ≡ 0 = ground (arith, e) in
          rw e (
            rw (cut, none_left) refl,
            record { within = omega (arith, none_left); front = inl refl },
          )
      | inr e ↦
          let some_left : 0 < b.item_count - n = ground (arith, e) in
          rw e (sym cut, record { within = omega (arith, v.within, h); front = inr some_left })
    ]
