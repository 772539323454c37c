-- ===== src/InputDg/Accepts.antt =====
-- The datagram readers of src/dory/input_dg inverted: which bytes they accept.
use dory.Common.{ℕ, ◌^◌, ◌<◌, ◌≡◌, sym, ap, ◌∙◌, true, not, ◌==◌, ◌++◌, some, arith, length}
use dory.Common.Int.{ℤ, pos, negsuc, eq_ℤ, leb_ℤ, ltb_ℤ, pos_part}
use dory.Common.Word.{of_u16, of_u32, of_u64, to_u16, to_u32, to_u64, IsI32, IsI64}
use dory.Common.Bytes.{Bytes, write_u16, write_u32, write_u64}
use dory.InputDg.Field.{take_bytes, take_i16, take_i32, take_i64}
use dory.InputDg.Write.{Fields, write_body}
use dory.InputDg.Read.{read_body, read_any_partition, read_partition_key}
use dory.InputDg.RoundTrip.{IsWritable}
use dory.InputDg.Inverse.{
  IsBytes, bind-some, guard-some, take_bytes-Taken, take_i16-FieldOf, take_i32-FieldOf,
  take_i64-FieldOf,
}

-- The size fields: a nonnegative integer of the field's type is the pattern it was read from.
u16_size :
    (z : ℤ)
    → of_u16 (to_u16 z) ≡ z
    → not (leb_ℤ z (pos 0)) ≡ true
    → (to_u16 z ≡ pos_part z) × (0 < pos_part z) × (pos_part z < 2 ^ 15)
unfolding of_u16 to_u16
u16_size (pos n) e h = ground arith
u16_size (negsuc n) e h = ground arith

u32_size :
    (z : ℤ)
    → of_u32 (to_u32 z) ≡ z
    → not (ltb_ℤ z (pos 0)) ≡ true
    → (to_u32 z ≡ pos_part z) × (pos_part z < 2 ^ 31)
unfolding of_u32 to_u32
u32_size (pos n) e h = ground arith
u32_size (negsuc n) e h = ground arith

of_u64-IsI64 : (z : ℤ) → of_u64 (to_u64 z) ≡ z → IsI64 z
unfolding of_u64 to_u64
of_u64-IsI64 (pos n) e = ground arith
of_u64-IsI64 (negsuc n) e = ground arith

same_size :
    (write : ℕ → Bytes) (xs rest : Bytes) (m n : ℕ)
    → m ≡ n
    → xs ≡ write m ++ rest
    → xs ≡ write n ++ rest
same_size write xs rest m n e split = split ∙ ap (λ k. write k ++ rest) e

read_body-accepts :
    (bs : Bytes) (f : Fields)
    → IsBytes bs
    → read_body bs ≡ some f
    → (bs ≡ write_body f) × IsWritable f
unfolding read_body write_body
read_body-accepts bs f ok h = bind-some (take_i16 bs) _ h λ (topic_sz, after_topic_sz) e1 h1.
    guard-some (not (leb_ℤ topic_sz (pos 0))) _ h1 λ g1 h2.
      bind-some (take_bytes (pos_part topic_sz) after_topic_sz) _ h2 λ (topic, after_topic) e2 h3.
        bind-some (take_i64 after_topic) _ h3 λ (ts, after_ts) e3 h4.
          bind-some (take_i32 after_ts) _ h4 λ (key_sz, after_key_sz) e4 h5.
            guard-some (not (ltb_ℤ key_sz (pos 0))) _ h5 λ g2 h6.
              bind-some (take_bytes (pos_part key_sz) after_key_sz) _ h6 λ (key, after_key) e5 h7.
                bind-some (take_i32 after_key) _ h7 λ (value_sz, value) e6 h8.
                  guard-some (not (ltb_ℤ value_sz (pos 0))) _ h8 λ g3 h9.
                    guard-some (length value == pos_part value_sz) _ h9 λ g4 h10.
                      let t1 = take_i16-FieldOf bs topic_sz after_topic_sz ok e1 in
                      let t2 =
                        take_bytes-Taken (pos_part topic_sz) after_topic_sz t1.rest_bytes e2 in
                      let t3 = take_i64-FieldOf after_topic ts after_ts t2.rest_bytes e3 in
                      let t4 = take_i32-FieldOf after_ts key_sz after_key_sz t3.rest_bytes e4 in
                      let t5 = take_bytes-Taken (pos_part key_sz) after_key_sz t4.rest_bytes e5 in
                      let t6 = take_i32-FieldOf after_key value_sz value t5.rest_bytes e6 in
                      let topic_size = u16_size topic_sz t1.in_range g1 in
                      let key_size = u32_size key_sz t4.in_range g2 in
                      let value_size = u32_size value_sz t6.in_range g3 in
                      let value_length : length value ≡ pos_part value_sz = ground (arith, g4) in
                      let fields : Path Fields
                          (record { topic = topic; timestamp = ts; key = key; value = value }) f =
                        cc in
                      let s1 : bs ≡ write_u16 (length topic) ++ after_topic_sz =
                        same_size write_u16 _ _ _ _ (topic_size.0 ∙ sym t2.size) t1.split in
                      let s4 : after_ts ≡ write_u32 (length key) ++ after_key_sz =
                        same_size write_u32 _ _ _ _ (key_size.0 ∙ sym t5.size) t4.split in
                      let s6 : after_key ≡ write_u32 (length value) ++ value =
                        same_size write_u32 _ _ _ _ (value_size.0 ∙ sym value_length) t6.split in
                      rw (← fields) (
                        s1
                            ∙ ap (◌++◌ (write_u16 (length topic))) (
                                t2.split
                                ∙ ap (◌++◌ topic) (
                                    t3.split
                                    ∙ ap (◌++◌ (write_u64 (to_u64 ts))) (
                                        s4
                                        ∙ ap (◌++◌ (write_u32 (length key)))
                                            (t5.split ∙ ap (◌++◌ key) s6)))),
                        (
                          omega (arith, topic_size, t2.size),
                          omega (arith, topic_size, t2.size),
                          of_u64-IsI64 ts t3.in_range,
                          omega (arith, key_size, t5.size),
                          omega (arith, value_size, value_length),
                        ),
                      )

flags_zero : (z : ℤ) → of_u16 (to_u16 z) ≡ z → eq_ℤ z (pos 0) ≡ true → to_u16 z ≡ 0
unfolding of_u16 to_u16
flags_zero (pos n) e h = ground arith
flags_zero (negsuc n) e h = ground arith

of_u32-IsI32 : (z : ℤ) → of_u32 (to_u32 z) ≡ z → IsI32 z
unfolding of_u32 to_u32
of_u32-IsI32 (pos n) e = ground arith
of_u32-IsI32 (negsuc n) e = ground arith

-- If the AnyPartition reader accepts a string of bytes and yields fields, the bytes are the flags 0
-- followed by what the client writes for those fields; the topic is not empty, the topic's size
-- fits in an int16_t, those of the key and the value in an int32_t, and the timestamp in an
-- int64_t.
pub read_any-accepts :
    (bs : Bytes) (f : Fields)
    → IsBytes bs
    → read_any_partition bs ≡ some f
    → (bs ≡ write_u16 0 ++ write_body f) × IsWritable f
unfolding read_any_partition
read_any-accepts bs f ok h = bind-some (take_i16 bs) _ h λ (flags, after_flags) e1 h1.
    guard-some (eq_ℤ flags (pos 0)) _ h1 λ g h2.
      let t = take_i16-FieldOf bs flags after_flags ok e1 in
      let body = read_body-accepts after_flags f t.rest_bytes h2 in
      (
        same_size write_u16 _ _ _ _ (flags_zero flags t.in_range g) t.split
            ∙ ap (◌++◌ (write_u16 0)) body.0,
        body.1,
      )

-- If the PartitionKey reader accepts a string of bytes and yields a key and fields, the bytes are
-- the flags 0, the key and what the client writes for those fields; the key fits in an int32_t, the
-- topic is not empty, and the sizes and the timestamp fit in their fields.
pub read_key-accepts :
    (bs : Bytes) (k : ℤ) (f : Fields)
    → IsBytes bs
    → read_partition_key bs ≡ some (k, f)
    → (bs ≡ write_u16 0 ++ (write_u32 (to_u32 k) ++ write_body f)) × IsI32 k × IsWritable f
unfolding read_partition_key
read_key-accepts bs k f ok h = bind-some (take_i16 bs) _ h λ (flags, after_flags) e1 h1.
    guard-some (eq_ℤ flags (pos 0)) _ h1 λ g h2.
      bind-some (take_i32 after_flags) _ h2 λ (z, after_key) e2 h3.
        bind-some (read_body after_key) _ h3 λ fields e3 h4.
          let t1 = take_i16-FieldOf bs flags after_flags ok e1 in
          let t2 = take_i32-FieldOf after_flags z after_key t1.rest_bytes e2 in
          let same : (z ≡ k) × (fields ≡ f) = (cc, cc) in
          let body = read_body-accepts after_key fields t2.rest_bytes e3 in
          rw (← same.0, ← same.1)
            (
              same_size write_u16 _ _ _ _ (flags_zero flags t1.in_range g) t1.split
                  ∙ ap (◌++◌ (write_u16 0)) (t2.split ∙ ap (◌++◌ (write_u32 (to_u32 z))) body.0),
              of_u32-IsI32 z t2.in_range,
              body.1,
            )
