-- ===== src/InputDg/Create.antt =====
-- What creating a message does to the pool and to the counts of messages, on success and on failure.
use dory.Common.{
  ℕ, ◌+◌, ◌<◌, ◌≤◌, length-append, ◌≡◌, refl, ap, ◌∙◌, ◌++◌, Option, none, some, arith, length,
  Bool, count_if,
}
use dory.Common.Int.{ℤ}
use dory.Common.Bytes.{Bytes}
use dory.Capped.Pool.{Pool, get_data_size}
use dory.Capped.Writer.{
  Writer, Blob, new_writer, write, cancel_blob, draft_blob, contents, blocks_needed, IsValid,
}
use dory.Capped.Writer.Append.{Appends, write-Appends}
use dory.Capped.Writer.Room.{Fits, write-Fits, blocks_needed_mono}
use dory.Capped.Writer.Blocks.{count_chain, Keeps, write-Keeps, count-cancel_blob}
use dory.InputDg.Agent.{
  write_value, make_key_and_value, Agent, Built, message, malformed, no_mem, assertion_fails,
  unsupported_api_key, unsupported_version, create_msg,
}
use dory.InputDg.Write.{Fields}
use dory.Msg.{RoutingType}
use dory.MsgStateTracker.{msg_enter_new}

-- What MakeKeyAndValue has to do: make a blob of the key's bytes and then the value's, whose blocks
-- come from the pool and are as many as the bytes need, or, if fewer blocks are free, throw and leave
-- every block in the pool.
abbrev pub Makes : Pool → Bytes → Pool × Option Blob → Type 0
Makes p bytes (q, none) =
    (length p.free < blocks_needed (get_data_size p) (length bytes))
    × ((b : ℕ → Bool) → count_if b q.free ≡ count_if b p.free)
Makes p bytes (q, some blob) =
    (contents blob.blocks ≡ bytes)
    × (blob.num_bytes ≡ length bytes)
    × (blocks_needed (get_data_size p) (length bytes) + length q.free ≡ length p.free)
    × ((b : ℕ → Bool) → count_chain b blob.blocks + count_if b q.free ≡ count_if b p.free)

write_value-Makes :
    (p q : Pool) (w : Writer) (value : Bytes)
    → 0 < get_data_size q
    → get_data_size q ≡ get_data_size p
    → IsValid (get_data_size q) w
    → length w.blocks + length q.free ≡ length p.free
    → ((b : ℕ → Bool) → count_chain b w.blocks + count_if b q.free ≡ count_if b p.free)
    → Makes p (contents w.blocks ++ value) (write_value q w value)
unfolding write_value draft_blob
write_value-Makes p q w value positive size v room kept =
    go (write q w value) (write-Appends q w value positive v) (write-Fits q w value positive v)
      (λ b. write-Keeps b q w value)
  where
    needed :
        blocks_needed (get_data_size q) (length (contents w.blocks) + length value)
        ≡ blocks_needed (get_data_size p) (length (contents w.blocks ++ value))
    needed = rw (size, length-append (contents w.blocks) value) refl

    go :
        (r : Pool × Option Writer)
        → Appends q w value r
        → Fits q w value r
        → ((b : ℕ → Bool) → Keeps b (count_chain b w.blocks + count_if b q.free) w.blocks r)
        → Makes p (contents w.blocks ++ value) (elim r.1 [
          | none ↦ ((cancel_blob r.0 w).0, none)
          | some w' ↦ (r.0, some (draft_blob r.0 w').0)
        ])
    go (r, none) a f k =
        (omega (arith, f, needed, room), λ b. omega (arith, count-cancel_blob b r w, k b, kept b))
    go (r, some w') a f k = (
      a.0,
      a.1.counted ∙ ap length a.0,
      omega (arith, f.0, f.1, needed, room),
      λ b. omega (arith, k b, kept b),
    )

-- With a pool whose blocks have room for data, MakeKeyAndValue either makes a blob that holds the
-- key's bytes and then the value's, is counted by its size, has as many blocks as these need, and
-- whose blocks and the pool's are together those that were free, or throws with the same blocks free
-- as before, each as often, and fewer than the bytes need.
pub make_key_and_value-Makes :
    (p : Pool) (key value : Bytes)
    → 0 < get_data_size p
    → Makes p (key ++ value) (make_key_and_value p key value)
unfolding make_key_and_value new_writer contents
make_key_and_value-Makes p key value positive =
    let valid : IsValid (get_data_size p) new_writer = record { packed = tt; counted = refl } in
    go (write p new_writer key) (write-Appends p new_writer key positive valid)
      (write-Fits p new_writer key positive valid) (λ b. write-Keeps b p new_writer key)
  where
    more :
        blocks_needed (get_data_size p) (0 + length key)
        ≤ blocks_needed (get_data_size p) (length (key ++ value))
    more =
        blocks_needed_mono (get_data_size p) (0 + length key) (length (key ++ value)) positive
          (omega (arith, length-append key value))

    go :
        (r : Pool × Option Writer)
        → Appends p new_writer key r
        → Fits p new_writer key r
        → ((b : ℕ → Bool)
            → Keeps b (count_chain b new_writer.blocks + count_if b p.free) new_writer.blocks r)
        → Makes p
            (key ++ value)
            (elim r.1 [ none ↦ (r.0, none) | some w ↦ write_value r.0 w value ])
    go (q, none) a f k = (omega (arith, f, more), λ b. omega (arith, k b))
    go (q, some w) a f k = rw (← a.0) (
        write_value-Makes p q w value (rw a.2 positive) a.2 (rw a.2 a.1) (omega (arith, f.1))
          (λ b. omega (arith, k b)))

-- No block left the pool, and no message was counted.
abbrev pub IsUnchanged : Agent → Agent → Type 0
IsUnchanged a b =
    ((f : ℕ → Bool) → count_if f b.pool.free ≡ count_if f a.pool.free) × (b.tracker ≡ a.tracker)

-- The number of blocks of the pool that the key and the value take, one behind the other.
abbrev blocks_for : Agent → Fields → ℕ
blocks_for a f = blocks_needed (get_data_size a.pool) (length (f.key ++ f.value))

-- What creating a message of the fields has to do.
abbrev pub Creates : Agent → ℕ → RoutingType → ℤ → Fields → Agent × Built → Type 0
Creates a addr routing_type k f (b, message m) =
    (m ≡ record {
      addr = addr;
      routing_type = routing_type;
      key = k;
      timestamp = f.timestamp;
      topic = f.topic;
      key_and_value = f.key ++ f.value;
      key_size = length f.key;
    })
    × (b.tracker ≡ msg_enter_new a.tracker)
    × (blocks_for a f + length b.pool.free ≡ length a.pool.free)
Creates a addr routing_type k f (b, no_mem) =
    (length a.pool.free < blocks_for a f) × IsUnchanged a b
Creates a addr routing_type k f (b, malformed) = ⊥
Creates a addr routing_type k f (b, assertion_fails) = ⊥
Creates a addr routing_type k f (b, unsupported_api_key z) = ⊥
Creates a addr routing_type k f (b, unsupported_version z) = ⊥

-- With a pool whose blocks have room for data, if as many blocks are free as the key's bytes
-- followed by the value's take, creating a message makes one with the given routing type, partition
-- key and fields, whose blob is these bytes, takes just that many blocks off the free list and
-- counts the message as new; and if fewer are free, it leaves the tracker as it is and the pool
-- with the same free blocks, each as often.
pub create_msg-Creates :
    (a : Agent) (addr : ℕ) (routing_type : RoutingType) (k : ℤ) (f : Fields)
    → 0 < get_data_size a.pool
    → Creates a addr routing_type k f (create_msg a addr routing_type k f)
unfolding create_msg
create_msg-Creates a addr routing_type k f positive =
    go (make_key_and_value a.pool f.key f.value)
      (make_key_and_value-Makes a.pool f.key f.value positive)
  where
    go :
        (r : Pool × Option Blob)
        → Makes a.pool (f.key ++ f.value) r
        → Creates a addr routing_type k f (elim r.1 [
          | none ↦ (record a { pool = r.0 }, no_mem)
          | some blob ↦ (
            record { pool = r.0; tracker = msg_enter_new a.tracker },
            message (record {
              addr = addr;
              routing_type = routing_type;
              key = k;
              timestamp = f.timestamp;
              topic = f.topic;
              key_and_value = contents blob.blocks;
              key_size = length f.key;
            }),
          )
        ])
    go (q, none) made = (made.0, (made.1, refl))
    go (q, some blob) made = (rw made.0 refl, refl, made.2)
