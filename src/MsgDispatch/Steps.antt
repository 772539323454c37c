-- ===== src/MsgDispatch/Steps.antt =====
-- The loop over a topic's partitions in src/dory/msg_dispatch/produce_response_processor.cc, a step at
-- a time.
use dory.Common.{ℕ, ◌≡◌, refl, Bool, not, ◌||◌, List, ◌∷◌, none, some}
use dory.Common.Int.{ℤ}
use dory.Msg.{Msg}
use dory.MsgDispatch.Request.{MultiPartitionGroup, find_partition, erase_partition}
use dory.MsgDispatch.Processor.{Processor, process_one_ack}
use dory.MsgDispatch.Response.{unexpected_partition, process_partitions}

module _ (limit : ℕ) where
  -- The loop's step at a partition that the request has.
  pub process_partitions-found :
      (p : Processor) (group : MultiPartitionGroup) (got : Bool) (id code : ℤ) (acks : List (ℤ × ℤ))
      (truncated : Bool) (ms : List Msg)
      → find_partition id group ≡ some ms
      → let q = process_one_ack limit p ms code in
        process_partitions limit p group got ((id, code) ∷ acks) truncated
        ≡ process_partitions limit q.0 (erase_partition id group) (got || not q.1) acks truncated
  unfolding process_partitions
  process_partitions-found p group got id code acks truncated ms e = rw (e, process_partitions) refl

  pub process_partitions-missing :
      (p : Processor) (group : MultiPartitionGroup) (got : Bool) (id code : ℤ) (acks : List (ℤ × ℤ))
      (truncated : Bool)
      → find_partition id group ≡ none
      → process_partitions limit p group got ((id, code) ∷ acks) truncated
        ≡ record { processor = p; group = group; got_pause_ack = got; end = unexpected_partition }
  unfolding process_partitions
  process_partitions-missing p group got id code acks truncated e = rw (e, process_partitions) refl
