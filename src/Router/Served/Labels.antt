-- ===== src/Router/Served/Labels.antt =====
-- The error codes of the partitions that BuildMetadataFromResponse adds to a topic.
use dory.Common.{
  refl, ◌≡◌, Bool, Bool-cases, true, false, List, [], ◌∷◌, Option, none, some, All, All-append, inl,
  inr, ℕ,
}
use dory.Common.Int.{eq_ℤ}
use dory.Common.Assoc.{lookup}
use dory.Metadata.Defs.{Partition, Topic}
use dory.Metadata.Builder.{
  Builder, OpenTopic, add_partition_to_topic, added_partition, put_partition, contains,
}
use dory.Metadata.Build.{
  ResponsePartition, can_send_to_partition, add_partitions, rename_partitions,
}

abbrev pub can_send : Partition → Bool
can_send p = can_send_to_partition p.error_code

abbrev pub AllOk : List Partition → Type 0
AllOk ps = All (λ (p : Partition). can_send p ≡ true) ps

abbrev pub NoneOk : List Partition → Type 0
NoneOk ps = All (λ (p : Partition). can_send p ≡ false) ps

abbrev pub IsLabelled : Topic → Type 0
IsLabelled t = AllOk t.ok_partitions × NoneOk t.out_of_service_partitions

put_partition-IsLabelled :
    (b : Bool) (p : Partition) (t : Topic)
    → can_send p ≡ b
    → IsLabelled t
    → IsLabelled (put_partition b p t)
put_partition-IsLabelled true p t e h =
    (All-append (λ (q : Partition). can_send q ≡ true) t.ok_partitions (p ∷ []) h.0 (e, tt), h.1)
put_partition-IsLabelled false p t e h = (
  h.0,
  All-append (λ (q : Partition). can_send q ≡ false) t.out_of_service_partitions (p ∷ []) h.1
      (e, tt),
)

pub add_partitions-IsLabelled :
    (b : Builder) (ps : List ResponsePartition) (o : OpenTopic)
    → IsLabelled o.topic
    → IsLabelled (add_partitions b ps o).topic
unfolding add_partitions add_partition_to_topic
add_partitions-IsLabelled b [] o h = h
add_partitions-IsLabelled b (x ∷ rest) o h =
    add_partitions-IsLabelled b rest _ (added (lookup eq_ℤ x.leader_id b.broker_map))
  where
    added :
        (at : Option ℕ)
        → IsLabelled
            (added_partition at x.id (can_send_to_partition x.error_code) x.error_code o).topic
    added none = h
    added (some i) = elim (Bool-cases (contains x.id o.current_topic_partitions)) [
      | inl c ↦ rw c h
      | inr c ↦ rw c (
          put_partition-IsLabelled (can_send_to_partition x.error_code)
            (record { id = x.id; broker_index = i; error_code = x.error_code }) o.topic refl h)
    ]

pub All-rename :
    (b : Bool) (new : ℕ → ℕ) (ps : List Partition)
    → All (λ (p : Partition). can_send p ≡ b) ps
    → All (λ (p : Partition). can_send p ≡ b) (rename_partitions new ps)
unfolding rename_partitions
All-rename b new [] h = tt
All-rename b new (p ∷ ps) h = (h.0, All-rename b new ps h.1)
