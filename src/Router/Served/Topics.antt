-- ===== src/Router/Served/Topics.antt =====
-- The topics that BuildMetadataFromResponse adds, of which the brokers are marked.
use dory.Common.{
  ℕ, ◌+◌, ◌≡◌, refl, Bool, true, false, List, [], ◌∷◌, ◌++◌, Option, none, some, length, arith, All,
  All-append, count_if, count_if-append, if◌then◌else◌,
}
use dory.Common.Int.{pos, eq_ℤ}
use dory.Common.Bytes.{Bytes, bytes_eq}
use dory.Common.Assoc.{lookup}
use dory.Metadata.Defs.{Broker, Partition, Topic}
use dory.Metadata.Builder.{
  Builder, Ranges, make_ranges, ranges_of, close_topic, sort, by_broker, by_id,
}
use dory.Metadata.Build.{ResponseTopic, add_partitions, add_topics, opened, open_topic}
use dory.Metadata.Sorted.{count_if-sort}
use dory.Metadata.Topics.{AreOn, AreOn-permuted, Permutes}
use dory.Metadata.Response.{IsBetween, opened-IsBetween, add_partitions-IsOpen}
use dory.Router.Choose.{is_in_service}
use dory.Router.Served.Labels.{can_send, IsLabelled, add_partitions-IsLabelled}
use dory.Router.Served.Marks.{AreServed, make_ranges-keeps, make_ranges-AreServed, All-permuted}

-- The partitions that messages can be sent to have their brokers in service; they are all the
-- partitions with the others, and the error codes tell them from these.
pub record IsServing (bs : List Broker) (t : Topic) : Type 0 where
  pub served : AreServed bs t.ok_partitions
  pub parts :
      (test : Partition → Bool)
      → count_if test t.all_partitions
        ≡ count_if test t.ok_partitions + count_if test t.out_of_service_partitions
  pub labelled : IsLabelled t

AreServed-keeps :
    (bs bs' : List Broker)
    → ((j : ℕ) → is_in_service bs j ≡ true → is_in_service bs' j ≡ true)
    → (ps : List Partition) → AreServed bs ps
    → AreServed bs' ps
AreServed-keeps bs bs' keeps [] h = tt
AreServed-keeps bs bs' keeps (p ∷ ps) h =
    (keeps p.broker_index h.0, AreServed-keeps bs bs' keeps ps h.1)

AreServing-keep :
    (bs bs' : List Broker)
    → ((j : ℕ) → is_in_service bs j ≡ true → is_in_service bs' j ≡ true)
    → (ts : List Topic) → All (IsServing bs) ts
    → All (IsServing bs') ts
AreServing-keep bs bs' keeps [] h = tt
AreServing-keep bs bs' keeps (t ∷ ts) h = (
  record {
    served = AreServed-keeps bs bs' keeps t.ok_partitions (h.0).served;
    parts = (h.0).parts;
    labelled = (h.0).labelled;
  },
  AreServing-keep bs bs' keeps ts h.1,
)

module _ (shuffle : List Partition → List Partition) (perm : Permutes shuffle) where
  close_topic-IsServing :
      (n : ℕ) (name : Bytes) (t : Topic) (b : Builder)
      → length b.brokers ≡ n
      → AreOn n t.ok_partitions
      → IsLabelled t
      → All (IsServing b.brokers) b.topics
      → let b' = close_topic shuffle name t b in All (IsServing b'.brokers) b'.topics
  unfolding close_topic ranges_of
  close_topic-IsServing n name t b len on labels h =
      let sorted = sort by_broker t.ok_partitions in
      let r : Ranges = record {
        brokers = b.brokers;
        vec = b.topic_broker_vec;
        choice_map = t.partition_choice_map;
      } in
      let bs' = (make_ranges sorted r).brokers in
      let good = λ (p : Partition). is_in_service bs' p.broker_index in
      let sorted_on =
        AreOn-permuted (sort by_broker) n t.ok_partitions
          (λ test ps. count_if-sort test by_broker ps) on in
      All-append (IsServing bs') b.topics _
        (AreServing-keep b.brokers bs' (make_ranges-keeps sorted r) b.topics h)
        (
          record {
            served =
                All-permuted good shuffle perm sorted
                  (make_ranges-AreServed n sorted r len sorted_on);
            parts = λ test. omega (
              arith,
              perm test sorted,
              count_if-sort test by_id (sorted ++ t.out_of_service_partitions),
              count_if-append test sorted t.out_of_service_partitions,
            );
            labelled = (
              All-permuted can_send shuffle perm sorted (
                  All-permuted can_send (sort by_broker)
                    (λ test ps. count_if-sort test by_broker ps) t.ok_partitions labels.0),
              labels.1,
            );
          },
          tt,
        )

  opened-IsServing :
      (n : ℕ) (o : Option ℕ) (t : ResponseTopic) (b : Builder)
      → IsBetween shuffle perm n b
      → All (IsServing b.brokers) b.topics
      → let b' = opened shuffle o t b in All (IsServing b'.brokers) b'.topics
  unfolding opened
  opened-IsServing n (some i) t b between h = h
  opened-IsServing n none t b between h =
      let open_part = add_partitions-IsOpen n b t.partitions open_topic between.0 (tt, refl) in
      close_topic-IsServing n t.name (add_partitions b t.partitions open_topic).topic b between.1.0
        open_part.0 (add_partitions-IsLabelled b t.partitions open_topic (tt, tt)) h

  abbrev Serves : ℕ → Builder → Type 0
  Serves n b = IsBetween shuffle perm n b × All (IsServing b.brokers) b.topics

  pub add_topics-Serves :
      (n : ℕ) (ts : List ResponseTopic) (b : Builder)
      → Serves n b
      → Serves n (add_topics shuffle ts b)
  unfolding add_topics
  add_topics-Serves n [] b h = h
  add_topics-Serves n (t ∷ rest) b h =
      let o = lookup bytes_eq t.name b.topic_name_to_index in
      let after = opened shuffle o t b in
      let opens : Serves n after =
        (opened-IsBetween shuffle perm n o t b h.0, opened-IsServing n o t b h.0 h.1) in
      add_topics-Serves n rest _ (one_topic (eq_ℤ t.error_code (pos 0)) after opens)
    where
      one_topic :
          (good : Bool) (after : Builder) → Serves n after → Serves n (if good then after else b)
      one_topic true after opens = opens
      one_topic false after opens = h
