-- ===== src/Batch/PerTopic/Conserve.antt =====
-- Counting the messages of src/dory/batch/per_topic_batcher.cc through its methods.
use dory.Common.{
  ℕ, ◌+◌, ◌≡◌, refl, ◌∙◌, Bool, List, [], ◌∷◌, ◌++◌, Option, none, some, arith, count_if, count_all,
  count_all-append, one_if, to_list, Bool-cases, Option-cases, inl, inr,
}
use dory.Common.Int.{ℤ, leb_ℤ}
use dory.Common.Bytes.{Bytes, bytes_eq_refl}
use dory.Msg.{Msg}
use dory.Batch.Core.{BatchConfig, batching_is_enabled}
use dory.Batch.SingleTopic.{new_batcher, take_batch, count_if-add_msg}
use dory.Batch.SingleTopic
use dory.Batch.PerTopic.{
  PerTopicBatcher, BatchMap, MapEntry, ExpiryRecord, find_entry, set_entry, collect,
  get_complete_batches, find_or_insert, topic_batches, add_to_entry, add_with_config, add_msg, get,
  take_all, get_all_batches, erase_entry, delete_topic,
}

-- How many messages of the map pass a test.
pub count_entries : (Msg → Bool) → BatchMap → ℕ
count_entries p [] = 0
count_entries p ((t, e) ∷ rest) = count_if p e.batcher.msg_list + count_entries p rest

module _ (p : Msg → Bool) where
  count_entries-append :
      (xs ys : BatchMap) → count_entries p (xs ++ ys) ≡ count_entries p xs + count_entries p ys
  unfolding count_entries
  count_entries-append [] ys = omega arith
  count_entries-append ((t, e) ∷ rest) ys = omega (arith, count_entries-append rest ys)

  count_entries-set :
      (map : BatchMap) (topic : Bytes) (e e' : MapEntry)
      → find_entry map topic ≡ some e
      → count_entries p (set_entry map topic e') + count_if p e.batcher.msg_list
        ≡ count_entries p map + count_if p e'.batcher.msg_list
  unfolding count_entries find_entry set_entry
  count_entries-set [] topic e e' h = cc
  count_entries-set ((t, x) ∷ rest) topic e e' h = ground (arith, count_entries-set rest topic e e')

  count_entries-erase :
      (map : BatchMap) (topic : Bytes) (e : MapEntry)
      → find_entry map topic ≡ some e
      → count_entries p (erase_entry map topic) + count_if p e.batcher.msg_list
        ≡ count_entries p map
  unfolding count_entries find_entry erase_entry
  count_entries-erase [] topic e h = cc
  count_entries-erase ((t, x) ∷ rest) topic e h = ground (arith, count_entries-erase rest topic e)

  collect-count :
      (rs : List ExpiryRecord) (map : BatchMap) (now : ℤ)
      → let c = collect rs map now in
        count_all p c.batches + count_entries p c.map ≡ count_entries p map
  unfolding collect take_batch
  collect-count [] map now = omega arith
  collect-count (r ∷ rs) map now = elim (Bool-cases (leb_ℤ r.expiry now)) [
    | inr late ↦ ground arith
    | inl due ↦ elim (Option-cases (find_entry map r.topic)) [
      | inl missing ↦ ground (arith, collect-count rs map now)
      | inr (e, found) ↦
          let emptied : MapEntry = record {
            batcher = (take_batch e.batcher).0;
            expiry_ref = none;
          } in
          ground (
            arith,
            collect-count rs (set_entry map r.topic emptied) now,
            count_entries-set map r.topic e emptied found,
          )
    ]
  ]

  -- For every test on messages, the batches that GetCompleteBatches returns and the batcher
  -- afterwards have together as many messages that pass it as the batcher before.
  pub get_complete_batches-count :
      (b : PerTopicBatcher) (now : ℤ)
      → let (b', batches) = get_complete_batches b now in
        count_all p batches + count_entries p b'.batch_map ≡ count_entries p b.batch_map
  unfolding get_complete_batches
  get_complete_batches-count b now = collect-count b.expiry_tracker b.batch_map now

  topic_batches-count :
      (batch : List Msg) (left : Option Msg)
      → count_all p (topic_batches batch left) ≡ count_if p batch + count_if p (to_list left)
  unfolding topic_batches
  topic_batches-count [] none = refl
  topic_batches-count [] (some m) = omega arith
  topic_batches-count (x ∷ xs) none = omega arith
  topic_batches-count (x ∷ xs) (some m) = omega arith

  find_or_insert-count :
      (map : BatchMap) (topic : Bytes) (c : BatchConfig)
      → count_entries p (find_or_insert map topic c).0 ≡ count_entries p map
  unfolding find_or_insert new_batcher
  find_or_insert-count map topic c =
      let e : MapEntry = record { batcher = new_batcher c; expiry_ref = none } in
      elim (Option-cases (find_entry map topic)) [
        | inl h ↦
            rw (h, find_or_insert)
              (count_entries-append map ((topic, e) ∷ []) ∙ unfold count_entries in (omega arith))
        | inr (x, h) ↦ rw (h, find_or_insert)
      ]

find_entry-append :
    (map : BatchMap) (topic : Bytes) (e : MapEntry)
    → find_entry map topic ≡ none
    → find_entry (map ++ ((topic, e) ∷ [])) topic ≡ some e
unfolding find_entry
find_entry-append [] topic e h = ground (arith, bytes_eq_refl topic)
find_entry-append ((t, x) ∷ rest) topic e h = ground (arith, find_entry-append rest topic e)

pub find_entry-find_or_insert :
    (map : BatchMap) (topic : Bytes) (c : BatchConfig)
    → let r = find_or_insert map topic c in find_entry r.0 topic ≡ some r.1
unfolding find_or_insert
find_entry-find_or_insert map topic c = elim (Option-cases (find_entry map topic)) [
  | inl e ↦
      rw (e, find_or_insert)
        (find_entry-append map topic (record { batcher = new_batcher c; expiry_ref = none }) e)
  | inr (x, e) ↦ rw (e, find_or_insert) e
]

module _ (p : Msg → Bool) where
  add_to_entry-count :
      (b : PerTopicBatcher) (map : BatchMap) (e : MapEntry) (m : Msg) (now : ℤ)
      → find_entry map m.topic ≡ some e
      → let (b', own) = add_to_entry b map e m now in
        count_all p own + count_entries p b'.batch_map ≡ count_entries p map + one_if (p m)
  unfolding add_to_entry
  add_to_entry-count b map e m now h =
      let a = SingleTopic.add_msg e.batcher m now in
      omega (
        arith,
        count_entries-set p map m.topic e _ h,
        topic_batches-count p a.batch a.left,
        count_if-add_msg p e.batcher m now,
      )

  add_with_config-count :
      (b : PerTopicBatcher) (c : BatchConfig) (m : Msg) (now : ℤ)
      → let a = add_with_config b c m now in
        count_all p a.batches + count_entries p a.batcher.batch_map + count_if p (to_list a.left)
        ≡ count_entries p b.batch_map + one_if (p m)
  unfolding add_with_config
  add_with_config-count b c m now =
      let r = find_or_insert b.batch_map m.topic c in
      let s = add_to_entry b r.0 r.1 m now in
      let kept = find_or_insert-count p b.batch_map m.topic c in
      elim (Bool-cases (batching_is_enabled r.1.batcher.core_state.config)) [
        | inl on ↦ rw on (
            omega (
              arith,
              kept,
              count_all-append p (get_complete_batches s.0 now).1 s.1,
              get_complete_batches-count p s.0 now,
              add_to_entry-count b r.0 r.1 m now (find_entry-find_or_insert b.batch_map m.topic c),
            ))
        | inr off ↦
            rw off
              (omega (arith, kept, get_complete_batches-count p (record b { batch_map = r.0 }) now))
      ]

  -- For every test on messages, the batches that the per-topic batcher's AddMsg returns, the
  -- batcher afterwards and what is left with the caller have together as many messages that pass it
  -- as the batcher before and the new message.
  pub add_msg-count :
      (b : PerTopicBatcher) (m : Msg) (now : ℤ)
      → let a = add_msg b m now in
        count_all p a.batches + count_entries p a.batcher.batch_map + count_if p (to_list a.left)
        ≡ count_entries p b.batch_map + one_if (p m)
  unfolding add_msg
  add_msg-count b m now = elim (Option-cases b.config) [
    | inl e ↦ rw (e, add_msg) (omega arith)
    | inr (c, e) ↦ rw (e, add_msg) (add_with_config-count b (get c m.topic) m now)
  ]

  take_all-count : (map : BatchMap) → count_all p (take_all map).1 ≡ count_entries p map
  unfolding take_all count_entries take_batch
  take_all-count [] = refl
  take_all-count ((t, e) ∷ rest) = omega (
    arith,
    count_all-append p (topic_batches e.batcher.msg_list none) (take_all rest).1,
    topic_batches-count p e.batcher.msg_list none,
    take_all-count rest,
  )

  take_all-empties : (map : BatchMap) → count_entries p (take_all map).0 ≡ 0
  unfolding take_all count_entries take_batch
  take_all-empties [] = refl
  take_all-empties ((t, e) ∷ rest) = omega (arith, take_all-empties rest)

  -- For every test on messages, GetAllBatches returns as many messages that pass it as the batcher
  -- had, and the batcher has none left.
  pub get_all_batches-count :
      (b : PerTopicBatcher)
      → let (b', batches) = get_all_batches b in
        (count_all p batches ≡ count_entries p b.batch_map) × (count_entries p b'.batch_map ≡ 0)
  unfolding get_all_batches
  get_all_batches-count b = (take_all-count b.batch_map, take_all-empties b.batch_map)

  -- For every test on messages, the batch that DeleteTopic returns and the batcher afterwards have
  -- together as many messages that pass it as the batcher before.
  pub delete_topic-count :
      (b : PerTopicBatcher) (topic : Bytes)
      → let (b', batch) = delete_topic b topic in
        count_if p batch + count_entries p b'.batch_map ≡ count_entries p b.batch_map
  unfolding delete_topic take_batch
  delete_topic-count b topic = elim (Option-cases (find_entry b.batch_map topic)) [
    | inl e ↦ rw (e, delete_topic) (omega arith)
    | inr (x, e) ↦ rw (e, delete_topic) (omega (arith, count_entries-erase p b.batch_map topic x e))
  ]
