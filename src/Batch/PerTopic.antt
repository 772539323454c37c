-- ===== src/Batch/PerTopic.antt =====
-- src/dory/batch/per_topic_batcher.cc: a batch for each topic, and the tracker of their deadlines.
-- BatchMap is an association list in its iteration order. ExpiryTracker is the list of its records in
-- ascending order, and an iterator into it is the number of the record it points at (`none` for
-- end()); each insertion takes a new number.
pub mod Conserve
use dory.Common.{
  ℕ, zero, suc, ◌+◌, ◌≡◌, refl, Bool, true, false, not, List, [], ◌∷◌, ◌++◌, Option, none, some,
  if◌then◌else◌, ◌==◌,
}
use dory.Common.Int.{ℤ, ltb_ℤ, leb_ℤ, eq_ℤ, pos}
use dory.Common.Bytes.{Bytes, bytes_eq}
use dory.Msg.{Msg}
use dory.Batch.Core.{BatchConfig, batching_is_enabled}
use dory.Batch.SingleTopic.{SingleTopicBatcher, new_batcher, take_batch}
use dory.Batch.SingleTopic

pub record Config : Type 0 where
  pub default_topic : BatchConfig
  pub per_topic : List (Bytes × BatchConfig)

find_config : List (Bytes × BatchConfig) → BatchConfig → Bytes → BatchConfig
find_config [] default topic = default
find_config ((t, c) ∷ rest) default topic =
    if bytes_eq t topic then c else find_config rest default topic

pub get : Config → Bytes → BatchConfig
unfolding find_config
get c topic = find_config c.per_topic c.default_topic topic

pub record ExpiryRecord : Type 0 where
  pub ref : ℕ
  pub expiry : ℤ
  pub topic : Bytes

pub record MapEntry : Type 0 where
  pub batcher : SingleTopicBatcher
  pub expiry_ref : Option ℕ

abbrev pub BatchMap : Type 0
BatchMap = List (Bytes × MapEntry)

pub record PerTopicBatcher : Type 0 where
  pub config : Option Config
  pub batch_map : BatchMap
  pub expiry_tracker : List ExpiryRecord
  pub next_ref : ℕ

unfoldable pub new_per_topic : Option Config → PerTopicBatcher
new_per_topic c = record { config = c; batch_map = []; expiry_tracker = []; next_ref = 0 }

abbrev pub is_enabled : PerTopicBatcher → Bool
is_enabled b = elim b.config [ none ↦ false | some c ↦ true ]

unfoldable pub find_entry : BatchMap → Bytes → Option MapEntry
find_entry [] topic = none
find_entry ((t, e) ∷ rest) topic = if bytes_eq t topic then some e else find_entry rest topic

-- Change the entry of a topic that is in the map.
unfoldable pub set_entry : BatchMap → Bytes → MapEntry → BatchMap
set_entry [] topic e' = []
set_entry ((t, e) ∷ rest) topic e' =
    if bytes_eq t topic then (t, e') ∷ rest else (t, e) ∷ set_entry rest topic e'

-- std::multiset::insert puts a record behind those that are not greater.
unfoldable pub insert_record : ExpiryRecord → List ExpiryRecord → List ExpiryRecord
insert_record r [] = r ∷ []
insert_record r (x ∷ xs) = if ltb_ℤ r.expiry x.expiry then r ∷ x ∷ xs else x ∷ insert_record r xs

unfoldable pub erase_record : ℕ → List ExpiryRecord → List ExpiryRecord
erase_record ref [] = []
erase_record ref (x ∷ xs) = if x.ref == ref then xs else x ∷ erase_record ref xs

-- What an iterator points at.
unfoldable pub find_record : List ExpiryRecord → ℕ → Option ExpiryRecord
find_record [] ref = none
find_record (x ∷ xs) ref = if x.ref == ref then some x else find_record xs ref

-- `entry.ExpiryRef->GetExpiry()`, and 0 at end().
unfoldable pub expiry_at : List ExpiryRecord → Option ℕ → ℤ
expiry_at tracker none = pos 0
expiry_at tracker (some ref) = elim (find_record tracker ref) [ none ↦ pos 0 | some r ↦ r.expiry ]

pub record Tracked : Type 0 where
  pub entry_ref : Option ℕ
  pub tracker : List ExpiryRecord
  pub fresh : ℕ

unfoldable pub add_expiry : List ExpiryRecord → ℕ → ℤ → Bytes → Tracked
add_expiry tracker next expiry topic = record {
  entry_ref = some next;
  tracker = insert_record (record { ref = next; expiry = expiry; topic = topic }) tracker;
  fresh = suc next;
}

-- The two flags `remove_old_expiry` and `add_new_expiry` of AddMsg and what they bring about, from
-- the entry's iterator, the deadline it held and the batch's deadline after the message.
unfoldable pub update_expiry : List ExpiryRecord → ℕ → Option ℕ → ℤ → Option ℤ → Bytes → Tracked
update_expiry tracker next none expiry none topic = record {
  entry_ref = none;
  tracker = tracker;
  fresh = next;
}
update_expiry tracker next none expiry (some final) topic = add_expiry tracker next final topic
update_expiry tracker next (some ref) expiry none topic = record {
  entry_ref = none;
  tracker = erase_record ref tracker;
  fresh = next;
}
update_expiry tracker next (some ref) expiry (some final) topic =
    if eq_ℤ final expiry
    then record { entry_ref = some ref; tracker = tracker; fresh = next }
    else add_expiry (erase_record ref tracker) next final topic

pub record Collected : Type 0 where
  pub batches : List (List Msg)
  pub records : List ExpiryRecord
  pub map : BatchMap

-- The loop of GetCompleteBatches over the records that are due.
unfoldable pub collect : List ExpiryRecord → BatchMap → ℤ → Collected
collect [] map now = record { batches = []; records = []; map = map }
collect (r ∷ rs) map now = elim (leb_ℤ r.expiry now) [
  | false ↦ record { batches = []; records = r ∷ rs; map = map }
  | true ↦ elim (find_entry map r.topic) [
    | none ↦
        let rest = collect rs map now in
        record { batches = rest.batches; records = r ∷ rest.records; map = rest.map }
    | some e ↦
        let emptied : MapEntry = record { batcher = (take_batch e.batcher).0; expiry_ref = none } in
        let rest = collect rs (set_entry map r.topic emptied) now in
        record {
          batches = (take_batch e.batcher).1 ∷ rest.batches;
          records = rest.records;
          map = rest.map;
        }
  ]
]

pub get_complete_batches : PerTopicBatcher → ℤ → PerTopicBatcher × List (List Msg)
get_complete_batches b now =
    let c = collect b.expiry_tracker b.batch_map now in
    (record b { batch_map = c.map; expiry_tracker = c.records }, c.batches)

pub get_next_complete_time : PerTopicBatcher → Option ℤ
get_next_complete_time b = elim b.expiry_tracker [ [] ↦ none | r ∷ rs ↦ some r.expiry ]

-- The entry of a topic, which is made if there is none.
unfoldable pub find_or_insert : BatchMap → Bytes → BatchConfig → BatchMap × MapEntry
find_or_insert map topic c = elim (find_entry map topic) [
  | some e ↦ (map, e)
  | none ↦
      let e : MapEntry = record { batcher = new_batcher c; expiry_ref = none } in
      (map ++ ((topic, e) ∷ []), e)
]

pub record Added : Type 0 where
  pub batcher : PerTopicBatcher
  pub batches : List (List Msg)
  pub left : Option Msg

-- The complete batch of the message's topic, and the message itself if its batcher left it.
unfoldable pub topic_batches : List Msg → Option Msg → List (List Msg)
topic_batches [] none = []
topic_batches [] (some m) = (m ∷ []) ∷ []
topic_batches (x ∷ xs) none = (x ∷ xs) ∷ []
topic_batches (x ∷ xs) (some m) = (x ∷ xs) ∷ (m ∷ []) ∷ []

-- The part of AddMsg for an entry whose batcher is enabled, up to the call of GetCompleteBatches.
pub add_to_entry :
    PerTopicBatcher → BatchMap → MapEntry → Msg → ℤ → PerTopicBatcher × List (List Msg)
add_to_entry b map e m now =
    let a = SingleTopic.add_msg e.batcher m now in
    let t =
      update_expiry b.expiry_tracker b.next_ref e.expiry_ref
        (expiry_at b.expiry_tracker e.expiry_ref) (SingleTopic.get_next_complete_time a.batcher)
        m.topic in
    (
      record b {
        batch_map =
            set_entry map m.topic (record { batcher = a.batcher; expiry_ref = t.entry_ref });
        expiry_tracker = t.tracker;
        next_ref = t.fresh;
      },
      topic_batches a.batch a.left,
    )

-- AddMsg for a batcher whose configuration for the topic is `c`.
pub add_with_config : PerTopicBatcher → BatchConfig → Msg → ℤ → Added
add_with_config b c m now =
    let (map, e) = find_or_insert b.batch_map m.topic c in
    if batching_is_enabled e.batcher.core_state.config
    then (let (b', own) = add_to_entry b map e m now in
        let (b'', due) = get_complete_batches b' now in
        record { batcher = b''; batches = due ++ own; left = none })
    else (let (b'', due) = get_complete_batches (record b { batch_map = map }) now in
        record { batcher = b''; batches = due; left = some m })

-- AddMsg dereferences Config, which its callers check: with none, nothing is done here.
pub add_msg : PerTopicBatcher → Msg → ℤ → Added
add_msg b m now = elim b.config [
  | none ↦ record { batcher = b; batches = []; left = some m }
  | some c ↦ add_with_config b (get c m.topic) m now
]

-- All batches, even incomplete ones.
unfoldable pub take_all : BatchMap → BatchMap × List (List Msg)
take_all [] = ([], [])
take_all ((t, e) ∷ rest) =
    let (map, batches) = take_all rest in
    let (emptied, batch) = take_batch e.batcher in
    (
      (t, record { batcher = emptied; expiry_ref = none }) ∷ map,
      topic_batches batch none ++ batches,
    )

pub get_all_batches : PerTopicBatcher → PerTopicBatcher × List (List Msg)
get_all_batches b =
    let (map, batches) = take_all b.batch_map in
    (record b { batch_map = map; expiry_tracker = [] }, batches)

unfoldable pub erase_entry : BatchMap → Bytes → BatchMap
erase_entry [] topic = []
erase_entry ((t, e) ∷ rest) topic =
    if bytes_eq t topic then rest else (t, e) ∷ erase_entry rest topic

unfoldable pub erase_ref : Option ℕ → List ExpiryRecord → List ExpiryRecord
erase_ref none tracker = tracker
erase_ref (some ref) tracker = erase_record ref tracker

pub delete_topic : PerTopicBatcher → Bytes → PerTopicBatcher × List Msg
delete_topic b topic = elim (find_entry b.batch_map topic) [
  | none ↦ (b, [])
  | some e ↦ (
    record b {
      batch_map = erase_entry b.batch_map topic;
      expiry_tracker = erase_ref e.expiry_ref b.expiry_tracker;
    },
    (take_batch e.batcher).1,
  )
]
