-- ===== src/Batch/TopicMap.antt =====
-- src/dory/util/topic_map.cc: messages grouped by topic. The unordered_map is an association list
-- without repeated topics, and its iteration order is the list's.
use dory.Common.{
  ℕ, ◌+◌, ◌≡◌, refl, Bool, List, [], ◌∷◌, ◌++◌, if◌then◌else◌, arith, count_if, count_all,
  count_if-append, All, one_if,
}
use dory.Common.Bytes.{Bytes, bytes_eq}
use dory.Msg.{Msg}

abbrev pub TopicMap : Type 0
TopicMap = List (Bytes × List Msg)

-- `PutCommon` finds or makes the list of a topic, and `Put` appends to it.
unfoldable pub put_batch : TopicMap → Bytes → List Msg → TopicMap
put_batch [] topic batch = (topic, batch) ∷ []
put_batch ((t, msgs) ∷ rest) topic batch =
    if bytes_eq t topic then (t, msgs ++ batch) ∷ rest else (t, msgs) ∷ put_batch rest topic batch

unfoldable pub put : TopicMap → Msg → TopicMap
put map m = put_batch map m.topic (m ∷ [])

unfoldable pub put_all : TopicMap → List (List Msg) → TopicMap
put_all map [] = map
put_all map ([] ∷ batches) = put_all map batches
put_all map ((m ∷ ms) ∷ batches) = put_all (put_batch map m.topic (m ∷ ms)) batches

-- Remove the messages of a topic.
pub get_topic : TopicMap → Bytes → List Msg × TopicMap
get_topic [] topic = ([], [])
get_topic ((t, msgs) ∷ rest) topic =
    let tail = get_topic rest topic in
    if bytes_eq t topic then (msgs, rest) else (tail.0, (t, msgs) ∷ tail.1)

-- The lists that are not empty, which `Get()` hands over, leaving the map empty.
unfoldable pub get_all : TopicMap → List (List Msg)
get_all [] = []
get_all ((t, []) ∷ rest) = get_all rest
get_all ((t, m ∷ ms) ∷ rest) = (m ∷ ms) ∷ get_all rest

-- How many messages of the map pass a test.
unfoldable pub count_map : (Msg → Bool) → TopicMap → ℕ
count_map p [] = 0
count_map p ((t, msgs) ∷ rest) = count_if p msgs + count_map p rest

count_map-put_batch :
    (p : Msg → Bool) (map : TopicMap) (topic : Bytes) (batch : List Msg)
    → count_map p (put_batch map topic batch) ≡ count_map p map + count_if p batch
unfolding count_map put_batch
count_map-put_batch p [] topic batch = omega arith
count_map-put_batch p ((t, msgs) ∷ rest) topic batch =
    ground (arith, count_if-append p msgs batch, count_map-put_batch p rest topic batch)

pub count_map-put :
    (p : Msg → Bool) (map : TopicMap) (m : Msg)
    → count_map p (put map m) ≡ count_map p map + one_if (p m)
unfolding put
count_map-put p map m = omega (arith, count_map-put_batch p map m.topic (m ∷ []))

-- For every test on messages, putting a list of batches into a topic map adds as many messages that
-- pass it as the batches have.
pub count_map-put_all :
    (p : Msg → Bool) (map : TopicMap) (batches : List (List Msg))
    → count_map p (put_all map batches) ≡ count_map p map + count_all p batches
unfolding put_all
count_map-put_all p map [] = omega arith
count_map-put_all p map ([] ∷ batches) = omega (arith, count_map-put_all p map batches)
count_map-put_all p map ((m ∷ ms) ∷ batches) = omega (
  arith,
  count_map-put_all p (put_batch map m.topic (m ∷ ms)) batches,
  count_map-put_batch p map m.topic (m ∷ ms),
)

-- Taking everything yields each message once.
pub count_all-get_all :
    (p : Msg → Bool) (map : TopicMap) → count_all p (get_all map) ≡ count_map p map
unfolding get_all count_map
count_all-get_all p [] = refl
count_all-get_all p ((t, []) ∷ rest) = omega (arith, count_all-get_all p rest)
count_all-get_all p ((t, m ∷ ms) ∷ rest) = omega (arith, count_all-get_all p rest)

-- For every test on messages, the batch that Get of one topic returns and the map afterwards have
-- together as many messages that pass it as the map before.
pub count_map-get_topic :
    (p : Msg → Bool) (map : TopicMap) (topic : Bytes)
    → count_if p (get_topic map topic).0 + count_map p (get_topic map topic).1 ≡ count_map p map
unfolding get_topic count_map
count_map-get_topic p [] topic = omega arith
count_map-get_topic p ((t, msgs) ∷ rest) topic = ground (arith, count_map-get_topic p rest topic)

-- Every message is kept under its own topic.
abbrev pub IsGrouped : TopicMap → Type 0
IsGrouped [] = Unit {0}
IsGrouped ((t, msgs) ∷ rest) = All (λ (m : Msg). m.topic ≡ t) msgs × IsGrouped rest
