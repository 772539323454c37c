-- ===== src/Metadata/Ranges.antt =====
-- The ranges of partition IDs that CloseTopic of src/dory/metadata.cc makes, one for each broker.
use dory.Common.{
  ℕ, ◌+◌, ◌-◌, ◌≡◌, ◌≤◌, ◌<◌, refl, sym, ap, ◌∙◌, subst, Bool, Bool-cases, true, false, ◌&&◌, List,
  [], ◌∷◌, ◌++◌, none, some, ltb, leb, ◌==◌, if◌then◌else◌, length, take, drop, arith, count_if,
  length-append, length-drop, inl, inr, append-nil, append_assoc,
}
use dory.Common.Slices.{take-append_le, drop-append_le, take-append_of, drop-append_of}
use dory.Common.Int.{ℤ}
use dory.Common.Assoc.{lookup}
use dory.Metadata.Defs.{Broker, Partition, PartitionChoices, ChoiceMap, choices_in}
use dory.Metadata.Builder.{Ranges, insert_new, close_run, walk, make_ranges}

-- How many of the partitions on a broker pass a test of their IDs.
abbrev pub count_on : (ℤ → Bool) → ℕ → List Partition → ℕ
count_on test i ps = count_if (λ (p : Partition). p.broker_index == i && test p.id) ps

-- Every range is inside the vector, and is not empty.
abbrev pub AreInside : List ℤ → ChoiceMap → Type 0
AreInside vec [] = Unit {0}
AreInside vec ((i, c) ∷ rest) =
    (c.topic_broker_vec_index + c.topic_broker_vec_num_items ≤ length vec)
    × (0 < c.topic_broker_vec_num_items)
    × AreInside vec rest

abbrev pub choices_at : ℕ → List ℤ → ChoiceMap → List ℤ
choices_at i vec choice_map = choices_in vec (lookup ◌==◌ i choice_map)

pub AreInside-append :
    (vec more : List ℤ) (m : ChoiceMap) → AreInside vec m → AreInside (vec ++ more) m
AreInside-append vec more [] h = tt
AreInside-append vec more ((i, c) ∷ rest) h =
    (omega (arith, length-append vec more), h.1, AreInside-append vec more rest h.2)

choices_in-some :
    (vec : List ℤ) (c : PartitionChoices)
    → c.topic_broker_vec_index + c.topic_broker_vec_num_items ≤ length vec
    → 0 < c.topic_broker_vec_num_items
    → choices_in vec (some c)
      ≡ take c.topic_broker_vec_num_items (drop c.topic_broker_vec_index vec)
unfolding choices_in
choices_in-some vec c h k =
    let a : leb (length vec) c.topic_broker_vec_index ≡ false = ground arith in
    let b : ltb (length vec - c.topic_broker_vec_index) c.topic_broker_vec_num_items ≡ false =
      ground arith in
    rw (a, b) refl

-- What is put behind the vector changes no range.
pub choices_at-append :
    (i : ℕ) (vec more : List ℤ) (m : ChoiceMap)
    → AreInside vec m
    → choices_at i (vec ++ more) m ≡ choices_at i vec m
unfolding lookup
choices_at-append i vec more [] h = unfold choices_in in refl
choices_at-append i vec more ((k, c) ∷ rest) h = elim (Bool-cases (k == i)) [
  | inl e ↦
      let at = c.topic_broker_vec_index in
      let n = c.topic_broker_vec_num_items in
      rw e (
        choices_in-some (vec ++ more) c (omega (arith, h.0, length-append vec more)) h.1
        ∙ ap (take n) (drop-append_le at vec more (omega (arith, h.0)))
        ∙ take-append_le n (drop at vec) more (omega (arith, h.0, length-drop at vec))
        ∙ sym (choices_in-some vec c h.0 h.1))
  | inr e ↦ rw e (choices_at-append i vec more rest h.2)
]

pub choices_at-none :
    (k : ℕ) (vec : List ℤ) (m : ChoiceMap) → lookup ◌==◌ k m ≡ none → choices_at k vec m ≡ []
unfolding choices_in
choices_at-none k vec m h = rw (h, choices_in) refl

take-length : (ids : List ℤ) → take (length ids) ids ≡ ids
take-length ids =
    sym (ap (take (length ids)) (append-nil ids)) ∙ take-append_of ids [] (length ids) refl

abbrev pub range : Ranges → List ℤ → PartitionChoices
range r ids = record {
  topic_broker_vec_index = length r.vec;
  topic_broker_vec_num_items = length ids;
}

pub map-close_run :
    (i : ℕ) (ids : List ℤ) (r : Ranges)
    → lookup ◌==◌ i r.choice_map ≡ none
    → (close_run i ids r).choice_map ≡ (i, range r ids) ∷ r.choice_map
unfolding close_run
map-close_run i ids r new = rw (new, insert_new) refl

pub close_run-AreInside :
    (i : ℕ) (ids : List ℤ) (r : Ranges)
    → lookup ◌==◌ i r.choice_map ≡ none
    → 0 < length ids
    → AreInside r.vec r.choice_map
    → AreInside (close_run i ids r).vec (close_run i ids r).choice_map
unfolding close_run
close_run-AreInside i ids r new some_id h =
    subst (AreInside (r.vec ++ ids)) (sym (map-close_run i ids r new))
      (omega (arith, length-append r.vec ids), some_id, AreInside-append r.vec ids r.choice_map h)

-- A broker that had no range gets one of the IDs, and the ranges of the others are as before.
choices_at-close_run :
    (k i : ℕ) (ids : List ℤ) (r : Ranges)
    → lookup ◌==◌ i r.choice_map ≡ none
    → 0 < length ids
    → AreInside r.vec r.choice_map
    → choices_at k (close_run i ids r).vec (close_run i ids r).choice_map
      ≡ (if i == k then ids else choices_at k r.vec r.choice_map)
unfolding close_run lookup
choices_at-close_run k i ids r new some_id h =
    ap (choices_at k (r.vec ++ ids)) (map-close_run i ids r new) ∙ elim (Bool-cases (i == k)) [
      | inl e ↦
          rw (lookup, e)
            (choices_in-some (r.vec ++ ids) (range r ids) (omega (arith, length-append r.vec ids))
                some_id
              ∙ ap (take (length ids)) (drop-append_of r.vec ids (length r.vec) refl)
              ∙ take-length ids)
      | inr e ↦ rw (lookup, e) (choices_at-append k r.vec ids r.choice_map h)
    ]

-- The IDs of the partitions on a broker, in order.
abbrev pub ids_on : ℕ → List Partition → List ℤ
ids_on k [] = []
ids_on k (p ∷ rest) = if p.broker_index == k then p.id ∷ ids_on k rest else ids_on k rest

-- No broker comes before one of those before it.
abbrev pub Follow : ℕ → List Partition → Type 0
Follow i [] = Unit {0}
Follow i (p ∷ rest) = (i ≤ p.broker_index) × Follow p.broker_index rest

-- The brokers from one on have no range yet.
abbrev pub AreNew : ℕ → ChoiceMap → Type 0
AreNew i m = (k : ℕ) → i ≤ k → lookup ◌==◌ k m ≡ none

pub close_run-AreNew :
    (i j : ℕ) (ids : List ℤ) (r : Ranges)
    → i < j
    → AreNew i r.choice_map
    → AreNew j (close_run i ids r).choice_map
close_run-AreNew i j ids r lt new k le =
    let apart : (i == k) ≡ false = ground (arith, lt, le) in
    subst (λ m. lookup ◌==◌ k m ≡ none) (sym (map-close_run i ids r (new i (omega arith))))
      (unfold lookup in rw apart (new k (omega arith)))

-- One more partition of the broker that is walked, and the first of a later one.
one_more :
    (i j k : ℕ) (x : ℤ) (ids before later : List ℤ)
    → j ≡ i
    → (if i == k then ids ++ x ∷ [] else before) ++ later
      ≡ (if i == k then ids else before) ++ (if j == k then x ∷ later else later)
one_more i j k x ids before later same = elim (Bool-cases (i == k)) [
  | inl e ↦
      let e' : (j == k) ≡ true = ground (arith, e, same) in
      rw (e, e') (append_assoc ids (x ∷ []) later)
  | inr e ↦ let e' : (j == k) ≡ false = ground (arith, e, same) in rw (e, e') refl
]

first_of :
    (i j k : ℕ) (x : ℤ) (ids before later : List ℤ)
    → i < j
    → (i < k → before ≡ [])
    → (if j == k then x ∷ [] else if i == k then ids else before) ++ later
      ≡ (if i == k then ids else before) ++ (if j == k then x ∷ later else later)
first_of i j k x ids before later lt none_yet = elim (Bool-cases (j == k)) [
  | inl e ↦
      let e' : (i == k) ≡ false = ground (arith, e, lt) in
      rw (e, e') (ap (λ xs. xs ++ x ∷ later) (sym (none_yet (ground (arith, e, lt)))))
  | inr e ↦ rw e refl
]

walk-choices :
    (k i : ℕ) (ids : List ℤ) (rest : List Partition) (r : Ranges)
    → Follow i rest
    → AreNew i r.choice_map
    → 0 < length ids
    → AreInside r.vec r.choice_map
    → choices_at k (walk i ids rest r).vec (walk i ids rest r).choice_map
      ≡ (if i == k then ids else choices_at k r.vec r.choice_map) ++ ids_on k rest
unfolding walk
walk-choices k i ids [] r f new some_id h =
    choices_at-close_run k i ids r (new i (omega arith)) some_id h
    ∙ sym (append-nil (if i == k then ids else choices_at k r.vec r.choice_map))
walk-choices k i ids (p ∷ rest) r f new some_id h = elim (Bool-cases (p.broker_index == i)) [
  | inl e ↦
      let same : p.broker_index ≡ i = ground (arith, e) in
      rw e (
        walk-choices k i (ids ++ p.id ∷ []) rest r (subst (λ j. Follow j rest) same f.1) new
          (omega (arith, length-append ids (p.id ∷ []))) h
        ∙ one_more i p.broker_index k p.id ids (choices_at k r.vec r.choice_map) (ids_on k rest)
            same)
  | inr e ↦
      let later : i < p.broker_index = ground (arith, e, f.0) in
      let fresh = new i (omega arith) in
      rw e (
        walk-choices k p.broker_index (p.id ∷ []) rest (close_run i ids r) f.1
          (close_run-AreNew i p.broker_index ids r later new) (omega arith)
          (close_run-AreInside i ids r fresh some_id h)
        ∙ ap (λ c. (if p.broker_index == k then p.id ∷ [] else c) ++ ids_on k rest)
            (choices_at-close_run k i ids r fresh some_id h)
        ∙ first_of i p.broker_index k p.id ids (choices_at k r.vec r.choice_map) (ids_on k rest)
            later (λ lt. choices_at-none k r.vec r.choice_map (new k (omega arith))))
]

-- The ranges that the loop makes are, for each broker, its partitions in their order.
pub make_ranges-choices :
    (k i : ℕ) (ps : List Partition) (brokers : List Broker) (vec : List ℤ)
    → Follow i ps
    → let r = make_ranges ps (record { brokers = brokers; vec = vec; choice_map = [] }) in
      choices_at k r.vec r.choice_map ≡ ids_on k ps
unfolding make_ranges
make_ranges-choices k i [] brokers vec f = choices_at-none k vec [] (unfold lookup in refl)
make_ranges-choices k i (p ∷ rest) brokers vec f =
    let r : Ranges = record { brokers = brokers; vec = vec; choice_map = [] } in
    walk-choices k p.broker_index (p.id ∷ []) rest r f.1 (λ j h. unfold lookup in refl)
      (omega arith) tt
    ∙ ap (λ c. (if p.broker_index == k then p.id ∷ [] else c) ++ ids_on k rest)
        (choices_at-none k vec [] (unfold lookup in refl))
    ∙ single (p.broker_index == k)
  where
    single :
        (b : Bool)
        → (if b then p.id ∷ [] else []) ++ ids_on k rest
          ≡ (if b then p.id ∷ ids_on k rest else ids_on k rest)
    single true = refl
    single false = refl
