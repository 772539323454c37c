-- ===== src/Metadata/Sorted.antt =====
-- The calls of std::sort in src/dory/metadata.cc: by broker and then by ID, and by ID.
use dory.Common.{
  ℕ, ◌+◌, ◌≡◌, ◌≤◌, refl, Bool, Bool-cases, true, false, List, [], ◌∷◌, ◌==◌, arith, All, one_if,
  count_if, inl, inr,
}
use dory.Common.Int.{ℤ, ◌≤ℤ◌}
use dory.Metadata.Defs.{Partition}
use dory.Metadata.Builder.{by_broker, by_id, insert_sorted, sort}
use dory.Metadata.Ranges.{count_on, ids_on, Follow}

abbrev pub IsSorted : (Partition → Partition → Bool) → List Partition → Type 0
IsSorted lt [] = Unit {0}
IsSorted lt (p ∷ rest) = All (λ q. lt q p ≡ false) rest × IsSorted lt rest

-- Sorting neither adds nor drops an item.
count_if-insert_sorted :
    (test : Partition → Bool) (lt : Partition → Partition → Bool) (p : Partition)
    (ps : List Partition)
    → count_if test (insert_sorted lt p ps) ≡ one_if (test p) + count_if test ps
unfolding insert_sorted
count_if-insert_sorted test lt p [] = refl
count_if-insert_sorted test lt p (q ∷ rest) = elim (Bool-cases (lt q p)) [
  | inl e ↦ rw e (omega (arith, count_if-insert_sorted test lt p rest))
  | inr e ↦ rw e refl
]

pub count_if-sort :
    (test : Partition → Bool) (lt : Partition → Partition → Bool) (ps : List Partition)
    → count_if test (sort lt ps) ≡ count_if test ps
unfolding sort
count_if-sort test lt [] = refl
count_if-sort test lt (p ∷ rest) =
    omega (arith, count_if-insert_sorted test lt p (sort lt rest), count_if-sort test lt rest)

-- An order in which items that are not before each other follow on.
pub record IsOrder (lt : Partition → Partition → Bool) : Type 0 where
  asym : (x y : Partition) → lt x y ≡ true → lt y x ≡ false
  trans : (x y z : Partition) → lt y z ≡ false → lt x y ≡ false → lt x z ≡ false

module _ (lt : Partition → Partition → Bool) (order : IsOrder lt) where
  All-insert_sorted :
      (x p : Partition) (ps : List Partition)
      → lt p x ≡ false
      → All (λ q. lt q x ≡ false) ps
      → All (λ q. lt q x ≡ false) (insert_sorted lt p ps)
  unfolding insert_sorted
  All-insert_sorted x p [] h all = (h, tt)
  All-insert_sorted x p (q ∷ rest) h all = elim (Bool-cases (lt q p)) [
    | inl e ↦ rw e (all.0, All-insert_sorted x p rest h all.1)
    | inr e ↦ rw e (h, all)
  ]

  not_before :
      (p q : Partition) (rest : List Partition)
      → lt q p ≡ false
      → All (λ x. lt x q ≡ false) rest
      → All (λ x. lt x p ≡ false) rest
  not_before p q [] h all = tt
  not_before p q (x ∷ rest) h all = (order.trans x q p h all.0, not_before p q rest h all.1)

  insert_sorted-IsSorted :
      (p : Partition) (ps : List Partition) → IsSorted lt ps → IsSorted lt (insert_sorted lt p ps)
  unfolding insert_sorted
  insert_sorted-IsSorted p [] s = (tt, tt)
  insert_sorted-IsSorted p (q ∷ rest) s = elim (Bool-cases (lt q p)) [
    | inl e ↦
        rw e (All-insert_sorted q p rest (order.asym q p e) s.0, insert_sorted-IsSorted p rest s.1)
    | inr e ↦ rw e ((e, not_before p q rest e s.0), s)
  ]

  pub sort-IsSorted : (ps : List Partition) → IsSorted lt (sort lt ps)
  unfolding sort
  sort-IsSorted [] = tt
  sort-IsSorted (p ∷ rest) = insert_sorted-IsSorted p (sort lt rest) (sort-IsSorted rest)

pub by_broker-IsOrder : IsOrder by_broker
unfolding by_broker
by_broker-IsOrder = record { asym = λ x y h. ground arith; trans = λ x y z h k. ground arith }

pub by_id-IsOrder : IsOrder by_id
unfolding by_id
by_id-IsOrder = record { asym = λ x y h. ground arith; trans = λ x y z h k. ground arith }

broker_le : (p q : Partition) → by_broker q p ≡ false → p.broker_index ≤ q.broker_index
unfolding by_broker
broker_le p q h = ground arith

id_le :
    (k : ℕ) (p q : Partition)
    → by_broker q p ≡ false
    → (p.broker_index == k) ≡ true
    → (q.broker_index == k) ≡ true
    → p.id ≤ℤ q.id
unfolding by_broker
id_le k p q h e f = ground arith

-- The brokers of sorted partitions follow one another.
pub IsSorted-Follow :
    (i : ℕ) (ps : List Partition)
    → All (λ (p : Partition). i ≤ p.broker_index) ps
    → IsSorted by_broker ps
    → Follow i ps
IsSorted-Follow i [] all s = tt
IsSorted-Follow i (p ∷ rest) all s =
    (all.0, IsSorted-Follow p.broker_index rest (each rest s.0) s.1)
  where
    each :
        (qs : List Partition)
        → All (λ q. by_broker q p ≡ false) qs
        → All (λ (q : Partition). p.broker_index ≤ q.broker_index) qs
    each [] h = tt
    each (q ∷ qs) h = (broker_le p q h.0, each qs h.1)

abbrev pub IsAscending : List ℤ → Type 0
IsAscending [] = Unit {0}
IsAscending (x ∷ xs) = All (λ y. x ≤ℤ y) xs × IsAscending xs

pub ids_on-IsAscending :
    (k : ℕ) (ps : List Partition) → IsSorted by_broker ps → IsAscending (ids_on k ps)
ids_on-IsAscending k [] s = tt
ids_on-IsAscending k (p ∷ rest) s = elim (Bool-cases (p.broker_index == k)) [
  | inl e ↦ rw e (above e rest s.0, ids_on-IsAscending k rest s.1)
  | inr e ↦ rw e (ids_on-IsAscending k rest s.1)
]
  where
    above :
        (p.broker_index == k) ≡ true
        → (qs : List Partition) → All (λ q. by_broker q p ≡ false) qs
        → All (λ y. p.id ≤ℤ y) (ids_on k qs)
    above e [] h = tt
    above e (q ∷ qs) h = elim (Bool-cases (q.broker_index == k)) [
      | inl g ↦ rw g (id_le k p q h.0 e g, above e qs h.1)
      | inr g ↦ rw g (above e qs h.1)
    ]

pub count_if-ids_on :
    (test : ℤ → Bool) (k : ℕ) (ps : List Partition)
    → count_if test (ids_on k ps) ≡ count_on test k ps
count_if-ids_on test k [] = refl
count_if-ids_on test k (p ∷ rest) = elim (Bool-cases (p.broker_index == k)) [
  | inl e ↦ rw e (omega (arith, count_if-ids_on test k rest))
  | inr e ↦ rw e (omega (arith, count_if-ids_on test k rest))
]
