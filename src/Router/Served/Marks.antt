-- ===== src/Router/Served/Marks.antt =====
-- The brokers that CloseTopic of src/dory/metadata.cc marks, and lists of partitions in a new order.
use dory.Common.{
  get_elem?, ℕ, zero, suc, ◌≡◌, ◌<◌, refl, sym, ◌∙◌, subst, Bool, Bool-cases, true, false, not,
  List, [], ◌∷◌, ◌++◌, some, ◌==◌, length, arith, inl, inr, All, count_if,
}
use dory.Common.Int.{ℤ}
use dory.Metadata.Defs.{Broker, Partition}
use dory.Metadata.Builder.{Ranges, mark_in_service, close_run, walk, make_ranges}
use dory.Metadata.Topics.{AreOn, Permutes, length-mark_in_service}
use dory.Router.Choose.{is_in_service}

is_in_service-mark_self :
    (i : ℕ) (bs : List Broker) → i < length bs → is_in_service (mark_in_service i bs) i ≡ true
unfolding is_in_service mark_in_service
is_in_service-mark_self i [] h = absurd (omega arith)
is_in_service-mark_self zero (b ∷ rest) h = refl
is_in_service-mark_self (suc i) (b ∷ rest) h = is_in_service-mark_self i rest (omega arith)

is_in_service-mark_other :
    (i j : ℕ) (bs : List Broker)
    → is_in_service bs j ≡ true
    → is_in_service (mark_in_service i bs) j ≡ true
unfolding is_in_service mark_in_service
is_in_service-mark_other i j [] h = absurd cc
is_in_service-mark_other zero zero (b ∷ rest) h = refl
is_in_service-mark_other zero (suc j) (b ∷ rest) h = h
is_in_service-mark_other (suc i) zero (b ∷ rest) h = h
is_in_service-mark_other (suc i) (suc j) (b ∷ rest) h = is_in_service-mark_other i j rest h

pub is_in_service-lt : (bs : List Broker) (i : ℕ) → is_in_service bs i ≡ true → i < length bs
unfolding is_in_service
is_in_service-lt [] i h = absurd cc
is_in_service-lt (b ∷ rest) zero h = omega arith
is_in_service-lt (b ∷ rest) (suc i) h = omega (arith, is_in_service-lt rest i h)

abbrev pub AreServed : List Broker → List Partition → Type 0
AreServed bs ps = All (λ (p : Partition). is_in_service bs p.broker_index ≡ true) ps

walk-keeps :
    (i : ℕ) (ids : List ℤ) (ps : List Partition) (r : Ranges) (j : ℕ)
    → is_in_service r.brokers j ≡ true
    → is_in_service (walk i ids ps r).brokers j ≡ true
unfolding walk close_run
walk-keeps i ids [] r j h = is_in_service-mark_other i j r.brokers h
walk-keeps i ids (p ∷ rest) r j h = elim (Bool-cases (p.broker_index == i)) [
  | inl e ↦ rw e (walk-keeps i (ids ++ p.id ∷ []) rest r j h)
  | inr e ↦ rw e (
      walk-keeps p.broker_index (p.id ∷ []) rest (close_run i ids r) j
        (is_in_service-mark_other i j r.brokers h))
]

walk-same :
    (i : ℕ) (ids : List ℤ) (p : Partition) (rest : List Partition) (r : Ranges)
    → (p.broker_index == i) ≡ true
    → walk i ids (p ∷ rest) r ≡ walk i (ids ++ p.id ∷ []) rest r
unfolding walk
walk-same i ids p rest r e = rw e refl

walk-other :
    (i : ℕ) (ids : List ℤ) (p : Partition) (rest : List Partition) (r : Ranges)
    → (p.broker_index == i) ≡ false
    → walk i ids (p ∷ rest) r ≡ walk p.broker_index (p.id ∷ []) rest (close_run i ids r)
unfolding walk
walk-other i ids p rest r e = rw e refl

-- A broker's index and partitions behind it.
abbrev BothServed : ℕ → List Partition → Ranges → Type 0
BothServed i ps r = (is_in_service r.brokers i ≡ true) × AreServed r.brokers ps

walk-BothServed :
    (n i : ℕ) (ids : List ℤ) (ps : List Partition) (r : Ranges)
    → length r.brokers ≡ n
    → i < n
    → AreOn n ps
    → BothServed i ps (walk i ids ps r)
walk-BothServed n i ids [] r len lt on =
    (unfold walk close_run in is_in_service-mark_self i r.brokers (omega (arith, len, lt)), tt)
walk-BothServed n i ids (p ∷ rest) r len lt on = elim (Bool-cases (p.broker_index == i)) [
  | inl e ↦
      let w = walk i (ids ++ p.id ∷ []) rest r in
      let same : i ≡ p.broker_index = ground (arith, e) in
      let (here, there) = walk-BothServed n i (ids ++ p.id ∷ []) rest r len lt on.1 in
      subst (BothServed i (p ∷ rest)) (sym (walk-same i ids p rest r e))
        (here, (subst (λ k. is_in_service w.brokers k ≡ true) same here, there))
  | inr e ↦
      let r' = close_run i ids r in
      let marked : is_in_service r'.brokers i ≡ true =
        unfold close_run in is_in_service-mark_self i r.brokers (omega (arith, len, lt)) in
      let same_length : length r'.brokers ≡ n =
        unfold close_run in length-mark_in_service i r.brokers ∙ len in
      let (here, there) =
        walk-BothServed n p.broker_index (p.id ∷ []) rest r' same_length on.0 on.1 in
      subst (BothServed i (p ∷ rest)) (sym (walk-other i ids p rest r e))
        (walk-keeps p.broker_index (p.id ∷ []) rest r' i marked, (here, there))
]

pub make_ranges-keeps :
    (ps : List Partition) (r : Ranges) (j : ℕ)
    → is_in_service r.brokers j ≡ true
    → is_in_service (make_ranges ps r).brokers j ≡ true
unfolding make_ranges
make_ranges-keeps [] r j h = h
make_ranges-keeps (p ∷ rest) r j h = walk-keeps p.broker_index (p.id ∷ []) rest r j h

pub make_ranges-AreServed :
    (n : ℕ) (ps : List Partition) (r : Ranges)
    → length r.brokers ≡ n
    → AreOn n ps
    → AreServed (make_ranges ps r).brokers ps
unfolding make_ranges
make_ranges-AreServed n [] r len on = tt
make_ranges-AreServed n (p ∷ rest) r len on =
    let (here, there) = walk-BothServed n p.broker_index (p.id ∷ []) rest r len on.0 on.1 in
    (here, there)

-- A property that a test decides survives a change of the order.
module _ (good : Partition → Bool) where
  pub count_bad :
      (ps : List Partition) → All (λ p. good p ≡ true) ps → count_if (λ p. not (good p)) ps ≡ 0
  count_bad [] h = refl
  count_bad (p ∷ ps) h = rw (h.0) (omega (arith, count_bad ps h.1))

  pub none_bad :
      (ps : List Partition) → count_if (λ p. not (good p)) ps ≡ 0 → All (λ p. good p ≡ true) ps
  none_bad [] h = tt
  none_bad (p ∷ ps) h = elim (Bool-cases (good p)) [
    | inl e ↦ (e, none_bad ps (omega (arith, (rw e at h))))
    | inr e ↦ absurd (omega (arith, (rw e at h)))
  ]

  pub All-permuted :
      (f : List Partition → List Partition)
      → Permutes f
      → (ps : List Partition) → All (λ p. good p ≡ true) ps
      → All (λ p. good p ≡ true) (f ps)
  All-permuted f perm ps h = none_bad (f ps) (perm (λ p. not (good p)) ps ∙ count_bad ps h)

  pub count_good :
      (ps : List Partition) → All (λ p. good p ≡ true) ps → count_if good ps ≡ length ps
  count_good [] h = refl
  count_good (p ∷ ps) h = rw (h.0) (omega (arith, count_good ps h.1))

  pub find_good :
      (ps : List Partition)
      → 0 < count_if good ps
      → (d : ℕ) × (p : Partition) × (get_elem? ps d ≡ some p) × (good p ≡ true)
  find_good [] h = absurd (omega arith)
  find_good (p ∷ ps) h = elim (Bool-cases (good p)) [
    | inl e ↦ (0, p, refl, e)
    | inr e ↦ let (d, q, at, is) = find_good ps (omega (arith, (rw e at h))) in (suc d, q, at, is)
  ]
