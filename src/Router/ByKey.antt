-- ===== src/Router/ByKey.antt =====
-- Which partition ChoosePartitionByKey of src/dory/router_thread.cc chooses.
use Prim.Native.Nat.{ℕ}
use native.Mathlib.Nat.{mod-add-mod, mod-eq_of_lt, mod-eq-sub-mod, mod-lt, add-mod_right}
use dory.Common.{
  get_elem?, get_elem?-some, zero, suc, ◌+◌, ◌-◌, ◌%◌, ◌≡◌, ◌≢◌, ◌≤◌, ◌<◌, sym, ap, ◌∙◌, subst,
  Bool, Bool-cases, true, false, ltb, List, [], ◌∷◌, some, ◌==◌, length, count_if, arith, inl, inr,
}
use dory.Common.Int.{ℤ, eq_ℤ}
use dory.Common.Word.{to_u32}
use dory.Metadata.Defs.{Broker, Partition, Topic}
use dory.Router.Choose.{
  Chosen, picks, dies, out_of_fuel, is_in_service, scan, choose_partition_by_key,
}

-- The index of a partition so far behind another, round the end of the list.
abbrev pub index_behind : ℕ → ℕ → ℕ → ℕ
index_behind n start d = (start + d) % n

index_behind-ne-start : (n start d : ℕ) → start < n → d < n → 0 < d → index_behind n start d ≢ start
index_behind-ne-start n start d lt k pos e = elim (Bool-cases (ltb (start + d) n)) [
  | inl s ↦
      let small : start + d < n = ground (arith, s) in absurd (omega (arith, mod-eq_of_lt small, e))
  | inr s ↦
      let large : n ≤ start + d = ground (arith, s) in
      let rest : start + d - n < n = omega (arith, lt, k) in
      absurd (omega (arith, mod-eq-sub-mod large, mod-eq_of_lt rest, e))
]

module _ (good : Partition → Bool) (ps : List Partition) (start : ℕ) where
  -- The partitions before a distance do not pass the test.
  abbrev pub NoneBefore : ℕ → Type 0
  NoneBefore d =
      (e : ℕ) (q : Partition)
      → e < d
      → get_elem? ps (index_behind (length ps) start e) ≡ some q
      → good q ≡ false

  -- The first partition that passes the test, from the start on and round the end, or none.
  abbrev pub IsPick : Chosen → Type 0
  IsPick (picks p) =
      (d : ℕ) × (d < length ps)
      × (get_elem? ps (index_behind (length ps) start d) ≡ some p)
      × (good p ≡ true)
      × NoneBefore d
  IsPick dies = NoneBefore (length ps)
  IsPick out_of_fuel = ⊥

abbrev pub is_served : List Broker → Partition → Bool
is_served brokers p = is_in_service brokers p.broker_index

-- Two tests that agree on the partitions pick the same.
pub IsPick-same :
    (good good' : Partition → Bool) (ps : List Partition) (start : ℕ) (c : Chosen)
    → ((i : ℕ) (p : Partition) → get_elem? ps i ≡ some p → good p ≡ good' p)
    → IsPick good ps start c
    → IsPick good' ps start c
IsPick-same good good' ps start (picks p) same (d, k, at, is, before) =
    (d, k, at, sym (same _ p at) ∙ is, λ e q lt at'. sym (same _ q at') ∙ before e q lt at')
IsPick-same good good' ps start dies same before =
    λ e q lt at'. sym (same _ q at') ∙ before e q lt at'
IsPick-same good good' ps start out_of_fuel same h = h

module _ (brokers : List Broker) (ps : List Partition) (start : ℕ) where
  abbrev NoneServed : ℕ → Type 0
  NoneServed d = NoneBefore (is_served brokers) ps start d

  one_further :
      (d : ℕ) (p : Partition)
      → get_elem? ps (index_behind (length ps) start d) ≡ some p
      → is_in_service brokers p.broker_index ≡ false
      → NoneServed d
      → NoneServed (suc d)
  one_further d p at bad before e q lt at' = elim (Bool-cases (ltb e d)) [
    | inl s ↦ before e q (ground (arith, s)) at'
    | inr s ↦
        let same : e ≡ d = ground (arith, s, lt) in
        let same_p : some p ≡ some q =
          sym at ∙ ap (λ x. get_elem? ps (index_behind (length ps) start x)) (sym same) ∙ at' in
        let eq : p ≡ q = cc in
        subst (λ (x : Partition). is_in_service brokers x.broker_index ≡ false) eq bad
  ]

  comes_round :
      (d : ℕ)
      → d < length ps
      → start < length ps
      → index_behind (length ps) start (suc d) ≡ start
      → suc d ≡ length ps
  comes_round d k lt e = elim (Bool-cases (ltb (suc d) (length ps))) [
    | inl s ↦
        absurd
          (index_behind-ne-start (length ps) start (suc d) lt (ground (arith, s)) (omega arith) e)
    | inr s ↦ ground (arith, s, k)
  ]

  not_yet_round :
      (d : ℕ)
      → d < length ps
      → start < length ps
      → (index_behind (length ps) start (suc d) == start) ≡ false
      → suc d < length ps
  not_yet_round d k lt e = elim (Bool-cases (ltb (suc d) (length ps))) [
    | inl s ↦ ground (arith, s)
    | inr s ↦
        let n = length ps in
        let round : index_behind n start (suc d) ≡ start =
          ap (λ x. (start + x) % n) (ground (arith, s, k))
          ∙ add-mod_right start n
          ∙ mod-eq_of_lt lt in
        absurd (ground (arith, e, round))
  ]

  scan-IsPick :
      (fuel d : ℕ)
      → start < length ps
      → d < length ps
      → fuel + d ≡ length ps
      → NoneServed d
      → IsPick
          (is_served brokers)
          ps
          start
          (scan brokers ps start fuel (index_behind (length ps) start d))
  unfolding scan
  scan-IsPick zero d lt k e before = absurd (omega arith)
  scan-IsPick (suc fuel) d lt k e before =
      let n = length ps in
      let here = index_behind n start d in
      let (p, at) = get_elem?-some ps here (mod-lt (start + d) (omega (arith, k))) in
      let next : (here + 1) % n ≡ index_behind n start (suc d) =
        mod-add-mod (start + d) n 1 ∙ ap (λ x. x % n) (omega arith) in
      elim (Bool-cases (is_in_service brokers p.broker_index)) [
        | inl good ↦ rw (at, good) (d, k, at, good, before)
        | inr bad ↦
            let further = one_further d p at bad before in
            rw (at, bad)
              (rw next (elim (Bool-cases (index_behind n start (suc d) == start)) [
                | inl s ↦ rw s (subst NoneServed (comes_round d k lt (ground (arith, s))) further)
                | inr s ↦ rw s (
                    scan-IsPick fuel (suc d) lt (not_yet_round d k lt s) (omega (arith, e)) further)
              ]))
      ]

-- If a topic has a partition, the code chooses, of all its partitions from the one at the key modulo
-- their number on and round the end, the first whose broker is in service, whatever the partition's own
-- state, and ends the process only if there is none.
pub choose_partition_by_key-IsPick :
    (brokers : List Broker) (t : Topic) (key : ℤ)
    → 0 < length t.all_partitions
    → IsPick
        (is_served brokers)
        t.all_partitions
        (to_u32 key % length t.all_partitions)
        (choose_partition_by_key brokers t key)
unfolding choose_partition_by_key
choose_partition_by_key-IsPick brokers t key some_partition =
    let n = length t.all_partitions in
    let start = to_u32 key % n in
    let lt : start < n = mod-lt (to_u32 key) some_partition in
    let here : index_behind n start 0 ≡ start = ap (λ x. x % n) (omega arith) ∙ mod-eq_of_lt lt in
    subst
      (λ i.
        IsPick (is_served brokers) t.all_partitions start (scan brokers t.all_partitions start n i))
      here
      (scan-IsPick brokers t.all_partitions start n 0 lt some_partition (omega arith)
        (λ e q k at. absurd (omega (arith, k))))

length-some :
    (ps : List Partition) (i : ℕ) (p : Partition) → get_elem? ps i ≡ some p → 0 < length ps
length-some [] i p e = absurd cc
length-some (q ∷ ps) i p e = omega arith

-- A partition at the key's index is chosen if its broker is in service.
choose_partition_by_key-first :
    (brokers : List Broker) (t : Topic) (key : ℤ) (p : Partition)
    → get_elem? t.all_partitions (to_u32 key % length t.all_partitions) ≡ some p
    → is_in_service brokers p.broker_index ≡ true
    → choose_partition_by_key brokers t key ≡ picks p
choose_partition_by_key-first brokers t key p at good =
    chosen (choose_partition_by_key brokers t key)
      (choose_partition_by_key-IsPick brokers t key some_partition)
  where
    ps : List Partition
    ps = t.all_partitions

    some_partition : 0 < length t.all_partitions
    some_partition = length-some t.all_partitions (to_u32 key % length t.all_partitions) p at

    start : ℕ
    start = to_u32 key % length t.all_partitions

    here :
        index_behind (length t.all_partitions) (to_u32 key % length t.all_partitions) 0
        ≡ to_u32 key % length t.all_partitions
    here =
        ap (λ x. x % length t.all_partitions) (omega arith)
        ∙ mod-eq_of_lt (
            mod-lt (to_u32 key)
              (length-some t.all_partitions (to_u32 key % length t.all_partitions) p at))

    chosen :
        (c : Chosen)
        → IsPick (is_served brokers) t.all_partitions (to_u32 key % length t.all_partitions) c
        → c ≡ picks p
    chosen (picks q) (zero, k, at', good', before) =
        let same : some q ≡ some p = sym at' ∙ ap (get_elem? t.all_partitions) here ∙ at in cc
    chosen (picks q) (suc d, k, at', good', before) =
        absurd (cc (good, before 0 p (omega arith) (ap (get_elem? t.all_partitions) here ∙ at)))
    chosen dies before =
        absurd (cc (good, before 0 p some_partition (ap (get_elem? t.all_partitions) here ∙ at)))
    chosen out_of_fuel h = absurd h

-- If the broker of the partition at the key modulo the number of all partitions is in service, and
-- no partition with that partition's ID is among those that messages can be sent to,
-- ChoosePartitionByKey chooses a partition with whose ID there is none either.
pub choose_partition_by_key-unavailable :
    (brokers : List Broker) (t : Topic) (key : ℤ) (p : Partition)
    → get_elem? t.all_partitions (to_u32 key % length t.all_partitions) ≡ some p
    → is_in_service brokers p.broker_index ≡ true
    → count_if (λ (q : Partition). eq_ℤ q.id p.id) t.ok_partitions ≡ 0
    → (q : Partition) × (choose_partition_by_key brokers t key ≡ picks q)
      × (count_if (λ (x : Partition). eq_ℤ x.id q.id) t.ok_partitions ≡ 0)
choose_partition_by_key-unavailable brokers t key p at good unavailable =
    (p, choose_partition_by_key-first brokers t key p at good, unavailable)
