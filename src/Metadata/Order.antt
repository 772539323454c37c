-- ===== src/Metadata/Order.antt =====
-- GroupInServiceBrokers of src/dory/metadata.cc: the brokers in a new order, and the indexes in the
-- topics with them.
use dory.Common.{
  get_elem?, ℕ, zero, suc, ◌+◌, ◌≡◌, ◌≢◌, ◌<◌, refl, sym, ap, ◌∙◌, subst, Bool, Bool-cases, false,
  ◌&&◌, List, [], ◌∷◌, none, some, ◌==◌, length, arith, one_if, count_if, inl, inr,
}
use dory.Common.Int.{ℤ}
use dory.Common.Assoc.{lookup, AllItems}
use dory.Metadata.Defs.{Broker, Partition, PartitionChoices, ChoiceMap}
use dory.Metadata.Build.{set, invert, get_or, zeros_of, rename_partitions, rename_choices}
use dory.Metadata.Ranges.{count_on}
use dory.Metadata.Topics.{AreOn}

-- What std::sort is relied on for: each index below a number stands once in the order.
pub record IsReordering (n : ℕ) (order : List ℕ) : Type 0 where
  pub complete : (k : ℕ) → k < n → (j : ℕ) × (get_elem? order j ≡ some k)
  pub in_range : (j k : ℕ) → get_elem? order j ≡ some k → k < n
  pub once : (i j k : ℕ) → get_elem? order i ≡ some k → get_elem? order j ≡ some k → i ≡ j
  pub same_length : length order ≡ n

length-set : (v : List ℕ) (i x : ℕ) → length (set v i x) ≡ length v
unfolding set
length-set [] i x = refl
length-set (y ∷ v) zero x = refl
length-set (y ∷ v) (suc i) x = ap suc (length-set v i x)

get_or-set_self : (v : List ℕ) (i x : ℕ) → i < length v → get_or (set v i x) i ≡ x
unfolding set
get_or-set_self [] i x h = absurd (omega arith)
get_or-set_self (y ∷ v) zero x h = refl
get_or-set_self (y ∷ v) (suc i) x h = get_or-set_self v i x (omega arith)

get_or-set_other : (v : List ℕ) (i k x : ℕ) → i ≢ k → get_or (set v i x) k ≡ get_or v k
unfolding set
get_or-set_other [] i k x h = refl
get_or-set_other (y ∷ v) zero zero x h = absurd (h refl)
get_or-set_other (y ∷ v) zero (suc k) x h = refl
get_or-set_other (y ∷ v) (suc i) zero x h = refl
get_or-set_other (y ∷ v) (suc i) (suc k) x h = get_or-set_other v i k x (λ e. h (ap suc e))

invert-miss :
    (i k : ℕ) (order v : List ℕ)
    → ((p : ℕ) → get_elem? order p ≢ some k)
    → get_or (invert i order v) k ≡ get_or v k
unfolding invert
invert-miss i k [] v h = refl
invert-miss i k (old ∷ rest) v h =
    invert-miss (suc i) k rest (set v old i) (λ p. h (suc p))
    ∙ get_or-set_other v old k i (λ e. h zero (ap some e))

invert-hit :
    (i k p : ℕ) (order v : List ℕ)
    → ((a b c : ℕ) → get_elem? order a ≡ some c → get_elem? order b ≡ some c → a ≡ b)
    → k < length v
    → get_elem? order p ≡ some k
    → get_or (invert i order v) k ≡ i + p
unfolding invert
invert-hit i k p [] v once lt e = absurd cc
invert-hit i k zero (old ∷ rest) v once lt e =
    let same : old ≡ k = cc in
    invert-miss (suc i) k rest (set v old i)
      (λ q g. absurd (omega (arith, once zero (suc q) k e g)))
    ∙ subst (λ x. get_or (set v x i) k ≡ i) (sym same) (get_or-set_self v k i lt)
    ∙ omega arith
invert-hit i k (suc p) (old ∷ rest) v once lt e =
    invert-hit (suc i) k p rest (set v old i)
      (λ a b c g h. omega (arith, once (suc a) (suc b) c g h)) (omega (arith, length-set v old i)) e
    ∙ omega arith

length-zeros_of : (bs : List Broker) → length (zeros_of bs) ≡ length bs
unfolding zeros_of
length-zeros_of [] = refl
length-zeros_of (b ∷ rest) = ap suc (length-zeros_of rest)

abbrev pub new_index : List ℕ → List Broker → ℕ → ℕ
new_index order brokers = get_or (invert 0 order (zeros_of brokers))

module _ (brokers : List Broker) (order : List ℕ) (ok : IsReordering (length brokers) order) where
  -- The new index of a broker is where its old index stands in the order.
  pub new_index-position : (k j : ℕ) → get_elem? order j ≡ some k → new_index order brokers k ≡ j
  new_index-position k j e =
      invert-hit 0 k j order (zeros_of brokers) ok.once
        (omega (arith, ok.in_range j k e, length-zeros_of brokers)) e
      ∙ omega arith

  -- A new index is that of the broker whose old index stands there in the order, and of no other.
  pub new_index_iff :
      (i j k : ℕ)
      → get_elem? order j ≡ some i
      → k < length brokers
      → (new_index order brokers k == j) ≡ (k == i)
  new_index_iff i j k e lt =
      let (p, at) = ok.complete k lt in
      let stands = new_index-position k p at in
      elim (Bool-cases (k == i)) [
        | inl same ↦
            let same' : k ≡ i = ground (arith, same) in
            let there : new_index order brokers k ≡ j =
              new_index-position k j (e ∙ ap some (sym same')) in
            ground (arith, same, there)
        | inr other ↦ elim (Bool-cases (new_index order brokers k == j)) [
          | inl s ↦
              let here : p ≡ j = ground (arith, s, stands) in
              let same' : k ≡ i = cc (e, subst (λ q. get_elem? order q ≡ some k) here at) in
              absurd (ground (arith, other, same'))
          | inr s ↦ s ∙ sym other
        ]
      ]

  pub new_index-none :
      (j k : ℕ)
      → get_elem? order j ≡ none
      → k < length brokers
      → (new_index order brokers k == j) ≡ false
  new_index-none j k e lt =
      let (p, at) = ok.complete k lt in
      let stands = new_index-position k p at in
      elim (Bool-cases (new_index order brokers k == j)) [
        | inl s ↦
            let here : p ≡ j = ground (arith, s, stands) in
            absurd (cc (e, subst (λ q. get_elem? order q ≡ some k) here at))
        | inr s ↦ s
      ]

module _ (new : ℕ → ℕ) (j : ℕ) (at : ℕ → Bool) (n : ℕ)
    (same : (k : ℕ) → k < n → (new k == j) ≡ at k) where
  pub count_on-rename :
      (test : ℤ → Bool) (ps : List Partition)
      → AreOn n ps
      → count_on test j (rename_partitions new ps)
        ≡ count_if (λ (p : Partition). at p.broker_index && test p.id) ps
  unfolding rename_partitions
  count_on-rename test [] on = refl
  count_on-rename test (p ∷ rest) on = omega (
    arith,
    ap (λ b. one_if (b && test p.id)) (same p.broker_index on.0),
    count_on-rename test rest on.1,
  )

  pub lookup-rename :
      (m : ChoiceMap) (i : ℕ)
      → AllItems (λ k (c : PartitionChoices). k < n) m
      → ((k : ℕ) → k < n → at k ≡ (k == i))
      → lookup ◌==◌ j (rename_choices new m) ≡ lookup ◌==◌ i m
  unfolding rename_choices lookup
  lookup-rename [] i keys old = refl
  lookup-rename ((k, c) ∷ rest) i keys old = elim (Bool-cases (k == i)) [
    | inl e ↦ rw (same k keys.0, old k keys.0, e) refl
    | inr e ↦ rw (same k keys.0, old k keys.0, e) (lookup-rename rest i keys.1 old)
  ]

  pub lookup-rename_none :
      (m : ChoiceMap)
      → AllItems (λ k (c : PartitionChoices). k < n) m
      → ((k : ℕ) → k < n → at k ≡ false)
      → lookup ◌==◌ j (rename_choices new m) ≡ none
  unfolding rename_choices lookup
  lookup-rename_none [] keys old = refl
  lookup-rename_none ((k, c) ∷ rest) keys old =
      rw (same k keys.0, old k keys.0) (lookup-rename_none rest keys.1 old)
