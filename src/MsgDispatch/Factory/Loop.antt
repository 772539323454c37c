-- ===== src/MsgDispatch/Factory/Loop.antt =====
-- What BuildRequestContents keeps while it runs: a property of the batch that is being consumed, the
-- batches behind it and the request so far.
use dory.Common.{
  ℕ, zero, suc, ◌+◌, ◌≤◌, ◌<◌, inl, inr, Bool-cases, true, false, List, [], ◌∷◌, arith, length,
  count_if, count_all,
}
use dory.Common.Int.{ℤ}
use dory.Common.Bytes.{Bytes, bytes_eq_refl}
use dory.Msg.{Msg, same_topic}
use dory.MsgDispatch.Factory.{
  Building, Tried, took, full, Filled, fills, ProduceRequestFactory, try_consume_front_msg,
  fill_batch, fill, tried_batch, next_batch,
}

abbrev pub sizes : List (List Msg) → ℕ
sizes batches = count_all (λ m. true) batches

abbrev pub size : List Msg → ℕ
size batch = count_if (λ m. true) batch

abbrev pub Rule : Type 1
Rule = List Msg → List (List Msg) → Building → Type 0

-- What holds when a batch is done with, or the request is full: with the batch done, fewer messages
-- are left than a bound.
abbrev pub Ends : Rule → ℕ → Filled → Type 0
Ends Q n (fills true queue b) = Q [] queue b
Ends Q n (fills false queue b) = Q [] queue b × (sizes queue < n)
Ends Q n Filled.undefined = ⊥

abbrev pub TriedEnds : Rule → Msg → List Msg → List (List Msg) → Tried → Type 0
TriedEnds Q m batch rest (took b) = Q batch rest b
TriedEnds Q m batch rest (full b) = Q [] ((m ∷ batch) ∷ rest) b
TriedEnds Q m batch rest Tried.undefined = ⊥

-- What holds at the end of the outer loop, which has a result.
abbrev pub Final : Rule → Filled → Type 0
Final Q (fills is_full queue b) = Q [] queue b
Final Q Filled.undefined = ⊥

-- The property survives each way that the loops go on.
pub record IsKept (choices : Bytes → List ℤ) (partition_of : Msg → ℤ) (f : ProduceRequestFactory)
    (Q : Rule) : Type 0 where
  pub step :
      (m : Msg) (batch : List Msg) (rest : List (List Msg)) (b : Building)
      → Q (m ∷ batch) rest b
      → TriedEnds Q m batch rest (try_consume_front_msg choices partition_of f m b)
  pub set_aside :
      (m : Msg) (batch : List Msg) (rest : List (List Msg)) (b : Building)
      → Q (m ∷ batch) rest b
      → Q batch ((m ∷ []) ∷ rest) b
  pub starts :
      (batch : List Msg) (rest : List (List Msg)) (b : Building)
      → Q [] (batch ∷ rest) b
      → Q batch rest b × (0 < length batch)

module _ (choices : Bytes → List ℤ) (partition_of : Msg → ℤ) (f : ProduceRequestFactory) (Q : Rule)
    (kept : IsKept choices partition_of f Q) where
  tried_batch-Ends :
      (m : Msg) (batch : List Msg) (rest : List (List Msg)) (n : ℕ) (go : Building → Filled)
      → ((b : Building) → Q batch rest b → Ends Q n (go b))
      → (t : Tried) → TriedEnds Q m batch rest t
      → Ends Q n (tried_batch m batch rest go t)
  tried_batch-Ends m batch rest n go goes (took b) q = goes b q
  tried_batch-Ends m batch rest n go goes (full b) q = q
  tried_batch-Ends m batch rest n go goes Tried.undefined q = q

  Ends-le : (k n : ℕ) (r : Filled) → k ≤ n → Ends Q k r → Ends Q n r
  Ends-le k n (fills true queue b) h q = q
  Ends-le k n (fills false queue b) h q = (q.0, omega arith)
  Ends-le k n Filled.undefined h q = q

  fill_batch-Ends :
      (topic : Bytes) (batch : List Msg) (rest : List (List Msg)) (b : Building)
      → Q batch rest b
      → Ends Q
          (suc (size batch + sizes rest))
          (fill_batch choices partition_of f topic batch rest b)
  unfolding fill_batch
  fill_batch-Ends topic [] rest b q = (q, omega arith)
  fill_batch-Ends topic (m ∷ batch) rest b q = elim (Bool-cases (same_topic topic m)) [
    | inl e ↦
        let n = suc (size batch + sizes rest) in
        rw e (
          Ends-le n _ _ (omega arith) (
            tried_batch-Ends m batch rest n (fill_batch choices partition_of f topic batch rest)
              (fill_batch-Ends topic batch rest) (try_consume_front_msg choices partition_of f m b)
              (kept.step m batch rest b q)))
    | inr e ↦ rw e (
        Ends-le _ _ _ (omega arith)
          (fill_batch-Ends topic batch ((m ∷ []) ∷ rest) b (kept.set_aside m batch rest b q)))
  ]

  -- The first message of a batch has the batch's topic, so that a round takes it or ends the loop.
  round-Ends :
      (m : Msg) (batch : List Msg) (rest : List (List Msg)) (b : Building)
      → Q (m ∷ batch) rest b
      → Ends Q
          (suc (size batch + sizes rest))
          (fill_batch choices partition_of f m.topic (m ∷ batch) rest b)
  unfolding fill_batch
  round-Ends m batch rest b q =
      let n = suc (size batch + sizes rest) in
      rw (bytes_eq_refl m.topic) (
        tried_batch-Ends m batch rest n (fill_batch choices partition_of f m.topic batch rest)
          (fill_batch-Ends m.topic batch rest) (try_consume_front_msg choices partition_of f m b)
          (kept.step m batch rest b q))

  next_batch-Final :
      (n : ℕ) (go : List (List Msg) → Building → Filled)
      → ((queue : List (List Msg)) (b : Building)
          → Q [] queue b
          → sizes queue < n
          → Final Q (go queue b))
      → (r : Filled) → Ends Q n r
      → Final Q (next_batch go r)
  next_batch-Final n go goes (fills true queue b) q = q
  next_batch-Final n go goes (fills false queue b) q = goes queue b q.0 q.1
  next_batch-Final n go goes Filled.undefined q = q

  -- With more fuel than messages, the outer loop ends.
  pub fill-Final :
      (fuel : ℕ) (queue : List (List Msg)) (b : Building)
      → sizes queue < fuel
      → Q [] queue b
      → Final Q (fill choices partition_of f fuel queue b)
  unfolding fill
  fill-Final zero queue b h q = absurd (omega arith)
  fill-Final (suc fuel) [] b h q = q
  fill-Final (suc fuel) ([] ∷ rest) b h q = absurd (omega (arith, kept.starts [] rest b q))
  fill-Final (suc fuel) ((m ∷ batch) ∷ rest) b h q =
      let n = suc (size batch + sizes rest) in
      next_batch-Final n (fill choices partition_of f fuel)
        (λ queue b' q' small. fill-Final fuel queue b' (omega arith) q')
        (fill_batch choices partition_of f m.topic (m ∷ batch) rest b)
        (round-Ends m batch rest b (kept.starts (m ∷ batch) rest b q).0)
