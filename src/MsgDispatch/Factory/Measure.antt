-- ===== src/MsgDispatch/Factory/Measure.antt =====
-- Sums over the message sets of a request, through TryConsumeFrontMsg and the sanity check.
use dory.Common.{
  ℕ, ◌+◌, ◌≡◌, refl, ap, Bool, List, [], ◌∷◌, ◌++◌, Option-cases, inl, inr, ◌⊎◌, arith, count_if,
  if◌then◌else◌,
}
use dory.Common.Int.{ℤ, eq_ℤ, ltb_ℤ}
use dory.Common.Bytes.{Bytes, bytes_eq}
use dory.Common.Assoc.{lookup, put, total, measure, total-put}
use dory.Msg.{Msg}
use dory.MsgDispatch.Count.{count_group, count_topics}
use dory.MsgDispatch.Factory.{
  MsgSet, MsgSets, group_at, set_in, put_set, bytes_lt, Building, TopicData, ProduceRequestFactory,
  push_msg, sanity_check_group, sanity_check, keep_group, keep_set, forget_group, forget_sizes,
}

pub List-cases {ℓ} :
    {A : Type ℓ} (xs : List A) → (xs ≡ []) ⊎ ((x : A) × (ys : List A) × (xs ≡ x ∷ ys))
List-cases [] = inl refl
List-cases (x ∷ ys) = inr (x, ys, refl)

-- A measure of message sets that only looks at the messages, and that an empty set does not add to.
module _ (w : List Msg → ℕ) (w_nil : w [] ≡ 0) where
  abbrev pub weigh_set : MsgSet → ℕ
  weigh_set s = w s.contents

  abbrev pub weigh_group : MsgSets → ℕ
  weigh_group group = total weigh_set group

  abbrev pub weigh : List (Bytes × MsgSets) → ℕ
  weigh result = total weigh_group result

  weigh_set_in :
      (p : ℤ) (group : MsgSets)
      → measure weigh_set (lookup eq_ℤ p group) ≡ weigh_set (set_in p group)
  weigh_set_in p group = elim (Option-cases (lookup eq_ℤ p group)) [
    | inl e ↦ rw (e, w_nil) refl
    | inr (s, e) ↦ rw e refl
  ]

  weigh_group_at :
      (topic : Bytes) (result : List (Bytes × MsgSets))
      → measure weigh_group (lookup bytes_eq topic result) ≡ weigh_group (group_at topic result)
  weigh_group_at topic result = elim (Option-cases (lookup bytes_eq topic result)) [
    | inl e ↦ rw e refl
    | inr (s, e) ↦ rw e refl
  ]

  pub weigh-put_set :
      (topic : Bytes) (p : ℤ) (s : MsgSet) (result : List (Bytes × MsgSets))
      → weigh (put_set topic p s result) + weigh_set (set_in p (group_at topic result))
        ≡ weigh result + weigh_set s
  weigh-put_set topic p s result =
      let group = group_at topic result in
      omega (
        arith,
        total-put weigh_group bytes_lt bytes_eq topic (put ltb_ℤ eq_ℤ p s group) result,
        total-put weigh_set ltb_ℤ eq_ℤ p s group,
        weigh_set_in p group,
        weigh_group_at topic result,
      )

  weigh_group-sanity_check :
      (group : MsgSets) → weigh_group (sanity_check_group group) ≡ weigh_group group
  unfolding sanity_check_group
  weigh_group-sanity_check [] = refl
  weigh_group-sanity_check ((p, s) ∷ rest) = elim (List-cases s.contents) [
    | inl e ↦ rw (e, keep_set) (omega (arith, w_nil, ap w e, weigh_group-sanity_check rest))
    | inr (m, ms, e) ↦ rw (e, keep_set) (omega (arith, ap w e, weigh_group-sanity_check rest))
  ]

  weigh-keep_group :
      (t : Bytes) (group : MsgSets) (rest : List (Bytes × MsgSets))
      → weigh (keep_group t group rest) ≡ weigh_group group + weigh rest
  weigh-keep_group t [] rest = omega arith
  weigh-keep_group t (s ∷ group) rest = refl

  pub weigh-sanity_check :
      (result : List (Bytes × MsgSets)) → weigh (sanity_check result) ≡ weigh result
  unfolding sanity_check
  weigh-sanity_check [] = refl
  weigh-sanity_check ((t, group) ∷ rest) = omega (
    arith,
    weigh-keep_group t (sanity_check_group group) (sanity_check rest),
    weigh_group-sanity_check group,
    weigh-sanity_check rest,
  )

  -- A pushed message adds its own weight.
  pub weigh-push_msg :
      (choices : Bytes → List ℤ) (partition_of : Msg → ℤ) (f : ProduceRequestFactory)
      → ((ms : List Msg) (m : Msg) → w (ms ++ m ∷ []) ≡ w ms + w (m ∷ []))
      → (m : Msg) (p : ℤ) (d : TopicData) (n k : ℕ) (b : Building)
      → weigh (push_msg choices partition_of f m p d n k b).result ≡ weigh b.result + w (m ∷ [])
  unfolding push_msg
  weigh-push_msg choices partition_of f w_append m p d n k b =
      let s = set_in p (group_at m.topic b.result) in
      let s' : MsgSet = record {
        data_size = if d.has_codec then k else s.data_size;
        contents = s.contents ++ m ∷ [];
      } in
      omega (arith, weigh-put_set m.topic p s' b.result, w_append s.contents m)

module _ (test : Msg → Bool) where
  count_group-forget :
      (group : MsgSets)
      → count_group test (forget_group group) ≡ weigh_group (count_if test) refl group
  unfolding forget_group
  count_group-forget [] = refl
  count_group-forget ((p, s) ∷ rest) = omega (arith, count_group-forget rest)

  pub count_topics-forget :
      (result : List (Bytes × MsgSets))
      → count_topics test (forget_sizes result) ≡ weigh (count_if test) refl result
  unfolding forget_sizes
  count_topics-forget [] = refl
  count_topics-forget ((t, group) ∷ rest) =
      omega (arith, count_group-forget group, count_topics-forget rest)
