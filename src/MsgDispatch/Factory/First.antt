-- ===== src/MsgDispatch/Factory/First.antt =====
-- BuildRequestContents from its first message on.
use dory.Common.{
  ℕ, suc, ◌+◌, ◌≡◌, ◌<◌, refl, ap, Bool-cases, false, List, [], ◌∷◌, inl, inr, ltb, arith, subst,
  sym,
}
use dory.Common.Int.{ℤ}
use dory.Common.Bytes.{Bytes}
use dory.Common.Word.{add_u64}
use dory.Msg.{Msg, body_size}
use dory.MsgDispatch.Factory.{
  Building, TopicData, ProduceRequestFactory, push_msg, Filled, fills, get_topic_data,
  add_first_msg, first_pushed, pop_batch, fill_behind_first, finish_contents,
  build_request_contents, Built, no_request, built_of, build_request,
}
use dory.MsgDispatch.Factory.Loop.{Rule, IsKept, sizes, size, Final, fill-Final}
use dory.MsgDispatch.Factory.Ready.{HasChoice, AllMsgs, IsAssignedIn, assign_partition-some}

module _ (choices : Bytes → List ℤ) (partition_of : Msg → ℤ) (f : ProduceRequestFactory) where
  abbrev pub no_topics : Building
  no_topics = record { topic_data_map = f.topic_data_map; result = []; data_size = 0 }

  -- The request when its first message is in it, for a rule that this establishes.
  module _ (R : Msg → Type 0)
      (can : (m : Msg) → R m → HasChoice choices partition_of f m.routing_type m.topic)
      (P : Rule) where
    abbrev pub Begins : Type 0
    Begins =
        (m : Msg) (batch : List Msg) (rest : List (List Msg)) (d : TopicData) (p : ℤ) (k : ℕ)
        → f.input_queue ≡ (m ∷ batch) ∷ rest
        → R m
        → IsAssignedIn choices partition_of f f.topic_data_map m d p
        → P [] (pop_batch batch rest)
            (push_msg choices partition_of f m p d (body_size m) k no_topics)

    popped :
        (m : Msg) (batch : List Msg) (rest : List (List Msg))
        → AllMsgs choices partition_of f R [] ((m ∷ batch) ∷ rest)
        → AllMsgs choices partition_of f R [] (pop_batch batch rest)
    popped m [] rest a = (tt, a.1.1)
    popped m (m' ∷ batch) rest a = (tt, ((omega arith, a.1.0.1.1), a.1.1))

    abbrev pub Kept : Rule
    Kept batch rest b = AllMsgs choices partition_of f R batch rest × P batch rest b

    sizes-pop_batch :
        (batch : List Msg) (rest : List (List Msg))
        → sizes (pop_batch batch rest) ≡ size batch + sizes rest
    sizes-pop_batch [] rest = omega arith
    sizes-pop_batch (m ∷ batch) rest = refl

    behind-Final :
        IsKept choices partition_of f Kept
        → (fuel : ℕ) (queue : List (List Msg)) (b : Building) → sizes queue < fuel
        → Kept [] queue b
        → Final Kept (fill_behind_first choices partition_of f fuel (fills false queue b))
    unfolding fill_behind_first
    behind-Final kept fuel queue b enough q =
        elim (Bool-cases (ltb b.data_size f.produce_request_data_limit)) [
          | inl e ↦ rw e (fill-Final choices partition_of f Kept kept fuel queue b enough q)
          | inr e ↦ rw e q
        ]

    -- The loops of BuildRequestContents have a result, with fuel for each message.
    pub contents-Final :
        (m : Msg) (batch : List Msg) (rest : List (List Msg))
        → f.input_queue ≡ (m ∷ batch) ∷ rest
        → AllMsgs choices partition_of f R [] f.input_queue
        → Begins
        → IsKept choices partition_of f Kept
        → Final Kept (
            fill_behind_first choices partition_of f
              (suc (sizes f.input_queue))
              (add_first_msg choices partition_of f f.input_queue no_topics))
    unfolding add_first_msg
    contents-Final m batch rest e a begins kept =
        let all = subst (AllMsgs choices partition_of f R []) e a in
        let d = get_topic_data f m.topic f.topic_data_map in
        let (r, g, is) =
          assign_partition-some choices partition_of f m.routing_type m d.chooser
            (can m all.1.0.1.0) in
        let k = add_u64 (body_size m) f.single_msg_overhead in
        let n = suc (sizes f.input_queue) in
        subst
          (λ queue. Final Kept (
            fill_behind_first choices partition_of f n
              (add_first_msg choices partition_of f queue no_topics)))
          (sym e)
          (rw (g, first_pushed)
            (behind-Final kept n (pop_batch batch rest)
              (push_msg choices partition_of f m r.0 (record d { chooser = r.1 }) (body_size m) k
                no_topics)
              (omega (arith, sizes-pop_batch batch rest, ap sizes e))
              (
                popped m batch rest all,
                begins m batch rest (record d { chooser = r.1 }) r.0 k e all.1.0.1.0 is,
              )))

  -- The loops' result.
  abbrev pub filled : Filled
  filled =
      fill_behind_first choices partition_of f (suc (sizes f.input_queue))
        (add_first_msg choices partition_of f f.input_queue no_topics)

  -- BuildRequest makes no request of an empty queue, and else goes through the loops.
  pub build_request-cases :
      (R : Msg → Type 0) (S : Built → Type 0)
      → (f.input_queue ≡ [] → S (no_request f))
      → ((m : Msg) (batch : List Msg) (rest : List (List Msg))
          → f.input_queue ≡ (m ∷ batch) ∷ rest
          → S (built_of choices partition_of f (finish_contents choices partition_of f filled)))
      → AllMsgs choices partition_of f R [] f.input_queue
      → S (build_request choices partition_of f)
  unfolding build_request build_request_contents
  build_request-cases R S idle loops a = from f.input_queue refl
    where
      from :
          (queue : List (List Msg))
          → f.input_queue ≡ queue
          → S (elim queue [
            | [] ↦ no_request f
            | q ∷ qs ↦
                built_of choices partition_of f (build_request_contents choices partition_of f)
          ])
      from [] e = idle e
      from ([] ∷ rest) e = absurd (omega (arith, subst (AllMsgs choices partition_of f R []) e a))
      from ((m ∷ batch) ∷ rest) e = loops m batch rest e
