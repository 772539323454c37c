-- ===== src/MsgStateTracker/Stats.antt =====
-- What the map of counts says of each topic after an update.
use dory.Common.{
  ◌≡◌, refl, sym, ◌∙◌, Bool, true, false, not, [], ◌∷◌, ◌&&◌, if◌then◌else◌, arith, Bool-cases, inl,
  inr,
}
use dory.Common.Int.{◌+ℤ◌}
use dory.Common.Bytes.{Bytes, bytes_eq, bytes_eq_sound, bytes_eq_refl}
use dory.MsgStateTracker.{
  MsgStateTracker, TopicStats, StatsWrapper, StatsMap, DeltaComputer, no_stats, add_stats, all_zero,
  put_stats, update_map, update_stats, changes_stats,
}

-- The counts of a topic: a topic that is not in the map has none.
unfoldable pub stats_of : StatsMap → Bytes → TopicStats
stats_of [] topic = no_stats
stats_of ((t, w) ∷ rest) topic = if bytes_eq t topic then w.topic_stats else stats_of rest topic

pub absent : StatsMap → Bytes → Bool
absent [] topic = true
absent ((t, w) ∷ rest) topic = not (bytes_eq t topic) && absent rest topic

-- No topic is twice in the map.
abbrev pub IsUnique : StatsMap → Type 0
IsUnique [] = Unit {0}
IsUnique ((t, w) ∷ rest) = (absent rest t ≡ true) × IsUnique rest

stats_of-absent :
    (map : StatsMap) (topic : Bytes) → absent map topic ≡ true → stats_of map topic ≡ no_stats
unfolding stats_of absent
stats_of-absent [] topic h = refl
stats_of-absent ((t, w) ∷ rest) topic h = ground (arith, stats_of-absent rest topic)

all_zero-eq : (s : TopicStats) → all_zero s ≡ true → s ≡ no_stats
unfolding all_zero
all_zero-eq s h = ground arith

add_no_stats : (s : TopicStats) (d : DeltaComputer) → changes_stats d ≡ false → add_stats s d ≡ s
unfolding add_stats ◌+ℤ◌
add_no_stats s d h = ground arith

stats_of-put_stats :
    (t : Bytes) (w : StatsWrapper) (rest : StatsMap) (topic : Bytes)
    → absent rest t ≡ true
    → stats_of (put_stats t w rest) topic
      ≡ (if bytes_eq t topic then w.topic_stats else stats_of rest topic)
unfolding stats_of put_stats
stats_of-put_stats t w rest topic h = elim (Bool-cases (bytes_eq t topic)) [
  | inl e ↦
      let same : t ≡ topic = bytes_eq_sound t topic e in
      rw (← same) (
        rw (bytes_eq_refl t)
          (ground (arith, all_zero-eq w.topic_stats, stats_of-absent rest t h, bytes_eq_refl t)))
  | inr e ↦ rw e (ground arith)
]

bytes_eq_trans : (a b c : Bytes) → bytes_eq a c ≡ true → bytes_eq b c ≡ true → bytes_eq a b ≡ true
bytes_eq_trans a b c h k = rw (bytes_eq_sound a c h ∙ sym (bytes_eq_sound b c k)) (bytes_eq_refl b)

-- An update of one topic adds to its counts and changes no other's.
pub stats_of-update_map :
    (map : StatsMap) (topic : Bytes) (d : DeltaComputer) (other : Bytes)
    → IsUnique map
    → stats_of (update_map map topic d) other
      ≡ (if bytes_eq topic other then add_stats (stats_of map other) d else stats_of map other)
unfolding update_map stats_of
stats_of-update_map [] topic d other u = stats_of-put_stats topic _ [] other (unfold absent in refl)
stats_of-update_map ((t, w) ∷ rest) topic d other u = elim (Bool-cases (bytes_eq t topic)) [
  | inl e ↦
      rw (e, bytes_eq_sound t topic e)
        (stats_of-put_stats topic _ rest other (rw (bytes_eq_sound t topic e) at u.0)
          ∙ ground arith)
  | inr e ↦
      ground (arith, e, stats_of-update_map rest topic d other u.1, bytes_eq_trans t topic other)
]

absent-put_stats :
    (t : Bytes) (w : StatsWrapper) (rest : StatsMap) (other : Bytes)
    → bytes_eq t other ≡ false
    → absent (put_stats t w rest) other ≡ absent rest other
unfolding absent put_stats
absent-put_stats t w rest other h = ground arith

absent-update_map :
    (map : StatsMap) (topic : Bytes) (d : DeltaComputer) (other : Bytes)
    → bytes_eq topic other ≡ false
    → absent (update_map map topic d) other ≡ absent map other
unfolding update_map absent
absent-update_map [] topic d other h = absent-put_stats topic _ [] other h
absent-update_map ((t, w) ∷ rest) topic d other h = elim (Bool-cases (bytes_eq t topic)) [
  | inl e ↦
      let other_key : bytes_eq t other ≡ false = rw (bytes_eq_sound t topic e) h in
      rw e (absent-put_stats t _ rest other other_key ∙ rw other_key)
  | inr e ↦ rw e (ground (arith, absent-update_map rest topic d other h))
]

IsUnique-put_stats :
    (t : Bytes) (w : StatsWrapper) (rest : StatsMap)
    → absent rest t ≡ true
    → IsUnique rest
    → IsUnique (put_stats t w rest)
unfolding put_stats
IsUnique-put_stats t w rest h u = ground arith

bytes_eq_symm : (a b : Bytes) → bytes_eq a b ≡ false → bytes_eq b a ≡ false
bytes_eq_symm a b h = elim (Bool-cases (bytes_eq b a)) [
  | inl e ↦ let same : bytes_eq a b ≡ true = rw (bytes_eq_sound b a e) (bytes_eq_refl a) in cc
  | inr e ↦ e
]

pub IsUnique-update_map :
    (map : StatsMap) (topic : Bytes) (d : DeltaComputer)
    → IsUnique map
    → IsUnique (update_map map topic d)
unfolding update_map
IsUnique-update_map [] topic d u = IsUnique-put_stats topic _ [] (unfold absent in refl) tt
IsUnique-update_map ((t, w) ∷ rest) topic d u = elim (Bool-cases (bytes_eq t topic)) [
  | inl e ↦ rw e (IsUnique-put_stats t _ rest u.0 u.1)
  | inr e ↦ rw e (
    absent-update_map rest topic d t (bytes_eq_symm t topic e) ∙ u.0,
    IsUnique-update_map rest topic d u.1,
  )
]

-- If no topic stands twice in the map, UpdateStats adds the deltas to the counts of its topic, a
-- topic that is not in the map counting as zero, and leaves those of every other topic.
pub stats_of-update_stats :
    (s : MsgStateTracker) (topic : Bytes) (d : DeltaComputer) (other : Bytes)
    → IsUnique s.topic_stats
    → stats_of (update_stats s topic d).topic_stats other ≡ (
        if bytes_eq topic other
        then add_stats (stats_of s.topic_stats other) d
        else stats_of s.topic_stats other)
unfolding update_stats
stats_of-update_stats s topic d other u = elim (Bool-cases (changes_stats d)) [
  | inl e ↦ rw e (stats_of-update_map s.topic_stats topic d other u)
  | inr e ↦ rw e (rw (add_no_stats (stats_of s.topic_stats other) d e) (ground arith))
]

pub IsUnique-update_stats :
    (s : MsgStateTracker) (topic : Bytes) (d : DeltaComputer)
    → IsUnique s.topic_stats
    → IsUnique (update_stats s topic d).topic_stats
unfolding update_stats
IsUnique-update_stats s topic d u = elim (Bool-cases (changes_stats d)) [
  | inl e ↦ rw e (IsUnique-update_map s.topic_stats topic d u)
  | inr e ↦ rw e u
]
