-- ===== src/AnomalyTracker/Lru.antt =====
-- The lists of recent samples in src/dory/anomaly_tracker.cc.
use dory.Common.{
  ℕ, zero, suc, ◌≤◌, ◌≡◌, refl, sym, ap, subst, ◌∙◌, Bool-cases, true, false, inl, inr, List, [],
  ◌∷◌, arith, length, take, ltb, if◌then◌else◌,
}
use dory.Common.Bytes.{Bytes, bytes_eq, bytes_eq_sound}
use dory.AnomalyTracker.{contains, remove_first, pop_back, update_lru_list}

-- The samples other than one.
unfoldable pub without : Bytes → List Bytes → List Bytes
without s [] = []
without s (x ∷ xs) = if bytes_eq x s then without s xs else x ∷ without s xs

-- No sample stands twice.
abbrev pub IsDistinct : List Bytes → Type 0
IsDistinct [] = Unit {0}
IsDistinct (x ∷ xs) = (contains x xs ≡ false) × IsDistinct xs

without-absent : (s : Bytes) (xs : List Bytes) → contains s xs ≡ false → without s xs ≡ xs
unfolding contains without
without-absent s [] h = refl
without-absent s (x ∷ xs) h = elim (Bool-cases (bytes_eq x s)) [
  | inl e ↦ absurd (cc (rw e at h))
  | inr e ↦ rw e (ap (◌∷◌ x) (without-absent s xs (rw e at h)))
]

remove_first-eq-without :
    (s : Bytes) (xs : List Bytes) → IsDistinct xs → remove_first s xs ≡ without s xs
unfolding remove_first without
remove_first-eq-without s [] h = refl
remove_first-eq-without s (x ∷ xs) h = elim (Bool-cases (bytes_eq x s)) [
  | inl e ↦
      rw e
        (sym (without-absent s xs (subst (λ y. contains y xs ≡ false) (bytes_eq_sound x s e) h.0)))
  | inr e ↦ rw e (ap (◌∷◌ x) (remove_first-eq-without s xs h.1))
]

length-pop_back : (x : Bytes) (xs : List Bytes) → length (pop_back (x ∷ xs)) ≡ length xs
unfolding pop_back
length-pop_back x [] = refl
length-pop_back x (y ∷ ys) = ap suc (length-pop_back y ys)

pop_back-eq-take : (x : Bytes) (xs : List Bytes) → pop_back (x ∷ xs) ≡ take (length xs) (x ∷ xs)
unfolding pop_back
pop_back-eq-take x [] = refl
pop_back-eq-take x (y ∷ ys) = ap (◌∷◌ x) (pop_back-eq-take y ys)

take-all : (n : ℕ) (xs : List Bytes) → length xs ≤ n → take n xs ≡ xs
take-all zero [] h = refl
take-all zero (x ∷ xs) h = absurd (omega arith)
take-all (suc n) [] h = refl
take-all (suc n) (x ∷ xs) h = ap (◌∷◌ x) (take-all n xs (omega arith))

length-remove_first :
    (s : Bytes) (xs : List Bytes)
    → contains s xs ≡ true
    → suc (length (remove_first s xs)) ≡ length xs
unfolding contains remove_first
length-remove_first s [] h = absurd cc
length-remove_first s (x ∷ xs) h = elim (Bool-cases (bytes_eq x s)) [
  | inl e ↦ rw e refl
  | inr e ↦ rw e (ap suc (length-remove_first s xs (rw e at h)))
]

-- If a list holds no sample twice and is within the maximum size, UpdateLruList makes it the new
-- sample followed by the others in their order, cut off at the maximum size.
pub update_lru_list-eq-take :
    (s : Bytes) (lru_list : List Bytes) (max_list_size : ℕ)
    → length lru_list ≤ max_list_size
    → IsDistinct lru_list
    → update_lru_list s lru_list max_list_size ≡ take max_list_size (s ∷ without s lru_list)
unfolding update_lru_list
update_lru_list-eq-take s lru_list max_list_size fits distinct =
    elim (Bool-cases (contains s lru_list)) [
      | inl e ↦
          let same = remove_first-eq-without s lru_list distinct in
          rw (e, same)
            (sym (
              take-all max_list_size (s ∷ without s lru_list)
                (omega (arith, fits, length-remove_first s lru_list e, ap length same))))
      | inr e ↦
          let same = without-absent s lru_list e in
          elim (Bool-cases (ltb max_list_size (suc (length lru_list)))) [
            | inl full ↦
                let n : length lru_list ≡ max_list_size = ground (arith, fits, full) in
                rw (e, full, same) (pop_back-eq-take s lru_list ∙ ap (λ k. take k (s ∷ lru_list)) n)
            | inr room ↦
                let n : suc (length lru_list) ≤ max_list_size = ground (arith, room) in
                rw (e, room, same) (sym (take-all max_list_size (s ∷ lru_list) n))
          ]
    ]

-- What is kept of the samples.
abbrev pub IsLru : ℕ → List Bytes → Type 0
IsLru max_list_size xs = (length xs ≤ max_list_size) × IsDistinct xs

contains-without_self : (s : Bytes) (xs : List Bytes) → contains s (without s xs) ≡ false
unfolding contains without
contains-without_self s [] = refl
contains-without_self s (x ∷ xs) = elim (Bool-cases (bytes_eq x s)) [
  | inl e ↦ rw e (contains-without_self s xs)
  | inr e ↦ rw (e, e) (contains-without_self s xs)
]

contains-without :
    (s y : Bytes) (xs : List Bytes) → contains y xs ≡ false → contains y (without s xs) ≡ false
unfolding contains without
contains-without s y [] h = refl
contains-without s y (x ∷ xs) h = ground (arith, h, contains-without s y xs)

contains-take :
    (y : Bytes) (n : ℕ) (xs : List Bytes) → contains y xs ≡ false → contains y (take n xs) ≡ false
unfolding contains
contains-take y zero xs h = refl
contains-take y (suc n) [] h = refl
contains-take y (suc n) (x ∷ xs) h = ground (arith, h, contains-take y n xs)

IsDistinct-without : (s : Bytes) (xs : List Bytes) → IsDistinct xs → IsDistinct (without s xs)
unfolding without
IsDistinct-without s [] h = tt
IsDistinct-without s (x ∷ xs) h = elim (Bool-cases (bytes_eq x s)) [
  | inl e ↦ rw e (IsDistinct-without s xs h.1)
  | inr e ↦ rw e (contains-without s x xs h.0, IsDistinct-without s xs h.1)
]

IsDistinct-take : (n : ℕ) (xs : List Bytes) → IsDistinct xs → IsDistinct (take n xs)
IsDistinct-take zero xs h = tt
IsDistinct-take (suc n) [] h = tt
IsDistinct-take (suc n) (x ∷ xs) h = (contains-take x n xs h.0, IsDistinct-take n xs h.1)

length-take_le : (n : ℕ) (xs : List Bytes) → length (take n xs) ≤ n
length-take_le zero xs = omega arith
length-take_le (suc n) [] = omega arith
length-take_le (suc n) (x ∷ xs) = omega (arith, length-take_le n xs)

-- An update keeps the list within its bound and without repetitions.
pub update_lru_list-IsLru :
    (s : Bytes) (lru_list : List Bytes) (max_list_size : ℕ)
    → IsLru max_list_size lru_list
    → IsLru max_list_size (update_lru_list s lru_list max_list_size)
update_lru_list-IsLru s lru_list max_list_size h =
    rw (update_lru_list-eq-take s lru_list max_list_size h.0 h.1) (
      length-take_le max_list_size (s ∷ without s lru_list),
      IsDistinct-take max_list_size (s ∷ without s lru_list)
          (contains-without_self s lru_list, IsDistinct-without s lru_list h.1),
    )
