-- ===== src/Common/Assoc.antt =====
-- Maps as lists of their items, by Boolean tests on keys: what is looked up, replaced and put in.
use Prim.Native.Nat.{ℕ, ◌+◌}
use mathlib.Core.Path.{◌≡◌, refl, ap}
use mathlib.Core.Logic.{inl, inr}
use mathlib.Core.Bool.{Bool, true, false}
use mathlib.Core.Option.{Option, none, some}
use mathlib.Core.List.{List, [], ◌∷◌}
use native.Mathlib.Omega.{arith}
use dory.Common.Tests.{if◌then◌else◌, Bool-cases, Option-cases}

abbrev pub measure {κ} : {V : Type κ} → (V → ℕ) → Option V → ℕ
measure w none = 0
measure w (some v) = w v

module _ {ℓ κ} {K : Type ℓ} {V : Type κ} where
  unfoldable pub lookup : (K → K → Bool) → K → List (K × V) → Option V
  lookup eq k [] = none
  lookup eq k ((q, v) ∷ rest) = if eq q k then some v else lookup eq k rest

  unfoldable pub replace : (K → K → Bool) → K → V → List (K × V) → List (K × V)
  replace eq k v [] = []
  replace eq k v ((q, u) ∷ rest) = if eq q k then (q, v) ∷ rest else (q, u) ∷ replace eq k v rest

  -- In front of the first key that is greater.
  unfoldable pub insert : (K → K → Bool) → K → V → List (K × V) → List (K × V)
  insert lt k v [] = (k, v) ∷ []
  insert lt k v ((q, u) ∷ rest) =
      if lt k q then (k, v) ∷ (q, u) ∷ rest else (q, u) ∷ insert lt k v rest

  unfoldable pub put : (K → K → Bool) → (K → K → Bool) → K → V → List (K × V) → List (K × V)
  put lt eq k v m = elim (lookup eq k m) [ none ↦ insert lt k v m | some u ↦ replace eq k v m ]

  -- No key stands twice.
  abbrev pub IsMap : (K → K → Bool) → List (K × V) → Type κ
  IsMap eq [] = Unit {κ}
  IsMap eq ((q, v) ∷ rest) = (lookup eq q rest ≡ none) × IsMap eq rest

  abbrev pub AllItems {μ} : (K → V → Type μ) → List (K × V) → Type μ
  AllItems P [] = Unit {μ}
  AllItems P ((q, v) ∷ rest) = P q v × AllItems P rest

  -- The sum of a measure over the values.
  abbrev pub total : (V → ℕ) → List (K × V) → ℕ
  total w [] = 0
  total w ((q, v) ∷ rest) = w v + total w rest

  put_new :
      (lt eq : K → K → Bool) (k : K) (v : V) (m : List (K × V))
      → lookup eq k m ≡ none
      → put lt eq k v m ≡ insert lt k v m
  unfolding put
  put_new lt eq k v m h = rw (h, put) refl

  put_old :
      (lt eq : K → K → Bool) (k : K) (v : V) (m : List (K × V)) {u : V}
      → lookup eq k m ≡ some u
      → put lt eq k v m ≡ replace eq k v m
  unfolding put
  put_old lt eq k v m h = rw (h, put) refl

  total-insert :
      (w : V → ℕ) (lt : K → K → Bool) (k : K) (v : V) (m : List (K × V))
      → total w (insert lt k v m) ≡ total w m + w v
  unfolding insert
  total-insert w lt k v [] = omega arith
  total-insert w lt k v ((q, u) ∷ rest) = ground (arith, total-insert w lt k v rest)

  total-replace :
      (w : V → ℕ) (eq : K → K → Bool) (k : K) (v : V) (m : List (K × V)) {u : V}
      → lookup eq k m ≡ some u
      → total w (replace eq k v m) + w u ≡ total w m + w v
  unfolding lookup replace
  total-replace w eq k v [] h = absurd cc
  total-replace w eq k v ((q, u') ∷ rest) {u} h = elim (Bool-cases (eq q k)) [
    | inl e ↦ let same : u' ≡ u = cc (rw e at h) in rw e (omega (arith, ap w same))
    | inr e ↦ rw e (omega (arith, total-replace w eq k v rest (rw e at h)))
  ]

  -- Putting a value in moves the sum by the difference to the value that it replaces, if any.
  pub total-put :
      (w : V → ℕ) (lt eq : K → K → Bool) (k : K) (v : V) (m : List (K × V))
      → total w (put lt eq k v m) + measure w (lookup eq k m) ≡ total w m + w v
  total-put w lt eq k v m = elim (Option-cases (lookup eq k m)) [
    | inl e ↦ rw (e, put_new lt eq k v m e) (omega (arith, total-insert w lt k v m))
    | inr (u, e) ↦ rw (e, put_old lt eq k v m e) (omega (arith, total-replace w eq k v m e))
  ]

  module _ {μ} (P : K → V → Type μ) where
    AllItems-insert :
        (lt : K → K → Bool) (k : K) (v : V) (m : List (K × V))
        → AllItems P m
        → P k v
        → AllItems P (insert lt k v m)
    unfolding insert
    AllItems-insert lt k v [] h p = (p, tt)
    AllItems-insert lt k v ((q, u) ∷ rest) h p = elim (Bool-cases (lt k q)) [
      | inl e ↦ rw e (p, h)
      | inr e ↦ rw e (h.0, AllItems-insert lt k v rest h.1 p)
    ]

    AllItems-replace :
        (eq : K → K → Bool)
        → ((a b : K) → eq a b ≡ true → a ≡ b)
        → (k : K) (v : V) (m : List (K × V)) → AllItems P m
        → P k v
        → AllItems P (replace eq k v m)
    unfolding replace
    AllItems-replace eq sound k v [] h p = tt
    AllItems-replace eq sound k v ((q, u) ∷ rest) h p = elim (Bool-cases (eq q k)) [
      | inl e ↦ rw e (rw (sound q k e) p, h.1)
      | inr e ↦ rw e (h.0, AllItems-replace eq sound k v rest h.1 p)
    ]

    pub AllItems-put :
        (lt eq : K → K → Bool)
        → ((a b : K) → eq a b ≡ true → a ≡ b)
        → (k : K) (v : V) (m : List (K × V)) → AllItems P m
        → P k v
        → AllItems P (put lt eq k v m)
    AllItems-put lt eq sound k v m h p = elim (Option-cases (lookup eq k m)) [
      | inl e ↦ rw (put_new lt eq k v m e) (AllItems-insert lt k v m h p)
      | inr (u, e) ↦ rw (put_old lt eq k v m e) (AllItems-replace eq sound k v m h p)
    ]

    pub AllItems-lookup :
        (eq : K → K → Bool)
        → ((a b : K) → eq a b ≡ true → a ≡ b)
        → (k : K) (m : List (K × V)) {v : V} → AllItems P m
        → lookup eq k m ≡ some v
        → P k v
    unfolding lookup
    AllItems-lookup eq sound k [] h e = absurd cc
    AllItems-lookup eq sound k ((q, u) ∷ rest) {v} h e = elim (Bool-cases (eq q k)) [
      | inl t ↦ let same : u ≡ v = cc (rw t at e) in rw (← same) (rw (← sound q k t) h.0)
      | inr t ↦ AllItems-lookup eq sound k rest h.1 (rw t at e)
    ]

  pub AllItems-map {μ ν} :
      (P : K → V → Type μ) (Q : K → V → Type ν)
      → ((k : K) (v : V) → P k v → Q k v)
      → (m : List (K × V)) → AllItems P m
      → AllItems Q m
  AllItems-map P Q f [] h = tt
  AllItems-map P Q f ((k, v) ∷ rest) h = (f k v h.0, AllItems-map P Q f rest h.1)

  -- Looking up what was put in.
  module _ (lt eq : K → K → Bool) (eq_refl : (a : K) → eq a a ≡ true) where
    lookup-insert_self :
        (k : K) (v : V) (m : List (K × V))
        → lookup eq k m ≡ none
        → lookup eq k (insert lt k v m) ≡ some v
    unfolding lookup insert
    lookup-insert_self k v [] h = rw (eq_refl k) refl
    lookup-insert_self k v ((q, u) ∷ rest) h = elim (Bool-cases (eq q k)) [
      | inl t ↦ absurd (cc (rw t at h))
      | inr t ↦ elim (Bool-cases (lt k q)) [
        | inl s ↦ rw (s, eq_refl k) refl
        | inr s ↦ rw (s, t) (lookup-insert_self k v rest (rw t at h))
      ]
    ]

    lookup-replace_self :
        (k : K) (v : V) (m : List (K × V)) {u : V}
        → lookup eq k m ≡ some u
        → lookup eq k (replace eq k v m) ≡ some v
    unfolding lookup replace
    lookup-replace_self k v [] h = absurd cc
    lookup-replace_self k v ((q, u) ∷ rest) h = elim (Bool-cases (eq q k)) [
      | inl t ↦ rw (t, t) refl
      | inr t ↦ rw (t, t) (lookup-replace_self k v rest (rw t at h))
    ]

    pub lookup-put_self :
        (k : K) (v : V) (m : List (K × V)) → lookup eq k (put lt eq k v m) ≡ some v
    lookup-put_self k v m = elim (Option-cases (lookup eq k m)) [
      | inl e ↦ rw (put_new lt eq k v m e) (lookup-insert_self k v m e)
      | inr (u, e) ↦ rw (put_old lt eq k v m e) (lookup-replace_self k v m e)
    ]

  module _ (lt eq : K → K → Bool)
      (apart : (a b c : K) → eq a b ≡ true → eq b c ≡ false → eq a c ≡ false) where
    lookup-insert_apart :
        (j k : K) (v : V) (m : List (K × V))
        → eq k j ≡ false
        → lookup eq j (insert lt k v m) ≡ lookup eq j m
    unfolding lookup insert
    lookup-insert_apart j k v [] e = rw e refl
    lookup-insert_apart j k v ((q, u) ∷ rest) e = elim (Bool-cases (lt k q)) [
      | inl s ↦ rw (s, e) refl
      | inr s ↦ elim (Bool-cases (eq q j)) [
        | inl t ↦ rw (s, t) refl
        | inr t ↦ rw (s, t) (lookup-insert_apart j k v rest e)
      ]
    ]

    lookup-replace_apart :
        (j k : K) (v : V) (m : List (K × V))
        → eq k j ≡ false
        → lookup eq j (replace eq k v m) ≡ lookup eq j m
    unfolding lookup replace
    lookup-replace_apart j k v [] e = refl
    lookup-replace_apart j k v ((q, u) ∷ rest) e = elim (Bool-cases (eq q k)) [
      | inl s ↦ let t = apart q k j s e in rw (s, t) refl
      | inr s ↦ elim (Bool-cases (eq q j)) [
        | inl t ↦ rw (s, t) refl
        | inr t ↦ rw (s, t) (lookup-replace_apart j k v rest e)
      ]
    ]

    pub lookup-put_apart :
        (j k : K) (v : V) (m : List (K × V))
        → eq k j ≡ false
        → lookup eq j (put lt eq k v m) ≡ lookup eq j m
    lookup-put_apart j k v m e = elim (Option-cases (lookup eq k m)) [
      | inl t ↦ rw (put_new lt eq k v m t) (lookup-insert_apart j k v m e)
      | inr (u, t) ↦ rw (put_old lt eq k v m t) (lookup-replace_apart j k v m e)
    ]

  module _ (eq : K → K → Bool) (eq_false : (a b : K) → eq a b ≡ false → eq b a ≡ false) where
    lookup-insert_other :
        (lt : K → K → Bool) (j k : K) (v : V) (m : List (K × V))
        → eq k j ≡ false
        → lookup eq j m ≡ none
        → lookup eq j (insert lt k v m) ≡ none
    unfolding lookup insert
    lookup-insert_other lt j k v [] e h = rw e refl
    lookup-insert_other lt j k v ((q, u) ∷ rest) e h = elim (Bool-cases (eq q j)) [
      | inl t ↦ absurd (cc (rw t at h))
      | inr t ↦ elim (Bool-cases (lt k q)) [
        | inl s ↦ rw (s, e, t) (rw t at h)
        | inr s ↦ rw (s, t) (lookup-insert_other lt j k v rest e (rw t at h))
      ]
    ]

    insert-IsMap :
        (lt : K → K → Bool) (k : K) (v : V) (m : List (K × V))
        → lookup eq k m ≡ none
        → IsMap eq m
        → IsMap eq (insert lt k v m)
    unfolding insert lookup
    insert-IsMap lt k v [] h i = (refl, tt)
    insert-IsMap lt k v ((q, u) ∷ rest) h i = elim (Bool-cases (eq q k)) [
      | inl t ↦ absurd (cc (rw t at h))
      | inr t ↦ elim (Bool-cases (lt k q)) [
        | inl s ↦ rw s (h, i)
        | inr s ↦
            let later = rw t at h in
            rw s (
              lookup-insert_other lt q k v rest (eq_false q k t) i.0,
              insert-IsMap lt k v rest later i.1,
            )
      ]
    ]

    lookup-replace-none :
        (j k : K) (v : V) (m : List (K × V))
        → lookup eq j m ≡ none
        → lookup eq j (replace eq k v m) ≡ none
    unfolding lookup replace
    lookup-replace-none j k v [] h = refl
    lookup-replace-none j k v ((q, u) ∷ rest) h = elim (Bool-cases (eq q j)) [
      | inl t ↦ absurd (cc (rw t at h))
      | inr t ↦ elim (Bool-cases (eq q k)) [
        | inl s ↦ rw (s, t) (rw t at h)
        | inr s ↦ rw (s, t) (lookup-replace-none j k v rest (rw t at h))
      ]
    ]

    replace-IsMap : (k : K) (v : V) (m : List (K × V)) → IsMap eq m → IsMap eq (replace eq k v m)
    unfolding replace lookup
    replace-IsMap k v [] i = tt
    replace-IsMap k v ((q, u) ∷ rest) i = elim (Bool-cases (eq q k)) [
      | inl t ↦ rw t i
      | inr t ↦ rw t (lookup-replace-none q k v rest i.0, replace-IsMap k v rest i.1)
    ]

    pub put-IsMap :
        (lt : K → K → Bool) (k : K) (v : V) (m : List (K × V))
        → IsMap eq m
        → IsMap eq (put lt eq k v m)
    put-IsMap lt k v m i = elim (Option-cases (lookup eq k m)) [
      | inl e ↦ rw (put_new lt eq k v m e) (insert-IsMap lt k v m e i)
      | inr (u, e) ↦ rw (put_old lt eq k v m e) (replace-IsMap k v m i)
    ]
