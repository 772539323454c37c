-- ===== src/InputDg/Handles.antt =====
-- BuildMsgFromDg on every datagram, malformed and unsupported ones included.
use dory.Common.{
  ℕ, ◌<◌, ◌≡◌, ◌⊎◌, inl, inr, refl, ap, ◌∙◌, Bool-cases, false, [], ◌∷◌, Option, none, some, drop,
  length, length-drop, ltb, ◌==◌, ◌||◌, not, arith,
}
use dory.Common.Int.{ℤ, pos, negsuc, eq_ℤ, eq_ℤ-eq, ltb_ℤ, pos_part}
use dory.Common.Word.{of_u16, of_u32}
use dory.Common.Bytes.{Bytes, read_u16, read_u32}
use dory.Capped.Pool.{get_data_size}
use dory.InputDg.Agent.{
  Agent, Built, message, malformed, no_mem, assertion_fails, unsupported_api_key,
  unsupported_version, create_msg, build_any_partition_msg, build_partition_key_msg,
  build_msg_from_dg,
}
use dory.InputDg.Create.{IsUnchanged, Creates, create_msg-Creates}
use dory.InputDg.Read.{read_any_partition, read_partition_key}
use dory.InputDg.Write.{Fields}
use dory.Msg.{RoutingType, any_partition, partition_key}
use dory.MsgStateTracker.{msg_enter_new}

abbrev size_field : Bytes → ℤ
size_field dg = of_u32 (read_u32 dg)

abbrev api_key_field : Bytes → ℤ
api_key_field dg = of_u16 (read_u16 (drop 4 dg))

-- A datagram that ends with its header, of a kind that the agent knows.
abbrev pub IsHeaderOnly : Bytes → Type 0
IsHeaderOnly dg =
    (length dg ≡ 8)
    × (size_field dg ≡ pos 8)
    × ((api_key_field dg ≡ pos 256) ⊎ (api_key_field dg ≡ pos 257))

-- A message is counted as new exactly once; on every other outcome nothing is counted and the pool has
-- all its blocks. The assertion fails where it is said to, and nowhere else.
abbrev pub Handles : Type 0 → Agent → Agent × Built → Type 0
Handles Fails a (b, message m) = (b.tracker ≡ msg_enter_new a.tracker) × (¬ Fails)
Handles Fails a (b, malformed) = IsUnchanged a b × (¬ Fails)
Handles Fails a (b, no_mem) = IsUnchanged a b × (¬ Fails)
Handles Fails a (b, assertion_fails) = IsUnchanged a b × Fails
Handles Fails a (b, unsupported_api_key z) = IsUnchanged a b × (¬ Fails)
Handles Fails a (b, unsupported_version z) = IsUnchanged a b × (¬ Fails)

size_field_lem : (z : ℤ) (n : ℕ) → (ltb_ℤ z (pos 0) || not (pos_part z == n)) ≡ false → z ≡ pos n
size_field_lem (pos m) n e = ap pos (ground (arith, e))
size_field_lem (negsuc m) n e = absurd (ground (arith, e))

is_apart : (z : ℤ) (n : ℕ) → eq_ℤ z (pos n) ≡ false → ¬ (z ≡ pos n)
is_apart z n e h = ground (arith, rw h at e)

module _ (a : Agent) where
  unchanged : IsUnchanged a a
  unchanged = (λ f. refl, refl)

  module _ (Fails : Type 0) (addr : ℕ) (positive : 0 < get_data_size a.pool) where
    create_msg-Handles :
        (routing_type : RoutingType) (k : ℤ) (f : Fields)
        → ¬ Fails
        → Handles Fails a (create_msg a addr routing_type k f)
    create_msg-Handles routing_type k f never =
        go (create_msg a addr routing_type k f)
          (create_msg-Creates a addr routing_type k f positive)
      where
        go : (r : Agent × Built) → Creates a addr routing_type k f r → Handles Fails a r
        go (b, message m) c = (c.1, never)
        go (b, no_mem) c = (c.1, never)
        go (b, malformed) c = absurd c
        go (b, assertion_fails) c = absurd c
        go (b, unsupported_api_key z) c = absurd c
        go (b, unsupported_version z) c = absurd c

    build_any-Handles :
        (api_version : ℤ) (part : Bytes)
        → (part ≡ [] → Fails)
        → (0 < length part → ¬ Fails)
        → Handles Fails a (build_any_partition_msg a addr api_version part)
    unfolding build_any_partition_msg
    build_any-Handles api_version [] fails never = (unchanged, fails refl)
    build_any-Handles api_version (b ∷ part) fails never =
        elim (Bool-cases (eq_ℤ api_version (pos 0))) [
          | inl e ↦ rw e (go (read_any_partition (b ∷ part)))
          | inr e ↦ rw e (unchanged, never (omega arith))
        ]
      where
        go :
            (r : Option Fields)
            → Handles Fails a (elim r [
              | none ↦ (a, malformed)
              | some f ↦ create_msg a addr any_partition (pos 0) f
            ])
        go none = (unchanged, never (omega arith))
        go (some f) = create_msg-Handles any_partition (pos 0) f (never (omega arith))

    build_key-Handles :
        (api_version : ℤ) (part : Bytes)
        → (part ≡ [] → Fails)
        → (0 < length part → ¬ Fails)
        → Handles Fails a (build_partition_key_msg a addr api_version part)
    unfolding build_partition_key_msg
    build_key-Handles api_version [] fails never = (unchanged, fails refl)
    build_key-Handles api_version (b ∷ part) fails never =
        elim (Bool-cases (eq_ℤ api_version (pos 0))) [
          | inl e ↦ rw e (go (read_partition_key (b ∷ part)))
          | inr e ↦ rw e (unchanged, never (omega arith))
        ]
      where
        go :
            (r : Option (ℤ × Fields))
            → Handles Fails a (elim r [
              | none ↦ (a, malformed)
              | some (k, f) ↦ create_msg a addr partition_key k f
            ])
        go none = (unchanged, never (omega arith))
        go (some (k, f)) = create_msg-Handles partition_key k f (never (omega arith))

-- A whole datagram whose size field is right.
module _ (dg : Bytes) (long : ltb (length dg) 8 ≡ false)
    (good : (ltb_ℤ (size_field dg) (pos 0) || not (pos_part (size_field dg) == length dg))
      ≡ false) where
  ends_with_header :
      (api_key_field dg ≡ pos 256) ⊎ (api_key_field dg ≡ pos 257) → drop 8 dg ≡ [] → IsHeaderOnly dg
  ends_with_header kind empty =
      let whole : length dg ≡ 8 = ground (arith, long, length-drop 8 dg, ap length empty) in
      (whole, size_field_lem (size_field dg) (length dg) good ∙ ap pos whole, kind)

  goes_on : 0 < length (drop 8 dg) → ¬ (IsHeaderOnly dg)
  goes_on more h = omega (arith, more, h.0, length-drop 8 dg)

neither_kind :
    (dg : Bytes)
    → eq_ℤ (api_key_field dg) (pos 256) ≡ false
    → eq_ℤ (api_key_field dg) (pos 257) ≡ false
    → ¬ ((api_key_field dg ≡ pos 256) ⊎ (api_key_field dg ≡ pos 257))
neither_kind dg other neither (inl h) = is_apart (api_key_field dg) 256 other h
neither_kind dg other neither (inr h) = is_apart (api_key_field dg) 257 neither h

-- With a pool whose blocks have room for data, BuildMsgFromDg on any bytes either creates a
-- message, and then the tracker counts exactly one more new message, or discards the datagram or
-- fails its assertion on the versioned part, and then the tracker is as before and the pool has the
-- same free blocks, each as often; and the assertion fails exactly if the datagram has 8 bytes, its
-- size field is 8 and its API key is 256 or 257.
pub build_msg_from_dg-Handles :
    (a : Agent) (addr : ℕ) (dg : Bytes)
    → 0 < get_data_size a.pool
    → Handles (IsHeaderOnly dg) a (build_msg_from_dg a addr dg)
unfolding build_msg_from_dg
build_msg_from_dg-Handles a addr dg positive =
    let api_version = of_u16 (read_u16 (drop 6 dg)) in
    let bad_size = ltb_ℤ (size_field dg) (pos 0) || not (pos_part (size_field dg) == length dg) in
    let H = IsHeaderOnly dg in
    elim (Bool-cases (ltb (length dg) 8)) [
      | inl short ↦ rw short (unchanged a, λ h. ground (arith, short, h.0))
      | inr long ↦ elim (Bool-cases bad_size) [
        | inl bad ↦ rw (long, bad) (unchanged a, λ h. cc (rw (h.1, h.0) at bad))
        | inr good ↦ elim (Bool-cases (eq_ℤ (api_key_field dg) (pos 256))) [
          | inl any ↦
              rw (long, good, any)
                (build_any-Handles a H addr positive api_version (drop 8 dg)
                  (ends_with_header dg long good (inl (eq_ℤ-eq (api_key_field dg) (pos 256) any)))
                  (goes_on dg long good))
          | inr other ↦ elim (Bool-cases (eq_ℤ (api_key_field dg) (pos 257))) [
            | inl key ↦
                rw (long, good, other, key)
                  (build_key-Handles a H addr positive api_version (drop 8 dg)
                    (ends_with_header dg long good (inr (eq_ℤ-eq (api_key_field dg) (pos 257) key)))
                    (goes_on dg long good))
            | inr neither ↦
                rw (long, good, other, neither)
                  (unchanged a, λ h. neither_kind dg other neither h.2)
          ]
        ]
      ]
    ]
