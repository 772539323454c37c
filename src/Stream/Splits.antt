-- ===== src/Stream/Splits.antt =====
-- The messages that a stream of bytes holds, from the frame at its start on.
use dory.Common.{◌≡◌, refl, List, [], ◌∷◌, ◌++◌, subst}
use dory.Common.Bytes.{Bytes}
use dory.Stream.Frames.{Format, complete, partial, malformed, frame}
use dory.Stream.Frames.Append.{frame-append-complete}

-- The messages of a stream, and the bytes behind the last of them.
pub data Splits (f : Format) : Bytes → List Bytes → Bytes → Type 0 where
  short : {bytes : Bytes} → frame f bytes ≡ partial → Splits f bytes [] bytes
  bad : {bytes : Bytes} → frame f bytes ≡ malformed → Splits f bytes [] bytes
  next :
      {bytes msg rest left : Bytes} {msgs : List Bytes}
      → frame f bytes ≡ complete msg rest
      → Splits f rest msgs left
      → Splits f bytes (msg ∷ msgs) left

module _ (f : Format) where
  -- Messages that have arrived are not changed by what arrives later.
  pub Splits-append :
      {bytes left left' : Bytes} {msgs msgs' : List Bytes} (more : Bytes)
      → Splits f bytes msgs left
      → Splits f (left ++ more) msgs' left'
      → Splits f (bytes ++ more) (msgs ++ msgs') left'
  Splits-append more (short e) s = s
  Splits-append more (bad e) s = s
  Splits-append more (next {bytes} {rest = rest} e t) s =
      next (frame-append-complete f bytes more e) (Splits-append more t s)

  -- A stream splits in one way.
  pub Splits-unique :
      {bytes left left' : Bytes} {msgs msgs' : List Bytes}
      → Splits f bytes msgs left
      → Splits f bytes msgs' left'
      → (msgs ≡ msgs') × (left ≡ left')
  Splits-unique (short e) (short e') = (refl, refl)
  Splits-unique (short e) (bad e') = (refl, refl)
  Splits-unique (short e) (next e' t') = absurd cc
  Splits-unique (bad e) (short e') = (refl, refl)
  Splits-unique (bad e) (bad e') = (refl, refl)
  Splits-unique (bad e) (next e' t') = absurd cc
  Splits-unique (next e t) (short e') = absurd cc
  Splits-unique (next e t) (bad e') = absurd cc
  Splits-unique (next {rest = rest} e t) (next {rest = rest'} {left = left'} {msgs = msgs'} e' t') =
      let same : rest' ≡ rest = cc in
      let (ms, l) = Splits-unique t (subst (λ r. Splits f r msgs' left') same t') in (cc, l)
