-- ===== src/Stream/RoundTrip.antt =====
-- Messages as clients write them, in the format that doc/sending_messages.md describes for streams.
use dory.Common.{ℕ, ◌+◌, ◌^◌, ◌≤◌, ◌<◌, ◌++◌, length}
use dory.Common.Bytes.{Bytes, write_u32}
use dory.Stream.Splits.{Splits}

-- The size counts itself.
unfoldable pub encode : Bytes → Bytes
unfolding write_u32
encode body = write_u32 (4 + length body) ++ body

-- What a client may send.
abbrev pub IsSendable : ℕ → Bytes → Type 0
IsSendable max_size body = (length body ≤ max_size) × (4 + length body < 2 ^ 31)
