-- ===== src/Stream/Connection.antt =====
-- src/dory/stream_client_work_fn.cc: a stream client's connection from SetState on.
use dory.Common.{
  ℕ, ◌+◌, ◌*◌, ◌^◌, ◌<◌, ◌≡◌, inl, refl, ap, ◌∙◌, subst, arith, List, [], ◌∷◌, ◌++◌, true, some,
  append-nil,
}
use dory.Common.Bytes.{Bytes}
use dory.Common.Int.{pos}
use dory.Stream.Buf.{data_of}
use dory.Stream.Reader.{ReadResult, got}
use dory.Stream.WithSize.{DataInvalidReason, int32, size_of}
use dory.Stream.Frames.{Format, malformed, frame}
use dory.Stream.Frames.Append.{frame-short}
use dory.Stream.Splits.{Splits, bad, next, Splits-unique}
use dory.Stream.Delivery.{Reading, Handled, awaits, overlooks, rejects, IsChunk}
use dory.Stream.Serve.{handle-Handled, serve-invalid}
use dory.Stream.Client.{
  SizedReader, Served, goes_on, closes, malformed_msg, process_dies, behind, continue_with, serve,
  handle_sock_read_ready, set_state,
}

-- What clients send: a 32-bit size that counts itself, and the rest of the message.
abbrev pub client_format : ℕ → Format
client_format max_stream_msg_size = record {
  size_field_type = int32;
  size_includes_size_field = true;
  include_size_field_in_msg = true;
  max_msg_body_size = max_stream_msg_size;
  preferred_read_size = 64 * 1024;
}

set_state-Reading :
    (client_socket max_size : ℕ)
    → Reading (client_format max_size) (set_state (pos client_socket) max_size)
unfolding set_state data_of size_of
set_state-Reading client_socket max_size = record {
  is_open = record {
    more_input = ground arith;
    descriptor = ground arith;
    buffered = record { within = omega arith; front = inl refl };
    formatted = refl;
  };
  needs_read = ground arith;
  synced = inl refl;
  cut = frame-short (client_format max_size) [] (omega arith);
}

data_of-set_state :
    (client_socket max_size : ℕ) → data_of (set_state (pos client_socket) max_size).buf ≡ []
unfolding set_state data_of
data_of-set_state client_socket max_size = refl

-- What the messages of a stream without a malformed one come to.
pub record Awaits (msgs : List Bytes) (left : Bytes) (served : Served) : Type 0 where
  pub reader : SizedReader
  pub passed_on : served ≡ goes_on reader msgs
  pub still_buffered : data_of reader.buf ≡ left

Handled-dies :
    (f : Format) {chunk msg left : Bytes} {msgs : List Bytes} (result : ReadResult)
    (later : List ReadResult) (served : Served)
    → Handled f chunk served
    → Splits f chunk (msg ∷ msgs) left
    → frame f left ≡ malformed
    → continue_with served (λ r. serve r (result ∷ later)) ≡ process_dies (msg ∷ msgs)
unfolding continue_with behind
Handled-dies f result later served (awaits s' reading) s e =
    absurd (cc ((Splits-unique f s s').1, e, reading.cut))
Handled-dies f result later served (overlooks {r = r} {msg = msg'} {msgs = msgs'} s' e' state) s e =
    ap (behind (msg' ∷ msgs')) (serve-invalid r result later state)
    ∙ ap process_dies (append-nil (msg' ∷ msgs') ∙ (Splits-unique f s' s).0)
Handled-dies f result later served (rejects reason e') (next e'' t) e = absurd cc

Handled-closes :
    (f : Format) {chunk : Bytes} (later : SizedReader → Served) (served : Served)
    → Handled f chunk served
    → frame f chunk ≡ malformed
    → (reason : DataInvalidReason) × (continue_with served later
        ≡ closes (malformed_msg (some reason) chunk) [])
unfolding continue_with
Handled-closes f later served (awaits s' reading) e =
    absurd (cc ((Splits-unique f s' (bad e)).1, e, reading.cut))
Handled-closes f later served (overlooks s' e' state) e = absurd (cc (Splits-unique f s' (bad e)).0)
Handled-closes f later served (rejects reason e') e = (reason, refl)

module _ (client_socket max_size : ℕ) (fits : max_size + 8 < 2 ^ 64) where
  pub handle_sock_read_ready-Handled :
      (chunk : Bytes)
      → IsChunk (client_format max_size) chunk
      → Handled
          (client_format max_size)
          chunk
          (handle_sock_read_ready (set_state (pos client_socket) max_size) (got chunk))
  handle_sock_read_ready-Handled chunk ok =
      let f = client_format max_size in
      let start = set_state (pos client_socket) max_size in
      subst (λ b. Handled f (b ++ chunk) (handle_sock_read_ready start (got chunk)))
        (data_of-set_state client_socket max_size)
        (handle-Handled f fits start chunk (set_state-Reading client_socket max_size) ok)

  -- For a maximum message size below 2^64 - 8, if a first piece of at most 64 KB splits into at
  -- least one message and a rest that begins with a malformed size field, then the next time that
  -- the socket is readable, whatever read() would yield, the process dies, after it has passed on
  -- those messages.
  pub serve-dies :
      (chunk msg : Bytes) (msgs : List Bytes) (left : Bytes) (result : ReadResult)
      (later : List ReadResult)
      → IsChunk (client_format max_size) chunk
      → Splits (client_format max_size) chunk (msg ∷ msgs) left
      → frame (client_format max_size) left ≡ malformed
      → serve (set_state (pos client_socket) max_size) (got chunk ∷ result ∷ later)
        ≡ process_dies (msg ∷ msgs)
  unfolding serve
  serve-dies chunk msg msgs left result later ok s e =
      Handled-dies (client_format max_size) result later
        (handle_sock_read_ready (set_state (pos client_socket) max_size) (got chunk))
        (handle_sock_read_ready-Handled chunk ok) s e

  -- For a maximum message size below 2^64 - 8, if a first nonempty piece of at most 64 KB begins
  -- with a malformed size field, the connection is closed, whatever would come later, no message is
  -- passed on, and the anomaly tracker is told the piece, with a reason.
  pub serve-closes :
      (chunk : Bytes) (later : List ReadResult)
      → IsChunk (client_format max_size) chunk
      → frame (client_format max_size) chunk ≡ malformed
      → (reason : DataInvalidReason) × (serve
            (set_state (pos client_socket) max_size)
            (got chunk ∷ later)
          ≡ closes (malformed_msg (some reason) chunk) [])
  unfolding serve
  serve-closes chunk later ok e =
      Handled-closes (client_format max_size) (λ r. serve r later)
        (handle_sock_read_ready (set_state (pos client_socket) max_size) (got chunk))
        (handle_sock_read_ready-Handled chunk ok) e
