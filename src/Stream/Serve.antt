-- ===== src/Stream/Serve.antt =====
-- A stream client's connection from its start, whatever pieces its bytes come in.
use dory.Common.{
  suc, ◌+◌, ◌^◌, ◌<◌, ◌≡◌, refl, sym, ap, subst, arith, List, [], ◌∷◌, ◌++◌, map, length, All, some,
  append-nil, append_assoc,
}
use dory.Common.Bytes.{Bytes}
use dory.Stream.Buf.{data_of}
use dory.Stream.Reader.{data_invalid, ReadResult, got, read}
use dory.Stream.WithSize.{DataInvalidReason}
use dory.Stream.Frames.{Format, malformed, frame}
use dory.Stream.Frames.Append.{frame-append-malformed}
use dory.Stream.Splits.{Splits, short, bad, Splits-append}
use dory.Stream.Delivery.{
  Reading, Handled, awaits, overlooks, rejects, handle_msgs-Handled, IsChunk, read-Reaches,
}
use dory.Stream.Client.{
  SizedReader, Served, goes_on, closes, process_dies, malformed_msg, behind, continue_with,
  after_read, handle_sock_read_ready, serve,
}

abbrev pub concat : List Bytes → Bytes
concat [] = []
concat (chunk ∷ chunks) = chunk ++ concat chunks

-- What serving a stream comes to.
pub data Delivered (f : Format) (bytes : Bytes) : Served → Type 0 where
  all_read :
      {r : SizedReader} {msgs : List Bytes}
      → Splits f bytes msgs (data_of r.buf)
      → Reading f r
      → Delivered f bytes (goes_on r msgs)
  rejected :
      {msgs : List Bytes} {left : Bytes} (reason : DataInvalidReason) (unread : Bytes)
      → Splits f bytes msgs (left ++ unread)
      → frame f left ≡ malformed
      → Delivered f bytes (closes (malformed_msg (some reason) left) msgs)
  overlooked :
      {r : SizedReader} {msgs : List Bytes}
      → Splits f bytes msgs (data_of r.buf)
      → frame f (data_of r.buf) ≡ malformed
      → r.state ≡ data_invalid
      → Delivered f bytes (goes_on r msgs)
  died :
      {msgs : List Bytes} {left : Bytes}
      → Splits f bytes msgs left
      → frame f left ≡ malformed
      → Delivered f bytes (process_dies msgs)

-- A read in the state of invalid data ends the process.
pub serve-invalid :
    (r : SizedReader) (result : ReadResult) (later : List ReadResult)
    → r.state ≡ data_invalid
    → serve r (result ∷ later) ≡ process_dies []
unfolding serve handle_sock_read_ready after_read read
serve-invalid r result later e = rw e refl

behind-Delivered :
    (f : Format) {bytes : Bytes} {msgs : List Bytes} (left rest : Bytes) (served : Served)
    → Splits f bytes msgs left
    → Delivered f (left ++ rest) served
    → Delivered f (bytes ++ rest) (behind msgs served)
unfolding behind
behind-Delivered f left rest served s (all_read t reading) =
    all_read (Splits-append f rest s t) reading
behind-Delivered f left rest served s (rejected reason unread t e) =
    rejected reason unread (Splits-append f rest s t) e
behind-Delivered f left rest served s (overlooked t e st) =
    overlooked (Splits-append f rest s t) e st
behind-Delivered f left rest served s (died t e) = died (Splits-append f rest s t) e

module _ (f : Format) (fits : f.max_msg_body_size + 8 < 2 ^ 64) where
  pub handle-Handled :
      (r : SizedReader) (chunk : Bytes)
      → Reading f r
      → IsChunk f chunk
      → Handled f (data_of r.buf ++ chunk) (handle_sock_read_ready r (got chunk))
  unfolding handle_sock_read_ready after_read
  handle-Handled r chunk reading ok =
      let reaches = read-Reaches f fits r chunk reading ok in
      let after = reaches.reader in
      subst (λ o. Handled f (data_of r.buf ++ chunk) (after_read o)) (sym reaches.reached)
        (handle_msgs-Handled f fits (suc (length (data_of after.buf))) after
          (data_of r.buf ++ chunk) reaches.same_data reaches.is_open reaches.advanced
          (omega (arith, ap length reaches.same_data)))

  continue-Delivered :
      (chunks : List Bytes) (bytes : Bytes) (served : Served)
      → Handled f bytes served
      → ((r : SizedReader)
          → Reading f r
          → Delivered f (data_of r.buf ++ concat chunks) (serve r (map got chunks)))
      → Delivered f (bytes ++ concat chunks) (continue_with served (λ r. serve r (map got chunks)))
  unfolding continue_with serve
  continue-Delivered chunks bytes served (awaits {r} s reading) later =
      behind-Delivered f (data_of r.buf) (concat chunks) (serve r (map got chunks)) s
        (later r reading)
  continue-Delivered [] bytes served (overlooks {r} s e state) later =
      behind-Delivered f (data_of r.buf) [] (goes_on r []) s
        (rw append-nil (overlooked (bad e) e state))
  continue-Delivered (chunk ∷ chunks) bytes served (overlooks {r} s e state) later =
      let still = frame-append-malformed f (data_of r.buf) (chunk ++ concat chunks) e in
      behind-Delivered f (data_of r.buf) (chunk ++ concat chunks)
        (serve r (map got (chunk ∷ chunks))) s
        (subst (Delivered f _) (sym (serve-invalid r (got chunk) (map got chunks) state))
          (died (bad still) still))
  continue-Delivered chunks bytes served (rejects reason e) later =
      rejected reason (concat chunks) (bad (frame-append-malformed f bytes (concat chunks) e)) e

  pub serve-Delivered :
      (r : SizedReader) (chunks : List Bytes)
      → Reading f r
      → All (IsChunk f) chunks
      → Delivered f (data_of r.buf ++ concat chunks) (serve r (map got chunks))
  unfolding serve
  serve-Delivered r [] reading ok = rw append-nil (all_read (short reading.cut) reading)
  serve-Delivered r (chunk ∷ chunks) reading ok = rw (← append_assoc) (
      continue-Delivered chunks (data_of r.buf ++ chunk) (handle_sock_read_ready r (got chunk))
        (handle-Handled r chunk reading ok.0)
        (λ r' reading'. serve-Delivered r' chunks reading' ok.1))
