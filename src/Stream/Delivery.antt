-- ===== src/Stream/Delivery.antt =====
-- What a stream client's connection delivers, against the messages that its stream of bytes holds.
use dory.Common.{
  ℕ, zero, suc, ◌+◌, ◌^◌, ◌≤◌, ◌<◌, ◌≡◌, ◌≢◌, if◌then◌else◌, sym, ap, ◌∙◌, subst, arith, List, [],
  ◌∷◌, ◌++◌, length, false, some, ◌==◌, length-drop,
}
use dory.Common.Bytes.{Bytes}
use dory.Stream.Buf.{data_of, ensure_space, write_space, mark_space_consumed}
use dory.Stream.Buf.Data.{ensure_space-Keeps, data_of-filled}
use dory.Stream.Reader.{
  read_needed, msg_ready, data_invalid, returns, got, read, consume_ready_msg, get_ready_msg,
  try_advance_to_next_msg, process_read_result,
}
use dory.Stream.WithSize.{DataInvalidReason, size_reader_methods}
use dory.Stream.Frames.{Format, complete, partial, malformed, frame}
use dory.Stream.Splits.{Splits, short, bad, next}
use dory.Stream.Decode.{Synced, Synced-append}
use dory.Stream.Advance.{
  IsOpen, Advanced, waiting, offering, refusing, Reaches, try_advance-Reaches, get_ready_msg-Offers,
  consume_ready_msg-Reaches,
}
use dory.Stream.Client.{
  SizedReader, Served, goes_on, closes, malformed_msg, behind, is_msg_ready, handle_msgs, dispatch,
  pass_on, handle_data_invalid,
}

-- Between two reads: everything buffered is the start of a message.
pub record Reading (f : Format) (r : SizedReader) : Type 0 where
  pub is_open : IsOpen f r
  pub needs_read : r.state ≡ read_needed
  pub synced : Synced r.sub (data_of r.buf)
  pub cut : frame f (data_of r.buf) ≡ partial

-- What a read may bring: some bytes, as many at most as it asks for.
abbrev pub IsChunk : Format → Bytes → Type 0
IsChunk f chunk = (0 < length chunk) × (length chunk ≤ f.preferred_read_size)

-- What the messages in a buffer come to.
pub data Handled (f : Format) (bytes : Bytes) : Served → Type 0 where
  awaits :
      {r : SizedReader} {msgs : List Bytes}
      → Splits f bytes msgs (data_of r.buf)
      → Reading f r
      → Handled f bytes (goes_on r msgs)
  overlooks :
      {r : SizedReader} {msg : Bytes} {msgs : List Bytes}
      → Splits f bytes (msg ∷ msgs) (data_of r.buf)
      → frame f (data_of r.buf) ≡ malformed
      → r.state ≡ data_invalid
      → Handled f bytes (goes_on r (msg ∷ msgs))
  rejects :
      (reason : DataInvalidReason)
      → frame f bytes ≡ malformed
      → Handled f bytes (closes (malformed_msg (some reason) bytes) [])

behind-Handled :
    (f : Format) {bytes msg rest : Bytes} (served : Served)
    → frame f bytes ≡ complete msg rest
    → frame f rest ≢ malformed
    → Handled f rest served
    → Handled f bytes (behind (msg ∷ []) served)
unfolding behind
behind-Handled f served e ok (awaits s reading) = awaits (next e s) reading
behind-Handled f served e ok (overlooks s bad_rest state) = overlooks (next e s) bad_rest state
behind-Handled f served e ok (rejects reason bad_rest) = absurd (ok bad_rest)

-- A round of the loop at the case of a ready message.
abbrev ready_round : ℕ → SizedReader → Served
ready_round fuel r =
    pass_on (get_ready_msg r) (consume_ready_msg size_reader_methods r) (handle_msgs fuel)

-- A round of the loop with a message ready.
handle_msgs-ready :
    (fuel : ℕ) (r r' : SizedReader) (msg : Bytes)
    → r.state ≡ msg_ready
    → get_ready_msg r ≡ returns msg
    → consume_ready_msg size_reader_methods r ≡ returns r'
    → handle_msgs (suc fuel) r
      ≡ behind (msg ∷ []) (if is_msg_ready r'.state then handle_msgs fuel r' else goes_on r' [])
unfolding handle_msgs dispatch pass_on
handle_msgs-ready fuel r r' msg e g c =
    ap (λ st. dispatch st r (ready_round fuel r)) e
    ∙ ap (λ m. pass_on m (consume_ready_msg size_reader_methods r) (handle_msgs fuel)) g
    ∙ ap (λ o. pass_on (returns msg) o (handle_msgs fuel)) c

module _ (f : Format) (fits : f.max_msg_body_size + 8 < 2 ^ 64) where
  -- The loop after a message: over at once, unless another is ready.
  looped-Handled :
      (r : SizedReader) (rest : Bytes) (served : Served) {bytes msg : Bytes}
      → data_of r.buf ≡ rest
      → IsOpen f r
      → Advanced f r
      → Handled f rest served
      → frame f bytes ≡ complete msg rest
      → Handled f bytes (behind (msg ∷ []) (if is_msg_ready r.state then served else goes_on r []))
  unfolding behind is_msg_ready
  looped-Handled r rest served {bytes} {msg} same o (waiting e sync cut) more found =
      let here : Splits f bytes (msg ∷ []) (data_of r.buf) =
        next found (subst (λ b. Splits f b [] (data_of r.buf)) same (short cut)) in
      subst
        (λ st.
          Handled f bytes (behind (msg ∷ []) (if is_msg_ready st then served else goes_on r [])))
        (sym e) (awaits here (record { is_open = o; needs_read = e; synced = sync; cut = cut }))
  looped-Handled r rest served {bytes} {msg} same o (refusing reason e why bad_start) more found =
      let here : Splits f bytes (msg ∷ []) (data_of r.buf) =
        next found (subst (λ b. Splits f b [] (data_of r.buf)) same (bad bad_start)) in
      subst
        (λ st.
          Handled f bytes (behind (msg ∷ []) (if is_msg_ready st then served else goes_on r [])))
        (sym e) (overlooks here bad_start e)
  looped-Handled r rest served {bytes} {msg} same o (offering e found' offer) more found =
      subst
        (λ st.
          Handled f bytes (behind (msg ∷ []) (if is_msg_ready st then served else goes_on r [])))
        (sym e) (behind-Handled f served found (λ b. absurd (cc (b, same, found'))) more)

  pub handle_msgs-Handled :
      (fuel : ℕ) (r : SizedReader) (bytes : Bytes)
      → data_of r.buf ≡ bytes
      → IsOpen f r
      → Advanced f r
      → length bytes < fuel
      → Handled f bytes (handle_msgs fuel r)
  unfolding handle_msgs dispatch handle_data_invalid
  handle_msgs-Handled zero r bytes same o a h = absurd (omega arith)
  handle_msgs-Handled (suc fuel) r bytes same o (waiting e sync cut) h =
      subst (λ st. Handled f bytes (dispatch st r (ready_round fuel r))) (sym e)
        (awaits (subst (λ b. Splits f b [] (data_of r.buf)) same (short cut))
          (record { is_open = o; needs_read = e; synced = sync; cut = cut }))
  handle_msgs-Handled (suc fuel) r bytes same o (refusing reason e why bad_start) h =
      subst (λ st. Handled f bytes (dispatch st r (ready_round fuel r))) (sym e)
        (rw (why, same) (rejects reason (rw same at bad_start)))
  handle_msgs-Handled (suc fuel) r bytes same o (offering {msg} {rest} e found offer) h =
      let got_msg = get_ready_msg-Offers f fits r o e offer in
      let after = consume_ready_msg-Reaches f fits r o e offer in
      let shorter : length rest < fuel = omega (
        arith,
        h,
        offer.some_bytes,
        offer.within,
        ap length offer.is_rest,
        ap length same,
        length-drop (r.ready_msg_offset + r.ready_msg_size) (data_of r.buf),
      ) in
      subst (Handled f bytes)
        (sym (handle_msgs-ready fuel r after.reader msg e got_msg after.reached))
        (looped-Handled after.reader rest (handle_msgs fuel after.reader) after.same_data
          after.is_open after.advanced
          (handle_msgs-Handled fuel after.reader rest after.same_data after.is_open after.advanced
            shorter)
          (rw same at found))

  pub read-Reaches :
      (r : SizedReader) (chunk : Bytes)
      → Reading f r
      → IsChunk f chunk
      → Reaches f (data_of r.buf ++ chunk) (read size_reader_methods r (got chunk))
  unfolding read process_read_result
  read-Reaches r chunk reading ok =
      let o = reading.is_open in
      let size = r.sub.preferred_read_size in
      let asks : size ≡ f.preferred_read_size = ap (λ g. g.preferred_read_size) o.formatted in
      let (kept, room) = ensure_space-Keeps size r.buf o.buffered in
      let (filled, valid) =
        data_of-filled chunk (ensure_space size r.buf) kept.valid (omega (arith, ok, asks, room)) in
      let some_size : size == 0 ≡ false = ground (arith, ok, asks) in
      let not_end : length chunk == 0 ≡ false = ground (arith, ok) in
      let now : SizedReader = record r {
        buf = mark_space_consumed (length chunk) (write_space chunk (ensure_space size r.buf));
        state = read_needed;
      } in
      let longer : data_of now.buf ≡ data_of r.buf ++ chunk =
        filled ∙ ap (λ b. b ++ chunk) kept.same_data in
      let still_open : IsOpen f now = record {
        more_input = o.more_input;
        descriptor = o.descriptor;
        buffered = valid;
        formatted = o.formatted;
      } in
      let sync : Synced now.sub (data_of now.buf) =
        subst (Synced r.sub) (sym longer)
          (Synced-append r.sub (data_of r.buf) chunk reading.synced) in
      let reaches = try_advance-Reaches f fits now still_open sync in
      rw (reading.needs_read, some_size, not_end)
        (subst (λ b. Reaches f b (try_advance_to_next_msg size_reader_methods now)) longer reaches)
