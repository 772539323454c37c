-- ===== src/Stream/Advance.antt =====
-- TryAdvanceToNextMsg, GetReadyMsg and ConsumeReadyMsg with the reader of messages behind a size field.
use dory.Common.{
  ◌+◌, ◌-◌, ◌^◌, ◌≤◌, ◌<◌, ◌≡◌, inl, refl, ap, ◌∙◌, subst, arith, length, take, drop, ltb, false,
  ◌||◌, none, some,
}
use dory.Common.Int.{pos, ltb_ℤ}
use dory.Common.Bytes.{Bytes}
use dory.Stream.Buf.{data_of, mark_data_consumed}
use dory.Stream.Buf.Data.{IsValid, length-data_of, data_of-consumed}
use dory.Stream.Reader.{
  read_needed, msg_ready, data_invalid, GetMsgResult, Outcome, returns, advance_to,
  try_advance_to_next_msg, consume_ready_msg, get_ready_msg,
}
use dory.Stream.WithSize.{SizeReader, DataInvalidReason, get_next_msg, size_reader_methods}
use dory.Stream.Frames.{Format, format, complete, partial, malformed, frame}
use dory.Stream.Decode.{Synced, Decoded, incomplete, whole, refused, get_next_msg-Reports}
use dory.Stream.Client.{SizedReader}

-- What no step changes.
pub record IsOpen (f : Format) (r : SizedReader) : Type 0 where
  pub more_input : r.end_of_input ≡ false
  pub descriptor : ltb_ℤ r.fd (pos 0) ≡ false
  pub buffered : IsValid r.buf
  pub formatted : format r.sub ≡ f

-- The ready message is where the reader says.
pub record Offers (r : SizedReader) (msg rest : Bytes) : Type 0 where
  pub within : r.ready_msg_offset + r.ready_msg_size ≤ length (data_of r.buf)
  pub is_msg : take r.ready_msg_size (drop r.ready_msg_offset (data_of r.buf)) ≡ msg
  pub is_rest : drop (r.ready_msg_offset + r.ready_msg_size) (data_of r.buf) ≡ rest
  pub no_trailing : r.trailing_data_size ≡ 0
  pub some_bytes : 0 < r.ready_msg_offset + r.ready_msg_size

pub data Advanced (f : Format) (r : SizedReader) : Type 0 where
  waiting :
      r.state ≡ read_needed
      → Synced r.sub (data_of r.buf)
      → frame f (data_of r.buf) ≡ partial
      → Advanced f r
  offering :
      {msg rest : Bytes}
      → r.state ≡ msg_ready
      → frame f (data_of r.buf) ≡ complete msg rest
      → Offers r msg rest
      → Advanced f r
  refusing :
      (reason : DataInvalidReason)
      → r.state ≡ data_invalid
      → r.sub.opt_data_invalid_reason ≡ some reason
      → frame f (data_of r.buf) ≡ malformed
      → Advanced f r

-- An advance over a buffer.
pub record Reaches (f : Format) (bytes : Bytes) (outcome : Outcome SizedReader) : Type 0 where
  pub reader : SizedReader
  pub reached : outcome ≡ returns reader
  pub is_open : IsOpen f reader
  pub same_data : data_of reader.buf ≡ bytes
  pub advanced : Advanced f reader

advance_to-Reaches :
    (f : Format) (r : SizedReader) (s : SizeReader) (result : GetMsgResult)
    → IsOpen f r
    → Decoded f (data_of r.buf) s result
    → Reaches f (data_of r.buf) (advance_to size_reader_methods (record r { sub = s }) result)
unfolding advance_to
advance_to-Reaches f r s result o (incomplete formatted sync cut) = record {
  reader = record r { sub = s; state = read_needed };
  reached = rw o.more_input refl;
  is_open = record {
    more_input = o.more_input;
    descriptor = o.descriptor;
    buffered = o.buffered;
    formatted = formatted;
  };
  same_data = refl;
  advanced = waiting refl sync cut;
}
advance_to-Reaches f r s result o
      (whole {offset = offset} {size = size} formatted found here is_msg is_rest positive) =
    let n = length (data_of r.buf) in
    let safe : ltb n offset
          || ltb (n - offset) size
          || ltb (n - r.ready_msg_offset - r.ready_msg_size) 0
        ≡ false =
      ground (arith, here) in
    record {
      reader = record r {
        sub = s;
        ready_msg_offset = offset;
        ready_msg_size = size;
        trailing_data_size = 0;
        state = msg_ready;
      };
      reached = rw safe refl;
      is_open = record {
        more_input = o.more_input;
        descriptor = o.descriptor;
        buffered = o.buffered;
        formatted = formatted;
      };
      same_data = refl;
      advanced = offering refl found (record {
        within = here;
        is_msg = is_msg;
        is_rest = is_rest;
        no_trailing = refl;
        some_bytes = positive;
      });
    }
advance_to-Reaches f r s result o (refused reason formatted why bad) = record {
  reader = record r { sub = s; state = data_invalid };
  reached = refl;
  is_open = record {
    more_input = o.more_input;
    descriptor = o.descriptor;
    buffered = o.buffered;
    formatted = formatted;
  };
  same_data = refl;
  advanced = refusing reason refl why bad;
}

module _ (f : Format) (fits : f.max_msg_body_size + 8 < 2 ^ 64) where
  pub try_advance-Reaches :
      (r : SizedReader)
      → IsOpen f r
      → Synced r.sub (data_of r.buf)
      → Reaches f (data_of r.buf) (try_advance_to_next_msg size_reader_methods r)
  unfolding try_advance_to_next_msg
  try_advance-Reaches r o sync =
      let bytes = data_of r.buf in
      let same : r.sub.max_msg_body_size ≡ f.max_msg_body_size =
        ap (λ g. g.max_msg_body_size) o.formatted in
      let reports =
        get_next_msg-Reports r.sub bytes r.end_of_input (omega (arith, fits, same)) sync in
      let next = get_next_msg r.sub bytes r.end_of_input in
      advance_to-Reaches f r next.0 next.1 o
        (subst (λ g. Decoded g bytes next.0 next.1) o.formatted reports)

  -- A message that is offered is had, byte for byte.
  pub get_ready_msg-Offers :
      (r : SizedReader) {msg rest : Bytes}
      → IsOpen f r
      → r.state ≡ msg_ready
      → Offers r msg rest
      → get_ready_msg r ≡ returns msg
  unfolding get_ready_msg
  get_ready_msg-Offers r o e offer =
      let n = length (data_of r.buf) in
      let safe : ltb n r.ready_msg_offset
            || ltb (n - r.ready_msg_offset) r.ready_msg_size
            || ltb (n - r.ready_msg_offset - r.ready_msg_size) r.trailing_data_size
          ≡ false =
        ground (arith, offer.within, offer.no_trailing) in
      rw (e, o.descriptor, safe, offer.is_msg) refl

  -- Once it is consumed, what stands behind it is at the front.
  pub consume_ready_msg-Reaches :
      (r : SizedReader) {msg rest : Bytes}
      → IsOpen f r
      → r.state ≡ msg_ready
      → Offers r msg rest
      → Reaches f rest (consume_ready_msg size_reader_methods r)
  unfolding consume_ready_msg
  consume_ready_msg-Reaches r {msg} {rest} o e offer =
      let size = r.ready_msg_offset + r.ready_msg_size + r.trailing_data_size in
      let total : size ≡ r.ready_msg_offset + r.ready_msg_size = omega (arith, offer.no_trailing) in
      let (cut, valid) =
        data_of-consumed size r.buf o.buffered
          (omega (arith, offer.within, total, length-data_of r.buf o.buffered)) in
      let consumed : SizedReader = record r {
        sub = record r.sub { opt_msg_body_size = none };
        buf = mark_data_consumed size r.buf;
        ready_msg_offset = 0;
        ready_msg_size = 0;
        trailing_data_size = 0;
        state = msg_ready;
      } in
      let still_open : IsOpen f consumed = record {
        more_input = o.more_input;
        descriptor = o.descriptor;
        buffered = valid;
        formatted = o.formatted;
      } in
      let behind : data_of consumed.buf ≡ rest =
        cut ∙ ap (λ n. drop n (data_of r.buf)) total ∙ offer.is_rest in
      rw e (
        subst (λ bytes. Reaches f bytes (try_advance_to_next_msg size_reader_methods consumed))
          behind (try_advance-Reaches consumed still_open (inl refl)))
