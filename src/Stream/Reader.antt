-- ===== src/Stream/Reader.antt =====
-- src/base/stream_msg_reader.*: the state machine that every format of messages shares. A subclass is
-- a record of its methods over its own state. Die, which ends the process, is the outcome `dies`, and
-- the exception std::system_error is `throws`, with the error's number. RestrictReadyMsgCalls only guards against a subclass
-- that calls back, which the methods of the record cannot, and is left out.
use dory.Common.{ℕ, ◌+◌, ◌-◌, Bool, true, ◌||◌, length, take, drop, ltb, ◌==◌, if◌then◌else◌}
use dory.Common.Int.{ℤ, pos, negsuc, ltb_ℤ}
use dory.Common.Bytes.{Bytes}
use dory.Stream.Buf.{
  Buf, data_of, ensure_space, write_space, mark_space_consumed, mark_data_consumed, clear,
}

pub data ReaderState : Type 0 where
  read_needed msg_ready data_invalid at_end : ReaderState

-- TGetMsgResult: the offset, the size and the size of trailing data of a ready message.
pub data GetMsgResult : Type 0 where
  ready : ℕ → ℕ → ℕ → GetMsgResult
  no_msg_ready invalid : GetMsgResult

-- The virtual methods; GetNextMsg sees the buffered data and whether the input has ended.
pub record Subclass (S : Type 0) : Type 0 where
  pub get_next_read_size : S → ℕ
  pub get_next_msg : S → Bytes → Bool → S × GetMsgResult
  pub handle_reset : S → S
  pub before_consume_ready_msg : S → S

pub record StreamMsgReader (S : Type 0) : Type 0 where
  pub state : ReaderState
  pub fd : ℤ
  pub buf : Buf
  pub ready_msg_offset : ℕ
  pub ready_msg_size : ℕ
  pub trailing_data_size : ℕ
  pub end_of_input : Bool
  pub sub : S

pub data Outcome (A : Type 0) : Type 0 where
  returns : A → Outcome A
  dies : Outcome A
  throws : ℕ → A → Outcome A

-- What read() yields: bytes, none of them at the end of the input; EAGAIN, EWOULDBLOCK or EINTR; another
-- error, with its number.
pub data ReadResult : Type 0 where
  got : Bytes → ReadResult
  try_again : ReadResult
  failed : ℕ → ReadResult

unfoldable pub new_reader : {S : Type 0} → ℤ → Buf → S → StreamMsgReader S
new_reader fd buf sub =
    let closed = ltb_ℤ fd (pos 0) in
    record {
      state = if closed then at_end else read_needed;
      fd = if closed then negsuc 0 else fd;
      buf = buf;
      ready_msg_offset = 0;
      ready_msg_size = 0;
      trailing_data_size = 0;
      end_of_input = closed;
      sub = sub;
    }

module _ {S : Type 0} (methods : Subclass S) where
  -- The switch of TryAdvanceToNextMsg on the subclass's result.
  unfoldable pub advance_to : StreamMsgReader S → GetMsgResult → Outcome (StreamMsgReader S)
  advance_to r (ready offset size trailing) =
      let data_size = length (data_of r.buf) in
      if ltb data_size offset
        || ltb (data_size - offset) size
        || ltb (data_size - r.ready_msg_offset - r.ready_msg_size) trailing
      then dies
      else returns (record r {
        ready_msg_offset = offset;
        ready_msg_size = size;
        trailing_data_size = trailing;
        state = msg_ready;
      })
  advance_to r no_msg_ready =
      returns (record r { state = if r.end_of_input then at_end else read_needed })
  advance_to r invalid = returns (record r { state = data_invalid })

  unfoldable pub try_advance_to_next_msg : StreamMsgReader S → Outcome (StreamMsgReader S)
  unfolding advance_to
  try_advance_to_next_msg r =
      let (sub, result) = methods.get_next_msg r.sub (data_of r.buf) r.end_of_input in
      advance_to (record r { sub = sub }) result

  unfoldable pub process_read_result : StreamMsgReader S → ReadResult → Outcome (StreamMsgReader S)
  unfolding try_advance_to_next_msg
  process_read_result r try_again = returns r
  process_read_result r (failed code) = throws code r
  process_read_result r (got bytes) = try_advance_to_next_msg (record r {
    end_of_input = if length bytes == 0 then true else r.end_of_input;
    buf = mark_space_consumed (length bytes) (write_space bytes r.buf);
  })

  -- Read, with what the call of read() yields; PrepareForRead comes first.
  unfoldable pub read : StreamMsgReader S → ReadResult → Outcome (StreamMsgReader S)
  unfolding process_read_result
  read r result =
      let read_size = methods.get_next_read_size r.sub in
      let prepared = record r { buf = ensure_space read_size r.buf } in
      elim r.state [
        | read_needed ↦
            if read_size == 0 then returns prepared else process_read_result prepared result
        | msg_ready ↦ dies
        | data_invalid ↦ dies
        | at_end ↦ dies
      ]

  unfoldable pub consume_ready_msg : StreamMsgReader S → Outcome (StreamMsgReader S)
  unfolding try_advance_to_next_msg
  consume_ready_msg r =
      let size = r.ready_msg_offset + r.ready_msg_size + r.trailing_data_size in
      let consumed = record r {
        sub = methods.before_consume_ready_msg r.sub;
        buf = mark_data_consumed size r.buf;
        ready_msg_offset = 0;
        ready_msg_size = 0;
        trailing_data_size = 0;
      } in
      elim r.state [
        | msg_ready ↦ try_advance_to_next_msg consumed
        | read_needed ↦ dies
        | data_invalid ↦ dies
        | at_end ↦ dies
      ]

  unfoldable pub reset : StreamMsgReader S → ℤ → StreamMsgReader S
  unfolding clear new_reader
  reset r fd = new_reader fd (clear r.buf) (methods.handle_reset r.sub)

-- GetReadyMsg and GetReadyMsgSize: the message's bytes, or Die.
unfoldable pub get_ready_msg : {S : Type 0} → StreamMsgReader S → Outcome Bytes
get_ready_msg r =
    let data_size = length (data_of r.buf) in
    let past_end =
      ltb_ℤ r.fd (pos 0)
      || ltb data_size r.ready_msg_offset
      || ltb (data_size - r.ready_msg_offset) r.ready_msg_size
      || ltb (data_size - r.ready_msg_offset - r.ready_msg_size) r.trailing_data_size in
    elim r.state [
      | msg_ready ↦
          if past_end
          then dies
          else returns (take r.ready_msg_size (drop r.ready_msg_offset (data_of r.buf)))
      | read_needed ↦ dies
      | data_invalid ↦ dies
      | at_end ↦ dies
    ]
