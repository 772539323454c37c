-- ===== src/Stream/Client.antt =====
-- src/dory/stream_client_work_fn.*: how an input agent serves a stream client, with the reader of
-- messages behind a 32-bit size field. What is modelled as given is the result of each call of read();
-- what each message that is handed to BuildMsgFromDg becomes is InputDg's part. Counters and log lines are
-- left out.
use dory.Common.{
  ℕ, zero, suc, Bool, true, false, List, [], ◌∷◌, ◌++◌, Option, length, ◌==◌, ◌||◌, ◌*◌,
  if◌then◌else◌,
}
use dory.Common.Int.{ℤ, negsuc}
use dory.Common.Bytes.{Bytes}
use dory.Stream.Buf.{data_of, empty_buf}
use dory.Stream.Reader.{
  ReaderState, read_needed, msg_ready, data_invalid, at_end, StreamMsgReader, Outcome, returns,
  dies, throws, ReadResult, new_reader, read, consume_ready_msg, reset, get_ready_msg,
}
use dory.Stream.WithSize.{
  SizeReader, DataInvalidReason, size_reader_methods, new_size_reader, int32,
}

abbrev pub SizedReader : Type 0
SizedReader = StreamMsgReader SizeReader

-- LostTcpConnection: ECONNRESET, EPIPE, EIO, EHOSTUNREACH, EHOSTDOWN and ETIMEDOUT, as Linux numbers them.
unfoldable pub lost_tcp_connection : ℕ → Bool
lost_tcp_connection code =
    code == 104 || code == 32 || code == 5 || code == 113 || code == 112 || code == 110

-- Why the agent closes a connection, with what it tells the anomaly tracker: the bytes of a malformed
-- message, or of one that the client left incomplete.
pub data Farewell : Type 0 where
  malformed_msg : Option DataInvalidReason → Bytes → Farewell
  clean_disconnect connection_lost : Farewell
  unclean_disconnect : Bytes → Farewell

-- What serving comes to: more is awaited, the connection is closed, or the process dies; with the
-- messages passed on.
pub data Served : Type 0 where
  goes_on : SizedReader → List Bytes → Served
  closes : Farewell → List Bytes → Served
  process_dies : List Bytes → Served
  out_of_fuel : Served

unfoldable pub behind : List Bytes → Served → Served
behind msgs (goes_on r later) = goes_on r (msgs ++ later)
behind msgs (closes why later) = closes why (msgs ++ later)
behind msgs (process_dies later) = process_dies (msgs ++ later)
behind msgs out_of_fuel = out_of_fuel

unfoldable pub handle_client_closed : SizedReader → Farewell
handle_client_closed r =
    if length (data_of r.buf) == 0 then clean_disconnect else unclean_disconnect (data_of r.buf)

unfoldable pub handle_data_invalid : SizedReader → Farewell
handle_data_invalid r = malformed_msg r.sub.opt_data_invalid_reason (data_of r.buf)

unfoldable pub is_msg_ready : ReaderState → Bool
is_msg_ready msg_ready = true
is_msg_ready read_needed = false
is_msg_ready data_invalid = false
is_msg_ready at_end = false

-- The switch of HandleSockReadReady, with what its case of a ready message comes to.
unfoldable pub dispatch : ReaderState → SizedReader → Served → Served
unfolding handle_client_closed handle_data_invalid
dispatch read_needed r ready = goes_on r []
dispatch msg_ready r ready = ready
dispatch data_invalid r ready = closes (handle_data_invalid r) []
dispatch at_end r ready = closes (handle_client_closed r) []

-- Its case of a ready message: the message, the reader after it, and the loop's further rounds.
unfoldable pub pass_on : Outcome Bytes → Outcome SizedReader → (SizedReader → Served) → Served
unfolding is_msg_ready behind
pass_on (returns msg) (returns r) loop =
    behind (msg ∷ []) (if is_msg_ready r.state then loop r else goes_on r [])
pass_on (returns msg) dies loop = process_dies (msg ∷ [])
pass_on (returns msg) (throws code r) loop = process_dies (msg ∷ [])
pass_on dies consumed loop = process_dies []
pass_on (throws code msg) consumed loop = process_dies []

-- The do loop of HandleSockReadReady; the fuel bounds its rounds.
unfoldable pub handle_msgs : ℕ → SizedReader → Served
unfolding dispatch pass_on
handle_msgs zero r = out_of_fuel
handle_msgs (suc fuel) r =
    dispatch r.state r
      (pass_on (get_ready_msg r) (consume_ready_msg size_reader_methods r) (handle_msgs fuel))

-- HandleSockReadReady, with what Read comes to: each round of the loop consumes a byte at least.
unfoldable pub after_read : Outcome SizedReader → Served
unfolding handle_msgs lost_tcp_connection
after_read (returns r) = handle_msgs (suc (length (data_of r.buf))) r
after_read dies = process_dies []
after_read (throws code r) =
    if lost_tcp_connection code then closes connection_lost [] else process_dies []

unfoldable pub handle_sock_read_ready : SizedReader → ReadResult → Served
unfolding after_read
handle_sock_read_ready r result = after_read (read size_reader_methods r result)

unfoldable pub continue_with : Served → (SizedReader → Served) → Served
unfolding behind
continue_with (goes_on r msgs) later = behind msgs (later r)
continue_with (closes why msgs) later = closes why msgs
continue_with (process_dies msgs) later = process_dies msgs
continue_with out_of_fuel later = out_of_fuel

-- The loop of operator(), with what read() yields each time that the socket is readable.
unfoldable pub serve : SizedReader → List ReadResult → Served
unfolding handle_sock_read_ready continue_with
serve r [] = goes_on r []
serve r (result ∷ later) = continue_with (handle_sock_read_ready r result) (λ r'. serve r' later)

-- SetState, on the reader that the class starts with.
unfoldable pub set_state : ℤ → ℕ → SizedReader
unfolding reset new_reader new_size_reader
set_state client_socket max_stream_msg_size =
    let start : SizedReader =
      new_reader (negsuc 0) empty_buf (new_size_reader int32 true true 0 (64 * 1024)) in
    let r = reset size_reader_methods start client_socket in
    record r { sub = record r.sub { max_msg_body_size = max_stream_msg_size } }
