-- ===== src/Tests/Streams.antt =====
-- Runs of a stream client's connection.
use dory.Common.{◌≡◌, refl, arith, List, [], ◌∷◌, ◌++◌, some}
use dory.Common.Bytes.{Bytes, read_u32, byte_at}
use dory.Common.Word.{of_u32}
use dory.Common.Int.{pos}
use dory.Stream.Buf.{data_of, ensure_space, write_space, mark_space_consumed}
use dory.Stream.Reader.{read, get_ready_msg, consume_ready_msg, got, try_again, failed}
use dory.Stream.WithSize.{size_of, read_size_field, DataInvalidReason, get_next_msg}
use dory.Stream.Frames.{frame, frame_of, size_announced, announced, message}
use dory.Stream.Splits.{bad, next}
use dory.Stream.Client.{
  closes, process_dies, malformed_msg, clean_disconnect, unclean_disconnect, connection_lost, serve,
  set_state,
}
use dory.Stream.Connection.{serve-dies, serve-closes}

abbrev two_bodies : List Bytes
two_bodies = (7 ∷ 8 ∷ []) ∷ (9 ∷ []) ∷ []

abbrev first_msg : Bytes
first_msg = 0 ∷ 0 ∷ 0 ∷ 6 ∷ 7 ∷ 8 ∷ []

-- The two messages, cut in the first size field and in the second.
abbrev three_chunks : List Bytes
three_chunks = (0 ∷ 0 ∷ []) ∷ (0 ∷ 6 ∷ 7 ∷ 8 ∷ 0 ∷ 0 ∷ 0 ∷ []) ∷ (5 ∷ 9 ∷ []) ∷ []

-- A message, and two bytes of the next.
abbrev cut_chunks : List Bytes
cut_chunks = (0 ∷ 0 ∷ 0 ∷ 6 ∷ 7 ∷ []) ∷ (8 ∷ 0 ∷ 0 ∷ []) ∷ []

-- A message, and a size field that is smaller than itself.
abbrev bad_chunk : Bytes
bad_chunk = first_msg ++ (0 ∷ 0 ∷ 0 ∷ 3 ∷ [])

serve-dies_example :
    serve (set_state (pos 7) 100) (got bad_chunk ∷ got [] ∷ []) ≡ process_dies (first_msg ∷ [])
unfolding frame frame_of size_announced announced message size_of read_size_field read_u32 byte_at
    of_u32
serve-dies_example =
    serve-dies 7 100 (omega arith) bad_chunk first_msg [] (0 ∷ 0 ∷ 0 ∷ 3 ∷ []) (got []) []
      (omega arith) (next refl (bad refl)) refl

serve-closes_example :
    (reason : DataInvalidReason) × (serve (set_state (pos 7) 100) (got (0 ∷ 0 ∷ 0 ∷ 3 ∷ []) ∷ [])
      ≡ closes (malformed_msg (some reason) (0 ∷ 0 ∷ 0 ∷ 3 ∷ [])) [])
unfolding frame frame_of size_announced announced message size_of read_size_field read_u32 byte_at
    of_u32
serve-closes_example = serve-closes 7 100 (omega arith) (0 ∷ 0 ∷ 0 ∷ 3 ∷ []) [] (omega arith) refl

-- The end of the input, inside a message and between messages, and a lost connection.
unclean_end :
    serve (set_state (pos 7) 100) (got (0 ∷ 0 ∷ []) ∷ try_again ∷ got [] ∷ [])
    ≡ closes (unclean_disconnect (0 ∷ 0 ∷ [])) []
unfolding serve set_state get_next_msg data_of size_of read mark_space_consumed write_space
    ensure_space
unclean_end = refl

clean_end :
    serve (set_state (pos 7) 100) (got first_msg ∷ got [] ∷ [])
    ≡ closes clean_disconnect (first_msg ∷ [])
unfolding serve set_state read get_next_msg data_of mark_space_consumed write_space ensure_space
    size_of read_size_field of_u32 read_u32 get_ready_msg consume_ready_msg
clean_end = refl

lost : serve (set_state (pos 7) 100) (failed 104 ∷ []) ≡ closes connection_lost []
unfolding serve set_state read
lost = refl
