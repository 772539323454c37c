-- ===== src/MsgDispatch/Ack.antt =====
-- src/dory/kafka_proto/produce/v0/produce_proto.cc: what an error code of a broker asks for.
use dory.Common.{◌==◌, ◌||◌, if◌then◌else◌}
use dory.Common.Int.{ℤ, pos, negsuc}

pub data AckResultAction : Type 0 where
  ok resend discard pause discard_and_pause : AckResultAction

-- Of the codes, those that do not ask for a discard: None; CorruptMessage; UnknownTopicOrPartition,
-- LeaderNotAvailable, NotLeaderForPartition, RequestTimedOut and NetworkException.
unfoldable pub process_ack : ℤ → AckResultAction
process_ack (pos code) =
    if code == 0
    then ok
    else if code == 2
    then resend
    else if code == 3 || code == 5 || code == 6 || code == 7 || code == 13
    then pause
    else discard
process_ack (negsuc code) = discard
