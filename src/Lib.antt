-- ===== src/Lib.antt =====
-- Dory: verification of the path of a message from a client to a produce request, and from a
-- broker's response on.
--
-- Dory is a daemon that accepts messages on local sockets and forwards them to Kafka brokers. A client
-- library writes each message as a datagram, or a client sends messages as a stream of bytes in which a
-- size stands before each; an input agent finds the messages, reads each, stores the key and the value
-- in blocks of a bounded pool and counts the message as new; a router thread chooses a broker by the
-- metadata, which is built of a broker's response, and hands the message to the broker's queue, where
-- messages wait in batchers until a batch is complete; a connector takes complete batches from the queue,
-- combines them into produce requests, in which AnyPartition messages get their partition, sends these
-- and waits for acknowledgements, by which it destroys, discards or sends again the messages of a
-- request. What is discarded is recorded by the anomaly tracker. The model follows the code from the
-- client to the message that an input agent creates, from the choice of a broker and the queue's
-- handing over of batches to the contents of a produce request, and from a produce response to what
-- becomes of the messages of its request.
--
-- Files and the code that they model (paths from the repository's root):
--   Common, Common/*           numbers, lists and 64-bit arithmetic; Common/Bytes is
--                              src/base/field_access.h
--   Msg                        src/dory/msg.h: the message as a value; the address of its object is a
--                              field, and what changes in the object is kept by address
--   Batch/Core                 src/dory/batch/batch_config.h and batcher_core.*: ProcessNewMsg decides
--                              by count, bytes and time; process_exceeding and process_fitting are its
--                              two last branches. Batch/Core/Limits: what a batch may hold
--   Batch/SingleTopic          src/dory/batch/single_topic_batcher.*
--   Batch/TopicMap             src/dory/util/topic_map.*
--   Batch/CombinedTopics       src/dory/batch/combined_topics_batcher.*
--   Batch/PerTopic             src/dory/batch/per_topic_batcher.*; iterators into the multiset of
--                              deadlines are numbers. Batch/PerTopic/Conserve: its messages,
--                              counted
--   MsgStateTracker            src/dory/msg_state_tracker.*. Stats: the map of counts; Sync, History:
--                              counts against the messages alive; Calls: the step relation
--   BrokerMsgQueue             src/dory/msg_dispatch/broker_msg_queue.*. Conserve: its messages,
--                              counted; Notify: when the consumer is woken
--   Capped/Pool, Writer,       src/capped/pool.*, writer.*, blob.h and reader.*: the bounded pool,
--   Reader                     blobs written and read through chains of its blocks
--   InputDg/Write              src/dory/input_dg/*/v0/v0_write_msg.c and the two writing functions of
--                              src/dory/client/libdory_client.c
--   InputDg/Field, Read        src/dory/input_dg/*/v0/v0_input_dg_reader.cc
--   InputDg/Agent              src/dory/input_dg/input_dg_util.cc, input_dg_common.cc,
--                              any_partition_util.cc and partition_key_util.cc, and the creation of a
--                              message in src/dory/msg.cc and msg_creator.h
--   InputDg/RoundTrip,         from what the client writes to what the server creates
--   Delivery
--   InputDg/Inverse, Accepts   from what the server accepts back to what the client writes
--   InputDg/Create, Handles    what becomes of the pool and the counts; Capped/Writer/Room: when the
--                              pool runs out
--   Stream/Buf                 src/base/buf.h. Buf/Data: the data it holds
--   Stream/Reader              src/base/stream_msg_reader.*: the state machine, with its subclass as a
--                              record of methods
--   Stream/WithSize            src/base/stream_msg_with_size_reader.*; size_reader_methods is the record
--   Stream/Client              src/dory/stream_client_work_fn.*: a stream client's connection
--   Stream/Frames, Splits      the format of a stream, read off its bytes, and what a stream holds.
--                              Frames/Append: the start of a stream, with more bytes behind it
--   Stream/Decode, Advance,    the reader against the format, the connection against the messages that
--   Delivery, Serve,           its stream holds
--   Connection, RoundTrip
--   MsgDispatch/Factory        src/dory/msg_dispatch/produce_request_factory.* and
--                              any_partition_chooser.*: batches combined into a produce request.
--                              Ready, Loop, First: its loops for any rule that a message in the request
--                              keeps; Measure, Conserve: its messages, counted; Limit: its size;
--                              Grouped, Unique: its topics and partitions
--   MsgDispatch/Ack            src/dory/kafka_proto/produce/v0/produce_proto.cc: ProcessAck
--   MsgDispatch/Request        src/dory/msg_dispatch/common.*: requests that wait for a response
--   MsgDispatch/Processor,     src/dory/msg_dispatch/produce_response_processor.*: an acknowledgement,
--   Response                   and a response
--   MsgDispatch/Connector      src/dory/msg_dispatch/connector.cc: ProcessSingleProduceResponse
--   MsgDispatch/Steps, Count,  the response's messages, counted; which lists an action leaves alone;
--   Conserve, Quiet, Keeps,    responses that the reader of the protocol reads to their end and those
--   Whole                      that it rejects
--   AnomalyTracker             src/dory/anomaly_tracker.*: reports and their samples
--   AnomalyTracker/Track       the Track methods and GetInfo. Lru: the list of recent samples; Periods:
--                              the intervals of the reports; Samples, Bounded: all calls
--   Metadata/Defs              src/dory/metadata.*: the metadata and its lookups
--   Metadata/Builder, Build    src/dory/metadata.*: TBuilder, and BuildMetadataFromResponse of
--                              src/dory/kafka_proto/metadata/v0/metadata_proto.cc, which drives it
--   Metadata/Ranges, Sorted,   the ranges of partition IDs that CloseTopic makes, the topics of a
--   Topics, Response, Order,   response, the brokers in their new order, and what is looked up
--   Choices
--   Router/Choose              src/dory/router_thread.cc: AssignBroker and what it calls. ByKey: the
--                              partition for a key; Reach: the choice against the metadata
--   Router/Reroute             src/dory/router_thread.cc: Reroute and what it calls, up to the calls of
--                              the dispatcher. Available: topics that can be routed; Conserve, Outcome:
--                              its messages, counted. Router/Served: the same on the metadata of a
--                              response, whose brokers in service are marked, and the partition for a
--                              key on it
--   MsgRateLimiter             src/dory/msg_rate_limiter.* and the limits of
--                              src/dory/conf/topic_rate_conf.h. Interval: what comes through
--   Tests/*                    concrete runs
--
-- Conventions. A method that changes its object returns the new object. A list of messages that a
-- method moves out is part of its result, and a unique_ptr that it may leave is an Option. The
-- exception of the pool is none. A mutex that a method holds from its start to its end makes it one
-- step. A multiset or hash map is a list in its iteration order. To say that no message is lost or
-- repeated, messages that pass a test are counted, for every test. An int64_t is an integer, and its
-- arithmetic with a size_t wraps as in the code (Common/Word); the counters of a batch are numbers
-- that wrap at 2^64; the message state tracker's counts, of type long, are integers without a bound.
-- Loops are recursions on the list or the count that the code's loops go through. Three run on fuel.
-- handle_msgs of Stream/Client, the loop over the messages that are in the buffer, has one more than
-- the bytes buffered: each round but the last takes at least a byte. fill of MsgDispatch/Factory, the
-- loop over the batches in the queue, has one more than the messages in it: each round takes at least
-- one or is the last. scan of Router/Choose has as many rounds as there are partitions. Running out is
-- an outcome of its own, or in Factory the undefined one, and the theorems exclude it. Die, which ends
-- the process, is an outcome too, as is an exception that a method leaves by. Where the code divides by
-- 0 or takes the front of an empty list, the outcome is undefined; in Router/Reroute none stands for
-- this and for Die. The assertion of BuildAnyPartitionMsgFromDg and BuildPartitionKeyMsgFromDg that a
-- datagram can make fail is an outcome of InputDg/Agent; what a build without assertions goes on to do
-- there is left out, and so are the assertions that the code's callers keep. Correlation IDs are integers without a bound. The orders that std::shuffle and the
-- std::sort of the brokers yield are arguments, functions of the list; a std::map is a list in
-- ascending order of its keys. What the system calls and the Kafka protocol's readers yield is an
-- argument: the brokers and topics of a metadata response, the pieces that read()
-- returns, and the acknowledgements of a response up to where its reader stops or throws. InputDg and
-- the connector do not share a state with the anomaly tracker here: its calls are the outcomes of
-- InputDg/Agent and the lists of what the connector tells it.
--
-- Not modelled: sockets, threads, logs and counters for monitoring; the router's loops over its
-- channels, its batching and its validation of new messages; of the connector the sending of requests,
-- its pauses and its shutdown; the writing of produce requests with their compression; the Kafka
-- protocol's readers and writers; of the metadata the checks that end in an assertion and the
-- comparison; and the reading of the configuration.
pub mod AnomalyTracker
pub mod Common
pub mod Msg
pub mod Metadata
pub mod Batch
pub mod MsgStateTracker
pub mod BrokerMsgQueue
pub mod Capped
pub mod InputDg
pub mod MsgDispatch
pub mod MsgRateLimiter
pub mod Router
pub mod Stream
pub mod Tests
