-- ===== src/Lib.antt =====
-- KafKatch: the sniffer, which captures the frames of an interface, counts them by flow and sends
-- the flows of every second to Kafka, and the core of the services that read its messages: the
-- aggregation, the detection of anomalies and the viewer of alerts.
--
-- The program. pcap_loop gives each captured frame to `pkt_handler` (sniffer/src/parser.c), which
-- takes addresses, ports, flags and payload size from the headers and gives them to
-- `flow_process_packet` (sniffer/src/flow.c). This finds the flow of the packet in the active one of
-- two hash tables, or creates it, and updates its statistics. Once a second the thread
-- `flush_worker` (sniffer/src/main.c) exchanges the two tables under a mutex and hands the table
-- that was active to `kafka_client_send_flows` (sniffer/src/kafka_client.c), which sends a JSON
-- message for each flow and frees the nodes. In kafkatch-core, FlowParser reads such a message and
-- AggregatedFlow adds up the flows of a window of ten seconds. In kafkatch-notification,
-- AnomalyDetectorTransformer compares each aggregate with the average of those before it and makes
-- warnings, which kafkatch-alert-viewer shows as toasts.
--
-- The files.
--   Sniffer/Stats      sniffer/src/stats.h: FlowKey is flow_key_t, PktStats is pkt_stats_t.
--   Sniffer/Flow       flow.h and flow.c: Flow is flow_t; flow_update_stats in four parts, one for
--                      each block of its body; infer_direction from flow_process_packet.
--     Flow/Summary, Replay, Iat, Direction, Types: what a history of packets leaves in a flow.
--   Sniffer/Machine    The state behind the pointers: a heap of flow nodes and the calls that leave
--                      the program. A function is a command over it, with `fault` for the use of
--                      memory that is not allocated and `exits` for exit().
--   Sniffer/UtHash     The hash table as an interface: uthash.h is a copy of a library.
--   Sniffer/Context    parser.h and flow.c: Context is struct sniffer_context; flow_create,
--                      flow_process_packet, flow_table_clear.
--     Context/Table, Process: the table against the specification Window.
--   Sniffer/Window     The specification of a table: a list of flows in the order of their first
--                      packets, without heap, nodes or hash.
--     Window/Flows, Counts, Sums, Types, Series: what the flows of a window, and of several, are.
--   Sniffer/Parser     parser.c: pkt_handler in parts for the link, network and transport layers.
--     Parser/Bounds, Fields, Frame, Segment, Packet: bounds of its reads and of its results, and the
--     way back from frames that are written down by an independent description.
--   Sniffer/Kafka      kafka_client.c: the message of a flow and the export of a table.
--     Kafka/Json, Send: its size, its calls and its memory.
--   Sniffer/System     main.c: the two threads as a step relation, flush_round as a round alone.
--     System/Invariant, Captures, Flushes, Reach, Export: the invariant, its moves, what it gives.
--     System/Messages, Nodes: the texts that are sent, and the nodes of the active table.
--     System/Works, Progress, Ends: what flush_worker does on its own, while the program runs and at
--     its end.
--     System/Shutdown: main behind pthread_join, with its calls of librdkafka.
--   Sniffer/Clock      main.c: the deadlines and the sleep of flush_worker.
--   Sniffer/Startup    main.c and kafka_client.c: main, setup_pcap, list_devs, handle_sigint,
--                      kafka_client_init and kafka_client_cleanup, as the calls that they make, for
--                      any answers to them.
--     Startup/Release: the objects of the libraries that main has at each call.
--   Sniffer/Debug      flow.c and parser.c: the texts that debug_print_flow_table builds.
--     Debug/Packet: debug_print_stats, line by line.
--   Core/Flow          kafkatch-core/src/main/java/br/ufes/edu/domain: Flow and its enumerations.
--   Core/Jackson       The JSON library as an interface, with its laws.
--   Core/Parser        serdes/FlowParser.java: read_json is readJson.
--     Parser/Message: a message of the sniffer and what is read from it.
--   Core/Aggregate     domain/AggregatedFlow.java and the topology of App.java: add_flow is addFlow.
--     Aggregate/Totals, Keys, Distinct, Window, Faithful: the sums, the unique flows, and both for a
--     window, if flows or aggregates may be lost on the way and if not.
--     Aggregate/Average: getAveragePacketSize.
--   Core/Publish       App.java: what is published when a window closes.
--   Core/Measures      What an aggregate should say of packets; Core/Uniques: the keys of these.
--   Core/Sent, Core/Readable, Core/Pipeline, Core/Delivery
--                      From the packets of the sniffer to the aggregate of the service, for any
--                      messages of some windows, and for those of a run of the two threads.
--   Core/FlowKey, FlowKey/Collision
--                      The two keys of a flow, of Flow.java and of AggregatedFlow.java.
--   Core/Splitter      Splitter.java: the topology that takes the published aggregates apart.
--   Core/Serializers   The serializers of both services, and the serdes of App.java.
--   Notification/Rolling, Notification/Detector
--                      kafkatch-notification/src/main/java/br/ufes/edu: domain/RollingStats.java and
--                      AnomalyDetectorTransformer.java.
--     Detector/History, Steady: the detector over a series of aggregates, and over equal ones.
--   Notification/Watcher
--                      OutputWatcher.java of the same directory: the topology.
--     Watcher/Published, Steady: the topology of kafkatch-core in front of it.
--   Notification/Notifier
--                      Notifier.java of the same directory.
--     Notifier/Sample: what it holds after any aggregates.
--   Notification/App   App.java of the same directory: the loop over the records of its consumer.
--     App/Null: what a null among them does.
--   Viewer             kafkatch-alert-viewer/src/main/java/br/ufes/edu: Notifier.java and the loop
--                      of App.java over the records of a poll.
--     Viewer/Polls, Sent: the loop of its polls, and the warnings of OutputWatcher in front of it.
--   Whole              The sniffer, the aggregation and the detector together, from packets on.
--     Whole/Run, Toasts: from a run of the two threads on, to the warnings and to the toasts.
--   Prelude, Words, Long, Double, Text: shared names, machine words of C, `int` and `long` of Java,
--                      doubles, and texts as lists of characters.
--   Samples, Examples: concrete inputs and the theorems at them.
--
-- The choices. The host is little-endian: the words of a frame are loaded low byte first, and
-- ntohs swaps the bytes. Unsigned fields wrap where the code lets them; an `int` of C is an
-- unbounded integer, which wraps where it is converted to an unsigned type; in Java, sums of
-- `int` and `long` wrap around. Doubles are a parameter, Double, and so are their comparisons
-- and rounding; a theorem that needs exact sums of integers below 2 ^ 53 says so by IsExact, and
-- one that needs whole quotients by IsExactQuotient. The hash table is a parameter with the laws
-- that the user guide of uthash states, and has an instance. calloc gives fresh nodes until a
-- quota is spent, so that every failure of it is covered. A thread's critical section is one
-- move; outside it the export proceeds node by node, with captures in between. `current` and
-- `closed` in System are history, for the specification. `decimal` takes fuel n + 1 for the
-- number n, which has fewer digits. A frame is the list of its captured bytes, each below 256.
-- Jackson is a parameter: a theorem that needs readTree to read a text as JSON says so by Reads.
-- An exception is none; the methods of Notifier, which an exception leaves half done, give their
-- state and whether they return. Which messages a window of Kafka Streams holds is not decided
-- here: a window is a list of messages. What serialization makes of a flow, in the topic behind
-- groupBy, and of an aggregate, in the state store, is a parameter, Serdes, of which
-- Core/Serializers has that of App.java; a theorem that needs it to lose nothing says so by
-- IsFaithful, one that allows losses by KeepsOrLoses, and for the published JSON by RoundTrip. A
-- key-value store of the detector may be broken, and then `get` throws. The local time is a
-- parameter. KafkaConsumer is a parameter, Consumer, with what its documentation says of poll:
-- it gives the next records and goes behind them, or throws and stays; a theorem in which all
-- records are read says by KeepsUp that a poll goes on. An ObjectMapper is a parameter; a
-- theorem in which warnings are read back says so by ReadsBack. In the step relation of the two
-- threads a tick may come at any time; Sniffer/Clock has the times, for any work of the rounds
-- and any lateness of clock_nanosleep, in nanoseconds that do not overflow.
--
-- Not modelled: the console output but for the texts of Sniffer/Debug, the delivery of messages
-- behind rd_kafka_producev, the configuration of Kafka Streams and of its consumers, what Kafka
-- Streams does where a deserializer of it throws, the ObjectMapper itself, and LatestStat, which
-- nothing uses. uthash.h is a copy of a library.
pub mod Prelude
pub mod Words
pub mod Long
pub mod Double
pub mod Text
pub mod Sniffer
pub mod Core
pub mod Notification
pub mod Samples
pub mod Examples
pub mod Viewer
pub mod Whole
