-- ===== src/Lib.antt =====
-- SensorForge: the parts of the platform that frames pass through between a sensor and a log or a
-- peer, modelled from the C++ sources, with the theorems about them.
--
-- A frame is built and checked by src/protocol/frame_codec.cpp, whose checksum is that of
-- include/sensorforge/protocol/crc32c.hpp. Between the threads of a stream it waits in a ring
-- (include/sensorforge/core/spsc_ring.hpp), and include/sensorforge/core/backpressure_policy.hpp
-- says what happens when the ring is full. src/replay/wal_writer.cpp appends it to a log as a
-- record (include/sensorforge/replay/record.hpp), and src/replay/wal_reader.cpp reads the segments
-- of the log back, past what is damaged. Over TCP it arrives as a stream of bytes, out of which
-- include/sensorforge/transport/tcp_reassembler.hpp cuts the payloads.
--
-- The node itself is src/network_bridge.cpp. src/subscription_manager.cpp and
-- src/subscription_manager_tf.cpp take the messages of a topic into a ring; a timer of the node
-- takes one out, puts the topic and the type before it, compresses it and frames it, and gives the
-- frame to the log, and then to the interface, through faults/fault_engine.cpp where faults are
-- injected. A frame that comes in goes the way back, and its message is published.
-- src/network_interfaces/tcp_interface.cpp is one of the interfaces; its receiving thread reads the
-- queue of include/network_bridge/thrift_stream_queue.hpp.
--
-- A run is described by a scenario file. scenario/scenario.cpp reads it;
-- scenario/scenario_runner.cpp makes the metrics (scenario/metrics.hpp) and a fault engine for its
-- streams, records what arrives, reads the CAN bus that sensors/can_publisher.cpp writes to, and
-- has scenario/assertion.cpp judge the metrics at the end. scenario/parallel_runner.cpp does so for
-- several files at once, with names from scenario/namespace_manager.hpp. metrics/registry.hpp holds
-- the figures that are scraped, and report/report_builder.cpp puts together the report of a run.
--
-- Files:
--   Base       the names of the libraries, Boolean tests, lists, bits, and memory as bytes
--   Protocol   Crc (crc32c.hpp: the table, the software loop, the two loops of crc32c_hw),
--              Frame (frame.hpp), Codec (encode_frame, decode_header), Decoder (FrameDecoder)
--   Core       Ring (SPSCRing: try_push, try_pop, force_push_overwrite, size_approx; Ring/Threads is
--              the same calls as the accesses of two threads), Backpressure (apply_policy), Seqlock
--              (seqlock.hpp: store and load as the accesses of two threads)
--   Replay     Segment (segment.hpp), Record (encode_record, decode_record), Index (ReplayIndex),
--              Reader (WalReader::load; Reader/Playback: replay), Writer (WalWriter: append,
--              open_new_segment, close)
--   Transport  Reassembler (TcpReassembler::feed_byte, feed), Stream (QueueStream and the numbers of
--              Stream), Tcp (TcpInterface: write, receive_thread, open, close), Udp (UdpInterface:
--              setup_udp, receive, write), IoUring (IoUringInterface: the send and receive pools)
--   Faults     Rule (fault_types.hpp), Engine (FaultEngine: emit, dispatch_or_delay, worker_loop,
--              flush), Engine/Process (process)
--   Bridge     Header (create_header, parse_header), Compression (compress, decompress),
--              Subscription (SubscriptionManager), Transforms (SubscriptionManagerTF), Node
--              (NetworkBridge::receive_data), Node/Send (send_data), Node/Shutdown (shutdown),
--              Parameters (load_parameters, initialize, check_network_health)
--   Scenario   Model (scenario.hpp), Parser (parse_node), Verdict (evaluate, evaluate_all),
--              StreamMetrics (metrics.hpp), Runs (NamespaceManager, aggregate, the runners of
--              parallel_runner.cpp), Can (on_tick of the CAN publisher, can_reader_loop), Runner
--              (ScenarioRunner: start, record, finish), Result (what a function that may throw gives)
--   Metrics    Registry (set_gauge, add_counter, set_help, render, escape, key), Exporter (serve_loop:
--              the path of a request and the answer)
--   Report     the records of report_types.hpp, build_report and its helpers, and esc of
--              html_report.cpp
-- Each has its theorems in the modules below it and its tests in a module Tests.
--
-- How the code is modelled. A pointer to bytes is a function from offsets to bytes,
-- Base.Memory.Memory, `none` where it is null; an out-parameter is an argument and part of the
-- result; an object that is changed is a record that is passed on. Unsigned words are natural
-- numbers with the wrap-around of their operations written out; the statistics of the reader, which
-- count bytes and records of files, and those of the fault engine and of the subscriptions, which
-- count frames, are not reduced. A slot that a C++ object was moved from keeps its value. The
-- callback of the reassembler is the list of the payloads it was given. A std::map with strings as
-- keys is the list of its entries in the order of the keys, Base.Map, and std::sort and
-- std::stable_sort are an insertion sort, Base.Sort. An exception is a result, Scenario.Result. A
-- run of a scenario is a sequence of events: messages with the latency and the time that `record`
-- computes for them, turns of the workers of its engines, and turns of the CAN reader.
--
-- Loops. `scan` runs on fuel, and `load_segment` gives it one round for each byte of the segment,
-- of which a round passes at least one. The blocking loop of apply_policy runs on the list of how
-- many items the consumer takes before each new attempt, and has no result when that list ends
-- before there was room. `flush_loop` runs one round for each delayed frame, and `decimal_loop` has
-- more rounds than its number has digits. `turns` runs the endless loop of the receiving thread for
-- the number of turns it is given. All other loops are recursions on their counters or lists.
--
-- Assumptions. A processor with SSE4.2 is a parameter, with the documented effect of its two
-- instructions as a hypothesis. In Ring/Threads and in Seqlock the turns of the two threads are
-- accesses to a memory that both see in the same order, which is what the acquire and release
-- operations and the fences of the source are for. What a file system does for the writer is a
-- record, Disk, and a directory is the list of its files with their names and bytes. The
-- operations on a `double` are a record, Base.Double, without laws, but that one theorem has `0.0
-- <= 0.0` as a hypothesis; the random generator, the clock, zstd, the graph of topics, the
-- parameter server and regular expressions are records or functions too. The nodes that yaml-cpp
-- gives are a record, Yaml, whose conversions may throw; so are the bytes of a double, Layout,
-- its casts and literals, and the signals of the CAN publisher. Of zstd one law is named,
-- RestoresContent: what was compressed has a known size and is given back. Publishers are taken
-- to be created, memory to suffice, and the plugin of the interface to load. The kernel ends the
-- requests of io_uring in any order, each with its bytes sent or not, and has taken a request's
-- message, but not its bytes, when it is submitted. While a message is put into the ring of its
-- subscription nothing is taken out of it. A waiting thread is woken up only when it is notified,
-- and one that is woken up to an empty queue is lost, since the code then reads the front of an
-- empty list.
--
-- Not modelled: the system calls behind sockets and the ring of io_uring, how the UDP and
-- io_uring interfaces close, the quality of service of a subscription, the processes that a run
-- starts and reaps, the sockets of the exporter, the fixed text of the HTML report and the JSON
-- one, the publishers that fill ROS2 messages, and what only exercises these parts or is not
-- written in C++.
pub mod Base
pub mod Bridge
pub mod Core
pub mod Faults
pub mod Metrics
pub mod Protocol
pub mod Replay
pub mod Report
pub mod Scenario
pub mod Transport
