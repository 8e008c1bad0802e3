-- ===== src/Lib.antt =====
-- herbert: a message broker that speaks a part of the Kafka protocol, keeps topics in memory and
-- logs each record before it is stored.
--
-- A produce request (src/kafka_api/produce.rs) goes to the topic manager (src/topic_manager.rs),
-- which parses it where its topic has a schema, appends it to the write-ahead log (src/wal.rs) and,
-- when enough records wait, flushes the log into a backend (src/storage/). A fetch request reads
-- the backend. The offset manager (src/offset_manager.rs) keeps the offset of each consumer group
-- and saves all of them as JSON on each change. At start, both managers recover from their files.
--
-- A client (src/client.rs) encodes a request behind a length, and the server (src/server.rs) reads
-- it in the loop of a connection, dispatches on its key and writes the response; a second port
-- takes the requests of src/herbert_api/, which create topics. The command line
-- (src/bin/herbert-cli.rs) calls the client.
--
-- Outcome is src/error.rs; Config is src/config.rs; Storage.Record, Storage.InMemoryLog and
-- Storage.InMemoryQueue are src/storage/mod.rs, in_memory_log.rs and in_memory_queue.rs; Wal is
-- src/wal.rs; TopicManager is src/topic_manager.rs; OffsetManager is src/offset_manager.rs;
-- KafkaApi is src/kafka_api/; HerbertApi is src/herbert_api/; Server is src/server.rs, with the
-- start of run in Server.Start, the handling of one message in Server.Dispatch, the two connections
-- in Server.Connection, and run with its listeners in Server.Listeners; Client is src/client.rs,
-- with the stream in Client.Stream, the requests in Client.Requests and the consumers in
-- Client.Consume; Cli is src/bin/herbert-cli.rs. Operations and functions have the names of the
-- source; a method takes the state of its object and gives its outcome and the state afterwards,
-- also where it fails. An outcome is a value, an error, a panic, or the end of the fuel of a loop.
-- Prelude and HashMap have the lists, integers and maps that the parts share; BufWriter and Utf8
-- write out what std does for them; Arrow is what the program uses of the arrow crates, with the
-- laws that the proofs rely on; UnitTests has the unit tests of src/, each as a function that ends
-- as the test does; Tests has concrete stand-ins for the crates and the disk, and the examples.
--
-- Client.Wire joins the two sides: each chunk that a client writes is what the next round of the
-- server's loop reads, and the client reads what the server has sent. So the server handles what is
-- written before the client goes on, where the program's client does not wait for that after
-- produce and after a commit: what these leave in the server is there once it has handled them. A
-- fetch request of version 1 carries no max_bytes, and the server may decode any other value of it
-- (Client.Fetching.with_max_bytes). TopicManager.Threads has the threads that add records at once,
-- as steps that each do what a thread does while it holds a lock.
--
-- A lock is a value and a flag that says whether it is poisoned. Server.Listeners has the tasks of
-- all connections, which go on in any order: a schedule is a list of events, each a stream that a
-- listener accepts or a turn of a task, and a turn is a round of the loop. Within a turn calls run
-- one after the other, but for the threads of TopicManager.Threads. A map is an association list,
-- and its order stands for the order of iteration. Bytes are numbers. An i64 is an integer; the
-- cast of an offset to usize wraps around at 2 ^ 64, and the length of a payload at 2 ^ 32; the sum
-- of an offset and a count in the client wraps around at 2 ^ 63.
--
-- The loop of recover runs on one more round than the file has bytes, which is enough since each
-- round reads a byte; the loop of BufWriter on the length of its buffer, since each write takes a
-- byte; the loop of InMemoryQueue::fetch on the length of the queue. The theorems about them give
-- the result itself, or that there is one, so the fuel does not run out.
--
-- The loop of a connection runs on one more round than the client sends bytes, since each round
-- reads four bytes at least. The loop of consume_continuos never ends by itself, and is modelled
-- for a number of rounds.
--
-- Server.Restarts has the states that a server comes to when it serves such schedules, ends between
-- two turns and starts again over its files.
--
-- Not modelled: src/main.rs, which starts the log and the runtime and calls run, and src/lib.rs; a
-- process that ends inside a turn, but for the torn log of Server.Torn; errors of a connection
-- other than its end; clap, the codecs of serde_json, arrow_json and kafka_protocol and the file
-- system, which are parameters; pauses, log messages and what is printed.
pub mod Prelude
pub mod HashMap
pub mod Outcome
pub mod Config
pub mod Arrow
pub mod Storage
pub mod BufWriter
pub mod Wal
pub mod Utf8
pub mod TopicManager
pub mod OffsetManager
pub mod HerbertApi
pub mod KafkaApi
pub mod Client
pub mod Server
pub mod Cli
pub mod UnitTests
pub mod Tests
