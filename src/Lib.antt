-- ===== src/Lib.antt =====
-- Garuda codec: forward error correction for one-way links, with the RaptorQ code.
--
-- The sender (garuda-codec-core/src/encoder.rs) cuts a stream of bytes into blocks, spreads them
-- over encoder threads, and writes the packets of all threads to one output. The receiver
-- (garuda-codec-core/src/decoder.rs) cuts its input into packets, spreads them over decoder
-- threads by the block id modulo their number, and writes the recovered blocks to its output.
--
-- The files, and the code they model. Paths are under garuda-codec-core/src/, unless they name a
-- directory themselves.
--   Vector: `interleave` of vector.rs. Slots, Spread and Order carry the arithmetic and the
--     relation `Interleaving`; Interleave has the theorems.
--   BlockEncoder: block_encoder.rs. `new`, `encode`, `encode_stream`, `get_configuration` and
--     `compute_repair_packets_per_block` are the functions of these names, `Block` and
--     `BlockEncoder` the structs, the data types the error enums.
--   BlockDecoder: block_decoder.rs, in the same way. Runs is about any codec; Recovery and
--     PacketSize use the laws of the code.
--   Io: `read_exact` of io.rs; Prefix is about streams that go on behind what is read.
--   Dispatch: the choice of a queue, which both dispatchers share.
--   BlockDispatcher and Encoder: encoder.rs; PacketDispatcher and Decoder: decoder.rs.
--   Forward: `forward_packets` of encoder.rs and `forward_blocks` of decoder.rs.
--   Threads: thread handles and shared flags, for `start_*`, `stop` and `wait`.
--   Workers: the threads that `start_encoding` and `start_decoding` spawn, with their bounded queues:
--     dispatcher, workers and forwarder, as a relation of steps. Measure and Progress are about
--     each step, Ending about whole schedules, Following and Written about what was written.
--     Encoder/Threads and Decoder/Threads have the threads of the two sides.
--   Merge: the order in which the packets of several threads reach one queue, as a relation.
--     Dropping is about a wire that loses some of them.
--   Codec: encoder and decoder one after the other. Pipeline: the whole way of the data; Lossless
--     is about a wire that loses no source packet, Session is about the threads of both
--     sides, with the help of Losses, and Recovering about the decoder's on any packets.
--   RaptorQ: the raptorq crate, whose code is not in the repository: a record of its types and
--     functions, and a record of the laws that its documentation and RFC 6330 state. Sample has a
--     concrete code for which the laws are proved; the examples run on it.
--   Channel, Decimal: `mpsc::SyncSender`, and numbers in messages. Base: shared names and lemmas.
--   Utf8: `truncate_utf8` of garuda-file-transfer/src/string.rs, and the UTF-8 it relies on.
--   Header: `DatagramHeader` of garuda-file-transfer/src/protocol.rs; the uuid crate, whose code is
--     not in the repository, is a record of parameters with two laws.
--     Layout has the bytes of a header, RoundTrip what is read from them.
--   Files: the files and paths that transfer.rs uses. Slices: pieces of a file that are written.
--   Stdio: `Read::read` and `Read::read_exact` of the standard library, on the streams of Io.
--   Transfer: `send`, `receive` and `process_stream` of garuda-file-transfer/src/transfer.rs.
--     Blocks and Sending are about the sender, Receiving and Restoring about the receiver,
--     Delivery about both, EndToEnd about both with the codec between them, Threaded with the threads
--     of the codec, Cases about sizes and names at the edge.
--   Socket: socket.rs; Descriptors is about the open file descriptors.
--   Streams: io_stream.rs and random.rs; Addresses is about `from_uri`, Cloning about `try_clone`.
--   CommandLine: `run_encoder` and `run_decoder` of garuda-codec/src/main.rs. Main: `main` and the
--     options; Defaults is about their default values, Delivery about a file between two commands.
--   Messages: the `Display` of the errors of encoder.rs, decoder.rs and protocol.rs.
--   The modules named Sample hold concrete parameters, those named Tests examples at concrete
--     inputs.
--
-- How it is modelled. A fallible call returns an `Outcome`: `ok`, `err`, `panic`, or
-- `out_of_fuel` for a loop that was cut. Bytes and machine integers are natural numbers, with the
-- wrap or the conversion error written out where the code can meet it (ids modulo 256, the
-- product in `interleave` modulo 2 ^ 64, `u16` and `u32` conversions, the product in
-- `compute_repair_packets_per_block` modulo 2 ^ 32 as in the release profile). A stream to read
-- is the list of what its reads give, errors among them, each with the value that the stop flag
-- has after it. A queue to send to is what it was sent, and the number of messages after which
-- the receiver is gone; a stream to write to is the same with bytes.
--
-- The threads are modelled twice. Pipeline and Lossless take each loop as a function, on the whole
-- of its input, and a relation for the order in which the results of several workers are mixed.
-- Workers has the threads at work: a state has the items that the dispatcher will read, whether it
-- waits for a read or sends one, the queue of each worker, what each worker has still to send, the
-- queue of the forwarder, and what was written. A step is a send, a take, a write, the end of a
-- thread, or an error, and any scheduler may choose among the steps that are possible; a send waits
-- while its queue holds 10 messages. A read fails or sees the stop flag only while the dispatcher
-- waits for it. Schedules have to go on only as long as a thread can make a step without such a
-- failure or stop. Encoder.Threads and Decoder.Threads connect the two, and Session puts them
-- together.
--
-- Fuel: the loops of the two dispatchers run on the number of bytes of the stream plus one; each
-- round but the last takes at least one byte if the block or packet size is above 0. The decoding
-- of UTF-8 runs on the number of bytes, and each character takes one at least; the digits of a
-- number run on the number plus one.
--
-- The loop of `send` runs on the length of the file plus one, that of `process_stream` on the
-- length of the stream plus one, and a round takes at least one byte or is the last, if the block
-- size is above 0. The loops over incoming streams have no bound of their own: a server takes
-- streams until it fails, so that their fuel, for `receive` too, is the number of streams that are
-- looked at.
--
-- The operating system, for sockets and streams, is a state, on which the calls of libc and of the
-- standard library are functions; what they do to the descriptors are laws. A descriptor is a
-- number, or none for -1. The `Drop` of a packet socket is written out where socket.rs drops one. A
-- path and an address are lists of characters; a file is the list of its bytes.
--
-- The file system under the receiver is a record of parameters: which file a path names, so that
-- two paths may name one, and the errors of opening, seeking and writing, which may depend on what
-- all files hold. A write that fails leaves a part of its bytes, as `write_all` does. What the
-- reads of an accepted stream give is a parameter of the commands, and so is what
-- `fs::create_dir_all` gives.
--
-- Of the laws of `raptorq`, that on repair packets holds as long as source and repair packets
-- together are at most 2 ^ 24, as an encoding symbol id has 24 bits (RFC 6330, section 3.2).
--
-- Not modelled: the parsing of arguments by clap; what is printed on stderr. The threads of
-- `run_encoder` and `run_decoder` are a parameter there, as they are the
-- subject of Workers and Pipeline.
pub mod Base
pub mod Vector
pub mod Channel
pub mod RaptorQ
pub mod Decimal
pub mod Io
pub mod Dispatch
pub mod Merge
pub mod BlockEncoder
pub mod BlockDecoder
pub mod BlockDispatcher
pub mod PacketDispatcher
pub mod Pipeline
pub mod Codec
pub mod Threads
pub mod Encoder
pub mod Decoder
pub mod Forward
pub mod Utf8
pub mod Header
pub mod Files
pub mod Stdio
pub mod Transfer
pub mod Socket
pub mod Streams
pub mod CommandLine
pub mod Messages
pub mod Workers
