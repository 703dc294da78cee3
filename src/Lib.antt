-- ===== src/Lib.antt =====
-- kvasilloni: a stand-in for the CAN library canlib32.dll that is itself a peer of the cannelloni
-- protocol, so that a Windows application reaches a virtual CAN bus of another host.
--
-- The program has four parts and its fuzz targets, and the development has a folder for each, one
-- for the tests of the sources, and one for the whole.
--   Wire (src/wire.rs): the frame and the protocol's bytes. Flags has the constants and the CAN FD
--     flags, Frame the identifiers, Encode encode_frame and build_udp, Stream decode_stream, Udp
--     parse_udp. Reference describes the format a second time, over plain lists of bytes; the
--     other files are proofs.
--   Transport (src/transport.rs): Filter and Shared are the receive state that the receive thread
--     fills and the API empties, Peers the addresses and the allow-list, Conn a connection from
--     connect to close, ConnRx its calls into the receive state, Rx the two receive loops, Teardown
--     how the TCP loop ends, Notify the locks between the app's callback and canSetNotify, step by
--     step.
--   Config (src/config.rs): Types has the record, Text the readers of one value, Ini the INI
--     parser, Load the layers defaults, INI file, environment, Modules where Windows says that the
--     program and the library are.
--   Api (src/lib.rs): Table has the open channels with canOpenChannel and canClose, Send canWrite,
--     Receive the reads, Control and Info the other exports, Log the log file and the exports that
--     only log, Memory the caller's buffers, Overlap the table under calls that overlap.
--   Fuzz (fuzz/fuzz_targets): the two drivers of the decoders.
--   UnitTests (the tests modules of src/wire.rs, src/config.rs, src/transport.rs and src/lib.rs):
--     each test as a definition that returns, or panics at the assertion that fails, under its name
--     in the source, run on the model. Asserts has Rust's assertions; the files are named for the
--     part that they test. The inputs of a property test are arguments, and its theorem is about all
--     of them; WireAlways and ConfigAlways have those theorems.
--   System: the calls of the API and the receive threads over one table of channels. Described is
--     the frame that the arguments of canWrite describe, however the code builds it, and ReadBack
--     the way from one application's canWrite to another's canRead. Ports
--     and Spec say what the library promises, as an abstract device that gives each handle a port;
--     Requests runs the code on the same requests and says what is seen of its state; the other
--     files are proofs.
-- A call of the API finds its connection in the table, and reads or writes through it; a receive
-- loop decodes what the socket gives and pushes the frames into the shared state of its connection.
--
-- Code that may panic has its result in Exec, whose panic is what catch_unwind catches; a write or
-- a read outside a caller's buffer is the fault of Access; a null pointer is none. Integers are
-- native numbers with the wrap-around of their width written out, and a signed integer is its two's
-- complement pattern. Addresses, files, variables, clocks and the answers of the socket library are
-- arguments. A lock's critical section is one step: Op lists those on the receive state, Event
-- those on a connection, Call the calls of the application, and the theorems are about all lists
-- of them. A wait is given what the other threads do between two checks of its predicate.
--
-- The loops over counts and lists are structural. The TCP receive loop and the fuzz driver of the
-- stream decoder have fuel, one round for each read; each round takes at least one byte, so that
-- the length of the stream and one more is enough, which the theorems on them show.
--
-- Not modelled: the lines that the exports other than those in Api/Log write to the log, which no
-- result depends on; the Windows API, the sockets and the file system, which are arguments; Rust's
-- memory and thread primitives; the tests that watch real threads, descriptors or memory; and
-- calls that overlap, but for what becomes of a connection that one of them closes.
pub mod Prelude
pub mod Wire
pub mod Transport
pub mod Config
pub mod Api
pub mod Fuzz
pub mod System
pub mod UnitTests
