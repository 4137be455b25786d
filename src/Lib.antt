-- ===== src/Lib.antt =====
-- The mum daemon.
--
-- mum is a client of the Mumble voice protocol. The daemon `mumd` (mum/src) holds the connection and
-- the audio; the controller `mumctl` sends it commands over a socket, in the types of mumlib/src.
-- The daemon's tasks share one `State` behind a lock: a task runs the commands of clients
-- (mum/src/command.rs, `handle_command` in mum/src/state.rs), a task handles the packets of the server
-- (mum/src/network/tcp.rs, `listen`). A command is answered at once, or by a closure in a
-- `TcpEventQueue` that a later packet fires. Under the lock every command and every packet is one
-- step, so a step is a function from the state before to the state after.
--
-- How the files correspond to the code:
--   Common     maps as association lists, strings as lists of code points, `Outcome` for what a call
--              comes to (it returns, it panics, or the fuel of a recursion is used up), `Result`
--   Protocol   the messages of the protocol's crate, as the program observes them
--   Mumlib     mumlib/src/command.rs, error.rs, state.rs and config.rs: commands, responses, events,
--              errors, the tree of channels, with their `Display`, and the iterator of the tree (Iter)
--   Audio      mum/src/audio.rs (Output) and, under mum/src/audio, sound_effects.rs (Effects),
--              transformers.rs (Transformers), the callbacks of input.rs (Input) and of output.rs
--              with the decoding of packets (Playback)
--   State      mum/src/state.rs and mum/src/state/: User, Channel (Channel.Tree for `into_channel`),
--              Server, Core (the `State` and its small methods), Presence (`user_state` and
--              `remove_user`), Handle (`handle_command`, by groups of commands, joined in Handle.All)
--   Network    mum/src/network/tcp.rs: Queue (`TcpEventQueue`), Listen (`listen`),
--              Connecting (a refused certificate in `handle`);
--              of mum/src/network/udp.rs `handle_pings` (Pings), `listen` and `send_pings` (Voice)
--   Commands   mum/src/command.rs: the loop that runs commands and arranges their answers
--   Mumd       mum/src/bin/mumd.rs: the connections of the daemon's socket, and the look for another
--              instance at the start
--   Controller mum/src/bin/mumctl.rs: Cli (errors, files, the socket of the daemon), Servers
--              (`match_server_command`), Show (`parse_state`, `print_channel`), Options (`match_opt`
--              and `main`); Servers.Spec has the operations on a list of servers
--   Tests      the theorems at concrete inputs
-- A function has the name of the function it models; an operation that begins with a match on the
-- server is a function `…_in` of the server it finds, applied to the server of the state. The
-- modules Laws, Safe, Moves, Frame, Names, News, Changed, Histories, Refused, Roster, Rooted,
-- Updates, Steps, Phases, Changes, Joins, Complete, Loading, Preorder, Find, Walks, Nodes, Total,
-- Returns, Counters, Counting, Race, Choice, Answers, Waiting, Gate, Frames, Stream, Sent, Mixed,
-- Stored, Tables, Refines, Connect, Keeps, Lines and Instances hold proofs. The controller's
-- functions are in `Cli`, which passes on what has been printed, sent and written, and ends in a
-- value, an error or a panic.
--
-- Bounds. A number is a natural number where the code has `u32` and does no arithmetic on it; the
-- counters of `Ping` packets and the count of pings wrap at 2 ^ 32 and 2 ^ 64, and the first panic
-- instead in a build that checks overflow, as do the timestamps of the UDP pings, which wrap at 2 ^
-- 64. `Channel::path` and the loop of `into_channel` follow the chain of parents with one more step
-- of fuel than there are channels, since a chain that ends passes no channel twice. The loop of the
-- microphone has as much fuel as there are samples and one more, since every turn takes a frame
-- away. An `f32` is its bits; arithmetic on it is that of `FloatOps`.
--
-- Parameters. The clock, name resolution, the tables of `to_lowercase`, the configuration file, the
-- files, decoders and resampling of sounds are fields of `Env` and `Codecs`; the cipher of the voice channel is
-- `Cipher`; the operations on `f32` are `FloatOps`, the Opus library and the ring buffer are in
-- `Device` and `Crates`, the TOML library is `Toml`, the codec of the daemon's messages is `Bincode`,
-- and the daemon, the terminal and the parsers that the controller uses are `Outside`. The order in which a `HashMap` is iterated is that of the association list.
--
-- Not modelled: sockets, TLS, tasks and their scheduling, choosing and starting the audio devices, the
-- parser of the command line, logging, and desktop notifications beyond their texts.
pub mod Common
pub mod Mumd
pub mod Mumlib
pub mod Protocol
pub mod Audio
pub mod Controller
pub mod State
pub mod Network
pub mod Commands
pub mod Tests
