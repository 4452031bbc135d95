-- ===== src/Lib.antt =====
-- nn_fuzz: a fuzzer on LibAFL that exchanges test cases with neural networks over TCP.
--
-- The program has two crates. `nn_fuzz` runs fuzzers that share their finds over LLMP, LibAFL's
-- message bus; one broker passes the messages on and keeps statistics; a TCP service welcomes neural
-- networks and runs a bridge between LLMP and each of them. `nn_connector` is the library of the
-- network's side, which Python calls.
--
-- The files, and the code that each is about:
--   Base, Base/*           shared helpers: outcomes with errors and panics, a monad of programs that
--                          keep their state on an error, bits, bytes and lists. Base/Program has the
--                          programs that record their calls of foreign code, and the rules by which
--                          their protocols are shown; Base/Histories those at one history of calls,
--                          where the answers are known exactly, and Base/Blind those of programs that
--                          do not see some of the calls.
--   Std, Std/*             of Rust's standard library: streams with `read_exact` and `write_all`,
--                          decimal numbers, `split`.
--   External               LibAFL, postcard and gzip, as parameters with their laws.
--   Messages, Payload      nn_fuzz/src/connector/messages.rs, and the contract of a message's payload.
--   Server/Frame           nn_fuzz/src/connector/server.rs: send_tcp_msg, send_tcp_message, recv_tcp_msg,
--                          recv_tcp_message.
--   Server/Service         the same file: Listener::accept, run_service; Server/Service/Loop is about the
--                          connections one after the other.
--   Server/Task            the same file: the task that run_service spawns, with transform_stream and
--                          NnConnector::new.
--   Server/Bridge          the same file: NnConnector::handle_connection; `forward` is its inner loop,
--                          `receive_one` the rest of a round. Server/Bridge/Rounds/* has its runs, and
--                          Server/Bridge/Bus several bridges on one LLMP with its broker, as a relation
--                          whose steps are half a round of one bridge, a message of another
--                          client, what the broker does with one message, or an arrival.
--                          Bus/Own, Bus/Broker and Bus/Fifo say what becomes of the messages,
--                          Bus/Hearing, Bus/Feeding and Bus/Networks what networks at its ends send and
--                          read, Bus/Events and Bus/Fuzzers what a network reads of a fuzzer, and
--                          Bus/Progress and Bus/Delivery runs from the one network to the other.
--   Connector/*            nn_connector/src/connector.rs (Frame, Events, Connect), error.rs (Error) and
--                          lib.rs (Python).
--   Wire, Handshake, Journey  what the two crates do together: frames, the opening of a connection and
--                          the session behind it (Handshake/Session), and
--                          the way of a message from a network or a fuzzer to a network.
--   Llmp/Manager           nn_fuzz/src/llmp/extention.rs: NNEventManager.
--   Llmp/Restorer          the same file: RestartingNnEventManager.
--   Llmp/Broker            the same file: broker_loop's hook and handle_in_broker.
--   Llmp/Restarting        nn_fuzz/src/llmp/mod.rs: NnRestartingMgr::launch, and the broker's
--                          constructors and spawn_client of extention.rs.
--   Launcher               nn_fuzz/src/launcher.rs: Launcher::launch on Unix; `launch` is the parent,
--                          `client` the child of a fork.
--   Setup                  nn_fuzz/src/fuzz/unix.rs: `run_client` and `fuzz` (`detail`);
--                          nn_fuzz/src/fuzz/mod.rs: fuzz, load_tokens; nn_fuzz/src/main.rs (`farewell`).
--                          The fuzzing loop is one call, which ends well, with an error or with a
--                          panic of what runs in it. Setup/Protocol and Setup/Reaching are about a
--                          client's set-up, Setup/Children about the processes that the launcher
--                          forks for it.
--   Fuzzer                 nn_fuzz/src/components/fuzzer.rs: execute_input, process_execution,
--                          evaluate_input_events, add_input, fuzz_one; Fuzzer/ExecutesInput has the
--                          trait's execute_input, which the stages call; Fuzzer/Filing says what an
--                          evaluated input becomes, and Fuzzer/Filing/Whole what the file of it holds.
--   Stage                  nn_fuzz/src/components/stages.rs: CustomMutationalStage::iterations and
--                          perform_mutational; Stage/Default has the trait's own
--                          perform_mutational, which the stage replaces; Stage/Depths the depths that
--                          a run gives; Stage/Family the steps that a run may take with them, and
--                          Stage/Campaign the stage from the first start of its process on, with its
--                          `new` and `perform`.
--   Seeds                  nn_fuzz/src/utils/seed.rs: Seeds::from_cmdline.
--   Options                nn_fuzz/src/fuzz/mod.rs: check_options; nn_fuzz/src/fuzz/unix.rs: a client's
--                          seed; nn_fuzz/src/cli.rs: FuzzerOptions, parse_timeout. Options/Drawing goes
--                          from the seeds on the command line to those that the clients take.
--   Args                   nn_fuzz/src/fuzz/mod.rs: mutate_args.
--   Tests/*                runs on concrete data.
--
-- A fallible operation returns `ok`, `err` or `panic`; a program also returns the state that it leaves,
-- on every outcome. A socket holds what will arrive (bytes, failing reads, then the end of the stream),
-- what was written and how many bytes the peer still takes. Foreign code answers by lists or functions
-- that the theorems leave arbitrary. Lengths on the wire are below 2 to the 32, seeds and arguments
-- below 2 to the 64. The endless loop of a bridge is modelled for any number of rounds. The decimal
-- print of a number n has n + 1 steps of fuel, and takes one for each digit; no other definition has
-- fuel. What LLMP does between its clients is the model's own: what a client sends waits for the
-- broker, which takes the messages of one client in their order, those of several in any interleaving,
-- runs its hook on each, and hands what the hook forwards to all clients in one order; a message on
-- which the hook fails is no step. A network may be heard again after its stream has ended, which is
-- more than a socket does.
--
-- A fork makes two processes of one: the parent's program goes on and records the fork, and the child's
-- is `client` with the fork's index and core.
--
-- Not modelled: the Windows variants (nn_fuzz/src/fuzz/win.rs and the second half of
-- nn_fuzz/src/launcher.rs), which do not compile: they read a field and a module that are not there, and
-- win.rs is `unimplemented!()`; the clap declarations but for the fields and their defaults, what is
-- printed, timers, the default methods of LibAFL's own traits, the accessors of the fuzzer's and the
-- stage's fields, constructors that
-- only fill a record, and nn_slave, which prints one line.
pub mod Base
pub mod Std
pub mod Seeds
pub mod Options
pub mod Args
pub mod Fuzzer
pub mod Stage
pub mod Launcher
pub mod Setup
pub mod External
pub mod Messages
pub mod Payload
pub mod Server
pub mod Wire
pub mod Llmp
pub mod Journey
pub mod Handshake
pub mod Connector
pub mod Tests
