-- ===== src/Lib.antt =====
-- A verification library of round-based, a Rust framework for multiparty computation protocols.
--
-- A protocol is written as rounds. A party registers a store for each round
-- (round-based/src/round), and the router (round-based/src/mpc/party/router.rs) hands every
-- incoming message to the store of its round, until the round is complete and its output is taken.
-- `MpcParty` (round-based/src/mpc/party/mod.rs) drives the router from a stream of messages. The
-- state machine (round-based/src/state_machine) turns a protocol that is written as a future into
-- an object that is asked to proceed and given messages, and the simulation
-- (round-based/src/sim/mod.rs) runs several such machines against one another. The echo broadcast
-- (round-based/src/echo_broadcast) adds a round of hashes to each round that asks for a reliable
-- broadcast. The macro `ProtocolMsg` (round-based-derive) generates the round numbers of a
-- protocol's messages and their conversions. The network of round-based/src/sim/async_env.rs connects
-- parties by a broadcast channel. The protocol of examples/random-generation-protocol is a client of
-- all this: two rounds over `MpcParty`, and a check of what the parties opened.
--
-- Files:
-- Prelude and below: the names and lemmas that all modules share; `Result` and the widths of integers.
-- Delivery: round-based/src/delivery.rs.
-- Round/SimpleStore: `RoundInput` and `RoundMsgs` of round-based/src/round/simple_store.rs. Slots
-- has the lemmas on the vector of slots, Invariant what holds of the store, Receive one call of
-- `add_message`, Order two of them, Sequence any number, Traffic any number up to the order of
-- different senders, Fed what holds of a store that was fed with
-- certain messages only, Output and Rounds the readers and the constructors, and Refines the store
-- as a map from parties to messages.
-- Round/Store: the traits of round-based/src/round/mod.rs as a record, and `WithProp`. Round/Input
-- makes `RoundInput` an instance.
-- Mpc/Errors, Mpc/Protocol, Mpc/Process, Mpc/Router: round-based/src/mpc/mod.rs and party/router.rs.
-- Process is one registered round, Router all of them.
-- Mpc/Party: `MpcParty` of round-based/src/mpc/party/mod.rs. Below it, Complete, Held and Origin are
-- about `complete`, Sending about `send`, and Many has `SendMany`.
-- StateMachine/SharedState, StateMachine/Delivery, StateMachine/Machine: shared_state.rs, delivery.rs
-- with runtime.rs, and mod.rs of round-based/src/state_machine. StateMachine/Polite is the interface that
-- the simulation takes a machine by.
-- Sim/Queue, Sim/Run, Sim/Results: `MessagesQueue`, `Simulation` and `SimResult`. Below Sim/Run, Setup
-- has the constructors from async functions and `run_with_setup`, Outputs and Accepted are about what a run
-- reports, and Bounded, Ends and Deadlock about when it ends.
-- Sim/AsyncEnv: `Network` and `MockedDelivery` of round-based/src/sim/async_env.rs. Contract is what is
-- asked of the channel, Receive is about the stream, Send about the sink, and Queued and Drain compare
-- the network with the queues of Sim/Queue.
-- EchoBroadcast/Errors, Message, Send, Store, Rounds, Wrap: error.rs, mod.rs and store.rs of the echo
-- broadcast. Store has the main round and the check of the echoes, Rounds the stores that the engine is
-- given, Wrap `WithEchoBroadcast` for one round of the main protocol, and Wrap/Many its `SendMany`.
-- RandomGeneration: the protocol of examples/random-generation-protocol/src/lib.rs. Xor, Items, Blames
-- and Combined are about the check of the openings, Lawful about the messages, and Run, Received,
-- Guarantee, Agreement and Reveal about whole runs.
-- Derive: `protocol_msg`, `round_method` and `round_msgs` of round-based-derive/src/lib.rs, with the
-- meaning of the code that they generate. Contract compares it with what is asked of a protocol.
-- PartySim: round-based-tests/src/lib.rs.
-- The modules named Tests hold concrete inputs.
--
-- How the code is modelled:
-- A method that changes its object returns the new object with its result. A panic is `none`.
-- Numbers are natural numbers; `u16` and `u64` wrap where the source adds to or subtracts from a
-- value that nothing bounds. The `BTreeMap` of rounds is an association list.
-- A store is a record of operations; what the trait asks of it is `IsProper`. A protocol's messages
-- are a record whose contract is `IsLawful`; it also holds `Any::downcast`, which must succeed at
-- the value's own type.
-- The future of a protocol, the sink of a party, the digest and the engine that the echo broadcast
-- wraps are parameters. Hashes are taken to be free of collisions where the check of the echoes is
-- judged, and where two parties of the example protocol agree (`IsCollisionFree`). A future is confined
-- if it reaches the shared state through the delivery and the runtime only.
-- The stream of a party is the list of the items that it yields.
-- The loops of the simulation take fuel: the source's loops need not end, so `out_of_fuel` is an
-- outcome of its own. For machines that end after a bounded number of calls it stands for a deadlock
-- and nothing else, once the fuel exceeds those calls (Sim/Run/Bounded, Sim/Run/Ends).
--
-- The channel of `tokio` that the network uses is a parameter: `Channel` has its operations, and
-- `IsBroadcast` what its documentation promises of a receiver that does not lag behind. A call on
-- the stream or the sink runs without an await, and is one step; polling takes fuel for the values
-- that it skips, and fuel above the number of unread values is enough (Sim/AsyncEnv/Receive).
-- Identifiers and types of the syntax that the macro reads are numbers, and `syn` has parsed them.
-- The random bytes of the example protocol are an argument, and its digest is a function.
-- `PartySim` takes a number of steps for its loops; one more than the machine yields is enough.
--
-- Not modelled: executors and wakers, the runtime of tokio, the futures that the asynchronous
-- simulation joins, the hand-written Clone, PartialEq, Stream and Sink that only delegate, the choice of
-- a runtime, debug output and the texts of errors and panics, the parser of the macro's
-- attribute, and `Expect` of the tests' library.
pub mod Prelude
pub mod Delivery
pub mod Round
pub mod Mpc
pub mod StateMachine
pub mod Sim
pub mod EchoBroadcast
pub mod RandomGeneration
pub mod Derive
pub mod PartySim
