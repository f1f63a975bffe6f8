-- ===== src/Lib.antt =====
-- ERPS, an Elo rating and pairing service (the Rust crate core): players form parties, parties queue
-- by mode and region, the matching proposes games, a ready check lets every player accept, and a
-- registered game server with free capacity takes the match.
--
-- Parts, and the files that model them:
--   Components      core/src/components/mod.rs: the enumerations that the parts share
--   Party           core/src/party.rs: names, lifecycle, invitations, the test before a queue
--   Credit          core/src/credit.rs: the credit score
--   Matching        core/src/matching: tickets, candidates and the rating of a party (mod.rs), in
--                   children Bucket (bucket.rs), Claims (claim.rs), Sorted (snapshot.rs and
--                   sort_candidates), OneVOne, FiveVFive and FreeForAll (the builders of the three
--                   modes; Groups is their common search), Dispatcher (dispatcher.rs), Builders
--   Proposal        core/src/proposal.rs: the ready check and what follows when it is cancelled
--   Server          core/src/server.rs: the registry of game servers, in children for its data
--                   (Types), register (Registration), heartbeat and update_health (Monitor) and
--                   reconcile (Reconciliation); Ledger and its children hold the invariant
--   Placement       core/src/placement.rs: the choice of a server, reservation and release
--   Session         core/src/session.rs: sessions and their time of grace
--   Command         core/src/command.rs, and the allocator of core/src/resources/mod.rs
--   Profile         core/src/profile.rs: the profiles in memory
--   Rating          core/src/rating.rs: the Elo rating
--   Metrics         core/src/metrics.rs: samples, percentiles, figures and redaction
--   Config          core/src/config.rs: the validation of the configuration
--   Authority       core/src/grpc/mod.rs: the actor that owns the whole state, in children for the
--                   messages (Messages), the state and what the handlers share (State), the requests
--                   on parties and the queue (Requests), matching (Commit), the answers of the ready
--                   check (Respond), the end of a proposal (Cancel), placement (Launch), the reports
--                   of the servers (Outcome, Finish, Control, Servers), the clock (Tick), what a
--                   player is shown (Client), the batch of jobs and the connections (Actor), the memory
--                   of applied results (Results), the ECS world (Rebuild), the validators of tokens
--                   (Tokens), the services before the actor (Adapter) and what the administration
--                   is shown (Admin)
--   World           core/src/world.rs and the components of core/src/components/mod.rs: entities
--   Client          client/src/lib.rs: what a client reads from the messages (Client, with its data in
--                   Types and Wire), its session and the loop that watches events (Watch); Encode is
--                   how core/src/grpc/mod.rs writes the messages, Shown and Seen compare both
--                   ends
--   Base            lists, maps, sets, sorting, integers, words and texts that the parts share
--   Tests           runs at concrete inputs
--
-- How the code is read. A method that changes its object returns the new object; a method that can
-- fail returns a Result, and where it fails after it has changed something it returns the object as
-- well (Server.Reconciliation.reconcile, Placement.retry_after_failure). A function of the model has
-- the name of the Rust function; a loop body or a closure with a life of its own has a name of its
-- own. Identifiers are 128-bit values that are compared only: natural numbers. A fresh identifier or
-- token, and the time, are arguments. BTreeMap and BTreeSet are lists in key order; loops over them
-- are structural recursions, without fuel; only the `while` of a shard (search_shard) is on fuel,
-- which is its budget, since each round adds a candidate and the search stops at the budget. The
-- `go` of the builders recurses on the tickets that are left, and its loop on the same list. Unsigned words are natural numbers and signed
-- ones integers; each operation writes out its saturation or its wrap, as in a release build.
-- A String is the list of its Unicode scalar values. What the crate unicode_normalization and the
-- Unicode tables give is a parameter (Party.Unicode), of which only the idempotence of NFC is used.
--
-- Operations on f64 are an interface (Rating.Float), of which a theorem uses at most that clamping to
-- a range about 0 and conversion to an integer stays in the range. The pool of worker threads of the
-- dispatcher is a library that keeps the order of its items, so the model goes through the shards in
-- order.
--
-- The authority. A handler is a function from the state to a result and the next state
-- (Authority.State.Step), which also changes where it fails, as the closure of a call does; the do
-- blocks follow the order of the source's tests. The state is one record with the fields of the
-- source. Left out are the metrics, which no code of the actor reads but the administration's (Admin
-- takes them as an argument), and the ECS world, which is rebuilt from the other fields each time
-- before it is read: Commit reads the snapshot of the queue from those fields, and Rebuild models the
-- world itself, as a list of entities with optional components in whatever order the library gives
-- them. A step reads the clock once. Requests arrive with their identifiers parsed (none is a
-- malformed one), and a Status is its code. The broadcast channels of the clients and the bounded
-- control streams of the servers are libraries: their send and try_send are parameters
-- (Authority.Messages.Env), of which no theorem uses any property. A loop of a handler has a
-- definition for one turn and runs as Base.for_each; it ends with its list. The actor applies one job
-- after the other, so the model is a function of the sequence of requests.
--
-- Not modelled: the network, the streams and the timers around the calls of the actor
-- (core/src/grpc/mod.rs), the reading of the configuration and of the files of tokens, tracing, the
-- load test, the C bindings, and of the client the calls through the network.
-- The text of an identifier is a parameter of Client.Encode, of which the theorems use that it is not
-- empty. The loop of Client.Watch runs over the outcomes of its calls, while its receiver listens.
pub mod Base
pub mod Components
pub mod Party
pub mod Credit
pub mod Matching
pub mod Proposal
pub mod Server
pub mod Placement
pub mod Session
pub mod Command
pub mod Profile
pub mod Rating
pub mod World
pub mod Metrics
pub mod Config
pub mod Authority
pub mod Client
mod Tests
