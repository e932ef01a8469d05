-- ===== src/Lib.antt =====
-- stackflow: payment channels ("pipes") on Stacks. This library models the JavaScript packages of the
-- repository and a part of its server: the agent of packages/stackflow-agent, which keeps the states
-- of pipes that both sides have signed, builds and checks transfers, and disputes a closure of a pipe
-- on chain when it holds a later state; the client of packages/x402-client, which pays for HTTP
-- requests over a pipe; and of the stackflow node (server/src) the service that countersigns and the
-- dispute of closures.
--
-- The parts and how they interact. The watcher (watcher.js) lists closures, from events or from a
-- read-only call for each tracked pipe, records them in the state store (db.js) and asks the service
-- (agent-service.js) to dispute them; the service decides by the latest signed state, hands the
-- dispute to a signer and marks the closure. Transfers go through the service, which reads the
-- latest state and stores the one that was accepted. All of them normalise values by utils.js.
-- The x402 client (client.js) sends a request, answers payment challenges with proofs of a provider,
-- and keeps in its database (sqlite-state-store.js) which proofs were consumed; the provider takes
-- locks on pipes there, and pipe-state-source.js copies the state of a pipe from a node into it.
-- The node's counterparty service (counterparty-service.ts) compares a request with the newest state
-- of the pipe that the node knows, has the other signature checked, signs, and stores the state. When
-- a pipe is closed by the other side, the node (stackflow-node.ts) disputes it with a stored state.
--
--   Common                  shared names, Boolean tests, cases lemmas
--   Js                      JavaScript: text as lists of codes (Text), values (Value), throwing calls
--                           (Outcome), JSON copies (Json), `Number(text)` (Double)
--   Agent.Utils             packages/stackflow-agent/src/utils.js
--   Table                   tables of rows with a key: lookup, ON CONFLICT upsert, update
--   Agent.Store.Rows        the schema and the statements of packages/stackflow-agent/src/db.js
--   Agent.Store.Methods     the methods of its class AgentStateStore
--   Agent.Store.*           invariant, keys, latest states, growth, and History: the calls as steps
--   Agent.Service.Outgoing  packages/stackflow-agent/src/agent-service.js: constructor, trackPipe,
--                           buildOutgoingTransfer, buildOpenPipeCall, openPipe
--   Agent.Service.Queries   its operations that hand on to the state store
--   Agent.Service.Incoming  its validateIncomingTransfer
--   Agent.Service.Accept    its acceptIncomingTransfer and signTransferMessage
--   Agent.Service.Dispute   its evaluateClosureForDispute and disputeClosure
--   Agent.Watcher.PipeState packages/stackflow-agent/src/watcher.js: closures from pipe states
--   Agent.Watcher.Run       its loop over events, one event at a time
--   Agent.Watcher.Once      its runOnceByEvents, runOnceByReadonlyPipe and runOnce
--   Agent.Watcher.*         what a run keeps (Run.Safety), its loops (Loops, Scan) and
--                           whole runs
--   Agent.EventSource       packages/stackflow-agent/src/event-source.js and pipe-state-source.js: the
--                           loop over pages of events
--   X402.Numbers            the number parsing that the files of packages/x402-client/src share
--   X402.Store              packages/x402-client/src/sqlite-state-store.js: schema and methods (PipeRows,
--                           Proofs), and the locks (Locks), with other processes as steps
--                           (Locks.Exclusive) and the wait for a lock (Locks.Waiting)
--   X402.Client             packages/x402-client/src/client.js: constructor and request, one round of its
--                           loop at a time (Setup, Rounds, Bare, Attempts, Ends, Replay)
--   X402.PipeSource         packages/x402-client/src/pipe-state-source.js: the choice of a pipe (Best), its
--                           status (Mirror) and the copy of it (Synced)
--   Node.Principals         server/src/principal-utils.ts
--   Node.Counterparty       server/src/counterparty-service.ts: parseCounterpartySignRequest
--   Node.Counterparty.Policy   its resolveCurrentBaseline and enforceSigningPolicy
--   Node.Counterparty.Signing  its signState, signTransfer and signSignatureRequest
--   Node.Disputes           server/src/stackflow-node.ts: tryDisputeClosure (Sound, Once)
--   *.Tests                 the theorems at concrete values
--
-- How code corresponds to definitions: a function `fooBar` is `foo_bar`. A call that throws is an
-- `Outcome` with the error as a value; a method that writes takes the database and gives it back. A
-- row is a record, a table a list of rows in which the last insertion comes last. The clock's texts
-- are arguments. A watcher step keeps what it wrote before it threw. In X402 times are whole
-- milliseconds, and an operation that reads the clock or waits takes what it reads, and what other
-- processes write meanwhile, as arguments; a request keeps what it has sent and emitted. In Node a
-- CounterpartyServiceError has its status code, message and details in the error, and the calls of the
-- signer and the node are listed in order.
--
-- What the model takes as parameters: the signer (`Signer`: what it signs and what it answers to a
-- dispute, as functions of all submissions so far), the wallet's pages of events and their decoder,
-- the list of events, the read-only call, and the clock. For the x402 client also the URL parser,
-- SHA-256, JSON text, base64url, the proof provider, the network and the node's list of pipes; for the
-- node the Clarity serialisation of a principal, SHA-256, the signer, the executor of disputes, its own
-- upsertSignatureState and the tables of forwarded payments.
-- Nothing is assumed of their answers but what a theorem names as a condition.
--
-- Bounds and fuel: `decimal` divides by ten with the number itself as fuel, which is enough since
-- the quotient is smaller; `excess_bits` halves with the number as fuel; the loop over pages runs
-- on the number of pages left, which is its own bound. A request of the x402 client runs on a number
-- of rounds, of which maxPaymentAttempts + 1 are enough where no proof is skipped; waiting for a lock
-- runs on a number of tests of the clock, of which as many as milliseconds to the deadline, and two
-- more, are enough. Numbers of the program are bigints, so naturals without a bound. CAST to INTEGER
-- saturates at 2 ^ 63 - 1.
--
-- What is not modelled: calls of the service that interleave at an `await` (each runs to its end),
-- other processes on the agent's database file, the interval timer, opening of the file, lower case
-- outside of ASCII, the order of rows that SQL leaves open, objects with getters, the encoding of a
-- query in a URL, time-outs of calls; the adapter that talks to the wallet server, the signers of the
-- node (local key, KMS, read-only call), and the parts of the repository outside of these files: the
-- contracts, the rest of the server, the user interfaces and the scripts.
pub mod Common
pub mod Js
pub mod Table
pub mod Agent
pub mod X402
pub mod Node
