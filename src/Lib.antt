-- ===== src/Lib.antt =====
-- A verification library for the test bot of the Idena network: the program that starts a network of
-- nodes, plays a scenario on them epoch by epoch, and checks what the nodes report.
--
-- The bot starts with a configuration (config/config.go) and a scenario. One bot, the god bot, has the god
-- node and an HTTP API (api/), by which the other bots (apiclient/) get invites, delegatees and the
-- epoch. In each epoch the process (process/) has every user make flips, answer those of others and send
-- the transactions of the scenario, and then compares the nodes with the scenario.
--
-- A scenario is a JSON file. scenario/load.go reads it (`Load`), scenario/validation.go checks it
-- (`validate`), and scenario/conversion.go turns it into the maps by epoch and node that the process
-- reads (`convert`). Every list of epochs, nodes or users in it is a text such as "1,4-6", which
-- `parseNums` of scenario/utils.go reads.
--
-- Files:
--   Prelude: shared names; Prelude/Int has Go's `int` (unbounded integers, with `wrap64` where the code
--     adds or multiplies), Prelude/Result has results that are a value, an error or a panic, with the
--     loops that stop at the first error, Prelude/Dict has maps as association lists, Prelude/Float
--     has what the validation uses of float32.
--   Scenario/Nums: scenario/utils.go. `parse_nums` is `parseNums`; a text is the list of its bytes, and
--     `split`, `before`, `after` and `atoi` are the functions of Go's standard library that it calls.
--   Scenario/Incoming and Scenario/Model: the records of scenario/incoming.go and
--     scenario/internal.go, with the source's names. A pointer to an `int` is a `Ref`, its address and
--     target, where the code depends on the address.
--   Scenario/Counts: `buildEpochUserCounts` and its use in `validateCeremony`.
--   Scenario/Validation: every other function of scenario/validation.go, by the same names.
--   Scenario/Conversion: scenario/conversion.go and the `Get` methods of scenario/internal.go. Epochs
--     has the conversions to maps of lists and values, Switches has `convertNodeSwitches`, Ceremonies
--     those of ceremonies and answers, Convert has `convert` and `Load` after the file is read.
--   Client: client/client.go and client/models.go, the JSON-RPC client of a node. `send_loop` is the loop of
--     `sendRequest`, `call_loop` is `sendRequestAndParseResponse`; Client/Calls has the methods. What the
--     attempts of a request come to and how a body is decoded are parameters, in the record `Client`.
--     Client/Loop and Client/Retry say how often a request is sent, Client/Once which calls are sent once.
--   Process: process/. Flips is `generateFlip` and `assertFlip`,
--     Submission `submitFlips` with what it calls, Hashes `getFlipHashes`, `checkFlipHashes` and
--     `getFlips`, Answers `getAnswers` and `submitAnswers`, Verification `passVerification`, and Online
--     `switchOnlineState`, all of process/verification.go. Assertion is process/assertion.go, Background is
--     process/background.go, Users has the creation of users and Invites their invites (process/process.go),
--     Epoch has the switches and waits around `testUser`, which is in Epoch/Calls, and the wait group of
--     `test`; Start has the god node of process/init.go, and Txs has process/delegation.go,
--     process/kill.go, process/staking.go and process/store_to_ipfs.go. Random numbers, the clock and what
--     the node answers are parameters; `process.handleError`, which ends the process, is the panic `exited`.
--   Api: api/api.go and api/server.go, with process/api.go. `handle_request` takes the state of the server
--     to its next state and a response; `update_pools` is the part of `createInvites` on the pools.
--   ApiClient: apiclient/client.go. ApiClient/Delivery puts it together with Api.
--   Config: config/config.go, by the same names.
--   User: user/. User/Cache has both `GetFlip` with what a user of a shared node keeps, User/Flips
--     `GetRequiredFlipsInfo`, User/Prepared `prepareAnswers`, User/Keys the keys and signed transactions of
--     a user of a shared node, User/Sending what it submits in a test, and User/Started the start and
--     stop of a user with its own node. The functions of idena-go and the answers of the node are the
--     records `Source`, `Signer`, `SharedNode` and `Outside`.
--   Node: node/. Node/Setup has the files, arguments and configuration of a node, Node/Runs `Start`,
--     `Stop` and `Destroy` on a node in its world, which is its files and live processes, for an
--     operating system `Os`. Node/Spawns has what a start changes, Node/Leftover the processes
--     that a node no longer has, and Node/Alive the steps of a node as a relation.
--
-- Bounds and fuel. The loop over a range `a-b` counts an `int` up, with wrap-around, and runs on fuel:
-- `range_fuel` is two rounds more than the distance of the ends. That is enough whenever the end is
-- below the largest 64-bit integer; with that end the loop never ends, whatever the fuel is, and the
-- model returns the panic `endless_loop`. The loops of the client run on the fuel of the record `Client`;
-- the theorems on them ask for more fuel than there are attempts, or say that no fuel is enough. So do
-- the loops of `getFlipHashes`, `submitFlip` and `tryToSwitchOnlineState`, on their own fuel, and the waits
-- for a period, a state and the epoch of the god bot. The loop of
-- apiclient/client.go counts ten attempts down. Every other loop is structural.
--
-- Not modelled: reading files and decoding JSON, float arithmetic (a parameter), the choice of answers by
-- rates when a scenario is converted (nothing calls it), the log library (a copy of another project's) and
-- all log lines (but the state that `logStats` follows), the mutexes, the result types of the client and
-- `WordsSeed`, how the configuration of a node is merged with the base configuration, the methods of a
-- user that only pass a call on, the program's command line and what it loads over HTTP, and of the
-- process the loop of its epochs and the channel that bounds the submissions. The goroutines of a user
-- beside its steps are lists of calls of their own, and those that start nodes run one after the other.
-- The waits between IPFS transactions and behind the start of a node are left out.
mod Prelude
pub mod Scenario
pub mod Client
pub mod Process
pub mod Api
pub mod ApiClient
pub mod Config
pub mod User
pub mod Node
