-- ===== src/Lib.antt =====
-- delibera.xyz: agents deliberate on proposals, a coordinator collects their votes, counts them and
-- settles the result on a chain. This library models the coordinator, the worker agents, the client
-- of the shared memory, the sessions of its server, the payments, and the provisioning of agents, in
-- the parts that decide something, and proves what makes them correct.
--
-- Prelude       Names of the libraries, passed on; tests on the native numbers, lists, integers and
--               texts.
-- Json          JSON values, and what the program reads of them.
-- Ensue         The shared memory: shared/src/constants.ts (getWorkerKeys, getProposalKeys, ...) is
--               Keys, and ensue-client/src/ensue-client.ts is Client, for one key, and Listing, for
--               several; Missing, Events and Listed are about them.
-- Host          The state of a process and its surroundings. A program is a function of the state
--               that returns, throws, or runs out of the fuel of a loop. It keeps the history of its
--               effects; every answer of the memory, the clock, the network and the chain is a
--               function of that history, so a theorem over every Env covers every order in which
--               other agents act between two steps.
-- Coordinator   coordinator-agent/src/monitor/memory-monitor.ts.
--               Names          NameResolver and truncateDid of shared/src/name-resolver.ts
--               Discovery      probeWorker, getActiveWorkers, getWorkerRecordsFromEnv
--               Dispatch       triggerWorkers; Kept is about the workers that stay
--               Waiting        waitForWorkers, readResultsWithRetry
--               Tally          extractVote and the decision of aggregateResults; Counts, Quorum
--               Aggregation    the rest of aggregateResults, and archiveProposal
--               Submissions    what is recorded on the chain for each worker; Ids
--               Contract       localStartCoordination, localRecordWorkerSubmissions and
--                              localCoordinatorResume of coordinator-agent/src/contract/local-contract.ts
--               Registration   the registration calls of the same file
--               Rounds         triggerLocalCoordination; Protocol is a state machine of its statuses
--                              and chain calls, Ways the rules for programs, Refines the refinement
--               Production     checkAndCoordinate, processCoordination, resumeContractWithTally, with
--                              coordinator-agent/src/contract/delibera-client.ts and
--                              resume-handler.ts; Protocol and Refines as for Rounds
--               Monitor        checkLocalCoordination
--               Marks          what an observer sees of a history, and which steps add nothing to it
--               World, Tests   surroundings and runs at concrete inputs
-- Vrf           coordinator-agent/src/vrf: flow-vrf.ts (Seed, Shuffle, SafeInts) and jury-selector.ts
--               (Jury).
-- Routes        coordinator-agent/src/routes/coordinate.ts: which workers are valid (Validation)
--               and the handlers (Workers, Registering, Rounds, Proposals, Juries, Polls). Passing,
--               Known, Registered and Voting are about what they do.
-- X402          coordinator-agent/src/x402: verdict-store.ts (Store), x402-deliberate.ts
--               (Deliberate), x402-verdict.ts (Verdict); what holds of them is in StoreLaws, Listing,
--               Requests and Agreement.
-- Agent         worker-agent/src/workers: ai-voter.ts (Voting), task-handler.ts (Work, Lifecycle).
--               Ballots, Performed, Recorded and Polling are about the votes, the work, the task and
--               the polling loop; Counted is about the coordinator's reading of the results.
-- Mcp           ensue-mcp-server/src: session-store.ts (Sessions) and the handler of index.ts
--               (Requests). Reachable, Sweeping, Surviving and Admission are about the store.
-- Payments      protocol-api/src/routes/payments.ts (Checkout, Webhook); Received is about what a webhook
--               stores.
-- Provision     protocol-api/src/routes/provision.ts. Jobs are its jobs, and Flow the asynchronous functions
--               that work on one, with a break at each request. Services (with lib/ensue.ts), Compose,
--               Phala (phala/phala-client.ts), CloudInit, Droplets (ironclaw/ironclaw-provisioner.ts
--               and ironclaw-deployer.ts), Workers, Coordinators and IronClaw are its flows. Desk is the
--               store of the jobs; Starting, Registering and Shown are the handlers, and System is all
--               of them over one store, interleaved. Along, with its Rules, Calm, Deadlines,
--               Provisioned, Founded, Guarded, Droplet, Sound, Steady and Reached are about what they
--               do.
-- Deploy        protocol-api/src/routes/deploy.ts: its calls on the contracts (Registry) and its handlers
--               (Routes), over the flows of Provision; Watch is watchForEndpoint and getCvmStatus of
--               phala/phala-client.ts. Contract is contract/local-contract.ts, and Workers and Agents are the
--               handlers of routes/workers.ts and routes/agents.ts.
--
-- The parts interact as in the code: the paid interface runs a round of the coordinator and stores
-- its result; a round finds workers, gives them the task, starts a proposal on the chain, waits for
-- the statuses in the shared memory, records the submissions, counts the votes, archives, and settles.
--
-- Choices. Numbers in JSON are natural numbers, and a configured number of another type is read as
-- missing; where the values of results that hold no vote are added, one that is no natural number
-- counts as 0, while the code adds or concatenates what is there. Requests that the program makes at
-- once are made one after the other. The operations of the Ensue client do not throw (making it can,
-- which the routes of polling workers show), as that client catches and logs its errors; what the
-- other parts read from the memory is an answer of their surroundings, whatever the client makes of
-- it. The parser and the printer of JSON, the hashes and the format of times are parameters. Lengths
-- of texts count characters, which differ from UTF-16 code units outside the basic multilingual plane.
-- The seeds of the jury are unsigned decimal numerals. The call that starts a proposal is not awaited;
-- what it does shows in the answers that follow.
--
-- Fuel. poll_proposal_id takes 17 rounds: a round sleeps 500 ms and the loop ends after 8 s. wait_loop
-- takes 121: a round sleeps 1 s and the loop ends after 120 s. ClockRuns, that the clock never runs
-- back and that a timer fires no earlier than asked, makes both enough. In the same way ip_loop takes
-- 31 rounds and ssh_loop 19: a round sleeps 10 s, and the deadlines are 5 minutes and 180 s.
--
-- Not modelled: the backups and the Filecoin archival, of which only the start is an effect; GET
-- pending of the coordinator's routes, the agent's identity in storage and the tools of the MCP
-- server; the commands that set up a droplet, and the client of its webhook; the frontend; the
-- contracts, which are not written in TypeScript.
pub mod Prelude
pub mod Json
pub mod Ensue
pub mod Host
pub mod Coordinator
pub mod Vrf
pub mod X402
pub mod Mcp
pub mod Payments
pub mod Provision
pub mod Deploy
pub mod Agent
pub mod Routes
