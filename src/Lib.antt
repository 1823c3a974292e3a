-- ===== src/Lib.antt =====
-- virmux runs agents and skills in Firecracker virtual machines and keeps what they did as evidence.
-- This library models the parts of it that decide: the research plane, the framed transport between
-- the host and a guest, the agent in the guest, and the promotion of a skill.
--
-- Research (internal/skill/research). Research/Plan is planner.go: plans and `Validate`, with the
-- planner in Research/Plan/Compile. Research/Scheduler is scheduler.go: `Machine` is what its mutex guards;
-- Scheduler/Build is `runConcurrent` up to its main loop, and Scheduler/Run the main loop and the
-- workers as steps of interleaved threads (`Step`, `Reach`), with the places of its semaphore. The planner's plans are what the
-- scheduler runs. Research/Map is mapper.go, which runs one track and stores its evidence in the run
-- database, with the split of reducer.go behind it. Research/Replay is replay.go, which runs tracks
-- again and compares their rows.
--
-- Transport (internal/transport). Transport/Frame is rpc/frame.go over lists of bytes, Transport/Mux
-- is rpc/mux.go as a step relation of concurrent calls, the reader and `Close`, and Transport/Vsock is
-- vsock/vsock.go with its retries. The client and the agent's server speak in these frames.
--
-- Agentd (internal/agentd). Agentd/Guard is the guard on paths of tools/tools.go, Agentd/Tools its
-- registry and runners, and Agentd/Server the loop of server/server.go.
--
-- Skill (internal/skill). Skill/Run is run/core.go: Run/Budget the budget of a run, on int64s,
-- Run/Fixture its fixture, and Run/Hashes the comparison of what was recorded of its tool calls.
-- Skill/Judge is judge/judge.go: Judge/Rubric loads a rubric, Judge/Metrics measures a run's files and
-- Judge/Evaluate scores it. Skill/Eval is eval/eval.go: Eval/Results reads what promptfoo found, and
-- Eval/Compare compares two refs. Skill/Ab is absvc/service.go, which stores what Eval found in the
-- database and judges fixture by fixture. Skill/Gates is gates/gates.go and Skill/Promote is promosvc/service.go.
--
-- Database (internal/store). The run database of store.go: Database/Structs are its structs,
-- Database/Rows the tables with their keys, Database/Engine the constraints of a statement,
-- Database/Runs and Database/Inserts the methods that write, Database/Reads those that read, and
-- Database/Session any sequence of calls. Database/Schema says what the tables hold then. The other parts read and write the database through these.
--
-- Trace (internal/trace). Trace is trace.go: the writer, tool receipts and the validation of lines.
--
-- Prelude has the shared tests, lists, maps, integers and strings.
--
-- Conventions. An error is a constructor of a type of its component, a formatted text a constructor
-- that holds what is printed. Files, git, the database, the clock, JSON, YAML, SHA-256 and floats are
-- parameters: functions or records that say what they answer. What a handler does to the outside is a
-- list of calls or changes, in order. A Go `int` that only counts is a natural number; where a value
-- wraps, the wrap is written out. Loops without a bound of their own run on fuel: the cascade on one
-- unit for each track, the serving loop on one for each byte of its stream and one more, and string
-- loops on one for each byte.
--
-- Not modelled: the migration of legacy databases (in internal/store), the control of the virtual machines (internal/vm), the
-- commands (cmd), and of internal/skill the rules, motifs, refinement, specs and the flow of a judgement,
-- and the folder of the agents (internal/agent). They are mostly calls of SQLite, of
-- Firecracker and of the file system.
pub mod Prelude
pub mod Research
pub mod Transport
pub mod Agentd
pub mod Database
pub mod Skill
pub mod Trace
