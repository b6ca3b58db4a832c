-- ===== src/Lib.antt =====
-- agent_go: an agent of a language model with tools, conversation memory and a profile, written in
-- Go. This library models its core and holds the theorems about it.
--
-- The program's parts and how they interact. A run of the agent (agent/agent.go) sends the
-- conversation to a provider (llm/), runs the tools that the reply calls (tool/exec.go), sends the
-- results back, and commits the conversation when a reply calls no tool. Before it is stored, the
-- conversation is shortened: old turns are folded to what was asked and answered (agent/fold.go),
-- and above a limit the oldest turns are dropped and remembered in a summary (agent/history.go,
-- agent/summary_llm.go). A profile of the user (agent/memory.go) is shown to the provider and
-- never stored with the conversation. A manager (task/) runs goals as jobs in the background, each
-- by a run of an agent; a registry (run/) keeps what the runs of the HTTP API came to, and lets a
-- session have one at a time.
--
-- Which file models which part:
--   Prelude, Prelude/Int, Prelude/Lists, Prelude/Tests: numbers, lists and tests for all files;
--   Go's int is ℤ with the wrap-around of 64 bits in add_word.
--   Text and its children: strings as lists of code points, the functions of strings and unicode
--   that the program calls; the case tables of Unicode are a parameter, CaseTables.
--   Errors: the errors of llm/error.go, and an error value with what errors.Is and errors.As see.
--   Llm, Llm/Accounting, Llm/Router: messages, usage and the router (llm/types.go, llm/router.go).
--   Llm/Client, Llm/Retry: doChat and the loop of Chat (llm/openai.go); Llm/Retry/Waits and
--   Persistence are the proofs. Llm/Stream, Llm/Stream/Client: readSSE, the accumulator of a stream
--   and ChatStream (llm/openai_stream.go); Llm/Stream/Assembly and Reading are the proofs.
--   Docs/Paths, Docs/Reading: package filepath, the paths under a docs root and the tools on them
--   (tool/docs.go);
--   Docs/Inside, Resolve and Confined are the proofs.
--   Retrieval/Chunks: ChunkDocument (rag/chunk.go), with Retrieval/Kept for its proof.
--   Retrieval/Needles, Grep: what a query looks for, the walk over the files and the order of hits
--   (retrieve/grep.go); Retrieval/Ranking, Found and Walking are the proofs.
--   Retrieval/Evaluation: questions with known answers (rag/eval.go); Retrieval/Judged is the proof.
--   Agent/Handoff: a goal handed to a specialist (agent/handoff.go).
--   Mcp/Codec: messages over a pipe (mcp/codec.go), with Mcp/Framing for its proof.
--   Mcp/Bridge: the tools of other processes (mcp/bridge.go). Mcp/Calls: calls that wait for a reply,
--   as steps (mcp/client.go); Mcp/Keys and Answers are the proofs.
--   Tool, Tool/Outcome: ExecuteDetail with its time limit, approval and redaction (tool/exec.go).
--   Agent/Turns, Agent/History: splitUserTurns, trimByUserTurns, trimHistory (agent/history.go).
--   Agent/Summary, Agent/Compress: upsertSummary, buildConversationSummary, finalizeSummary
--   (agent/history.go, agent/summary_llm.go).
--   Agent/Fold: foldOldTurns and foldOneUserTurn (agent/fold.go).
--   Agent/Clip: truncateRunes, clipOneLine, clipRunes (agent/agent.go, history.go, memory.go).
--   Agent/Memory, Agent/Profile: the profile and its file, and its block in the messages
--   (agent/memory.go).
--   Agent/Settings, Agent/Loop, Agent/Run: the agent's fields, executeToolCalls, commitHistory,
--   Run, Reset and RestoreSession (agent/agent.go). Agent/Run/Commit, Reports, Failure and
--   Valid are the proofs.
--   Task, Task/Manager, Task/Store: the record of a job, the critical sections of the task manager
--   and the two stores (task/task.go, task/store.go). Task/System puts goroutines around them;
--   Task/Places, Safety, Progress, Limits, Crew, Saved, Restart and Agreement are the proofs.
--   Run, Run/Registry: runs as jobs, one at a time for a session, and their eviction
--   (run/registry.go); Run/Ownership, Exclusive, Eviction, Keys and Bound are the proofs.
--   Httpapi/Park: tool calls that wait for a decision (httpapi/approve.go), with Httpapi/Granted for
--   the proof. Builtin/Calculator, Builtin/Profile: the built-in tools (tool/builtin.go).
--   DotEnv: the file of environment variables (cmd/agent/dotenv.go), with DotEnv/Kept, Quoted and Written for
--   the proofs.
--   Session: the stores of conversations (session/store.go). Session/Laws is what an agent needs of
--   one, filled by the store in the process; Session/Restore uses it; Session/Names, Joined
--   and Filed are about the store in files.
--   Agent/Protocol, Agent/Spoken: independent descriptions of what a chat endpoint accepts (each
--   tool call is followed by its results) and of what is said apart from system messages.
--   Text/Table: Go maps with string keys.
--   Examples: tests and concrete conversations, profiles, runs, task managers, registries,
--   sessions, endpoints, documents, servers, sums,
--   environments and measures.
--
-- State is passed explicitly. What the program meets outside of itself (providers, tools, the
-- approver, the event sink, the store of sessions, the clock behind a context) is a function on a
-- world of any type W. The goroutines of a batch of tool calls run in an order that the world
-- gives; each runs as a whole, and MaxToolConcurrency only narrows the orders. A disk write
-- succeeds or fails as an argument says. For the task manager a step is one critical section of one
-- goroutine, so that all interleavings are sequences of steps; ids and times are arguments.
--
-- Bounds and fuel. A run's turns are counted down from MaxTurns, as the loop of Run does. The
-- rounds of trimHistory count down from the number of user messages: each round that goes on
-- drops a turn, so this is enough. The tries of Chat count down from 1 + retryBudget, which wraps as
-- int does. The pieces of a block take a rune each, so its length is enough. Lengths in runes are those of the source; the notice of a cut
-- has the decimal digits of the length.
--
-- Not modelled: durations, logs and spans; strings that are not UTF-8; the JSON of the files and
-- of the endpoint, which are functions that a client or a tool is given, the HTTP exchange and the
-- HTTP servers, vectors and their index, the MCP processes and the rest of the command line, which are input and
-- output around the core.
pub mod Prelude
pub mod Text
pub mod Docs
pub mod DotEnv
pub mod Retrieval
pub mod Mcp
pub mod Httpapi
pub mod Builtin
pub mod Errors
pub mod Llm
pub mod Tool
pub mod Agent
pub mod Task
pub mod Run
pub mod Session
mod Examples
