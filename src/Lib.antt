-- ===== src/Lib.antt =====
-- XClaw: a verification library of the Go program under cli/.
--
-- XClaw runs AI agents: tool calls pass an approval manager, messages pass a gateway, jobs pass a
-- scheduler. The library models the parts that decide, and leaves out those that only move data.
--
-- Approval (cli/approval/manager.go). `Rule` has the rules and when one matches (normalizeRule,
--   matchRule, impactScore), `Lists` the helpers on strings, `Request` the requests and the votes
--   (approvalSatisfied), `Manager` the operations (Evaluate, Approve, Reject, SetRules,
--   expireRequests), `Persist` storing and loading (Snapshot, Load), `Listing` the list (ListRequests).
--   `Lifecycle`, `Runs`, `Votes`, `Consistency`, `Gate` and `Decisions` hold the
--   theorems. A manager is its rules and a map of requests, and an operation returns the manager that
--   it leaves; the mutex makes each operation one step. `regexp` is a parameter of the operations
--   that match rules. A run (`Runs`) is of the operations of a manager at work; Load, which is called
--   at the start, has its theorem in `Persist`.
-- Gateway (cli/gateway). `RateLimiter` (rate_limiter.go), `Reliability` (reliability.go),
--   `EditPolicy` (edit_policy.go), `Stream` (stream.go), `Health` (health.go), `Adapter`
--   (content_adapter.go), each with its theorems in the modules below. Of gateway.go: `Events` has
--   the messages (types.go), `Segments` what a provider cannot show and how a text is cut, `Targets`
--   where a message goes, `Delivery` the five attempts (sendWithRetry; `Delivery.GoesOut` says when
--   they succeed) and `Send` the way of a message (Send, pushDLQ), on fuel for how deep it calls
--   itself: without fallback targets one call is enough. `Routes` (matchRoute, UpsertRoute) and
--   `Inbound` (ReceiveInbound) are for what comes in, `Bindings` and `Undelivered` for the lists of
--   bindings and of messages that could not be sent. The providers, the clock and new ids are the
--   record `Outside`. A character that a cut between two bytes would divide is not divided in the
--   model.
-- Scheduler (cli/scheduler). `CronExpr` parses expressions and `Next` finds when they are due
--   (cronexpr.go), `Calendar` is what they use of Go's `time`; `Resolve` (resolve.go) finds a job's
--   next run; `Tick` and `Run` (scheduler.go) are a round of the scheduler and the run of a job.
-- Engine (cli/engine). `EventHub` (event_hub.go), where a Publish is two steps.
-- Queue (cli/queue). `Lanes` (lanes.go), the goroutines as a step relation.
-- Llm (cli/llm). `TokenMonitor` (token_monitor.go). `Gateway` (gateway.go) has the state, the routing
--   (route, complexityScore) and the cache (getCached, putCached); `Prompt` what is cut from a long
--   prompt, `Ask` the providers' answers (generateLocal, generateOpenAI, generateAnthropic), `Generate`
--   and `Stream` the two ways to ask; `Fresh`, `Recent`, `Origin` and `Enough` hold the theorems. What
--   the gateway uses of the outside is the record `Outside`.
--
-- Tools (cli/tools/executor.go). `Run` is the way of a tool's call (Run) through the agent's list of tools
--   and the approval manager of `Approval`; `Path` is safePath; `Executor`, `Subagents`, `CronTools` and
--   `Image` have the tools, `Schemas` what an agent is told of (ListSchemas), and `World` what they use
--   of the outside, whose state is of any type; `Guard`, `Writes` and `Path.Inside` hold the theorems.
--
-- Times are nanoseconds from Go's zero time, and each operation takes the readings of the clock that
-- it makes as arguments. A Go map is an association list (`Prelude.Dict`). A Go string is a text of
-- characters where it is compared, trimmed or looked up, and a list of bytes where it is cut at byte
-- positions; the functions of the package `strings` are in `Prelude.Text`, ToLower on ASCII letters.
-- Go `int`s that are only compared with positive bounds are numbers, and 0 stands for every negative
-- value; durations of a rule are computed in 64 bits, with wrap-around. A token of a bucket is
-- counted in parts of 1 / (60 * 10^9), so that the refill of a nanosecond is a whole number: the
-- float64 arithmetic is done exactly. Rates and sizes of buckets are whole numbers. Loops are
-- recursions on their list; ChunkText takes the text's length as fuel, and its theorem shows that
-- this is enough; a field's loops have 128 rounds for at most 60 values, Next has a round for each
-- minute up to its deadline, and the loops over a job's interval take the number of rounds as an
-- argument, since they need not end; the summaries of summaries of a long prompt take the number of
-- its lines as fuel, which is enough; the loops that cut a message take its length, since each round
-- cuts a byte at least. A shared channel has a number, and what other goroutines do in between is a
-- sequence of steps.
--
-- Not modelled: HTTP handlers, the database, processes and files, the terminal and web interfaces,
-- Go's readers of times and durations, and what the other components of the repository do; the
-- manifest names them one by one.
pub mod Prelude
pub mod Approval
pub mod Gateway
pub mod Scheduler
pub mod Engine
pub mod Llm
pub mod Queue
pub mod Tools
