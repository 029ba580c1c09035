-- ===== src/Lib.antt =====
-- Nimbus, a serverless function platform: verification of its core.
--
-- The program. A function is invoked over the gateway; the scheduler resolves the version that
-- serves the call, routes a session to a VM, and takes a VM from the pool of its runtime; a
-- workflow is a state machine over such invocations, which the workflow engine runs from a queue
-- with the help of its executor. Everything is kept in PostgreSQL and Redis.
--
-- The parts, and where they are modelled.
--
-- VmPool models internal/vmpool/pool.go: `RuntimePool` is the record of a runtime's VMs, in
-- which the heap, the map `all_vms` and the channel `warm_vms` are apart, since the code shares
-- the pointers between the last two. `AcquireVM` is `acquire_vm`, cut at its blocking select and
-- where the lock is not held (`resume_acquire`, `cold_start`); `ReleaseVM` is `release_vm`; the
-- rounds of the two workers and the statistics are in VmPool.Workers. VmPool.Steps has the
-- operations of callers and workers that come in any order as a step relation, a start being two
-- steps; VmPool.Queue has the queue through each operation; VmPool.Calls has single calls that
-- nothing comes in between, VmPool.Races two ways out of the bounds.
--
-- Scheduler.Ring models the consistent hash of internal/scheduler/session_router.go, FNV-1a and
-- the search of package sort included; the search is given as much fuel as the ring has entries,
-- which is enough (Scheduler.Ring.Search). Scheduler.Sessions models the affinity of sessions of
-- the same file; Redis is a library, so its commands are a record on a state of its own.
-- Scheduler.Router models internal/scheduler/router.go and `resolveVersion` of
-- internal/scheduler/scheduler.go; the random draw, the time and what the database returns are
-- arguments.
--
-- Workflow.Types and Workflow.Requests model internal/domain/workflow.go and
-- internal/domain/workflow_execution.go. Workflow.Path, Workflow.Merge and Workflow.Evaluator
-- model internal/workflow/evaluator.go and internal/workflow/jsonpath.go on decoded JSON
-- (Workflow.Json); a panic of the Go code is a result of its own. Workflow.Executor,
-- Workflow.Branches and Workflow.States model internal/workflow/executor.go: the scheduler, the
-- clock and the context are a record of services on a world, and a run keeps the writes and the
-- calls. The branches of a Parallel state run one after another, and their results arrive in any
-- order. A branch may loop for ever, so its rounds are bounded by fuel, and running out of it is
-- a result of its own. Workflow.Engine models internal/workflow/engine.go and the statements of
-- internal/storage/postgres.go on executions; a worker's run is a list of rounds
-- (Workflow.Engine.Worker), in which the worker's own writes may fail and what others write to
-- the store is any function. StringMatches goes through the text of the regular expression, and
-- of package regexp what matches such a text is modelled (Workflow.Evaluator). Below these,
-- Workflow.Executor.Ensures has postconditions of the executor's steps, Workflow.States.Targets
-- is about the states that a state names, and Workflow.Engine.Turns, Termination and Closed are
-- about the turns of a worker.
--
-- Scheduler.Work models the workers of internal/scheduler/scheduler.go: `process` and `fail` are
-- a run over a record of services, which keeps what a worker writes to the store, asks of the
-- pool and answers. Scheduler.Submit models `Invoke` and `InvokeAsync` with the queue, the queue
-- in Redis and the statements of internal/storage/postgres.go on invocations, and composes them
-- with the workers (`take_item` is a turn of `run`). Scheduler.Cron models
-- internal/scheduler/cron.go over a record of the library robfig/cron with its laws; the loop
-- over the pages of functions is by fuel, and one more than the functions are is enough
-- (Scheduler.Cron.Reload).
--
-- Domain.Function and Domain.Function.Requests model internal/domain/function.go,
-- Domain.Invocation models internal/domain/invocation.go.
--
-- Firecracker.Network models internal/firecracker/network.go: commands, the parser of addresses
-- and random bytes are a host. The search for an address is given one round per address of the
-- subnet, which is enough (Firecracker.Network.Allocation); Firecracker.Network.Leases and Steps
-- are about which VM has which address. Firecracker.Vsock models internal/firecracker/vsock.go
-- on the bytes of a connection, and Firecracker.Agent the agent of cmd/agent/main.go at its
-- other end; what runs functions is a record of services. The loop of a connection is by fuel,
-- and one more than the messages are is enough (Firecracker.Agent.Serving).
--
-- Debug models internal/debug/session.go on a heap of sessions that the manager and the handlers
-- share; a panic is a result of its own.
--
-- Auth models internal/auth with the handlers of internal/api/auth_handler.go. The JWT library
-- is a record of signing and reading with two laws, and SHA-256 is a function; Auth.Keys has the
-- table of API keys from internal/storage/postgres.go, and Auth.Owners the requests of several
-- users. The repository has no code that makes the middleware or these handlers.
--
-- StateApi models internal/state/handler.go with the script that Redis runs; Redis and gzip are
-- records with laws, which say what is read after a write while nothing expires. Lua's numbers
-- are doubles, so the laws on versions hold below 2^53.
--
-- Numbers. Go's int is an integer without bound, but where the code depends on the width: hashes
-- are taken modulo 2^32, and the index of a path is tested against the range of int64. Times are
-- numbers. A float64 is a parameter with the operations that the code uses.
--
-- Not modelled: the HTTP handlers but for the test of routing weights and those of keys and the
-- login, the statements of the store but for those on executions, invocations and API keys,
-- logging, metrics, configuration files, the runtimes inside the agent, and the drivers of
-- Docker, of the Firecracker process and of the compilers, which are input and output.
pub mod Prelude
pub mod VmPool
pub mod Scheduler
pub mod Workflow
pub mod Domain
pub mod Auth
pub mod Debug
pub mod Firecracker
pub mod StateApi
