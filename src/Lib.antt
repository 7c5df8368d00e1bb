-- ===== src/Lib.antt =====
-- A verification library for concx (the Go packages under pkg/): structured goroutines (nest), job
-- schedulers with bounded queues (schedx), observable values (chanx), and the recipes on top of them
-- (orch).
--
-- Parts, and the files that model them:
--   Codex.antt        the error codes (pkg/nest/error.go, pkg/schedx/error.go, pkg/orch/pipe/error.go)
--                     and, as the record `Codex`, what the program relies on of the error library
--                     github.com/xoctopus/x/codex and of the standard `errors` and `context`.
--   Nest.antt         pkg/nest/nest.go: `Options`, `State` (the struct `nest` with what its two
--                     contexts know), `new`, `spawn_locked` (Spawn), `cancel_locked` and
--                     `advance_phase` (Cancel, step by step), `watch` (the goroutine of New).
--                     Nest/Invariant, Closing, Progress, Hooks, Owner and Past hold the proofs.
--   Schedx/Tasks      the interface `Tasks` of pkg/schedx/types.go, with the laws of the two containers
--                     of github.com/xoctopus/x that implement it, which are parameters.
--   Schedx/Options    pkg/schedx/option.go for the scheduler; Options/Settings: lists of settings.
--   Schedx/Retrievable
--                     the options of the retrievable scheduler, and (Result) `result` of
--                     pkg/schedx/retrievable_scheduler.go with `finish` and `Result` as steps.
--                     Retrievable/System: the scheduler itself, the pool with `dismiss` as steps;
--                     there a `finish` is one step. An error may be stored as a cause after one of
--                     another type (`atomic.Value` would panic). Its children hold the proofs.
--   Schedx/Canceled   `wrapCanceled` of pkg/schedx/error.go.
--   Schedx/Pool       what pkg/schedx/scheduler.go and pkg/schedx/retrievable_scheduler.go have in
--                     common: the shared fields (`Pool`), Push (`push_step`) and the worker's loop
--                     (`work_step`) as atomic steps; Pool/System has Run and Close, and any number of
--                     goroutines that call the three, over one pool and its nest. Pool/Counts,
--                     Pending, History, Conservation and Invariant hold the proofs about all histories,
--                     Pool/Staffing, Runners and Workers those about the number of workers and the nest's count
--                     of them, Pool/Past that only the step at its hook takes a close past it.
--   Schedx/Scheduler  the scheduler of pkg/schedx/scheduler.go: its hooks of the nest, its exit
--                     callback and the end of `do`; its theorems are in Scheduler/.
--   Chanx/Lifetime    pkg/chanx: the fields `done` and `err` with `Done` and `CancelCause`, which
--                     observer.go and subject.go both have.
--   Chanx/Observer    pkg/chanx/observer.go: `Send`, the goroutine of `NewNotifiableObserver` (the
--                     pump), and the readers of `Value`. Observer/Order and Observer/Progress: proofs.
--   Chanx/Subject     pkg/chanx/subject.go: `Send`, `Subscribe` with its goroutine, `Observe`, and
--                     `CancelCause` with its loop. Subject/Delivery, Members and Cascade: proofs.
--   Orch/Piper        pkg/orch/piper: `Exec` to `Exec8` and `ExecEx` to `ExecEx8`, with the effects of
--                     the operators passed on as a state; Piper/Laws holds the proofs.
--   Orch/Pipe         pkg/orch/pipe: Errors (error.go), Ticket (ticket.go as steps), Stages (`execute`,
--                     `summary` and `SimpleNode.execute` of node.go), Parallel (`ParallelNode.execute`
--                     as steps, with proofs in Parallel/), Lifetime (orch.go, whose functions take the
--                     channel of their receiver, and of pipe.go the options, the steps of `shutdown`
--                     and `Push`, which takes all that it loads at one moment; Lifetime/Assembly has
--                     the calls that put a pipeline together), Run (`Run`, `Close` and `drive` of
--                     pipe.go as steps, where the test of the lifetime and the assignments after it
--                     are one; proofs in Run/).
--   Orch/Cron         pkg/orch/cron: option.go, and of cron.go `defaultOption`, the settings of the
--                     scheduler in `newCron`, and `trigger`; Schedule (schedule.go), Loop (`loop`
--                     over a clock that does not go back), Closing (`Close`).
--
-- Concurrency is modelled by interleaving: an event is one atomic step of one goroutine (a load, a
-- store, a compare-and-swap, an operation on the container, a lock or unlock), a history is any list
-- of events, and a step that has to wait leaves the state as it is. So a theorem about all histories
-- is one about all schedules, and no fuel is involved. `context` values are the cause with which they
-- ended, if they have. `int`, `int64` and `time.Duration` are integers without bounds: the counters
-- are far from 2 ^ 63.
--
-- Not modelled: the pumps of a pipeline's stages with their channels and scheduler in one system; what
-- a cron's scheduler does with the ticks (that is Schedx/Scheduler); values carried by contexts and
-- their deadlines, real time (a timer may fire at any moment, unless a model has a clock), panics in
-- callbacks, generated code, and the programs under internal/. What the user's job does is an outcome
-- chosen by the history.
mod Prelude
pub mod Chanx
pub mod Codex
pub mod Nest
pub mod Orch
pub mod Schedx
