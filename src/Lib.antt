-- ===== src/Lib.antt =====
-- A model of pkg/, the services of a distributed scheduler of jobs. Nodes form a raft cluster. The
-- leader splits the ids of the jobs that come in into ranges and gives each range to a node; a node
-- fetches its jobs, keeps a schedule of their next runs in memory, runs the due ones over HTTP, and
-- logs what became of them; the logs, like all writes to the database, go through the raft log.
--
-- The parts, with the files of this library and the code that they follow:
--   Queue, Queue/*: pkg/service/queue/queue.go, the ranges that the leader hands out. The state is
--     the record JobQueue; queue_jobs is Queue, queue is queue, assign_job_range_to_servers is
--     assignJobRangeToServers.
--   Executor, Executor/*: pkg/service/executor/executor.go. The state is the record JobExecutor with
--     the two maps, the pending invocations and the writes made; each method that holds the mutex is
--     a function from state to state. Schedule: ScheduleJobs. Fetch: QueueExecutions. Invoke: a tick
--     of ListenForJobsToInvoke, invokeJob, its debounced call (flush) and StopAll. Results:
--     handleSuccessJobs, handleFailedJobs, reschedule.
--   NextRun: pkg/models/job.go, the next time of a job.
--   Processor, Processor/*: RecoverJobs of pkg/service/processor/processor.go, when a node starts
--     again.
--   HttpJobs, HttpJobs/*: pkg/service/executor/executors/http_post.go, with RetryOnError of
--     pkg/utils/controllers.go and BatchByBytes of pkg/utils/batcher.go.
--   AsyncTasks, AsyncTasks/*: pkg/service/async_task/async_task.go. Reachable is the step relation of
--     the service and its listener.
--   RaftLog, RaftLog/*: pkg/fsm/fsm_actions.go, and Apply and ApplyBatch of pkg/fsm/fsm_store.go.
--   Snapshot, Snapshot/*: pkg/fsm/fsm_snapshot.go, and BytesFromSnapshot of pkg/utils/misc.go.
--   Sql, Sql/*: what the repositories share: statements and queries as data, the loop over rows, and the
--     Store, the record of what they call in database/sql, squirrel and the raft log.
--   SharedRepo, SharedRepo/*: pkg/shared_repo/shared_repo.go, the tables of logs and tasks that are
--     committed or not. Tables: the laws of a table. Memory: a store that has them.
--   Repository, Repository/*: pkg/repository, a module for each repository, with its function names.
--   Services, Services/*: pkg/service/credential, pkg/service/project and pkg/service/job. The state of
--     the last is the record JobService; the work that BatchInsertJobs gives to the dispatcher is the
--     record Insertion, and run_insertion runs it.
--   Node, Node/FanIn, Node/FanIn/*: the fan-in of pkg/service/node/node.go and node_http_client.go: a new
--     leader fetches the logs of the other nodes. Steps: Reachable, the interleavings of its goroutines.
--   Http/Middlewares, Http/Middlewares/*: pkg/http/server/middlewares, in front of every handler.
--   Batch: Batch of pkg/utils/batcher.go, the rows of a statement.
--   Models: the records of pkg/models. Base: lists, maps, 64-bit words and float64 values.
--
-- How they interact: the job service inserts jobs by their repository and hands them, with the ids that it
-- answers, to Queue, whose logs a node reads back and gives to QueueExecutions (Fetch), which calls ScheduleJobs
-- (Schedule). A tick moves due jobs to the pending ones, a flush hands them to HttpJobs, which calls back
-- one of the handlers of Results. Those put the job on the schedule again and write logs, through Batch and
-- RaftLog. The logs stay with the node, in the tables of SharedRepo, until a new leader fetches them (Node)
-- and commits them by the repositories.
--
-- Numbers: an int, int64 or uint64 is a pattern below 2 ^ 64, with its wrap-around written out; a
-- time is a number of nanoseconds; an id is a uint64. A map is an association list; where Go iterates
-- over a map and a later step can see in which order, the order is a parameter. math.Min and math.Floor go through float64, with its rounding.
--
-- Fuel: the loop of GetNextExecutionTime has now - start rounds, since each activation is later than the
-- one before; the loop of QueueExecutions has upper - lower rounds, and the loop of assignJobRangeToServers two
-- more than maxId - minId, since the lower bound of the ranges grows. The theorems about them state
-- that the result is reached.
--
-- How calls end: Outcome (Sql) has a value, an error, a panic, log.Fatal and a loop without an end; the
-- models without it have `none` for a panic.
--
-- Parameters: cron schedules, time zones, the clock, sqlite and squirrel, gzip, json, protobuf,
-- transactions, the raft library, HTTP. One run of a handler reads the clock and the database as they are at
-- its start; the locks of the database are left out. Hypotheses about them are named where a theorem uses
-- them: an activation, in the zone of a time, is later than it (a schedule without an activation within five
-- years is left out), Range visits each key once, gzip and protobuf give back what they were given, while
-- json decodes the parameters of a statement to some others; an INSERT appends its rows, a DELETE removes
-- those that it names, a SELECT by at most DBMaxVariableSize ids gives their rows in some order (Tables), the
-- ids of new rows follow each other (Numbers), a statement without a column keeps it (Specs), a DELETE of a
-- project deletes its jobs (Deletes), Rollback gives back the database on which the transaction began.
-- Queue, Executor and AsyncTasks have what the repositories answer as a parameter.
--
-- Two orders and a rounding: callbacks of one notification are called in the order of the list of
-- subscribers, where Go goes through a map; the quotient of two ids in assignJobRangeToServers is exact, as it
-- is for ids below 2 ^ 53, above which Go rounds it.
--
-- Not modelled: the HTTP server and its controllers, StartJobs of the processor, the raft bootstrap,
-- leader changes and handshakes of the node, sockets, configuration, secrets, and
-- goroutines as such: a call that the dispatcher or the debouncer makes later is a step of its own.
pub mod AsyncTasks
pub mod Base
pub mod Batch
pub mod Executor
pub mod Http
pub mod HttpJobs
pub mod Models
pub mod NextRun
pub mod Node
pub mod Processor
pub mod Queue
pub mod RaftLog
pub mod Repository
pub mod Services
pub mod SharedRepo
pub mod Snapshot
pub mod Sql
