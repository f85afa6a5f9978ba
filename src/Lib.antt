-- ===== src/Lib.antt =====
-- Oxana is a job queue over Redis. A client stores the payload of a job in a hash and puts its
-- identifier into a queue, a list, or into the sorted set of scheduled jobs. A worker process claims
-- the identifier by moving it into a list of its own, runs the job, and then drops it, puts it into
-- the sorted set of retries, or moves its payload into the list of dead jobs. Loops promote the jobs
-- that are due, and take back the claims of processes that died.
--
-- The parts, with the files that model them:
--   Envelope, Envelope/Laws        oxana/src/job_envelope.rs and the hooks of Job in worker.rs
--   Errors                         oxana/src/error.rs
--   Keys, Keys/Distinct            oxana/src/storage_keys.rs, and namespace_queue and
--                                  processing_queue of storage_internal.rs
--   Redis, Redis/Memory            the server: an interface of commands with their laws, and an
--                                  instance in memory
--   Base                           numbers, decimal texts, lists, slices and sorting
--   Json                           serde_json: what is written is read back
--   Exec, Exec/Triple, Exec/Keeping  the asynchronous methods as actions on a world, and what they
--                                  keep
--   Scripts                        oxana/src/*.lua but enqueue.lua
--   Storage                        the operations on jobs in oxana/src/storage_internal.rs
--   Safety, Lossless               the places of jobs after these operations
--   Storage/Endings, Effects, Alone  what they leave when a client is alone
--   Storage/Deletion               delete_job of storage_internal.rs
--   Storage/Listing, Claimed       the lists of jobs in storage_internal.rs, and get_claimed_job
--   Storage/Revival, Upkeep        the revival of dead jobs, the wipes, and the stored configurations
--   Enqueue                        enqueue_chunk_w_conn and its callers in storage_internal.rs:
--                                  Enqueue/Chunk (snapshots), Script (enqueue.lua), Requests, Lists
--   Recovery                       resurrect and dead_process_ids_in of storage_internal.rs
--   Failures                       track_redis_result of storage_internal.rs
--   Cron                           cron_job_loop of storage_internal.rs, for a unique occurrence
--   Executor                       oxana/src/executor.rs
--   Queue                          oxana/src/queue.rs and runtime_queue_config of coordinator.rs
--   Control                        oxana/src/semaphores_map.rs: Control/Permits on its counts, Waiting
--                                  on the tasks in acquire
--   Coordinator                    oxana/src/coordinator.rs: Coordinator/Batcher, Batches on the task
--                                  that gathers a batch, Invalid, Split, Apart on its invalid jobs,
--                                  Pending (load, route and run of claimed jobs), Safe, Kept,
--                                  Watcher, Watching (the discovery of queues)
--   Registry                       oxana/src/worker_registry.rs
--   Collector                      oxana/src/result_collector.rs
--   Throttler                      oxana/src/throttler.rs
--   Dispatcher                     pop_queue_message of oxana/src/dispatcher.rs, and Dispatcher/Rounds
--                                  its run; Dispatcher/Claims, Keeping, Returning, Pop on the claim
--   Drainer                        oxana/src/drainer.rs; Drainer/Below, Counts, Ends on the end of a
--                                  drain and its counts
--   Metrics                        oxana/src/metrics.rs: Metrics/Fields (names of counters), Histogram,
--                                  Buffer, Consistent, Aggregate (sums over minutes), Sums, Written;
--                                  with Metrics/Lengths, Flush, Snapshots from storage_internal.rs
--   QueueStats                     oxana/src/storage_internal/queue_stats.rs; QueueStats/Lengths its
--                                  caller, QueueStats/Weights, Sums on the totals
--   Web/Pagination                 oxana-web/src/pagination.rs, with get_many of storage_internal.rs
--   Web/Queues, Web/Shown          the configuration of a queue as oxana-web/src/handlers.rs shows it
--   Examples                       concrete runs
-- Definitions have the names of the functions and types that they model.
--
-- A method is a function from a world to its result and the world after it. A world is the state of
-- the server and a list of turns, one for each round trip to come: what other clients do before it,
-- and whether it is answered, refused, or carried out while its answer is lost. A script is one round
-- trip; a pipeline without MULTI is one for each command. A statement over every world is one over
-- every interleaving with other clients and every failure of the connection. A stored
-- job has a place if its identifier stands in a list other than the one of dead jobs, or in one of the
-- sorted sets, and its payload does not name the list of dead jobs as its queue.
--
-- The loop of enqueue_chunk_w_conn has no bound in the source and runs on fuel here, since another
-- client may change a payload before each of its runs; it runs once where no job is replaced. The
-- loop of drain_queue runs on fuel too, and the length of the queue and one more is enough where
-- nothing else enqueues. The tasks that wait for a permit take steps, in any order, with those of
-- the permits and of the configuration; a notification wakes those that wait. A throttle is used in
-- two steps, as its pipelines are, with others in between. The dispatcher, the watchers and the loop on
-- a unique cron job run over lists of rounds. Counters have the width that they have in the source. Times are whole numbers of
-- the unit that each file names, and so are scores.
--
-- Not modelled: reports and logs, the task runtime, the storage facade, the rates and latencies, which
-- are floats, the export to Prometheus, the routes and templates of the web interface, the macros and
-- the MCP server.
pub mod Base
pub mod Errors
pub mod Dispatcher
pub mod Drainer
pub mod Envelope
pub mod Redis
pub mod Keys
pub mod Exec
pub mod Json
pub mod Scripts
pub mod Safety
pub mod Storage
pub mod Queue
pub mod Control
pub mod Failures
pub mod Cron
pub mod Executor
pub mod Enqueue
pub mod Coordinator
pub mod Registry
pub mod Collector
pub mod Throttler
pub mod Web
pub mod Recovery
pub mod Examples
pub mod Lossless
pub mod Metrics
pub mod QueueStats
