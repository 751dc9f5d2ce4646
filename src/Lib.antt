-- ===== src/Lib.antt =====
-- DRIGS, a scheduler and resource manager for GPU workloads: the core of drigs/ as functions on
-- explicit state.
--
-- A client submits jobs to a JobQueue, which tracks them and orders the waiting ones; a scheduler
-- reads the waiting jobs and the registered workers and proposes allocations; a ResourceManager
-- grants or refuses them and remembers which device is taken; the LocalController runs this as a
-- pass, starts the workloads and watches them; a registry watches the workers' heartbeats; a
-- SQLite backend mirrors jobs, workers and allocations. The topology graph scores groups of GPUs
-- for one of the schedulers. Execution backends launch and watch the processes of a job, on GPUs
-- that an isolation manager reserves; a dispatcher sends jobs to the agents of remote workers; a
-- failure detector watches the registry and the backends, and checkpoints let a job go on.
--
--   Models        drigs/core/models.py: the records and enumerations
--   Result        the exceptions that the methods raise, as values
--   Storage       drigs/core/storage.py: the tables, keyed by their primary keys
--   Admission     drigs/core/queue.py: AdmissionController
--   Queue         drigs/core/queue.py: the transition table and JobQueue; Queue/Invariant and
--                 Queue/Calls are about its shape, Queue/Lifecycle about one job's history,
--                 Queue/Updates about one update, Queue/Durable about the table that mirrors it,
--                 Queue/Durable/Restart about reading it back and Queue/Loading about reading it
--                 into a queue that tracks jobs
--   Resources     drigs/core/resource_manager.py: ResourceManager; Resources/Marking is about
--                 the tests and the marking of an allocation, Resources/Exclusive and
--                 Resources/Loading about which allocation holds a device, Resources/Devices and
--                 Resources/Tracked about which devices have a memory entry, Resources/Atomic
--                 about what an allocation and its return leave
--   Controller    drigs/core/controller.py: LocalController, with the scheduler and the execution
--                 backend of drigs/core/interfaces.py as the record World; Controller/Pass is
--                 about step, Controller/Invariant about every method, Controller/Cancel about
--                 cancel_job
--   Workers       drigs/workers: Registry is registry.py and Registry/Timeouts about
--                 check_timeouts; Agent is agent.py; Dispatcher is dispatcher.py, with
--                 Dispatcher/Dispatch on one dispatch and Dispatcher/Paired on a history of calls
--   Recovery      drigs/recovery: Rescheduler is rescheduler.py and Rescheduler/Requeue about which
--                 jobs are queued again; Detector is detector.py, Detector/Reports about one check
--                 and Detector/Once about a history of checks; Checkpoint is checkpoint.py and
--                 Checkpoint/Selection about the latest checkpoint and the cleanup
--   Diagnostics   drigs/diagnostics/analyzer.py: analyze_job; Diagnostics/Score is about the score
--   Execution     drigs/execution: Isolation is isolation.py, with Isolation/Reservations on its
--                 two tables, Isolation/Refinement on what they promise and Isolation/Environment
--                 on the variables of a process; Process is what the backends keep of a process;
--                 Native is native.py, with Native/Accounts on one call and Native/Settled on a
--                 history; Distributed is distributed.py, with Distributed/Launch on all ranks
--                 or none, Distributed/Rank on one rank's environment and Distributed/Status on
--                 the exit codes; Docker is docker.py, with Docker/Fallback on a
--                 missing daemon; Logs is stream_logs of
--                 native.py; Text is the record of the operations on str that they use
--   Hardware      drigs/hardware: Topology is topology.py, TopologyMatrix and TopologyGraph, and
--                 Topology/Clique about find_best_clique, Topology/Loading on its cells;
--                 Simulated is simulated.py, with
--                 Simulated/Links on its matrix and Simulated/Memory on the memory in use
--   Scheduler     drigs/scheduler: Placement is the loop that fifo.py, fit.py, priority.py,
--                 binpack.py, memory_aware.py and topology_aware.py share, Policies what they
--                 differ in, Gang is gang.py; the other files hold the proofs, which Safety
--                 collects for the whole pass; Best is about the worker with the best score,
--                 Gang/Atomic about gangs
--   Float         Python's float, a parameter
--   Prelude, Dict shared types, tests and lemmas; Dict is a dictionary in insertion order
--   Examples      concrete inputs
--
-- Each method is a function from the state before it to the state after it and its answer; the
-- locks of the source make each method one step, and a history is a list of calls. A method that
-- raises returns `raise`. A dictionary is an association list; a time is a number of
-- microseconds; uuid4(), the clock and the latest checkpoint are arguments. Sizes, counts and
-- priorities are natural numbers, as validated by the records. Every loop is over a finite list
-- but the one that streams a log, which runs on fuel, one unit a round; it waits for a process, so
-- how much is enough is said by its theorem.
--
-- Floats are the record `Float` of operations with no laws. The laws that a theorem needs, that
-- scores are not negative and that less-than is a strict order, are hypotheses of that theorem, and
-- Examples/Data gives an instance of both. The record `Text` has no laws either, and no theorem
-- asks for one. What the operating system answers to a launch is an argument, and so are the exit
-- codes, of which one theorem takes as a hypothesis that a process that has ended keeps its code.
--
-- Not modelled: SQL, JSON text and time stamps; logging; the threads and tasks that call the
-- controller's pass, the detector's check and the heartbeats in a loop; the signals that end a tree
-- of processes, the sweeper of orphans and read_logs; the discovery of real hardware; remote
-- shells, HTTP and the command line, which are effects outside the program; the specification
-- parser and the metrics; experiments and scripts. A failure callback is taken not to call the
-- detector back, and an agent to be used through the dispatcher alone.
pub mod Prelude
pub mod Dict
pub mod Execution
pub mod Models
pub mod Result
pub mod Storage
pub mod Admission
pub mod Queue
pub mod Float
pub mod Hardware
pub mod Scheduler
pub mod Examples
pub mod Resources
pub mod Workers
pub mod Controller
pub mod Recovery
pub mod Diagnostics
