-- ===== src/Lib.antt =====
-- Verification of RunSpool: the store of tasks, the state machine over it that every process (the
-- daemon's workers, the command line) runs against one SQLite database, and the runner of steps.
--
-- The parts, and the files that model them:
--   * Models, Models/Workflow: src/runspool/models.py: statuses, events, `WorkflowDef.next_step`.
--   * Text, Text/RoundTrip: what the code does with texts: f-strings of numbers, `int`,
--     `partition` and `rpartition` at a colon.
--   * Gate, Gate/Grants: src/runspool/engine/gate.py: `asked_value`, `grant_value`, `granted`.
--   * Store/Rows, Store/Columns, Store/Table: the rows of src/runspool/persistence/schema.py, the
--     columns that a statement may name, and the statements on a table.
--   * Store/World: src/runspool/persistence/connection.py: `Database.connect` as a transaction on a
--     world, in which other processes commit, SQLite may fail, and the clock moves on, between any
--     two transactions of the process. Store/Interleaving, Store/Gives, Store/Plain and, for a world
--     in which nobody interferes, Store/Quiet are the rules to reason about such methods.
--   * Store/Repository and its children: src/runspool/persistence/repository.py. `transition_tx` is
--     the block of `transition`, a compare-and-set. Spawning holds the hooks `result_writer` and
--     `spawner`, Queries the reads.
--   * Store/Items: src/runspool/persistence/work_items.py. Store/StepRuns: step_run_log.py.
--     Store/Events: event_log.py. Store/Artifacts: artifact_log.py.
--   * Machine/Outcome, Machine/Boundary: the outcomes of a step run and `_boundary` of
--     src/runspool/persistence/state_machine.py, one function for each outcome.
--   * Machine/Finish: `_move`, `finish_step` and the forced transitions, with their loops.
--   * Machine/Scheduler: `claim`, `skip_step`, `requeue_failed`, `_settle` and what uses it; Closed is
--     about the step runs of a task that was released.
--   * Machine/Actions: what users ask for. `user_action` is `_user_action`, and `decide_pause` and
--     the like are the inner `decide` functions.
--   * Engine/Artifacts and its children: src/runspool/engine/artifacts.py. Declarations is
--     `parse_types` and `contract_of`, Chain is `check_chain`, Recorded is `prepare_artifacts`.
--   * Engine/Children: src/runspool/engine/children.py: `plan_children`.
--   * Engine/Steps: src/runspool/engine/step.py and external.py: what a step is. The code of a step is
--     a `Script`: any tree of heartbeats and stop checks that ends with a result or an exception.
--   * Engine/Runner: src/runspool/engine/runner.py. Context holds the heartbeat and the stop check,
--     Admission is `_admit`, External is `_external`, Attempt is the `try` of `execute`, Endings is
--     what follows it, and Runner itself is `execute`. Held, Keeps, Ending, Conclusion, Live, Admitted and
--     Executes lead up to what becomes of the task; Refusal is about what is not run.
--   * Engine/Coordinator: src/runspool/engine/coordinator.py: `tick` and `reclaim_stale`, with the
--     claims of the round in Loads, Calls, Claims and Quota. Calls has the calls of a round in order.
--   * Kernel/Compose: src/runspool/kernel/compose.py: the plugin entries that layers of patches
--     build. Distinct and Composed lead up to what becomes of their ids.
--   * Kernel/Events: src/runspool/kernel/events.py: `waterfall`, of listeners that are trees of calls of
--     `next()` and removals of listeners. Once is about how often each is called.
--   * Tests: runs on concrete tasks and databases.
--
-- A method is a function from a world to its result, or the error that it raises, and the world that
-- it leaves. A transaction that raises leaves the database as it began. A hook (the parameter `also`
-- of `transition`) is a part of the transaction that calls it.
--
-- Bounds: the loops run `attempts` (5) rounds, `_ATTEMPTS` in the code, and `read_back` has 3 tries,
-- as in the code; after the last round the code goes on, and so does the model, so they are no fuel.
-- The digits of `n` are printed with fuel `n + 1`, one for each digit at least.
--
-- Not modelled: a timestamp is its number of seconds, of which the stored text keeps the order; a
-- JSON column is its text, and a metadata value knows only whether it can be encoded; `int` reads
-- plain digits; `repr` adds quotes only; the message of a refused write does not list the columns;
-- the ids that a `SpawnPlan` collects are those of the event; foreign keys are not checked;
-- the thread that refreshes the heartbeat while a step runs is one of the other writers of a world;
-- file system, hashing, gate, notifications and the code of steps are parameters; the notification
-- that counts spawned children is left out; runs that end while a round goes on are an environment
-- that takes them from the runs in flight. `ensure_next_id`, `list_items`, the migrations, the worker
-- pool, the rest of the plugin kernel, reading patch files and the command line are not part of the
-- model. The keys of a patch are texts; what is written in a number or a date is its text.
pub mod Prelude
pub mod Text
pub mod Models
pub mod Store
pub mod Gate
pub mod Machine
pub mod Engine
pub mod Kernel
pub mod Tests
