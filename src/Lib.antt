-- ===== src/Lib.antt =====
-- MiniFleet turns an intent into a design, has workers build it in their own worktrees, and merges
-- and verifies what they hand in. This library models its core and proves what the core promises.
--
-- The parts, and how they interact (paths from the root of the repository):
--   Model         minifleet/model.py: the dataclasses as records, the states as enumerations, the
--                 events of the ledger and the verdicts as data; the dicts of an intent and of
--                 its parts are in Codec. `scopes_overlap` is in Scheduler/Scope.
--   Intent        minifleet/intent.py: `validate`.
--   Architect     minifleet/architect.py: `find_cycles` (Graph), `topological_batches` (Batches),
--                 `repair` (Repairs), `check` and `design` (Review).
--   Gates         minifleet/gates.py: the output of commands (Output), `GateRunner.run` (Runner)
--                 and `verdict` (Verdicts).
--   RepairPacket  minifleet/repair.py: `failing_gates` and `build_repair_packet`.
--   Scheduler     minifleet/scheduler.py: `Scheduler` with `refresh`, `packets` and `dispatch`
--                 (Wave), `ingest` and `write_repair_packet` (Submit), `repair_failed` and
--                 `attribute_failures` (Repair), `integrate` and `verify` (Integrate);
--                 `ownership_conflicts` of minifleet/worktree.py is in Ownership.
--   Traceability  minifleet/ledger.py: `traceability` and `pending_tasks`.
--   Metrics       minifleet/fleetmetrics.py: the critical path and the counts of a run.
--   Worktree      minifleet/worktree.py: the methods of `Repo` over the git command; the choice of
--                 a branch (Attempts), and the changed files (Files, Paths).
--   Linksvc       examples/linksvc/linksvc, the link service that the fleet built: the table of
--                 storage.py (Store), analytics.py (Analytics), ratelimit.py (Limiter) and the
--                 HTTP surface api.py (Api).
--   Workers       minifleet/workers.py: `build_packet` and `make_dispatcher`; the dispatchers over
--                 processes, files and an endpoint (Runtime).
--   Command       minifleet/cli.py: `cmd_autopilot` (Autopilot), `cmd_run` behind its planning
--                 (OneShot) and `cmd_evolve` (Evolve).
--   Gatelib       minifleet/gatelib.py: the templates of gates.
--   Compile       minifleet/compile.py: the text of a document (Sections, Budgets), the components
--                 (Components), the gates (Gates), the acceptance criteria, and `compile_document`,
--                 which puts them together (Document); the model that refines a draft
--                 (Refiner).
--   Deploy        minifleet/deploy.py and `cmd_deploy` of minifleet/cli.py.
--   Prelude       shared names, tests, lists, texts, dicts and sorting.
--   Tests         inputs, runs on them, and the theorems at them.
-- The scheduler calls the architect for the order of the merges, the gates for evidence and for
-- the verdict, and the repair packets for the brief of a failed task. In the link service the HTTP
-- surface asks the limiter before a create, and reads and writes the table. The compiler takes its
-- gates from the gate library, and `validate` judges the intent that it makes.
--
-- How code corresponds to the model:
--   * a task object is named by its place in the list of the design's tasks: a call by id changes
--     the first task with the id, a merge the last one, as the dicts of the code do;
--   * an operation of the scheduler takes and gives `Fleet`: the run, the design, the world and
--     the store of metrics. The git wrapper, the workers and the files of the run are the
--     interface `Site`, and the shell, the file system and the JSON decoder the interface
--     `Machine`, both over an arbitrary world; a merge and a checkout can fail with a text. No law
--     is assumed of them. Whatever else raises ends the program and is not modelled;
--   * `Repo` runs over the git command and a file system that are parameters; its error keeps what
--     git printed. The scheduler uses it through `Site`;
--   * `fnmatch` is a parameter, and so are, for the gates, `Path.glob`, which can raise, `isdigit` and
--     `int` of a text, and, for the compiler, `pathlib`, `str.lower`, `float` of a
--     text and the digits of the regular expressions;
--   * the wave of workers is one change of the world, in whatever order they run;
--   * a text that the code formats is a value of `Message`, `Verdict`, `Problem` or `Reason` that
--     keeps what is formatted. Times are ticks, and events carry no time stamp;
--   * a double is a whole number of quanta, not-a-number or an infinity, and only compared. Where
--     the limiter and the store compute with doubles, the arithmetic is a parameter, and a theorem
--     names the laws of it that it needs;
--   * a call of the store or of the limiter is one step, since it holds a lock, so the threads are
--     the order of the steps. A request to the HTTP surface is one step, too: the races of two
--     requests on the counters, which no lock guards, are not modelled. `urlparse`,
--     `unquote`, `parse_qs`, `lower`, `isdigit`, `int`, the JSON decoder, the clocks and the random
--     codes are parameters; a number in a JSON text is a double. SQL is modelled by what the
--     statements say of the rows.
--
-- Fuel: the depth-first search has one unit for each name of the graph and one more, and the loop
-- over the waves one for each task. Both are enough: the search always ends, and each turn of the
-- loop takes a task off. The search for a free branch has one unit more than there are taken
-- names of later attempts,
-- and the critical path one more than there are ids of tasks.
--
-- The loop of the autopilot is bounded by its rounds, and the loop of `cmd_run` ends in its first
-- turn. The loops of a deployment have one unit more than the lines that are still to be read
-- and the ticks of the soak.
--
-- Not modelled: the other commands, which print and pass one call on, the reports in HTML and
-- Markdown, the policy checks, which walk the syntax trees of Python's ast module, the notes of the
-- compiler, the texts of packets, the JSON files and the dicts of runs, the sockets and the database
-- set-up of the link service, the experiments and the harnesses.
pub mod Prelude
pub mod Model
pub mod Intent
pub mod Architect
pub mod Gates
pub mod RepairPacket
pub mod Scheduler
pub mod Traceability
pub mod Metrics
pub mod Worktree
pub mod Linksvc
pub mod Workers
pub mod Command
pub mod Gatelib
pub mod Compile
pub mod Deploy
pub mod Tests
