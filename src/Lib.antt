-- ===== src/Lib.antt =====
-- The state machines of OntoBDC: the worker that drives the processes, and the processes themselves.
--
-- A process of OntoBDC (the creation of a container, its update, the attachment of one that was copied
-- in, the learning of an entity, ...) is a statechart in a YAML file, an enumeration of states, and a
-- transition handler. The handler observes the world by an evaluator, which asks checks and the file
-- system, and brings it forward by capabilities, which a loader finds by their ids. The worker runs the
-- statechart by the third-party package sismic, whose guards, actions and contracts call the handler.
--
--   Prelude, Outcome   shared names; Python's exceptions as values, with the object that a piece of code
--                      changes passed on explicitly. A code that raises keeps its changes.
--   Yaml               what yaml.safe_load reads.
--   Machine            the contract between worker and processes: the enumerations with their
--                      `get_state`, and the handlers' operations.
--   Capability         PluginLoader.get and CapabilityExecutor.execute
--                      (src/ontobdc/shared/adapter/loader.py, capability.py).
--   Process            the fields that all handlers have.
--   Worker             src/ontobdc/shared/adapter/worker.py. Run has `work` and its parts, Metadata the
--                      functions on the file, Sismic the interface of sismic, its documented behaviour on
--                      flat charts, and the hypothesis `FollowsDocs` that an implementation behaves so.
--   Storage            src/ontobdc/storage/adapter/machine.py (Create, Update, Dataset) and
--                      src/ontobdc/storage/adapter/attachment (Attach, with Attach.Transaction).
--   Context            src/ontobdc/context/adapter/machine.py (Learning, Analysis).
--   Init               src/ontobdc/cli/adapter/machine.py.
--   View               src/ontobdc/view/adapter/machine.py.
--   Tests              concrete worlds.
--
-- In each process, State is the enumeration of */domain/machine/*.py and Chart the statechart of the
-- YAML file beside it, once as the document and once as sismic imports it. A handler is a `Process`: the
-- world `E`, the bound state and, for the update, the last transition. Its properties `current_state` and
-- `observed_state` are functions of it, its methods are functions of the same names, and `execute` runs
-- the worker and builds the answer. The world is abstract: what the code asks of it is the record
-- `Surroundings` of each process, with the paths' tests, the exit codes of the checks and the
-- capabilities that the loader found. The file system of the attachment's transactions is the record
-- `FileSystem`; `FollowsPosix` states what the code relies on of it. The names of temporary files are
-- computed on texts of paths (Attach.Paths). The operations on the command's context save its file and
-- can raise.
--
-- The worker's `while` loop recurs on fuel, and `none` says that the fuel ran out. Each round leaves a
-- state or raises, so a chart without cycles bounds the number of rounds by the length of its longest
-- path; the theorems on runs state the fuel that they need.
--
-- Not modelled: log lines, the texts of errors and of the answers' titles, the temporary file that hands
-- the cleaned document to sismic, the presentation metadata that the worker binds to states, the
-- discovery of plugins, the checks and capabilities themselves, the attachment's planner and graphs
-- (rdflib), the CLI's context, and the views, which render HTML.
pub mod Prelude
pub mod Outcome
pub mod Yaml
pub mod Machine
pub mod Capability
pub mod Process
pub mod Worker
pub mod Storage
pub mod Context
pub mod Init
pub mod View
pub mod Tests
