-- ===== src/Lib.antt =====
-- The completion aggregator: a Django application for Open edX that keeps, for each learner and each
-- aggregator block of a course (the course, a chapter, a sequential, a vertical), how much of what
-- lies below is completed.
--
-- The parts, and how they interact:
--   - A saved BlockCompletion runs `completion_updated_handler` (completion_aggregator/signals.py),
--     which records a StaleCompletion. `mark_all_stale` (completion_aggregator/tasks) records one for
--     each active learner of a course and invalidates the course's group of cached structures.
--   - `perform_aggregation` (completion_aggregator/batch.py) collects the unresolved rows for each
--     enrollment, in windows of ids, and queues the task `update_aggregators`.
--   - The task makes an `AggregationUpdater` (completion_aggregator/core.py): it reads the structure
--     of the course, which `AggregatorAnnotationTransformer` (completion_aggregator/transformers.py)
--     has annotated, recalculates the aggregators recursively, writes them through
--     `AggregatorManager` (completion_aggregator/models.py) and resolves the stale rows.
--   - The views (completion_aggregator/api) choose enrollments and present aggregators through
--     `AggregatorAdapter` (completion_aggregator/serializers.py), which recalculates where rows are
--     stale; the structures come from `CacheGroup` (completion_aggregator/cachegroup.py).
--
-- The files:
--   - Prelude, with Prelude/Tests, Lists, Maps and Errors: shared names, Boolean tests on native
--     numbers, lists, Python's dictionaries and exceptions.
--   - Float: the arithmetic of Python's floats as an interface. Its laws hold for finite IEEE 754
--     values; an instance counts thousandths.
--   - Platform: identifiers, users, the XBlock registry, settings and the clock, as parameters.
--   - Utils: completion_aggregator/utils.py.
--   - Models, Models/Manager: completion_aggregator/models.py; tables are lists of rows, and a method
--     that writes takes a database and returns a result and a database. Models/Preserving is the
--     rule for what each method keeps, Models/Abstract the map that a table stands for;
--     Models/Table, Soundness, Vendors and Writing hold the proofs.
--   - Core, with Core/Structure, Core/Updater and Core/Cache: completion_aggregator/core.py. Core/Tree
--     describes a course by its tree, and its totals by recursion on the tree; Core/Recording,
--     Totals, Calculation, Completion, Saving, Incremental, Resolving, Owning, Updating, Starting and
--     Structure/Reachable hold the proofs; Core/Preserving and Core/Keeping are rules for what an update keeps.
--   - CacheGroup: completion_aggregator/cachegroup.py over an interface of Django's cache, with the
--     proofs in CacheGroup/Invalidation.
--   - Batch: completion_aggregator/batch.py; Batch/Collecting, Windows, Queue, Sources, Runs,
--     Draining and Oldest hold the proofs.
--   - Transformer: completion_aggregator/transformers.py, with the proofs in Transformer/Parents and
--     Transformer/Annotation.
--   - Signals: completion_aggregator/signals.py and completion_aggregator/tasks, with the proofs in
--     Signals/Completions and Signals/Running.
--   - Serializers: completion_aggregator/serializers.py, with the fields of a response in
--     Serializers/Response and the proofs in Serializers/Adding, Owning, Presenting and
--     Recalculating.
--   - Api, Api/Statistics: completion_aggregator/api/common.py and api/v1/views.py; Api/Legacy:
--     api/v0/views.py and the choice of the percentage in completion_aggregator/views.py. Api/Access,
--     Presenting, Listing, Counting and Api/Legacy/Posting hold the proofs.
--   - Commands: completion_aggregator/management/commands.
--   - System: the handlers, tasks and commands as steps on one state; System/Numbering, Invariant,
--     Steps, Pending, Serving, Locks and Limits hold the proofs. A run that fails keeps its lock, and
--     a lock that runs into its timeout is a step.
--   - Progress: `_migrate_batch` (completion_aggregator/tasks/aggregation_tasks.py), with the proofs in
--     Progress/Migrating.
--   - Migrations: `copy_data` (completion_aggregator/migrations/0004_index_stalecompletion.py), with the
--     proofs in Migrations/Copying.
--   - Plugin: `plugin_settings` of completion_aggregator/settings/common.py and settings/aws.py, and
--     completion_aggregator/xapi.py, with the proofs in Plugin/Events.
--   - Stub: the stub of edx-platform (test_utils/compat.py), with the proofs in Stub/Segments and
--     Stub/Nesting.
--   - Examples: concrete courses, queues, caches, writes and requests.
--
-- Recursion. `update_for_block` and `populate` recurse as deep as the course: they take the recursion
-- limit of Python as fuel, and raise RecursionError without it. A limit above the depth of the course
-- tree, or above the rank of the root in an acyclic structure, is enough. The loop over windows of ids
-- takes one more round than the greatest id, which is enough for a positive batch size, and so do the
-- loops of `copy_data`. `migrate_batch` takes its rounds as fuel: one more than there are rows without
-- a timestamp is enough where each of them has a row to take it from, and all those rows are dated.
--
-- Not modelled: edx-platform, Django, Celery and opaque_keys, which are parameters; that a key
-- survives being printed and parsed; logging, delays and routing of tasks; a negative batch size;
-- timeouts of cache entries; a queue that refuses a task, but for the steps of System; concurrent
-- writers, but for the steps of System and the rows that arrive during `copy_data`; the validators of
-- Django's own fields; the objects of xAPI statements, the load test command, administration, routes
-- and the other migrations.
pub mod Prelude
pub mod Float
pub mod Platform
pub mod Utils
pub mod Models
pub mod Core
pub mod CacheGroup
pub mod Batch
pub mod Transformer
pub mod Signals
pub mod Serializers
pub mod Api
pub mod Commands
pub mod System
pub mod Migrations
pub mod Progress
pub mod Stub
pub mod Plugin
mod Examples
