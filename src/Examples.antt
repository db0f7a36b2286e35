-- ===== src/Examples.antt =====
-- A small course, and the theorems of the development at work on it and on small queues.
mod Updates
mod Writes
mod Structures
mod Queues
mod Caches
mod Requests
mod Systems
mod Moves
mod Responses
mod Starts
mod Deployments
use openedx_completion_aggre.Prelude.{
  ℕ, String, ◌==◌, Bool, true, false, Option, none, some, List, [], ◌∷◌, Dict, str_eq,
  if◌then◌else◌, Result, ok, raise, item_not_found,
}
use openedx_completion_aggre.Platform.{
  User, CompletionMode, completable, aggregator, XBlockClass, Settings, Platform,
}
use openedx_completion_aggre.Float.{thousandths}
use openedx_completion_aggre.Models.{Aggregator, BlockCompletion, Database}
use openedx_completion_aggre.Core.{CourseBlocksEntry, AggregationUpdater}
use openedx_completion_aggre.Core.Tree.{Course, completable_block, aggregator_block, nil, cons}
use openedx_completion_aggre.Core.Updater.{Lms}

abbrev pub learner : User
learner = record { id = 7; username = "ana" }

abbrev class_of : String → Option XBlockClass
class_of name =
    if str_eq name "html"
    then some (record { completion_mode = some completable })
    else some (record { completion_mode = some aggregator })

abbrev mode_of_class : XBlockClass → CompletionMode
mode_of_class cls = elim cls.completion_mode [ none ↦ completable | some mode ↦ mode ]

-- Block 1 is the course, block 2 a chapter, and all others are leaves.
abbrev type_of : ℕ → String
type_of key = if key == 1 then "course" else if key == 2 then "chapter" else "html"

abbrev pub platform : Platform
platform = record {
  settings = record {
    block_types = "course" ∷ "chapter" ∷ [];
    tracking_event_types = "course" ∷ [];
    async_aggregation = false;
  };
  sqlite = false;
  load_class = class_of;
  get_mode = mode_of_class;
  block_type = type_of;
  map_into_course = λ block course. block;
  recursion_limit = 100;
  clock = λ n. n;
}

abbrev pub blocks : Dict CourseBlocksEntry
blocks =
    (1, record { children = 2 ∷ 3 ∷ []; aggregators = [] })
    ∷ (2, record { children = 4 ∷ []; aggregators = 1 ∷ [] })
    ∷ (4, record { children = []; aggregators = 2 ∷ 1 ∷ [] })
    ∷ (3, record { children = []; aggregators = 1 ∷ [] })
    ∷ []

abbrev pub tree : Course
tree =
    aggregator_block 1
      (cons (aggregator_block 2 (cons (completable_block 4) nil)) (cons (completable_block 3) nil))

-- Half of block 4 is completed.
abbrev pub completions : Dict (BlockCompletion ℕ)
completions = (4, record { block_key = 4; completion = 500; modified = 20 }) ∷ []

abbrev pub updater : AggregationUpdater ℕ
updater = record {
  user = learner;
  course_key = 9;
  root_block = 1;
  course_blocks = blocks;
  block_completions = completions;
  aggregators = [];
  updated_aggregators = [];
  ticks = 30;
}

abbrev pub empty_database : Database ℕ
empty_database = record {
  aggregators = [];
  stale_completions = [];
  invalidations = [];
  events = [];
  next_id = 1;
  ticks = 30;
}

abbrev pub lms : Lms ℕ
lms = record {
  init_course_block_key = λ course_key. ok 1;
  init_course_blocks = λ user block. raise item_not_found;
  get_block_completions = λ user course_key. [];
}
