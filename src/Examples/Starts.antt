-- ===== src/Examples/Starts.antt =====
-- A learner whose chapter is stored and whose stale completion waits.
use openedx_completion_aggre.Prelude.{
  ℕ, String, ◌≡◌, refl, true, none, some, List, [], ◌∷◌, lookup, insert, All, In, map, select, ok,
  arith,
}
use openedx_completion_aggre.Float.{thousandths}
use openedx_completion_aggre.Platform.{BlockKey}
use openedx_completion_aggre.Models.{Aggregator, Database}
use openedx_completion_aggre.Core.{AggregationUpdater}
use openedx_completion_aggre.Core.Tree.{Lists}
use openedx_completion_aggre.Core.Completion.{InRange}
use openedx_completion_aggre.Core.Updater.{
  CacheEntry, init, course_structure, aggregators_by_block, completions_by_block,
  update_aggregators,
}
use openedx_completion_aggre.Core.Calculation.{IsUpdated}
use openedx_completion_aggre.Core.Updating.{IsStored}
use openedx_completion_aggre.Core.Starting.{update_aggregators-IsStored}
use openedx_completion_aggre.Serializers.{AggregatorAdapter, get_named, is_stale, adapter_init}
use openedx_completion_aggre.Serializers.Adding.{under}
use openedx_completion_aggre.Serializers.Recalculating.{adapter_init-IsUpdated}
use openedx_completion_aggre.Examples.{learner, platform, blocks, tree, lms, empty_database}
use openedx_completion_aggre.Examples.Queues.{stale_row}
use openedx_completion_aggre.Examples.Updates.{tree-IsCourse}
use openedx_completion_aggre.Examples.Writes.{chapter_row}

abbrev cached : CacheEntry
cached = record { course_blocks = blocks; root_block = 1 }

abbrev stale_database : Database ℕ
stale_database = record empty_database {
  aggregators = chapter_row ∷ [];
  stale_completions = stale_row 1 ∷ [];
}

abbrev started : AggregationUpdater ℕ
started = record {
  user = learner;
  course_key = 9;
  root_block = 1;
  course_blocks = blocks;
  block_completions = [];
  aggregators = (2, chapter_row) ∷ [];
  updated_aggregators = [];
  ticks = 30;
}

init-started : init platform lms (some cached) learner 9 none stale_database ≡ ok started
unfolding init course_structure aggregators_by_block completions_by_block insert
init-started = refl

none-InRange : InRange {F = ℕ} []
unfolding lookup
none-InRange k c h = cc

update_aggregators-IsStored_example :
    (keys : List BlockKey) × (db' : Database ℕ) × (update_aggregators platform lms
        (some cached)
        learner
        9
        []
        true
        stale_database
      ≡ (ok tt, db'))
    × ((k : BlockKey) → In k keys → IsStored platform started db'.aggregators k)
    × Lists platform keys tree
update_aggregators-IsStored_example =
    update_aggregators-IsStored platform lms (some cached) learner 9 stale_database started tree
      (refl, tt) init-started tree-IsCourse refl (omega arith) none-InRange

stale_database-is_stale : is_stale learner 9 stale_database.stale_completions ≡ true
unfolding is_stale
stale_database-is_stale = refl

adapter_init-IsUpdated_example :
    (adapter : AggregatorAdapter ℕ) × (updated : List (Aggregator ℕ)) × (adapter_init platform lms
        (some cached)
        stale_database
        learner
        9
        []
        none
        true
      ≡ ok adapter)
    × ((name : String) → get_named name adapter.aggregators ≡ select (under platform name) updated)
    × All (IsUpdated platform blocks []) updated
    × Lists platform (map (λ (a : Aggregator ℕ). a.block_key) updated) tree
adapter_init-IsUpdated_example =
    adapter_init-IsUpdated platform lms (some cached) stale_database learner 9 [] none started tree
      stale_database-is_stale (refl, tt) init-started tree-IsCourse refl (omega arith)
