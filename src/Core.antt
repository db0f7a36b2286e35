-- ===== src/Core.antt =====
-- completion_aggregator/core.py: `AggregationUpdater`, and what compat.py hands it.
--
-- An updater is a record. `self.aggregators` maps each block key to one object, which the code
-- changes in place and never replaces, so `self.updated_aggregators`, a list of the same objects,
-- is a list of their keys.
pub mod Tree
pub mod Recording
pub mod Totals
pub mod Structure
pub mod Updater
pub mod Completion
pub mod Calculation
pub mod Cache
pub mod Saving
pub mod Incremental
pub mod Resolving
pub mod Preserving
pub mod Keeping
pub mod Owning
pub mod Updating
pub mod Starting
use openedx_completion_aggre.Prelude.{
  ℕ, zero, suc, ◌+◌, String, max, Bool, true, false, ◌&&◌, not, Option, none, some, List, [], ◌∷◌,
  ◌++◌, ◌==◌, ltb, elem, if◌then◌else◌, Dict, lookup, insert, union, Exception, Result, ok, raise,
  value_error, key_error, recursion_error, ◌>>=◌,
}
use openedx_completion_aggre.Float.{Float}
use openedx_completion_aggre.Platform.{
  Time, CourseKey, BlockKey, User, CompletionMode, excluded, completable, aggregator, unknown,
  XBlockClass, Settings, Platform, member,
}
use openedx_completion_aggre.Utils.{Container, bag_of_holding, key_set, contains}
use openedx_completion_aggre.Models.{Aggregator, BlockCompletion}

-- `OLD_DATETIME`
abbrev pub old_datetime : Time
old_datetime = 0

pub record CompletionStats (F : Type 0) : Type 0 where
  pub earned : F
  pub possible : F
  pub last_modified : Time

pub record CourseBlocksEntry : Type 0 where
  pub children : List BlockKey
  pub aggregators : List BlockKey

pub record AggregationUpdater (F : Type 0) : Type 0 where
  pub user : User
  pub course_key : CourseKey
  pub root_block : BlockKey
  pub course_blocks : Dict CourseBlocksEntry
  pub block_completions : Dict (BlockCompletion F)
  pub aggregators : Dict (Aggregator F)
  pub updated_aggregators : List BlockKey
  -- How often the clock was read.
  pub ticks : ℕ

abbrev pub Action : Type 0 → Type 0 → Type 0
Action F A = AggregationUpdater F → Result (A × AggregationUpdater F)

-- `Aggregator.block_is_registered_aggregator`
unfoldable pub block_is_registered_aggregator : Platform → BlockKey → Bool
block_is_registered_aggregator platform block =
    member (platform.block_type block) platform.settings.block_types

-- The mode of a block in `update_for_block`: an unregistered block counts as excluded.
unfoldable pub completion_mode : Platform → BlockKey → CompletionMode
completion_mode platform block = elim (platform.load_class (platform.block_type block)) [
  | none ↦ excluded
  | some cls ↦ platform.get_mode cls
]

-- The keys of `affected_aggregators` for a non-empty `changed_blocks`.
unfoldable pub affected_keys : Dict CourseBlocksEntry → List BlockKey → List BlockKey → Container
affected_keys course_blocks [] keys = key_set keys
affected_keys course_blocks (block ∷ rest) keys = elim (lookup block course_blocks) [
  | none ↦ bag_of_holding
  | some entry ↦ affected_keys course_blocks rest (union keys entry.aggregators)
]

unfoldable pub get_affected_aggregators : Dict CourseBlocksEntry → List BlockKey → Container
unfolding affected_keys
get_affected_aggregators course_blocks [] = bag_of_holding
get_affected_aggregators course_blocks (block ∷ rest) =
    affected_keys course_blocks (block ∷ rest) []

module _ {F : Type 0} where
  abbrev pub stats_of : Aggregator F → CompletionStats F
  stats_of obj = record {
    earned = obj.earned;
    possible = obj.possible;
    last_modified = obj.last_modified;
  }

  unfoldable pub aggregator_needs_update :
      Platform → BlockKey → Time → Bool → AggregationUpdater F → Bool
  unfolding block_is_registered_aggregator
  aggregator_needs_update platform block modified force u =
      if block_is_registered_aggregator platform block
      then (elim (lookup block u.aggregators) [
        | none ↦ true
        | some agg ↦ if force then true else ltb agg.last_modified modified
      ])
      else false

module _ {F : Type 0} ⦃fl : Float F⦄ where
  abbrev pub no_stats : CompletionStats F
  no_stats = record { earned = fl.nought; possible = fl.nought; last_modified = old_datetime }

  unfoldable pub update_for_excluded : CompletionStats F
  update_for_excluded = no_stats

  unfoldable pub update_for_completable : Dict (BlockCompletion F) → BlockKey → CompletionStats F
  update_for_completable completions block = elim (lookup block completions) [
    | some completion ↦ record {
      earned = completion.completion;
      possible = fl.unit;
      last_modified = completion.modified;
    }
    | none ↦ record { earned = fl.nought; possible = fl.unit; last_modified = old_datetime }
  ]

  -- One round of the loop over the children.
  abbrev pub add_stats : CompletionStats F → CompletionStats F → CompletionStats F
  add_stats total stats = record {
    earned = fl.plus total.earned stats.earned;
    possible = fl.plus total.possible stats.possible;
    last_modified = max total.last_modified stats.last_modified;
  }

  abbrev pub percent_of : CompletionStats F → F
  percent_of total =
      if fl.eq total.possible fl.nought then fl.unit else fl.over total.earned total.possible

  -- The `Aggregator` that the update makes, or the one that it changes in place.
  unfoldable pub updated_aggregator :
      Platform → BlockKey → CompletionStats F → AggregationUpdater F → Aggregator F
  updated_aggregator platform block total u = elim (lookup block u.aggregators) [
    | none ↦ record {
      user = u.user;
      course_key = u.course_key;
      aggregation_name = platform.block_type block;
      block_key = block;
      earned = total.earned;
      possible = total.possible;
      percent = percent_of total;
      last_modified = total.last_modified;
      created = platform.clock (u.ticks + 1);
      modified = platform.clock u.ticks;
    }
    | some agg ↦ record agg {
      earned = total.earned;
      possible = total.possible;
      percent = percent_of total;
      last_modified = total.last_modified;
      modified = platform.clock u.ticks;
    }
  ]

  -- What `update_for_aggregator` does after the loop.
  unfoldable pub record_total :
      Platform → BlockKey → CompletionStats F → Bool → AggregationUpdater F → AggregationUpdater F
  unfolding aggregator_needs_update updated_aggregator
  record_total platform block total force u =
      if aggregator_needs_update platform block total.last_modified force u
      then record u {
        aggregators = insert block (updated_aggregator platform block total u) u.aggregators;
        updated_aggregators = u.updated_aggregators ++ block ∷ [];
        ticks = u.ticks + (elim (lookup block u.aggregators) [ none ↦ 2 | some _ ↦ 1 ]);
      }
      else u

  -- The loop over the children; `visit` is `self.update_for_block`.
  unfoldable pub update_for_children :
      (BlockKey → Action F (CompletionStats F))
      → List BlockKey
      → CompletionStats F
      → Action F (CompletionStats F)
  update_for_children visit [] total u = ok (total, u)
  update_for_children visit (child ∷ rest) total u = do
    (stats, u') ← visit child u
    update_for_children visit rest (add_stats total stats) u'

  abbrev pub recalculate :
      Platform
      → (BlockKey → Action F (CompletionStats F))
      → BlockKey
      → Bool
      → Action F (CompletionStats F)
  recalculate platform visit block force u = elim (lookup block u.course_blocks) [
    | none ↦ raise key_error
    | some entry ↦ do
      (total, u') ← update_for_children visit entry.children no_stats u
      ok (total, record_total platform block total force u')
  ]

  unfoldable pub update_for_aggregator :
      Platform
      → (BlockKey → Action F (CompletionStats F))
      → BlockKey
      → Container
      → Bool
      → Action F (CompletionStats F)
  update_for_aggregator platform visit block affected force u =
      if contains block affected
      then recalculate platform visit block force u
      else elim (lookup block u.aggregators) [
        | some obj ↦ ok (stats_of obj, u)
        | none ↦ recalculate platform visit block force u
      ]

  unfoldable pub update_for_block :
      Platform → ℕ → Container → Bool → BlockKey → Action F (CompletionStats F)
  unfolding update_for_excluded
  update_for_block platform zero affected force block u = raise recursion_error
  update_for_block platform (suc limit) affected force block u =
      elim (completion_mode platform block) [
        | excluded ↦ ok (update_for_excluded, u)
        | completable ↦ ok (update_for_completable u.block_completions block, u)
        | aggregator ↦
            update_for_aggregator platform (update_for_block platform limit affected force) block
              affected force u
        | unknown ↦ raise value_error
      ]
