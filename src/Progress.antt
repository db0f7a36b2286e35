-- ===== src/Progress.antt =====
-- `_migrate_batch` (completion_aggregator/tasks/aggregation_tasks.py): the timestamps of the table
-- `progress_coursemodulecompletion` are copied to the block completions that have none.
--
-- The two tables are lists of rows. A zero date is the number 0, which is what `NOT modified` finds;
-- `UPDATE_SQL` takes the first row of the other table with the keys.
pub mod Migrating
use openedx_completion_aggre.Prelude.{
  ℕ, zero, suc, Bool, ◌&&◌, Option, none, some, List, [], ◌∷◌, ◌==◌, elem, map, select,
  if◌then◌else◌,
}
use openedx_completion_aggre.Platform.{Time, CourseKey, BlockKey}

-- The columns of `completion_blockcompletion` that are read or written.
pub record CompletionRow : Type 0 where
  pub id : ℕ
  pub user_id : ℕ
  pub block_key : BlockKey
  pub course_key : CourseKey
  pub created : Time
  pub modified : Time

-- The columns of `progress_coursemodulecompletion` that are read.
pub record ProgressRow : Type 0 where
  pub user_id : ℕ
  pub content_id : BlockKey
  pub course_id : CourseKey
  pub created : Time
  pub modified : Time

-- The row of the other table that `UPDATE_SQL` joins.
unfoldable pub progress_of : List ProgressRow → CompletionRow → Option ProgressRow
progress_of [] row = none
progress_of (p ∷ rest) row =
    if (row.user_id == p.user_id)
      && ((row.block_key == p.content_id) && (row.course_key == p.course_id))
    then some p
    else progress_of rest row

-- `UPDATE_SQL` on one row.
unfoldable pub update_row : List ProgressRow → List ℕ → CompletionRow → CompletionRow
unfolding progress_of
update_row progress ids row =
    if elem row.id ids
    then (elim (progress_of progress row) [
      | none ↦ row
      | some p ↦ record row { created = p.created; modified = p.modified }
    ])
    else row

abbrev pub update_rows : List ProgressRow → List ℕ → List CompletionRow → List CompletionRow
update_rows progress ids = map (update_row progress ids)

-- `WHERE NOT modified`
abbrev pub unmodified : List CompletionRow → List CompletionRow
unmodified = select (λ row. row.modified == 0)

-- The ids of the first `batch_size` of some rows.
unfoldable pub take_ids : ℕ → List CompletionRow → List ℕ
take_ids zero rows = []
take_ids (suc n) [] = []
take_ids (suc n) (row ∷ rows) = row.id ∷ take_ids n rows

-- `_migrate_batch`: `none` if the loop goes on after so many rounds.
unfoldable pub migrate_batch :
    ℕ → ℕ → List ProgressRow → List CompletionRow → Option (List CompletionRow)
unfolding take_ids update_row
migrate_batch zero batch_size progress rows = none
migrate_batch (suc rounds) batch_size progress rows = elim (take_ids batch_size (unmodified rows)) [
  | [] ↦ some rows
  | id ∷ ids ↦ migrate_batch rounds batch_size progress (update_rows progress (id ∷ ids) rows)
]
