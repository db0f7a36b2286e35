-- ===== src/Migrations.antt =====
-- completion_aggregator/migrations/0004_index_stalecompletion.py: `copy_data`, which moves the stale
-- completions into a table with an index while the program writes to the old one.
--
-- The tables are lists of rows in the order of creation. What is written between the start and the
-- renaming is a parameter; the progress messages are left out.
pub mod Copying
use openedx_completion_aggre.Prelude.{
  ℕ, zero, suc, ◌+◌, min, max, Bool, ◌&&◌, List, [], ◌∷◌, ◌++◌, leb, ltb, length, select,
  if◌then◌else◌,
}
use openedx_completion_aggre.Models.{StaleCompletion}

-- `BATCH_SIZE`
abbrev pub copy_batch_size : ℕ
copy_batch_size = 5000

-- `WHERE id >= start AND id < end`
abbrev pub in_span : ℕ → ℕ → StaleCompletion → Bool
in_span start end row = leb start row.id && ltb row.id end

-- Inserted rows get the next ids of the table that they are inserted into.
unfoldable pub insert_rows : List StaleCompletion → List StaleCompletion → List StaleCompletion
insert_rows [] target = target
insert_rows (row ∷ rows) target =
    insert_rows rows (target ++ record row { id = suc (length target) } ∷ [])

-- `copy_sql`
unfoldable pub copy_span :
    ℕ → ℕ → List StaleCompletion → List StaleCompletion → List StaleCompletion
unfolding insert_rows
copy_span start end source target = insert_rows (select (in_span start end) source) target

-- `StaleCompletion.objects.order_by('-id')[0].id`, or `otherwise` if there is no row.
unfoldable pub greatest_id : ℕ → List StaleCompletion → ℕ
greatest_id otherwise [] = otherwise
greatest_id otherwise (row ∷ rows) = max row.id (greatest_id 0 rows)

-- A loop over `range(start, stop, BATCH_SIZE)` that copies from each of its values to what `end_of`
-- makes of it; `rounds` bounds the rounds.
unfoldable pub copy_spans :
    (ℕ → ℕ) → ℕ → ℕ → ℕ → List StaleCompletion → List StaleCompletion → List StaleCompletion
unfolding copy_span
copy_spans end_of zero start stop source target = target
copy_spans end_of (suc rounds) start stop source target =
    let rest =
      copy_spans end_of rounds (start + copy_batch_size) stop source
        (copy_span start (end_of start) source target) in
    if ltb start stop then rest else target

abbrev pub initial_copy : ℕ → List StaleCompletion → List StaleCompletion → List StaleCompletion
initial_copy initial_max_id =
    copy_spans (λ start. min (start + copy_batch_size) initial_max_id) (suc initial_max_id) 0
      initial_max_id

abbrev pub final_copy : ℕ → ℕ → List StaleCompletion → List StaleCompletion → List StaleCompletion
final_copy initial_max_id final_max_id =
    copy_spans (λ start. start + copy_batch_size) (suc final_max_id) initial_max_id final_max_id

-- The new table: `before` is the old one at the start, and `arrived` what was added to it until the
-- tables were renamed.
unfoldable pub copy_data : List StaleCompletion → List StaleCompletion → List StaleCompletion
unfolding greatest_id copy_spans
copy_data before arrived =
    let old = before ++ arrived in
    let initial_max_id = greatest_id 0 before in
    let final_max_id = greatest_id initial_max_id old in
    final_copy initial_max_id final_max_id old (initial_copy initial_max_id old [])
