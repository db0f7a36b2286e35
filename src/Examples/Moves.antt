-- ===== src/Examples/Moves.antt =====
-- Small tables that are copied and migrated, and a small stub course.
use openedx_completion_aggre.Prelude.{
  ℕ, ◌≡◌, ◌<◌, ◌↔◌, ◌⊎◌, refl, inl, inr, List, [], ◌∷◌, In, some, none, arith,
}
use openedx_completion_aggre.Models.{StaleCompletion}
use openedx_completion_aggre.Migrations.{greatest_id, copy_spans, copy_span, insert_rows, copy_data}
use openedx_completion_aggre.Migrations.Copying.{IsCopied, copy_data-IsCopied, copy_data-IsFrom}
use openedx_completion_aggre.Progress.{
  CompletionRow, ProgressRow, progress_of, unmodified, migrate_batch,
}
use openedx_completion_aggre.Progress.Migrating.{
  HasSource, migrate_batch-IsDone, migrate_batch-none,
}
use openedx_completion_aggre.Stub.{StubBlock, split, is_child, get_children, get_stub_aggregators}
use openedx_completion_aggre.Stub.Nesting.{get_children-aggregators}
use openedx_completion_aggre.Examples.Queues.{stale_row}

copy_data-IsCopied_example :
    IsCopied (stale_row 2) (copy_data (stale_row 1 ∷ []) (stale_row 2 ∷ stale_row 3 ∷ []))
unfolding greatest_id
copy_data-IsCopied_example =
    copy_data-IsCopied (stale_row 1 ∷ []) (stale_row 2 ∷ stale_row 3 ∷ []) (stale_row 2)
      (inr (inl refl)) (omega arith)

-- The older of two rows is the one that is moved.
stale_row-copy_data : In (stale_row 1) (copy_data (stale_row 1 ∷ stale_row 2 ∷ []) [])
unfolding copy_data greatest_id copy_spans copy_span insert_rows
stale_row-copy_data = inl refl

copy_data-IsFrom_example :
    (row : StaleCompletion) × (In row (stale_row 1 ∷ stale_row 2 ∷ [])
      × (row.id < greatest_id 0 (stale_row 1 ∷ stale_row 2 ∷ [])))
    × (stale_row 1 ≡ record row { id = 1 })
copy_data-IsFrom_example =
    copy_data-IsFrom (stale_row 1 ∷ stale_row 2 ∷ []) (stale_row 1) stale_row-copy_data

abbrev completion_row : ℕ → CompletionRow
completion_row user_id = record {
  id = 1;
  user_id = user_id;
  block_key = 4;
  course_key = 9;
  created = 0;
  modified = 0;
}

abbrev progress_row : ProgressRow
progress_row = record { user_id = 7; content_id = 4; course_id = 9; created = 11; modified = 12 }

completion_row-HasSource : HasSource (progress_row ∷ []) (completion_row 7)
unfolding progress_of
completion_row-HasSource undated = (progress_row, refl)

migrate_batch-IsDone_example :
    (rows' : List CompletionRow) × (migrate_batch 2 5 (progress_row ∷ []) (completion_row 7 ∷ [])
      ≡ some rows')
    × (unmodified rows' ≡ [])
migrate_batch-IsDone_example =
    migrate_batch-IsDone 5 (progress_row ∷ []) (omega arith) (refl, tt) 2 (completion_row 7 ∷ [])
      (completion_row-HasSource, tt) (omega arith)

completion_row_unknown : progress_of (progress_row ∷ []) (completion_row 8) ≡ none
unfolding progress_of
completion_row_unknown = refl

migrate_batch-none_example : migrate_batch 100 5 (progress_row ∷ []) (completion_row 8 ∷ []) ≡ none
migrate_batch-none_example =
    migrate_batch-none 5 (progress_row ∷ []) (completion_row 8) (omega arith) refl
      completion_row_unknown 100 (completion_row 8 ∷ []) (inl refl)

-- The blocks "c", "c-a" and "c-a-b".
abbrev top_id : List ℕ
top_id = 99 ∷ []

abbrev middle_id : List ℕ
middle_id = 99 ∷ 45 ∷ 97 ∷ []

abbrev leaf_id : List ℕ
leaf_id = 99 ∷ 45 ∷ 97 ∷ 45 ∷ 98 ∷ []

abbrev stub_block : List ℕ → StubBlock
stub_block block_id = record { course_key = 9; block_type = []; block_id = block_id }

abbrev stub_blocks : List StubBlock
stub_blocks = stub_block top_id ∷ stub_block middle_id ∷ stub_block leaf_id ∷ []

stub_block-get_children : In (stub_block leaf_id) (get_children stub_blocks (stub_block middle_id))
unfolding get_children is_child split
stub_block-get_children = inl refl

get_children-aggregators_example :
    In (stub_block top_id) (get_stub_aggregators stub_blocks (stub_block leaf_id)) ↔ (
      In (stub_block top_id) stub_blocks
      × ((top_id ≡ middle_id)
          ⊎ In (stub_block top_id) (get_stub_aggregators stub_blocks (stub_block middle_id))))
get_children-aggregators_example =
    get_children-aggregators stub_blocks (stub_block middle_id) (stub_block leaf_id)
      (stub_block top_id) stub_block-get_children
