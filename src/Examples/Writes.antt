-- ===== src/Examples/Writes.antt =====
-- Writing to a small database.
use openedx_completion_aggre.Prelude.{
  ℕ, ◌≡◌, ◌≢◌, refl, inl, List, [], ◌∷◌, lookup, In, some, true, false, ok, arith,
}
use openedx_completion_aggre.Float.{thousandths}
use openedx_completion_aggre.Models.{Aggregator, StaleCompletion, Database}
use openedx_completion_aggre.Models.Manager.{RowKey, get_values, pre_save, bulk_create_or_update}
use openedx_completion_aggre.Models.Writing.{Written, bulk_create_or_update-Written}
use openedx_completion_aggre.Models.Abstract.{view, write_all}
use openedx_completion_aggre.Models.Vendors.{IsValid, bulk_create_or_update-view}
use openedx_completion_aggre.Platform.{BlockKey}
use openedx_completion_aggre.Core.{get_affected_aggregators}
use openedx_completion_aggre.Core.Tree.{Lists}
use openedx_completion_aggre.Core.Owning.{row_key, IsOwned}
use openedx_completion_aggre.Core.Updating.{IsStored, update-IsStored}
use openedx_completion_aggre.Core.Updater.{update}
use openedx_completion_aggre.Core.Resolving.{update-In}
use openedx_completion_aggre.Utils.{bag_of_holding, get_percent}
use openedx_completion_aggre.Examples.{learner, platform, blocks, tree, updater, empty_database}
use openedx_completion_aggre.Examples.Updates.{updater-IsFresh, tree-IsCourse, completions-InRange}

abbrev pub chapter_row : Aggregator ℕ
chapter_row = record {
  user = learner;
  course_key = 9;
  aggregation_name = "chapter";
  block_key = 2;
  earned = 500;
  possible = 2000;
  percent = 250;
  last_modified = 20;
  created = 21;
  modified = 21;
}

chapter_row-get_values : get_values chapter_row ≡ ok chapter_row
unfolding get_values get_percent
chapter_row-get_values = refl

bulk_create_or_update-Written_example :
    (db' : Database ℕ) × (bulk_create_or_update platform (chapter_row ∷ []) empty_database
      ≡ (ok tt, db'))
    × ((k : RowKey) → Written (chapter_row ∷ []) [] k db'.aggregators)
bulk_create_or_update-Written_example =
    bulk_create_or_update-Written platform (chapter_row ∷ []) empty_database refl
      (chapter_row-get_values, tt)

-- A row that was recorded at moment 40, after the update started at moment 30.
abbrev late_row : StaleCompletion
late_row = record {
  id = 3;
  username = "ana";
  course_key = 9;
  block_key = some 4;
  force = false;
  resolved = false;
  modified = 40;
}

abbrev late_database : Database ℕ
late_database = record empty_database { stale_completions = late_row ∷ [] }

update-In_example : In late_row (update platform [] true updater late_database).1.stale_completions
update-In_example =
    update-In late_row platform [] true updater late_database (omega arith) (inl refl)

chapter_row-IsValid : IsValid chapter_row
unfolding pre_save get_percent
chapter_row-IsValid = record { valid = refl; percent = refl }

bulk_create_or_update-view_example :
    (db' : Database ℕ) × (bulk_create_or_update platform (chapter_row ∷ []) empty_database
      ≡ (ok tt, db'))
    × ((k : RowKey)
        → view db'.aggregators k ≡ write_all (chapter_row ∷ []) (view empty_database.aggregators) k)
bulk_create_or_update-view_example =
    bulk_create_or_update-view platform (chapter_row ∷ []) empty_database (chapter_row-IsValid, tt)

updater-IsOwned : IsOwned platform learner 9 updater
unfolding lookup
updater-IsOwned = record { user_is = refl; course_is = refl; owned = λ k obj h. cc }

update-IsStored_example :
    (keys : List BlockKey) × (db' : Database ℕ) × (update platform [] true updater empty_database
      ≡ (ok tt, db'))
    × ((k : BlockKey) → In k keys → IsStored platform updater db'.aggregators k)
    × ((key : RowKey)
        → ((k : BlockKey) → In k keys → key ≢ row_key platform learner 9 k)
        → view db'.aggregators key ≡ view empty_database.aggregators key)
    × (true ≡ true → get_affected_aggregators blocks [] ≡ bag_of_holding → Lists platform keys tree)
update-IsStored_example =
    update-IsStored platform tree updater [] true empty_database updater-IsFresh updater-IsOwned
      tree-IsCourse refl (omega arith) completions-InRange
