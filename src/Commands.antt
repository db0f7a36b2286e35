-- ===== src/Commands.antt =====
-- completion_aggregator/management/commands: the commands that feed and run the aggregator service.
use openedx_completion_aggre.Prelude.{ℕ, some, List, [], ◌∷◌, map, Result}
use openedx_completion_aggre.Platform.{CourseKey, User, Platform}
use openedx_completion_aggre.Models.{Database}
use openedx_completion_aggre.Batch.{Service, perform_aggregation, perform_cleanup}
use openedx_completion_aggre.Signals.{create_all_stale}

-- The options of `run_aggregator_service`; the delay and the routing key do not change what is
-- queued.
pub record ServiceOptions : Type 0 where
  pub batch_size : ℕ
  pub limit : ℕ

module _ {F : Type 0} where
  unfoldable pub run_aggregator_service : ServiceOptions → Service F → Result (Unit {0}) × Service F
  unfolding perform_aggregation
  run_aggregator_service options s = perform_aggregation options.batch_size (some options.limit) s

  unfoldable pub run_aggregator_cleanup : Service F → Service F
  unfolding perform_cleanup
  run_aggregator_cleanup s = perform_cleanup s

  -- `reaggregate_course`: `enrolled` is the users of the enrollments in a course, active or not.
  unfoldable pub reaggregate_course :
      Platform → (CourseKey → List User) → List CourseKey → Database F → Database F
  unfolding create_all_stale
  reaggregate_course platform enrolled [] db = db
  reaggregate_course platform enrolled (course_key ∷ rest) db =
      reaggregate_course platform enrolled rest (
        create_all_stale platform course_key
          (map (λ (user : User). user.username) (enrolled course_key)) db)
