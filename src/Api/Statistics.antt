-- ===== src/Api/Statistics.antt =====
-- completion_aggregator/api/v1/views.py: `CourseLevelCompletionStatsView`.
use openedx_completion_aggre.Prelude.{
  ℕ, String, ◌&&◌, not, Option, none, some, List, [], ◌∷◌, ◌==◌, elem, length, map, select, str_eq,
  if◌then◌else◌, not_found, value_error, Result, ok, raise, ◌>>=◌,
}
use openedx_completion_aggre.Float.{Float}
use openedx_completion_aggre.Platform.{CourseKey}
use openedx_completion_aggre.Models.{Aggregator, Database}
use openedx_completion_aggre.Api.{
  CourseEnrollment, Request, Site, user_enrollments, get_course_enrollments, get_requested_fields,
  get_queryset,
}

-- The means of a course; `none` is a null of the database.
pub record CompletionStatistics (F : Type 0) : Type 0 where
  pub earned : Option F
  pub possible : Option F
  pub percent : Option F

module _ {F : Type 0} ⦃fl : Float F⦄ where
  abbrev pub sum_of : (Aggregator F → F) → List (Aggregator F) → F
  sum_of value [] = fl.nought
  sum_of value (row ∷ rows) = fl.plus (value row) (sum_of value rows)

  -- The aggregates over the rows, for a number of enrollments.
  unfoldable pub statistics_of : ℕ → List (Aggregator F) → CompletionStatistics F
  statistics_of count [] = record { earned = none; possible = none; percent = none }
  statistics_of count (row ∷ rows) =
      let earned = sum_of (λ r. r.earned) (row ∷ rows) in
      let possible =
        fl.over (sum_of (λ r. r.possible) (row ∷ rows)) (fl.of_int (length (row ∷ rows))) in
      let expected = fl.times possible (fl.of_int count) in
      record {
        earned = some (fl.over earned (fl.of_int count));
        possible = some possible;
        percent = if fl.eq expected fl.nought then none else some (fl.over earned expected);
      }

  -- `CourseLevelCompletionStatsView.get`; a `cohorts` that is no number is `some none`.
  unfoldable pub course_statistics :
      Site F
      → Request
      → Option CourseKey
      → List String
      → Option (Option ℕ)
      → Database F
      → Result (CompletionStatistics F)
  unfolding get_requested_fields get_course_enrollments user_enrollments get_queryset statistics_of
  course_statistics site request raw_course_key roles_to_exclude raw_cohort db = do
    course_key ← (elim raw_course_key [ none ↦ raise not_found | some key ↦ ok key ])
    _ ← get_requested_fields site.platform request
    cohort_filter ← (elim raw_cohort [
      | none ↦ ok none
      | some none ↦ raise value_error
      | some (some cohort) ↦ ok (some cohort)
    ])
    let enrollments =
        select (λ e. not (site.has_role roles_to_exclude e.user))
          (get_course_enrollments course_key (user_enrollments none site.course_enrollments))
    let included : List CourseEnrollment = elim cohort_filter [
      | none ↦ enrollments
      | some cohort ↦ select (λ e. not (site.in_cohort cohort e.user)) enrollments
    ]
    queryset ← get_queryset site.platform request db.aggregators
    ok (
        statistics_of (length included) (
          select
            (λ (row : Aggregator F).
              (row.course_key == course_key)
              && (str_eq row.aggregation_name "course"
                  && elem row.user.id (map (λ (e : CourseEnrollment). e.user.id) included)))
            queryset))
