-- ===== src/Examples/Requests.antt =====
-- The views on small requests.
use openedx_completion_aggre.Prelude.{
  ℕ, String, ◌≡◌, refl, subst, none, some, List, [], ◌∷◌, ◌++◌, All, In, select, true, false, ok,
  raise, validation_error, ◌==◌,
}
use openedx_completion_aggre.Float.{thousandths}
use openedx_completion_aggre.Platform.{User}
use openedx_completion_aggre.Models.{Aggregator, Database}
use openedx_completion_aggre.Serializers.{
  AggregatorAdapter, is_aggregation_name, is_stale, adapter_init, add_all, get_named,
}
use openedx_completion_aggre.Serializers.Adding.{under, add_all-select}
use openedx_completion_aggre.Api.{
  CourseEnrollment, Request, Site, parse_aggregator, list_completions,
}
use openedx_completion_aggre.Api.Listing.{IsEnrolled, list_completions-IsEnrolled}
use openedx_completion_aggre.Api.Statistics.{CompletionStatistics, statistics_of, course_statistics}
use openedx_completion_aggre.Api.Counting.{is_counted, course_statistics-select}
use openedx_completion_aggre.Api.Access.{parse_aggregator-IsOwn}
use openedx_completion_aggre.Api.Presenting.{Shown}
use openedx_completion_aggre.Api.Legacy.{
  Courses, no_float, too_large, not_a_number, infinite, number,
}
use openedx_completion_aggre.Examples.{learner, platform, lms, empty_database}

abbrev other_learner : User
other_learner = record { id = 8; username = "bo" }

abbrev course_row : User → Aggregator ℕ
course_row user = record {
  user = user;
  course_key = 9;
  aggregation_name = "course";
  block_key = 1;
  earned = 500;
  possible = 2000;
  percent = 250;
  last_modified = 20;
  created = 21;
  modified = 21;
}

abbrev empty_adapter : AggregatorAdapter ℕ
empty_adapter = record { user = learner; course_key = 9; aggregators = [] }

add_all-select_example :
    (adapter' : AggregatorAdapter ℕ) × (add_all platform (course_row learner ∷ []) empty_adapter
      ≡ ok adapter')
    × ((name : String)
        → get_named name adapter'.aggregators
          ≡ get_named name empty_adapter.aggregators
            ++ select (under platform name) (course_row learner ∷ []))
add_all-select_example = add_all-select platform (course_row learner ∷ []) empty_adapter (refl, tt)

abbrev site : Site ℕ
site = record {
  platform = platform;
  lms = lms;
  cached = λ user course_key root_block. none;
  is_staff = λ user. false;
  find_user = λ name. none;
  lower = λ name. name;
  course_enrollments =
      record { user = learner; course_id = 9; is_active = true }
      ∷ record { user = other_learner; course_id = 9; is_active = true }
      ∷ [];
  mobile_available = λ course_key. true;
  paginate = ok;
  from_scratch = false;
  has_role = λ roles user. false;
  in_cohort = λ cohort user. false;
}

abbrev request : Request
request = record {
  user = learner;
  username = some "ana";
  requested_fields = "chapter" ∷ [];
  mobile_only = false;
}

abbrev database : Database ℕ
database = record empty_database {
  aggregators = course_row learner ∷ course_row other_learner ∷ [];
}

abbrev answered : AggregatorAdapter ℕ
answered = record {
  user = learner;
  course_key = 9;
  aggregators = ("course", course_row learner ∷ []) ∷ [];
}

parse_aggregator_answers :
    parse_aggregator site request (some 9) [] none database ≡ ok (answered ∷ [])
unfolding parse_aggregator is_aggregation_name is_stale adapter_init
parse_aggregator_answers = refl

whole_page :
    (rows page : List CourseEnrollment)
    → ok rows ≡ ok page
    → (e : CourseEnrollment) → In e page
    → In e rows
whole_page rows page h e m = let same : page ≡ rows = cc in subst (In e) same m

parse_aggregator-IsOwn_example : All (Shown (λ user k. (user.id ≡ 7) × (k ≡ 9))) (answered ∷ [])
parse_aggregator-IsOwn_example =
    parse_aggregator-IsOwn site request database 9 [] none (answered ∷ []) refl whole_page
      parse_aggregator_answers

list_completions_answers : list_completions site request database ≡ ok (answered ∷ [])
unfolding list_completions is_aggregation_name is_stale adapter_init
list_completions_answers = refl

list_completions-IsEnrolled_example :
    All
      (Shown (λ user k. (user.id ≡ 7) × IsEnrolled site request database learner k))
      (answered ∷ [])
list_completions-IsEnrolled_example =
    list_completions-IsEnrolled site request database (answered ∷ []) refl whole_page
      list_completions_answers

-- The other learner is in the cohort, and left out.
abbrev cohort_site : Site ℕ
cohort_site = record site { in_cohort = λ cohort user. user.id == 8 }

abbrev learner_statistics : CompletionStatistics ℕ
learner_statistics = record { earned = some 500; possible = some 2000; percent = some 250 }

course_statistics_answers :
    course_statistics cohort_site request (some 9) [] (some (some 3)) database
    ≡ ok learner_statistics
unfolding course_statistics statistics_of is_aggregation_name
course_statistics_answers = refl

course_statistics-select_example :
    course_statistics cohort_site request (some 9) [] (some (some 3)) database
    ≡ course_statistics cohort_site request (some 9) [] (some (some 3)) (record database {
      aggregators =
          select
            (is_counted cohort_site [] (some (some 3)) 9)
            (course_row learner ∷ course_row other_learner ∷ []);
    })
course_statistics-select_example =
    course_statistics-select cohort_site request 9 [] (some (some 3)) database

-- A table of one value.
abbrev one_value : Courses ℕ ℕ
one_value = record {
  is_enrolled_in = λ user course_key. true;
  has_item = λ block_key. true;
  has_run = λ block_key. true;
  replace_course = λ block_key course_key. block_key;
  submit = λ user block_key completion s. (elim completion [
    | no_float ↦ (raise validation_error, s)
    | too_large ↦ (raise validation_error, s)
    | not_a_number ↦ (raise validation_error, s)
    | infinite ↦ (raise validation_error, s)
    | number value ↦ (ok true, value)
  ]);
}
