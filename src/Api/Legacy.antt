-- ===== src/Api/Legacy.antt =====
-- completion_aggregator/api/v0/views.py, and the progress bar of completion_aggregator/views.py.
pub mod Posting
use openedx_completion_aggre.Prelude.{
  ℕ, String, Bool, true, false, ◌&&◌, ◌||◌, not, Option, none, some, List, [], ◌∷◌, ◌==◌, first,
  select, str_eq, if◌then◌else◌, Exception, not_found, does_not_exist, multiple_objects_returned,
  invalid_key, key_error, overflow_error, Result, ok, raise, ◌>>=◌,
}
use openedx_completion_aggre.Float.{Float}
use openedx_completion_aggre.Platform.{CourseKey, BlockKey, User, Platform}
use openedx_completion_aggre.Models.{Aggregator, Database}
use openedx_completion_aggre.Serializers.{AggregatorAdapter, belongs, adapter_init}
use openedx_completion_aggre.Api.{
  CourseEnrollment, Request, Site, user_enrollments, get_enrollments, is_enrolled, get_user,
  get_queryset, get_requested_fields, adapters_for,
}

-- `queryset.get(course_id=course_key)`
unfoldable pub get_course_enrollment : CourseKey → List CourseEnrollment → Result CourseEnrollment
get_course_enrollment course_key queryset =
    elim (select (λ e. e.course_id == course_key) queryset) [
      | [] ↦ raise does_not_exist
      | e ∷ [] ↦ ok e
      | e ∷ f ∷ rest ↦ raise multiple_objects_returned
    ]

abbrev pub found_or_404 : Bool → Result (Unit {0})
found_or_404 found = if found then ok tt else raise not_found

module _ {F : Type 0} where
  -- The property `user`, where a request without `username` is one for oneself.
  unfoldable pub effective_user : Site F → Request → Result User
  unfolding get_user
  effective_user site request =
      let by_name = (do (user, _) ← get_user site request; ok user) in
      elim request.username [
        | some name ↦ by_name
        | none ↦ if site.is_staff request.user then by_name else ok request.user
      ]

module _ {F : Type 0} ⦃fl : Float F⦄ where
  -- `CompletionListView.get`
  unfoldable pub list_completions_v0 :
      Site F → Request → Database F → Result (List (AggregatorAdapter F))
  unfolding effective_user user_enrollments get_enrollments get_queryset adapters_for
  list_completions_v0 site request db = do
    user ← effective_user site request
    let enrollments = get_enrollments (user_enrollments (some user) site.course_enrollments)
    paginated ← site.paginate (
        if request.mobile_only
        then select (λ e. site.mobile_available e.course_id) enrollments
        else enrollments)
    queryset ← get_queryset site.platform request db.aggregators
    adapters_for site db (λ e. user) (λ e. select (λ row. belongs user e.course_id row) queryset)
        none true paginated

  -- `CompletionDetailView.get`
  unfoldable pub detail_v0 :
      Site F → Request → Option CourseKey → Database F → Result (AggregatorAdapter F)
  unfolding effective_user user_enrollments is_enrolled get_course_enrollment get_queryset
      adapter_init
  detail_v0 site request raw_course_key db = do
    course_key ← (elim raw_course_key [ none ↦ raise invalid_key | some key ↦ ok key ])
    user ← effective_user site request
    let own = user_enrollments (some user) site.course_enrollments
    _ ← found_or_404 (is_enrolled course_key own)
    _ ← get_requested_fields site.platform request
    enrollment ← get_course_enrollment course_key own
    queryset ← get_queryset site.platform request db.aggregators
    adapter_init site.platform site.lms (site.cached enrollment.user enrollment.course_id none) db
        enrollment.user enrollment.course_id (select (λ row. belongs user course_key row) queryset)
        none true

-- The response of `CompletionBlockUpdateView.post`.
pub data Status : Type 0 where
  http_200_ok http_201_created http_400_bad_request http_404_not_found : Status

-- What `float(request.data.get('completion'))` makes of the request; `no_float` raises one
-- of the exceptions that are caught, `too_large`, an integer beyond the floats, OverflowError.
pub data Posted (F : Type 0) : Type 0 where
  no_float too_large not_a_number infinite : Posted F
  number : F → Posted F

-- The enrollments, the modulestore and the table of completions that the view uses; `S` is the
-- state of that table.
pub record Courses (F S : Type 0) : Type 0 where
  pub is_enrolled_in : User → CourseKey → Bool
  -- `get_modulestore().get_item(…)`, which may raise `ItemNotFoundError`.
  pub has_item : BlockKey → Bool
  -- Whether the key names the run of its course, and the key with the given course.
  pub has_run : BlockKey → Bool
  pub replace_course : BlockKey → CourseKey → BlockKey
  -- `BlockCompletion.objects.submit_completion`, which may raise: whether it is new, and the table
  -- after it.
  pub submit : User → BlockKey → Posted F → S → Result Bool × S

-- `completion > 1.0 or completion < 0.0`, which a NaN passes.
unfoldable pub is_refused : {F : Type 0} ⦃fl : Float F⦄ → Posted F → Bool
is_refused ⦃fl⦄ no_float = true
is_refused ⦃fl⦄ too_large = false
is_refused ⦃fl⦄ not_a_number = false
is_refused ⦃fl⦄ infinite = true
is_refused ⦃fl⦄ (number completion) = fl.lt fl.unit completion || fl.lt completion fl.nought

-- Whether `float()` raises OverflowError, which the view does not catch.
unfoldable pub is_too_large : {F : Type 0} → Posted F → Bool
is_too_large no_float = false
is_too_large too_large = true
is_too_large not_a_number = false
is_too_large infinite = false
is_too_large (number completion) = false

module _ {F S : Type 0} ⦃fl : Float F⦄ (courses : Courses F S) where
  unfoldable pub key_in_course : CourseKey → BlockKey → BlockKey
  key_in_course course_key block_key =
      if courses.has_run block_key then block_key else courses.replace_course block_key course_key

  -- The submission at the end of the view.
  unfoldable pub submit_block : User → CourseKey → BlockKey → Posted F → S → Result Status × S
  unfolding key_in_course
  submit_block user course_key block_key completion s =
      let (created, s') = courses.submit user (key_in_course course_key block_key) completion s in
      (created >>= λ is_new. ok (if is_new then http_201_created else http_200_ok), s')

  -- `CompletionBlockUpdateView.post`; a key that cannot be parsed is `none`.
  unfoldable pub post_completion :
      User → Posted F → Option CourseKey → Option BlockKey → S → Result Status × S
  unfolding submit_block is_refused is_too_large
  post_completion user completion raw_course_key raw_block_key s =
      if is_too_large completion
      then (raise overflow_error, s)
      else if is_refused completion
      then (ok http_400_bad_request, s)
      else (elim raw_course_key [
        | none ↦ (ok http_404_not_found, s)
        | some course_key ↦
            if courses.is_enrolled_in user course_key
            then (elim raw_block_key [
              | none ↦ (ok http_404_not_found, s)
              | some block_key ↦
                  if courses.has_item block_key
                  then submit_block user course_key block_key completion s
                  else (ok http_404_not_found, s)
            ])
            else (ok http_404_not_found, s)
      ])

-- What the progress bar reads of a serialized completion: the percentage, and those of the
-- chapters, by their block ids, where they were requested.
pub record Completion (F : Type 0) : Type 0 where
  pub percent : F
  pub chapter : Option (List (String × F))

module _ {F : Type 0} where
  unfoldable pub find_chapter : String → List (String × F) → Option F
  find_chapter chapter_id [] = none
  find_chapter chapter_id ((block_id, percent) ∷ rest) =
      if str_eq block_id chapter_id then some percent else find_chapter chapter_id rest

  -- `CompletionProgressBarView._get_user_completion`; `round` is `round(float(…) * 100)`.
  unfoldable pub get_user_completion :
      (F → ℕ) → Option String → List (Completion F) → Result (Option ℕ)
  unfolding find_chapter
  get_user_completion round chapter_id [] = ok none
  get_user_completion round none (completion ∷ rest) = ok (some (round completion.percent))
  get_user_completion round (some chapter_id) (completion ∷ rest) = elim completion.chapter [
    | none ↦ raise key_error
    | some chapters ↦ elim (find_chapter chapter_id chapters) [
      | none ↦ ok none
      | some percent ↦ ok (some (round percent))
    ]
  ]
