-- ===== src/Api.antt =====
-- completion_aggregator/api: the mixin of the views, and two views of v1.
--
-- A request holds what the views read of it; what Django, the REST framework and edx-platform
-- answer is a `Site`. A view returns the adapters that it hands to the serializer.
pub mod Presenting
pub mod Access
pub mod Listing
pub mod Statistics
pub mod Counting
pub mod Legacy
use openedx_completion_aggre.Prelude.{
  ℕ, ◌+◌, String, Bool, true, false, ◌&&◌, ◌||◌, not, Option, none, some, List, [], ◌∷◌, ◌++◌, ◌==◌,
  elem, exists, length, leb, ltb, map, select, str_eq, if◌then◌else◌, Exception, not_found,
  permission_denied, parse_error, value_error, Result, ok, raise, ◌>>=◌,
}
use openedx_completion_aggre.Float.{Float}
use openedx_completion_aggre.Platform.{CourseKey, BlockKey, User, Platform, member}
use openedx_completion_aggre.Models.{Aggregator, Database}
use openedx_completion_aggre.Core.Updater.{CacheEntry, Lms}
use openedx_completion_aggre.Serializers.{
  AggregatorAdapter, is_aggregation_name, belongs, is_stale, adapter_init,
}

-- A row of the `CourseEnrollment` model of edx-platform.
pub record CourseEnrollment : Type 0 where
  pub user : User
  pub course_id : CourseKey
  pub is_active : Bool

pub record Request : Type 0 where
  pub user : User
  -- `username` among the parameters.
  pub username : Option String
  -- `requested_fields`: the parts between the commas, or the list in the body.
  pub requested_fields : List String
  pub mobile_only : Bool

pub record Site (F : Type 0) : Type 0 where
  pub platform : Platform
  pub lms : Lms F
  pub cached : User → CourseKey → Option BlockKey → Option CacheEntry
  pub is_staff : User → Bool
  -- `User.objects.get(username=…)`
  pub find_user : String → Option User
  -- `str.lower`
  pub lower : String → String
  pub course_enrollments : List CourseEnrollment
  pub mobile_available : CourseKey → Bool
  -- `paginator.paginate_queryset`
  pub paginate : List CourseEnrollment → Result (List CourseEnrollment)
  -- The waffle flag `WAFFLE_AGGREGATE_STALE_FROM_SCRATCH`.
  pub from_scratch : Bool
  -- Whether the user has a `CourseAccessRole` with one of the roles.
  pub has_role : List String → User → Bool
  -- Whether the user is a member of the cohort.
  pub in_cohort : ℕ → User → Bool

-- `UserEnrollments.__init__`
unfoldable pub user_enrollments : Option User → List CourseEnrollment → List CourseEnrollment
user_enrollments none rows = select (λ e. e.is_active) rows
user_enrollments (some user) rows = select (λ e. e.is_active && (e.user.id == user.id)) rows

-- `order_by('user', 'course_id')`, for one course also `order_by('user')`.
abbrev pub comes_first : CourseEnrollment → CourseEnrollment → Bool
comes_first a b =
    ltb a.user.id b.user.id || ((a.user.id == b.user.id) && leb a.course_id b.course_id)

unfoldable pub insert_enrollment : CourseEnrollment → List CourseEnrollment → List CourseEnrollment
insert_enrollment e [] = e ∷ []
insert_enrollment e (f ∷ rest) =
    if comes_first e f then e ∷ f ∷ rest else f ∷ insert_enrollment e rest

unfoldable pub get_enrollments : List CourseEnrollment → List CourseEnrollment
unfolding insert_enrollment
get_enrollments [] = []
get_enrollments (e ∷ rest) = insert_enrollment e (get_enrollments rest)

unfoldable pub get_course_enrollments : CourseKey → List CourseEnrollment → List CourseEnrollment
unfolding get_enrollments
get_course_enrollments course_key queryset =
    get_enrollments (select (λ e. e.course_id == course_key) queryset)

unfoldable pub is_enrolled : CourseKey → List CourseEnrollment → Bool
is_enrolled course_key queryset = exists (λ e. e.course_id == course_key) queryset

-- `_allowed_requested_fields`
abbrev pub allowed_requested_fields : List String
allowed_requested_fields = "mean" ∷ "username" ∷ []

unfoldable pub get_requested_fields : Platform → Request → Result (List String)
get_requested_fields platform request =
    let fields = select (λ field. not (str_eq field "")) request.requested_fields in
    if exists
      (λ field. not (is_aggregation_name platform field || member field allowed_requested_fields))
      fields
    then raise parse_error
    else ok fields

-- `enrollments.filter(user_id__in=user_ids)`, where there are any.
unfoldable pub of_users : List ℕ → List CourseEnrollment → List CourseEnrollment
of_users [] enrollments = enrollments
of_users (i ∷ is) enrollments = select (λ e. elem e.user.id (i ∷ is)) enrollments

-- The root block: not given, invalid, or a key that is mapped into the course.
unfoldable pub parse_root :
    Platform → CourseKey → Option (Option BlockKey) → Result (Option BlockKey)
parse_root platform course_key none = ok none
parse_root platform course_key (some none) = raise not_found
parse_root platform course_key (some (some key)) =
    ok (some (platform.map_into_course key course_key))

module _ {F : Type 0} where
  -- The property `user`, and the requested user that it sets.
  unfoldable pub get_user : Site F → Request → Result (User × Option User)
  get_user site request = elim request.username [
    | none ↦ if site.is_staff request.user then ok (request.user, none) else raise permission_denied
    | some name ↦
        if str_eq name ""
        then if site.is_staff request.user then ok (request.user, none) else raise permission_denied
        else if site.is_staff request.user
        then (elim (site.find_user name) [
          | none ↦ raise not_found
          | some user ↦ ok (user, some user)
        ])
        else if str_eq (site.lower request.user.username) (site.lower name)
        then ok (request.user, some request.user)
        else raise permission_denied
  ]

  unfoldable pub get_queryset :
      Platform → Request → List (Aggregator F) → Result (List (Aggregator F))
  unfolding get_requested_fields
  get_queryset platform request rows = do
    fields ← get_requested_fields platform request
    ok (
        select
          (λ (row : Aggregator F).
            member row.aggregation_name ("course" ∷ select (is_aggregation_name platform) fields))
          rows)

  -- The enrollments of the view, whether stale completions are recalculated, and `is_stale`.
  unfoldable pub chosen_enrollments :
      Site F
      → User
      → Option User
      → CourseKey
      → Database F
      → Result (List CourseEnrollment × (Bool × Bool))
  unfolding user_enrollments get_course_enrollments is_enrolled
  chosen_enrollments site user requested course_key db =
      let own = user_enrollments (some user) site.course_enrollments in
      let single =
        if is_enrolled course_key own
        then ok (
          get_course_enrollments course_key own,
          (true, is_stale user course_key db.stale_completions),
        )
        else raise not_found in
      elim requested [
        | some _ ↦ single
        | none ↦
            if site.is_staff user
            then ok (
              get_course_enrollments course_key (user_enrollments none site.course_enrollments),
              (false, false),
            )
            else single
      ]

module _ {F : Type 0} ⦃fl : Float F⦄ where
  -- The comprehension over the page of enrollments; `user_of` is the user of each adapter.
  unfoldable pub adapters_for :
      Site F
      → Database F
      → (CourseEnrollment → User)
      → (CourseEnrollment → List (Aggregator F))
      → Option BlockKey
      → Bool
      → List CourseEnrollment
      → Result (List (AggregatorAdapter F))
  adapters_for site db user_of rows_of root_block recalculate_stale [] = ok []
  adapters_for site db user_of rows_of root_block recalculate_stale (e ∷ rest) = do
    adapter ←
        adapter_init site.platform site.lms (site.cached (user_of e) e.course_id root_block) db
          (user_of e) e.course_id (rows_of e) root_block recalculate_stale
    adapters ← adapters_for site db user_of rows_of root_block recalculate_stale rest
    ok (adapter ∷ adapters)

  -- `CompletionDetailView._parse_aggregator`; a key that cannot be parsed is `none`.
  unfoldable pub parse_aggregator :
      Site F
      → Request
      → Option CourseKey
      → List ℕ
      → Option (Option BlockKey)
      → Database F
      → Result (List (AggregatorAdapter F))
  unfolding get_requested_fields get_user chosen_enrollments of_users parse_root get_queryset
      adapters_for
  parse_aggregator site request raw_course_key user_ids raw_root_block db = do
    course_key ← (elim raw_course_key [ none ↦ raise not_found | some key ↦ ok key ])
    _ ← get_requested_fields site.platform request
    (user, requested) ← get_user site request
    (enrollments, (recalculate_stale, stale)) ← chosen_enrollments site user requested course_key db
    paginated ← site.paginate (of_users user_ids enrollments)
    root_block ← parse_root site.platform course_key raw_root_block
    queryset ←
        (if stale && site.from_scratch
          then ok []
          else get_queryset site.platform request db.aggregators)
    adapters_for site db (λ e. e.user) (λ e. select (λ row. belongs e.user course_key row) queryset)
        root_block recalculate_stale paginated

  -- `CompletionListView.get`
  unfoldable pub list_completions :
      Site F → Request → Database F → Result (List (AggregatorAdapter F))
  unfolding get_user user_enrollments get_enrollments get_queryset adapters_for
  list_completions site request db = do
    (user, _) ← get_user site request
    let enrollments = get_enrollments (user_enrollments (some user) site.course_enrollments)
    paginated ← site.paginate (
        if request.mobile_only
        then select (λ e. site.mobile_available e.course_id) enrollments
        else enrollments)
    queryset ← get_queryset site.platform request db.aggregators
    adapters_for site db (λ e. user) (λ e. select (λ row. belongs user e.course_id row) queryset)
        none true paginated
