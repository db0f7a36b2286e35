-- ===== src/Api/Access.antt =====
-- Whose completions a request can read.
use openedx_completion_aggre.Prelude.{
  ℕ, ◌≡◌, sym, ap, ◌∙◌, subst, ◌⊎◌, inl, inr, Bool, false, ◌&&◌, Option, some, List, [], ◌∷◌, ◌==◌,
  All, In, In-select_source, elem, select, if◌then◌else◌, Result, ok, ◌>>=◌, >>=-eq-ok, arith,
  Bool-cases,
}
use openedx_completion_aggre.Float.{Float}
use openedx_completion_aggre.Platform.{CourseKey, BlockKey, User}
use openedx_completion_aggre.Models.{Aggregator, Database}
use openedx_completion_aggre.Serializers.{AggregatorAdapter, belongs}
use openedx_completion_aggre.Api.Presenting.{Shown, adapters_for-All}
use openedx_completion_aggre.Api.{
  CourseEnrollment, Request, Site, user_enrollments, insert_enrollment, comes_first,
  get_enrollments, get_course_enrollments, get_user, chosen_enrollments, of_users, adapters_for,
  parse_aggregator, get_requested_fields, get_queryset, parse_root,
}

In-insert :
    (e f : CourseEnrollment) (rows : List CourseEnrollment)
    → In e (insert_enrollment f rows)
    → (e ≡ f) ⊎ In e rows
unfolding insert_enrollment
In-insert e f [] m = m
In-insert e f (g ∷ rows) m = elim (Bool-cases (comes_first f g)) [
  | inl before ↦
      subst (In e) (ap (λ b. if b then f ∷ g ∷ rows else g ∷ insert_enrollment f rows) before) m
  | inr after ↦
      elim (subst (In e) (ap (λ b. if b then f ∷ g ∷ rows else g ∷ insert_enrollment f rows) after)
        m) [
          | inl h ↦ inr (inl h)
          | inr n ↦ elim (In-insert e f rows n) [ inl h ↦ inl h | inr k ↦ inr (inr k) ]
        ]
]

pub In-get_enrollments :
    (e : CourseEnrollment) (rows : List CourseEnrollment) → In e (get_enrollments rows) → In e rows
unfolding get_enrollments
In-get_enrollments e [] m = m
In-get_enrollments e (f ∷ rows) m = elim (In-insert e f (get_enrollments rows) m) [
  | inl h ↦ inl h
  | inr n ↦ inr (In-get_enrollments e rows n)
]

-- An enrollment of the user in the course.
abbrev pub IsOwn : User → CourseKey → CourseEnrollment → Type 0
IsOwn user course_key e = (e.user.id ≡ user.id) × (e.course_id ≡ course_key)

get_course_enrollments-IsOwn :
    (user : User) (course_key : CourseKey) (rows : List CourseEnrollment) (e : CourseEnrollment)
    → In e (get_course_enrollments course_key (user_enrollments (some user) rows))
    → IsOwn user course_key e
unfolding get_course_enrollments user_enrollments
get_course_enrollments-IsOwn user course_key rows e m =
    let n =
      In-get_enrollments e
        (select (λ x. x.course_id == course_key) (user_enrollments (some user) rows)) m in
    let (n', same_course) =
      In-select_source (λ x. x.course_id == course_key) e (user_enrollments (some user) rows) n in
    let (_, active) = In-select_source (λ x. x.is_active && (x.user.id == user.id)) e rows n' in
    (ground (arith, active), ground (arith, same_course))

In-of_users :
    (is : List ℕ) (rows : List CourseEnrollment) (e : CourseEnrollment)
    → In e (of_users is rows)
    → In e rows
unfolding of_users
In-of_users [] rows e m = m
In-of_users (i ∷ is) rows e m = (In-select_source (λ x. elem x.user.id (i ∷ is)) e rows m).0

module _ {F : Type 0} (site : Site F) (request : Request) where
  -- A request of a user who is not staff is answered with that user as the effective and the
  -- requested one, or not at all.
  pub get_user_own :
      {user : User} {requested : Option User}
      → site.is_staff request.user ≡ false
      → get_user site request ≡ ok (user, requested)
      → (user ≡ request.user) × (requested ≡ some request.user)
  unfolding get_user
  get_user_own plain e = (ground arith, ground arith)

  chosen_own :
      (db : Database F) (user : User) (course_key : CourseKey) {enrollments : List CourseEnrollment}
      {flags : Bool × Bool}
      → chosen_enrollments site user (some user) course_key db ≡ ok (enrollments, flags)
      → enrollments
        ≡ get_course_enrollments course_key (user_enrollments (some user) site.course_enrollments)
  unfolding chosen_enrollments
  chosen_own db user course_key e = ground arith

module _ {F : Type 0} ⦃fl : Float F⦄ (site : Site F) (request : Request) (db : Database F) where
  -- A request of a user who is not staff, if it is answered at all, is answered with completions
  -- of that user in the requested course only: each adapter is for that user and course, and each
  -- aggregator that it presents, stored or recalculated and under any name, is of that user and
  -- course; where pagination returns a part of the enrollments that it is given.
  pub parse_aggregator-IsOwn :
      (course_key : CourseKey) (user_ids : List ℕ) (root_block : Option (Option BlockKey))
      (adapters : List (AggregatorAdapter F))
      → site.is_staff request.user ≡ false
      → ((rows page : List CourseEnrollment)
          → site.paginate rows ≡ ok page
          → (e : CourseEnrollment) → In e page
          → In e rows)
      → parse_aggregator site request (some course_key) user_ids root_block db ≡ ok adapters
      → All (Shown (λ user k. (user.id ≡ request.user.id) × (k ≡ course_key))) adapters
  unfolding parse_aggregator
  parse_aggregator-IsOwn course_key user_ids root_block adapters plain pages e =
      let answer = λ (p : User × Option User).
        chosen_enrollments site p.0 p.1 course_key db
        >>= λ (c : List CourseEnrollment × (Bool × Bool)).
            page_of c >>= λ page. answer_page c.1 page in
      let (fields, _, e₁) =
        >>=-eq-ok (get_requested_fields site.platform request)
          (λ _. get_user site request >>= answer) e in
      let (who, got, e₂) = >>=-eq-ok (get_user site request) answer e₁ in
      let (c, chosen, e₃) =
        >>=-eq-ok (chosen_enrollments site who.0 who.1 course_key db)
          (λ (c : List CourseEnrollment × (Bool × Bool)).
            page_of c >>= λ page. answer_page c.1 page)
          e₂ in
      let (page, paged, e₄) = >>=-eq-ok (page_of c) (λ page. answer_page c.1 page) e₃ in
      let (root, _, e₅) =
        >>=-eq-ok (parse_root site.platform course_key root_block)
          (λ root. answer_root c.1 page root) e₄ in
      let (queryset, _, e₆) =
        >>=-eq-ok (rows_for c.1)
          (λ queryset.
            adapters_for site db (λ e. e.user)
              (λ e. select (λ row. belongs e.user course_key row) queryset) root c.1.0 page)
          e₅ in
      let (same_user, same_requested) = get_user_own site request plain got in
      let from = chosen_own site request db who.0 course_key (
        ap (λ r. chosen_enrollments site who.0 r course_key db)
          (sym (same_requested ∙ ap some (sym same_user)))
        ∙ chosen) in
      adapters_for-All site db (λ u k. (u.id ≡ request.user.id) × (k ≡ course_key)) (λ e. e.user)
        (λ e. select (λ row. belongs e.user course_key row) queryset) root c.1.0 page
        (λ x m.
          let (i, k) =
            get_course_enrollments-IsOwn who.0 course_key site.course_enrollments x
              (subst (In x) from (In-of_users user_ids c.0 x (pages _ page paged x m))) in
          (i ∙ ap (λ (u : User). u.id) same_user, k))
        e₆
    where
      page_of : List CourseEnrollment × (Bool × Bool) → Result (List CourseEnrollment)
      page_of c = site.paginate (of_users user_ids c.0)

      rows_for : Bool × Bool → Result (List (Aggregator F))
      rows_for flags =
          if flags.1 && site.from_scratch
          then ok []
          else get_queryset site.platform request db.aggregators

      answer_root :
          Bool × Bool
          → List CourseEnrollment
          → Option BlockKey
          → Result (List (AggregatorAdapter F))
      answer_root flags page root = rows_for flags >>= λ queryset.
          adapters_for site db (λ e. e.user)
            (λ e. select (λ row. belongs e.user course_key row) queryset) root flags.0 page

      answer_page : Bool × Bool → List CourseEnrollment → Result (List (AggregatorAdapter F))
      answer_page flags page =
          parse_root site.platform course_key root_block >>= answer_root flags page
