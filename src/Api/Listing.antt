-- ===== src/Api/Listing.antt =====
-- What the list view presents.
use openedx_completion_aggre.Prelude.{
  ◌≡◌, refl, ap, subst, inl, inr, true, false, ◌&&◌, Option, some, none, List, ◌==◌, All, In,
  In-select_source, select, if◌then◌else◌, Result, ok, ◌>>=◌, >>=-eq-ok, arith, Bool-cases,
}
use openedx_completion_aggre.Float.{Float}
use openedx_completion_aggre.Platform.{CourseKey, User}
use openedx_completion_aggre.Models.{Aggregator, Database}
use openedx_completion_aggre.Serializers.{AggregatorAdapter, belongs}
use openedx_completion_aggre.Api.{
  CourseEnrollment, Request, Site, user_enrollments, get_enrollments, get_user, adapters_for,
  list_completions, get_queryset,
}
use openedx_completion_aggre.Api.Access.{In-get_enrollments, get_user_own}
use openedx_completion_aggre.Api.Presenting.{Shown, adapters_for-All}

module _ {F : Type 0} ⦃fl : Float F⦄ (site : Site F) (request : Request) (db : Database F) where
  -- An active enrollment of the user in a course.
  abbrev pub IsEnrolled : User → CourseKey → Type 0
  IsEnrolled user course_key =
      (e : CourseEnrollment) × In e site.course_enrollments
      × (e.is_active ≡ true)
      × (e.user.id ≡ user.id)
      × (e.course_id ≡ course_key)

  -- The list view answers a user who is not staff, if at all, only with completions of that user,
  -- in courses in which the user is actively enrolled: each adapter is for that user and such a
  -- course, and each aggregator that it presents, stored or recalculated and under any name, is of
  -- that user and course; where pagination returns a part of the enrollments that it is given.
  pub list_completions-IsEnrolled :
      (adapters : List (AggregatorAdapter F))
      → site.is_staff request.user ≡ false
      → ((rows page : List CourseEnrollment)
          → site.paginate rows ≡ ok page
          → (e : CourseEnrollment) → In e page
          → In e rows)
      → list_completions site request db ≡ ok adapters
      → All (Shown (λ user k. (user.id ≡ request.user.id) × IsEnrolled request.user k)) adapters
  unfolding list_completions user_enrollments
  list_completions-IsEnrolled adapters plain pages e =
      let (who, got, e₁) =
        >>=-eq-ok (get_user site request) (λ (p : User × Option User). page_of p.0 >>= answer p.0)
          e in
      let (page, paged, e₂) = >>=-eq-ok (page_of who.0) (answer who.0) e₁ in
      let (queryset, _, e₃) =
        >>=-eq-ok (get_queryset site.platform request db.aggregators) (present who.0 page) e₂ in
      let (same, _) = get_user_own site request plain got in
      let id = ap (λ (u : User). u.id) same in
      adapters_for-All site db (λ u k. (u.id ≡ request.user.id) × IsEnrolled request.user k)
        (λ x. who.0) (λ x. select (λ row. belongs who.0 x.course_id row) queryset) none true page
        (λ x m.
          let (n, own) =
            In-select_source (λ y. y.is_active && (y.user.id == who.0.id)) x site.course_enrollments
              (In-get_enrollments x (own_rows who.0)
                (In-mobile who.0 x (pages _ page paged x m))) in
          (id, (x, n, ground arith, ground (arith, id), refl)))
        e₃
    where
      own_rows : User → List CourseEnrollment
      own_rows user = user_enrollments (some user) site.course_enrollments

      on_mobile : User → List CourseEnrollment
      on_mobile user =
          if request.mobile_only
          then select (λ x. site.mobile_available x.course_id) (get_enrollments (own_rows user))
          else get_enrollments (own_rows user)

      page_of : User → Result (List CourseEnrollment)
      page_of user = site.paginate (on_mobile user)

      present :
          User → List CourseEnrollment → List (Aggregator F) → Result (List (AggregatorAdapter F))
      present user page queryset =
          adapters_for site db (λ x. user)
            (λ x. select (λ row. belongs user x.course_id row) queryset) none true page

      answer : User → List CourseEnrollment → Result (List (AggregatorAdapter F))
      answer user page = get_queryset site.platform request db.aggregators >>= present user page

      In-mobile :
          (user : User) (x : CourseEnrollment)
          → In x (on_mobile user)
          → In x (get_enrollments (own_rows user))
      In-mobile user x m = elim (Bool-cases request.mobile_only) [
        | inl mobile ↦
            (In-select_source (λ y. site.mobile_available y.course_id) x
              (get_enrollments (own_rows user))
              (subst
                (λ b. In x (
                  if b
                  then select (λ y. site.mobile_available y.course_id)
                      (get_enrollments (own_rows user))
                  else get_enrollments (own_rows user)))
                mobile m)).0
        | inr any ↦
            subst
              (λ b. In x (
                if b
                then select (λ y. site.mobile_available y.course_id)
                    (get_enrollments (own_rows user))
                else get_enrollments (own_rows user)))
              any m
      ]
