-- ===== src/Api/Counting.antt =====
-- Whose rows the statistics of a course count.
use openedx_completion_aggre.Prelude.{
  ℕ, String, ◌≡◌, refl, sym, ap, ◌∙◌, and_left, and_right, and_intro, inl, inr, Bool, true, false,
  ◌&&◌, not, Option, none, some, List, [], ◌∷◌, ◌==◌, In, In-select_source, elem, exists, map,
  select, str_eq, length, if◌then◌else◌, Result, Result-cases, ok, arith, Bool-cases,
}
use openedx_completion_aggre.Float.{Float}
use openedx_completion_aggre.Platform.{CourseKey, User, member}
use openedx_completion_aggre.Models.{Aggregator, Database}
use openedx_completion_aggre.Serializers.{is_aggregation_name}
use openedx_completion_aggre.Api.{
  CourseEnrollment, Request, Site, user_enrollments, get_enrollments, get_course_enrollments,
  get_requested_fields, get_queryset,
}
use openedx_completion_aggre.Api.Access.{In-get_enrollments}
use openedx_completion_aggre.Api.Statistics.{CompletionStatistics, statistics_of, course_statistics}

In-exists :
    {A : Type 0} (p : A → Bool) (a : A) (xs : List A) → In a xs → p a ≡ true → exists p xs ≡ true
In-exists p a [] m h = elim m [ ]
In-exists p a (x ∷ xs) (inl e) h = let here : p x ≡ true = ap p (sym e) ∙ h in ground arith
In-exists p a (x ∷ xs) (inr m) h =
    let later : exists p xs ≡ true = In-exists p a xs m h in ground arith

-- Rows that a later test drops need not be there.
select-select :
    {A : Type 0} (p q r : A → Bool)
    → ((a : A) → p a ≡ true → r a ≡ true)
    → (xs : List A) → select p (select q xs) ≡ select p (select q (select r xs))
select-select p q r h [] = refl
select-select p q r h (x ∷ xs) =
    let more = select-select p q r h xs in
    elim (Bool-cases (r x)) [
      | inl stays ↦ elim (Bool-cases (q x)) [
        | inl chosen ↦ rw (stays, chosen) (ap (λ rest. if p x then x ∷ rest else rest) more)
        | inr other ↦ rw (stays, other) more
      ]
      | inr leaves ↦ elim (Bool-cases (p x)) [
        | inl passes ↦ let no : false ≡ true = sym leaves ∙ h x passes in cc
        | inr fails ↦ elim (Bool-cases (q x)) [
          | inl chosen ↦ rw (leaves, chosen, fails) more
          | inr other ↦ rw (leaves, other) more
        ]
      ]
    ]

-- A cohort that is a number, or none.
abbrev parsed : Option ℕ → Option (Option ℕ)
parsed none = none
parsed (some cohort) = some (some cohort)

-- An enrollment of a user whose id is listed.
elem-map :
    (n : ℕ) (rows : List CourseEnrollment)
    → elem n (map (λ (e : CourseEnrollment). e.user.id) rows) ≡ true
    → (e : CourseEnrollment) × In e rows × ((e.user.id == n) ≡ true)
elem-map n [] h = cc
elem-map n (e ∷ rows) h = elim (Bool-cases (e.user.id == n)) [
  | inl same ↦ (e, inl refl, same)
  | inr other ↦ let (x, m, same) = elem-map n rows (ground (arith, h, other)) in (x, inr m, same)
]

module _ {F : Type 0} (site : Site F) (roles : List String) where
  -- The user has none of the excluded roles and is not in the cohort.
  abbrev pub is_kept : Option (Option ℕ) → User → Bool
  is_kept raw_cohort user = not (site.has_role roles user) && (elim raw_cohort [
    | none ↦ true
    | some none ↦ true
    | some (some cohort) ↦ not (site.in_cohort cohort user)
  ])

  -- An aggregator for the course as a whole, of a user who is kept and actively enrolled.
  abbrev pub is_counted : Option (Option ℕ) → CourseKey → Aggregator F → Bool
  is_counted raw_cohort course_key row =
      (row.course_key == course_key)
      && (str_eq row.aggregation_name "course"
          && exists
              (λ (e : CourseEnrollment).
                (e.user.id == row.user.id)
                && (e.is_active && ((e.course_id == course_key) && is_kept raw_cohort e.user)))
              site.course_enrollments)

  -- The enrollments before the cohort is looked at.
  abbrev enrollments_of : CourseKey → List CourseEnrollment
  enrollments_of course_key =
      select (λ e. not (site.has_role roles e.user))
        (get_course_enrollments course_key (user_enrollments none site.course_enrollments))

  abbrev cohort_of : Option ℕ → List CourseEnrollment → List CourseEnrollment
  cohort_of cohort_filter enrollments = elim cohort_filter [
    | none ↦ enrollments
    | some cohort ↦ select (λ e. not (site.in_cohort cohort e.user)) enrollments
  ]

  In-enrollments_of :
      (course_key : CourseKey) (e : CourseEnrollment)
      → In e (enrollments_of course_key)
      → In e site.course_enrollments
        × (e.is_active ≡ true)
        × ((e.course_id == course_key) ≡ true)
        × (not (site.has_role roles e.user) ≡ true)
  unfolding get_course_enrollments user_enrollments
  In-enrollments_of course_key e m =
      let active = select (λ (x : CourseEnrollment). x.is_active) site.course_enrollments in
      let (ordered, free) =
        In-select_source (λ x. not (site.has_role roles x.user)) e
          (get_enrollments (select (λ x. x.course_id == course_key) active)) m in
      let (one, same) =
        In-select_source (λ x. x.course_id == course_key) e active
          (In-get_enrollments e (select (λ x. x.course_id == course_key) active) ordered) in
      let (source, is_active) = In-select_source (λ x. x.is_active) e site.course_enrollments one in
      (source, is_active, same, free)

  In-cohort_of :
      (cohort_filter : Option ℕ) (course_key : CourseKey) (e : CourseEnrollment)
      → In e (cohort_of cohort_filter (enrollments_of course_key))
      → In e site.course_enrollments
        × ((e.is_active && ((e.course_id == course_key) && is_kept (parsed cohort_filter) e.user))
            ≡ true)
  In-cohort_of none course_key e m =
      let (source, active, same, free) = In-enrollments_of course_key e m in
      (source, ground (arith, active, same, free))
  In-cohort_of (some cohort) course_key e m =
      let (n, outside) =
        In-select_source (λ x. not (site.in_cohort cohort x.user)) e (enrollments_of course_key)
          m in
      let (source, active, same, free) = In-enrollments_of course_key e n in
      (source, ground (arith, active, same, free, outside))

  abbrev is_taken : Option ℕ → CourseKey → Aggregator F → Bool
  is_taken cohort_filter course_key row =
      (row.course_key == course_key)
      && (str_eq row.aggregation_name "course"
          && elem row.user.id (
              map (λ (e : CourseEnrollment). e.user.id)
                (cohort_of cohort_filter (enrollments_of course_key))))

  is_taken-is_counted :
      (cohort_filter : Option ℕ) (course_key : CourseKey) (row : Aggregator F)
      → is_taken cohort_filter course_key row ≡ true
      → is_counted (parsed cohort_filter) course_key row ≡ true
  is_taken-is_counted cohort_filter course_key row taken =
      let included = cohort_of cohort_filter (enrollments_of course_key) in
      let same_course = and_left (row.course_key == course_key) _ taken in
      let rest = and_right (row.course_key == course_key) _ taken in
      let named = and_left (str_eq row.aggregation_name "course") _ rest in
      let listed = and_right (str_eq row.aggregation_name "course") _ rest in
      let (e, m, same) = elem-map row.user.id included listed in
      let (source, fits) = In-cohort_of cohort_filter course_key e m in
      let found =
        In-exists
          (λ (x : CourseEnrollment).
            (x.user.id == row.user.id)
            && (x.is_active
                && ((x.course_id == course_key) && is_kept (parsed cohort_filter) x.user)))
          e site.course_enrollments source (and_intro _ _ same fits) in
      and_intro _ _ same_course (and_intro _ _ named found)

module _ {F : Type 0} ⦃fl : Float F⦄ (site : Site F) (request : Request) (course_key : CourseKey)
    (roles : List String) where
  -- The answer where the request asks for some fields, on the rows of a table.
  abbrev answer_of : Option ℕ → List String → List (Aggregator F) → Result (CompletionStatistics F)
  answer_of cohort_filter fields rows =
      let included = cohort_of site roles cohort_filter (enrollments_of site roles course_key) in
      let asked = "course" ∷ select (is_aggregation_name site.platform) fields in
      ok (
        statistics_of (length included) (
          select (is_taken site roles cohort_filter course_key)
            (select (λ (row : Aggregator F). member row.aggregation_name asked) rows)))

  answer_of-select :
      (cohort_filter : Option ℕ) (fields : List String) (rows : List (Aggregator F))
      → answer_of cohort_filter fields rows
        ≡ answer_of cohort_filter fields
            (select (is_counted site roles (parsed cohort_filter) course_key) rows)
  answer_of-select cohort_filter fields rows =
      let included = cohort_of site roles cohort_filter (enrollments_of site roles course_key) in
      ap (λ found. ok (statistics_of (length included) found))
        (select-select _ _ _ (is_taken-is_counted site roles cohort_filter course_key) rows)

  -- The statistics of a course are those of a table with the aggregators for the course as a whole
  -- only, of the users who are actively enrolled in it, have none of the excluded roles and are not
  -- in the given cohort; nothing else is read, and an answer with an error is the same too.
  pub course_statistics-select :
      (raw_cohort : Option (Option ℕ)) (db : Database F)
      → course_statistics site request (some course_key) roles raw_cohort db
        ≡ course_statistics site request (some course_key) roles raw_cohort (record db {
          aggregators = select (is_counted site roles raw_cohort course_key) db.aggregators;
        })
  unfolding course_statistics get_queryset
  course_statistics-select none db =
      elim (Result-cases (get_requested_fields site.platform request)) [
        | inl (exception, e) ↦ rw e refl
        | inr (fields, e) ↦ rw e (answer_of-select none fields db.aggregators)
      ]
  course_statistics-select (some none) db =
      elim (Result-cases (get_requested_fields site.platform request)) [
        | inl (exception, e) ↦ rw e refl
        | inr (fields, e) ↦ rw e refl
      ]
  course_statistics-select (some (some cohort)) db =
      elim (Result-cases (get_requested_fields site.platform request)) [
        | inl (exception, e) ↦ rw e refl
        | inr (fields, e) ↦ rw e (answer_of-select (some cohort) fields db.aggregators)
      ]
