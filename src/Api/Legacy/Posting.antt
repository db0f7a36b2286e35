-- ===== src/Api/Legacy/Posting.antt =====
-- What a posted completion may change.
use openedx_completion_aggre.Prelude.{
  overflow_error, ◌≡◌, ◌⊎◌, true, Option, some, Result, ok, raise, if◌then◌else◌, ◌>>=◌,
}
use openedx_completion_aggre.Float.{Float}
use openedx_completion_aggre.Platform.{CourseKey, BlockKey, User}
use openedx_completion_aggre.Api.Legacy.{
  Status, http_200_ok, http_201_created, http_400_bad_request, http_404_not_found, Posted, no_float,
  too_large, not_a_number, infinite, number, Courses, key_in_course,
}

-- A number between 0.0 and 1.0, or a NaN.
abbrev pub IsAccepted : {F : Type 0} ⦃fl : Float F⦄ → Posted F → Type 0
IsAccepted ⦃fl⦄ no_float = ⊥
IsAccepted ⦃fl⦄ too_large = ⊥
IsAccepted ⦃fl⦄ not_a_number = Unit
IsAccepted ⦃fl⦄ infinite = ⊥
IsAccepted ⦃fl⦄ (number v) = (fl.le fl.nought v ≡ true) × (fl.le v fl.unit ≡ true)

module _ {F S : Type 0} ⦃fl : Float F⦄ (courses : Courses F S) (user : User) (s : S) where
  -- The submission that a request leads to, and what is answered then.
  pub record Submitted (posted : Posted F) (raw_course_key : Option CourseKey)
      (raw_block_key : Option BlockKey) (answer : Result Status × S) : Type 0 where
    pub course_key : CourseKey
    pub block_key : BlockKey
    pub parsed_course : raw_course_key ≡ some course_key
    pub parsed_block : raw_block_key ≡ some block_key
    pub accepted : IsAccepted posted
    pub enrolled : courses.is_enrolled_in user course_key ≡ true
    pub found : courses.has_item block_key ≡ true
    pub stored :
        answer.1 ≡ (courses.submit user (key_in_course courses course_key block_key) posted s).1
    pub answered : answer.0 ≡ (
        (courses.submit user (key_in_course courses course_key block_key) posted s).0 >>= λ is_new.
        ok (if is_new then http_201_created else http_200_ok))

  abbrev pub IsRefused : Result Status × S → Type 0
  IsRefused (status, s') =
      ((status ≡ ok http_400_bad_request)
        ⊎ ((status ≡ ok http_404_not_found) ⊎ (status ≡ raise overflow_error)))
      × (s' ≡ s)
