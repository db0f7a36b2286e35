-- ===== src/Examples/Responses.antt =====
-- A response for one chapter.
use openedx_completion_aggre.Prelude.{ℕ, ◌≡◌, refl, [], ◌∷◌, map, select, ok}
use openedx_completion_aggre.Float.{thousandths}
use openedx_completion_aggre.Serializers.{AggregatorAdapter, is_aggregation_name, add_all}
use openedx_completion_aggre.Serializers.Response.{v0, CourseFields, serialize_course, optional}
use openedx_completion_aggre.Serializers.Presenting.{shown_under, serialize_course-shown}
use openedx_completion_aggre.Examples.{learner, platform}
use openedx_completion_aggre.Examples.Writes.{chapter_row}

serialize_course-shown_example :
    (adapter : AggregatorAdapter ℕ) × (response : CourseFields ℕ) × (add_all platform
        (chapter_row ∷ [])
        (record { user = learner; course_key = 9; aggregators = [] })
      ≡ ok adapter)
    × (serialize_course platform v0 ("chapter" ∷ "mean" ∷ []) 300 adapter ≡ ok response)
    × (response.username ≡ optional "username" ("chapter" ∷ "mean" ∷ []) "ana")
    × (response.mean ≡ optional "mean" ("chapter" ∷ "mean" ∷ []) 300)
    × (response.blocks
        ≡ map
            (λ name. shown_under platform v0 name (chapter_row ∷ []))
            (select (is_aggregation_name platform) ("chapter" ∷ "mean" ∷ [])))
serialize_course-shown_example =
    serialize_course-shown platform v0 ("chapter" ∷ "mean" ∷ []) 300 learner 9 (chapter_row ∷ [])
      refl (refl, tt)
