-- ===== src/Serializers/Presenting.antt =====
-- What a response shows of the aggregators that its adapter was given.
use openedx_completion_aggre.Prelude.{
  arith, String, ◌≡◌, refl, ap, ◌∙◌, inl, inr, Bool, true, false, ◌||◌, str_eq_iff, List, [], ◌∷◌,
  All, map, select, if◌then◌else◌, str_eq, Bool-cases, ok, raise, attribute_error, type_error,
  ◌>>=◌,
}
use openedx_completion_aggre.Float.{Float}
use openedx_completion_aggre.Platform.{CourseKey, User, Platform, member}
use openedx_completion_aggre.Models.{Aggregator}
use openedx_completion_aggre.Serializers.{
  AggregatorAdapter, is_aggregation_name, get_named, getattr, belongs, add_all,
}
use openedx_completion_aggre.Serializers.Adding.{under, add_all-select, add_all_keeps}
use openedx_completion_aggre.Serializers.Response.{
  Version, BlockFields, CourseFields, serialize_block, read_rows, serialize_blocks,
  serialize_course, course_fields, optional,
}

or_left : (a b : Bool) → (a || b) ≡ false → a ≡ false
or_left a b h = ground arith

or_right : (a b : Bool) → (a || b) ≡ false → b ≡ false
or_right a b h = ground arith

str_eq_sym : (a b : String) → str_eq a b ≡ false → str_eq b a ≡ false
str_eq_sym a b h = ground (arith, str_eq_iff a b, str_eq_iff b a)

module _ {F : Type 0} (platform : Platform) (version : Version) where
  -- The blocks of a name in a response.
  abbrev pub shown_under : String → List (Aggregator F) → String × List (BlockFields F)
  shown_under name rows = (name, map (serialize_block version) (select (under platform name) rows))

  read_rows-named :
      (adapter : AggregatorAdapter F) (rows : List (Aggregator F))
      → ((name : String) → get_named name adapter.aggregators ≡ select (under platform name) rows)
      → (name : String) → is_aggregation_name platform name ≡ true
      → str_eq name "course" ≡ false
      → read_rows platform adapter name ≡ ok (select (under platform name) rows)
  unfolding read_rows getattr
  read_rows-named adapter rows named name valid other =
      ap (λ b. if b then raise type_error else getattr platform adapter name) other
      ∙ ap (λ b. if b then ok (get_named name adapter.aggregators) else raise attribute_error) valid
      ∙ ap ok (named name)

  serialize_blocks_ok :
      (adapter : AggregatorAdapter F) (rows : List (Aggregator F))
      → ((name : String) → get_named name adapter.aggregators ≡ select (under platform name) rows)
      → (names : List String) → member "course" names ≡ false
      → serialize_blocks platform version adapter (select (is_aggregation_name platform) names)
        ≡ ok (map (λ name. shown_under name rows) (select (is_aggregation_name platform) names))
  unfolding serialize_blocks
  serialize_blocks_ok adapter rows named [] no_course = refl
  serialize_blocks_ok adapter rows named (name ∷ names) no_course =
      let rest =
        serialize_blocks_ok adapter rows named names
          (or_right (str_eq "course" name) (member "course" names) no_course) in
      elim (Bool-cases (is_aggregation_name platform name)) [
        | inr other ↦ rw other rest
        | inl h ↦
            let not_course : str_eq name "course" ≡ false =
              str_eq_sym "course" name
                (or_left (str_eq "course" name) (member "course" names) no_course) in
            let read = read_rows-named adapter rows named name h not_course in
            rw h (rw (read, rest))
      ]

-- The response for an enrollment, made from any of its aggregators, where the field "course" is not
-- requested: it has the user name and the
-- mean if, and only if, they are requested, and for each requested aggregation name, in the order of
-- the request, exactly the aggregators of that name, in their order.
pub serialize_course-shown :
    {F : Type 0} ⦃fl : Float F⦄ (platform : Platform) (version : Version)
    (requested_fields : List String) (mean : F) (user : User) (course_key : CourseKey)
    (rows : List (Aggregator F))
    → member "course" requested_fields ≡ false
    → All (λ row. belongs user course_key row ≡ true) rows
    → (adapter : AggregatorAdapter F) × (response : CourseFields F) × (add_all platform rows
          (record { user = user; course_key = course_key; aggregators = [] })
        ≡ ok adapter)
      × (serialize_course platform version requested_fields mean adapter ≡ ok response)
      × (response.username ≡ optional "username" requested_fields user.username)
      × (response.mean ≡ optional "mean" requested_fields mean)
      × (response.blocks
          ≡ map
              (λ name. shown_under platform version name rows)
              (select (is_aggregation_name platform) requested_fields))
unfolding serialize_course
serialize_course-shown platform version requested_fields mean user course_key rows no_course own =
    let (adapter, added, named) =
      add_all-select platform rows
        (record { user = user; course_key = course_key; aggregators = [] }) own in
    let shown =
      serialize_blocks_ok platform version adapter rows named requested_fields no_course in
    let (same_user, same_course) =
      add_all_keeps platform rows
        (record { user = user; course_key = course_key; aggregators = [] }) {adapter' = adapter}
        added in
    let blocks =
      map (λ name. shown_under platform version name rows)
        (select (is_aggregation_name platform) requested_fields) in
    (
      adapter,
      course_fields version requested_fields mean adapter blocks,
      added,
      ap (λ m. m >>= λ bs. ok (course_fields version requested_fields mean adapter bs)) shown,
      ap (λ (u : User). optional "username" requested_fields u.username) same_user,
      refl,
      refl,
    )
