-- ===== src/Serializers/Owning.antt =====
-- Whose aggregators an adapter presents.
use openedx_completion_aggre.Prelude.{
  String, ◌≡◌, sym, ap, ◌∙◌, inl, inr, Bool, true, List, [], ◌∷◌, ◌++◌, str_eq, if◌then◌else◌, ok,
  ◌>>=◌, Bool-cases, subst, In, In-append_cases, ok_inj,
}
use openedx_completion_aggre.Platform.{Platform, CourseKey, User}
use openedx_completion_aggre.Models.{Aggregator}
use openedx_completion_aggre.Serializers.{
  ByName, AggregatorAdapter, is_aggregation_name, get_named, append_named, belongs, add_all,
}
use openedx_completion_aggre.Serializers.Adding.{
  get_named-append, with_row, with_row-Same, add_aggregator-belongs, add_aggregator_foreign,
}

module _ {F : Type 0} where
  -- The aggregators that the adapter presents, under any name, are of the user and the course.
  abbrev pub Owns : User → CourseKey → AggregatorAdapter F → Type 0
  Owns user course_key adapter =
      (name : String) (row : Aggregator F)
      → In row (get_named name adapter.aggregators)
      → belongs user course_key row ≡ true

  module _ (platform : Platform) where
    with_row-Owns :
        (user : User) (course_key : CourseKey) (row : Aggregator F) (adapter : AggregatorAdapter F)
        → belongs user course_key row ≡ true
        → Owns user course_key adapter
        → Owns user course_key (with_row platform row adapter)
    with_row-Owns user course_key row adapter h owns name x m =
        elim (Bool-cases (is_aggregation_name platform row.aggregation_name)) [
          | inr unnamed ↦ owns name x (subst (λ b. In x (get_named name (shown b))) unnamed m)
          | inl named ↦ elim (Bool-cases (str_eq row.aggregation_name name)) [
            | inr other ↦ owns name x (subst (In x) (added named ∙ chosen other) m)
            | inl same ↦
                elim (In-append_cases x (get_named name adapter.aggregators)
                  (subst (In x) (added named ∙ chosen same) m)) [
                    | inl old ↦ owns name x old
                    | inr e ↦ ap (belongs user course_key) e ∙ h
                  ]
          ]
        ]
      where
        shown : Bool → ByName F
        shown b =
            (if b
              then record adapter {
                aggregators = append_named row.aggregation_name row adapter.aggregators;
              }
              else adapter).aggregators

        added :
            is_aggregation_name platform row.aggregation_name ≡ true
            → get_named name (with_row platform row adapter).aggregators ≡ (
                if str_eq row.aggregation_name name
                then get_named name adapter.aggregators ++ row ∷ []
                else get_named name adapter.aggregators)
        added named =
            ap (λ b. get_named name (shown b)) named
            ∙ get_named-append name row.aggregation_name row adapter.aggregators

        chosen :
            {b : Bool}
            → str_eq row.aggregation_name name ≡ b
            → (if str_eq row.aggregation_name name
                then get_named name adapter.aggregators ++ row ∷ []
                else get_named name adapter.aggregators)
              ≡ (if b
                  then get_named name adapter.aggregators ++ row ∷ []
                  else get_named name adapter.aggregators)
        chosen e =
            ap
              (λ b.
                if b
                then get_named name adapter.aggregators ++ row ∷ []
                else get_named name adapter.aggregators)
              e

    pub add_all-Owns :
        (rows : List (Aggregator F)) (adapter : AggregatorAdapter F)
        {adapter' : AggregatorAdapter F}
        → add_all platform rows adapter ≡ ok adapter'
        → Owns adapter.user adapter.course_key adapter
        → Owns adapter.user adapter.course_key adapter'
    unfolding add_all
    add_all-Owns [] adapter e owns = subst (Owns adapter.user adapter.course_key) (ok_inj e) owns
    add_all-Owns (row ∷ rows) adapter {adapter'} e owns =
        elim (Bool-cases (belongs adapter.user adapter.course_key row)) [
          | inl own ↦
              let same = with_row-Same platform row adapter in
              let rest =
                sym (
                  ap (λ m. m >>= λ a. add_all platform rows a)
                    (add_aggregator-belongs platform row adapter own))
                ∙ e in
              subst (λ u. Owns u adapter.course_key adapter') same.user
                (subst (λ k. Owns (with_row platform row adapter).user k adapter') same.course
                  (add_all-Owns rows (with_row platform row adapter) rest (
                    subst
                      (λ u.
                        Owns u (with_row platform row adapter).course_key
                          (with_row platform row adapter))
                      (sym same.user)
                      (subst (λ k. Owns adapter.user k (with_row platform row adapter))
                        (sym same.course)
                        (with_row-Owns adapter.user adapter.course_key row adapter own owns)))))
          | inr foreign ↦
              let failed =
                sym (
                  ap (λ m. m >>= λ a. add_all platform rows a)
                    (add_aggregator_foreign platform row adapter foreign))
                ∙ e in
              cc
        ]
