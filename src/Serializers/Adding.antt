-- ===== src/Serializers/Adding.antt =====
-- Which aggregators an adapter presents under a name.
use openedx_completion_aggre.Prelude.{
  String, ◌≡◌, refl, sym, ap, ◌∙◌, inl, inr, Bool, true, false, ◌&&◌, List, [], ◌∷◌, ◌++◌, All,
  append_assoc, append_nil, select, str_eq, str_eq_iff, if◌then◌else◌, value_error, ok, raise,
  ◌>>=◌, arith, Bool-cases,
}
use openedx_completion_aggre.Platform.{Platform}
use openedx_completion_aggre.Models.{Aggregator}
use openedx_completion_aggre.Serializers.{
  ByName, AggregatorAdapter, is_aggregation_name, get_named, append_named, belongs, add_aggregator,
  add_all,
}

module _ {F : Type 0} where
  pub get_named-append :
      (name key : String) (row : Aggregator F) (d : ByName F)
      → get_named name (append_named key row d)
        ≡ (if str_eq key name then get_named name d ++ row ∷ [] else get_named name d)
  unfolding get_named append_named
  get_named-append name key row [] = ground arith
  get_named-append name key row ((k, rows) ∷ d) = ground (
    arith,
    get_named-append name key row d,
    str_eq_iff k key,
    str_eq_iff k name,
    str_eq_iff key name,
  )

  module _ (platform : Platform) where
    -- The aggregators that are presented under a name.
    abbrev pub under : String → Aggregator F → Bool
    under name row =
        is_aggregation_name platform row.aggregation_name && str_eq row.aggregation_name name

    -- The adapter after an aggregator of its enrollment.
    abbrev pub with_row : Aggregator F → AggregatorAdapter F → AggregatorAdapter F
    with_row row adapter =
        if is_aggregation_name platform row.aggregation_name
        then record adapter {
          aggregators = append_named row.aggregation_name row adapter.aggregators;
        }
        else adapter

    pub add_aggregator-belongs :
        (row : Aggregator F) (adapter : AggregatorAdapter F)
        → belongs adapter.user adapter.course_key row ≡ true
        → add_aggregator platform row adapter ≡ ok (with_row row adapter)
    unfolding add_aggregator
    add_aggregator-belongs row adapter h =
        ap (λ b. if b then ok (with_row row adapter) else raise value_error) h

    pub add_aggregator_foreign :
        (row : Aggregator F) (adapter : AggregatorAdapter F)
        → belongs adapter.user adapter.course_key row ≡ false
        → add_aggregator platform row adapter ≡ raise value_error
    unfolding add_aggregator
    add_aggregator_foreign row adapter h =
        ap (λ b. if b then ok (with_row row adapter) else raise value_error) h

    pub record Same (adapter adapter' : AggregatorAdapter F) : Type 0 where
      pub user : adapter'.user ≡ adapter.user
      pub course : adapter'.course_key ≡ adapter.course_key

    pub with_row-Same :
        (row : Aggregator F) (adapter : AggregatorAdapter F) → Same adapter (with_row row adapter)
    with_row-Same row adapter =
        elim (Bool-cases (is_aggregation_name platform row.aggregation_name)) [
          | inl named ↦ rw named (record { user = refl; course = refl })
          | inr unnamed ↦ rw unnamed (record { user = refl; course = refl })
        ]

    get_named-with_row :
        (name : String) (row : Aggregator F) (adapter : AggregatorAdapter F)
        (rows : List (Aggregator F))
        → get_named name (with_row row adapter).aggregators ++ select (under name) rows
          ≡ get_named name adapter.aggregators ++ select (under name) (row ∷ rows)
    get_named-with_row name row adapter rows =
        elim (Bool-cases (is_aggregation_name platform row.aggregation_name)) [
          | inl named ↦ rw named (elim (Bool-cases (str_eq row.aggregation_name name)) [
            | inl same ↦
                rw (get_named-append, same)
                  (append_assoc (get_named name adapter.aggregators) (row ∷ [])
                    (select (under name) rows))
            | inr other ↦ rw (get_named-append, other)
          ])
          | inr unnamed ↦ rw unnamed
        ]

    -- An adapter takes any number of aggregators of its own user and course, and presents under
    -- each name those that it had and then the new ones of that name, in their order; those whose
    -- name is no aggregation name are left out.
    pub add_all-select :
        (rows : List (Aggregator F)) (adapter : AggregatorAdapter F)
        → All (λ row. belongs adapter.user adapter.course_key row ≡ true) rows
        → (adapter' : AggregatorAdapter F) × (add_all platform rows adapter ≡ ok adapter')
          × ((name : String)
              → get_named name adapter'.aggregators
                ≡ get_named name adapter.aggregators ++ select (under name) rows)
    unfolding add_all
    add_all-select [] adapter own =
        (adapter, refl, λ name. sym (append_nil (get_named name adapter.aggregators)))
    add_all-select (row ∷ rows) adapter (h, own) =
        let same = with_row-Same row adapter in
        let (adapter', done, named) =
          add_all-select rows (with_row row adapter) (rw (same.user, same.course) own) in
        (
          adapter',
          ap (λ m. m >>= λ a. add_all platform rows a) (add_aggregator-belongs row adapter h)
              ∙ done,
          λ name. named name ∙ get_named-with_row name row adapter rows,
        )

    pub add_all_keeps :
        (rows : List (Aggregator F)) (adapter : AggregatorAdapter F)
        {adapter' : AggregatorAdapter F}
        → add_all platform rows adapter ≡ ok adapter'
        → (adapter'.user ≡ adapter.user) × (adapter'.course_key ≡ adapter.course_key)
    unfolding add_all
    add_all_keeps [] adapter {adapter'} e = (ground arith, ground arith)
    add_all_keeps (row ∷ rows) adapter e =
        elim (Bool-cases (belongs adapter.user adapter.course_key row)) [
          | inl own ↦
              let same = with_row-Same row adapter in
              let kept = add_all_keeps rows (with_row row adapter) (
                sym (
                  ap (λ m. m >>= λ a. add_all platform rows a)
                    (add_aggregator-belongs row adapter own))
                ∙ e) in
              (kept.0 ∙ same.user, kept.1 ∙ same.course)
          | inr foreign ↦
              let failed =
                sym (
                  ap (λ m. m >>= λ a. add_all platform rows a)
                    (add_aggregator_foreign row adapter foreign))
                ∙ e in
              cc
        ]
