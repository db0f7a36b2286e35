-- ===== src/Api/Presenting.antt =====
-- What the adapters of a view present.
use openedx_completion_aggre.Prelude.{
  String, ◌≡◌, refl, sym, subst, inl, inr, Bool, true, false, Option, List, [], ◌∷◌, All, In, ok,
  ◌>>=◌, >>=-eq-ok, ok_inj, arith,
}
use openedx_completion_aggre.Float.{Float}
use openedx_completion_aggre.Platform.{CourseKey, BlockKey, User, Platform}
use openedx_completion_aggre.Models.{Aggregator, Database}
use openedx_completion_aggre.Core.Updater.{CacheEntry, Lms, calculate_updated_aggregators}
use openedx_completion_aggre.Serializers.{
  AggregatorAdapter, adapter_update_aggregators, adapter_init, add_all, get_named,
}
use openedx_completion_aggre.Serializers.Adding.{add_all_keeps}
use openedx_completion_aggre.Serializers.Owning.{Owns, add_all-Owns}
use openedx_completion_aggre.Api.{CourseEnrollment, Site, adapters_for}

module _ {F : Type 0} where
  -- Each aggregator that the adapter presents, under any name, is of the user and the course.
  abbrev pub Presents : User → CourseKey → AggregatorAdapter F → Type 0
  Presents user course_key adapter =
      (name : String) (row : Aggregator F)
      → In row (get_named name adapter.aggregators)
      → (row.user.id ≡ user.id) × (row.course_key ≡ course_key)

  -- The user and the course of the adapter have a property, and what it presents is theirs.
  abbrev pub Shown : (User → CourseKey → Type 0) → AggregatorAdapter F → Type 0
  Shown P adapter =
      P adapter.user adapter.course_key × Presents adapter.user adapter.course_key adapter

module _ {F : Type 0} ⦃fl : Float F⦄ (site : Site F) (db : Database F) where
  adapter_update_keeps :
      (platform : Platform) (lms : Lms F) (cached : Option CacheEntry) (rows : List (Aggregator F))
      (root_block : Option BlockKey) (stale : Bool) (adapter : AggregatorAdapter F)
      {adapter' : AggregatorAdapter F}
      → adapter_update_aggregators platform lms cached db rows root_block stale adapter
        ≡ ok adapter'
      → (adapter'.user ≡ adapter.user) × (adapter'.course_key ≡ adapter.course_key)
  unfolding adapter_update_aggregators
  adapter_update_keeps platform lms cached rows root_block false adapter e =
      add_all_keeps platform rows adapter e
  adapter_update_keeps platform lms cached rows root_block true adapter e =
      let (answer, _, done) =
        >>=-eq-ok
          (calculate_updated_aggregators platform lms cached adapter.user adapter.course_key []
            root_block true db)
          (λ (x : List (Aggregator F) × Option CacheEntry). add_all platform x.0 adapter) e in
      add_all_keeps platform answer.0 adapter done

  adapter_init_keeps :
      (platform : Platform) (lms : Lms F) (cached : Option CacheEntry) (user : User)
      (course_key : CourseKey) (rows : List (Aggregator F)) (root_block : Option BlockKey)
      (recalculate_stale : Bool) {adapter : AggregatorAdapter F}
      → adapter_init platform lms cached db user course_key rows root_block recalculate_stale
        ≡ ok adapter
      → (adapter.user ≡ user) × (adapter.course_key ≡ course_key)
  unfolding adapter_init
  adapter_init_keeps platform lms cached user course_key rows root_block recalculate_stale e =
      adapter_update_keeps platform lms cached rows root_block _ _ e

  adapter_update-Owns :
      (platform : Platform) (lms : Lms F) (cached : Option CacheEntry) (rows : List (Aggregator F))
      (root_block : Option BlockKey) (stale : Bool) (adapter : AggregatorAdapter F)
      {adapter' : AggregatorAdapter F}
      → adapter_update_aggregators platform lms cached db rows root_block stale adapter
        ≡ ok adapter'
      → Owns adapter.user adapter.course_key adapter
      → Owns adapter.user adapter.course_key adapter'
  unfolding adapter_update_aggregators
  adapter_update-Owns platform lms cached rows root_block false adapter e owns =
      add_all-Owns platform rows adapter e owns
  adapter_update-Owns platform lms cached rows root_block true adapter e owns =
      let (answer, _, done) =
        >>=-eq-ok
          (calculate_updated_aggregators platform lms cached adapter.user adapter.course_key []
            root_block true db)
          (λ (x : List (Aggregator F) × Option CacheEntry). add_all platform x.0 adapter) e in
      add_all-Owns platform answer.0 adapter done owns

  adapter_init-Presents :
      (platform : Platform) (lms : Lms F) (cached : Option CacheEntry) (user : User)
      (course_key : CourseKey) (rows : List (Aggregator F)) (root_block : Option BlockKey)
      (recalculate_stale : Bool) {adapter : AggregatorAdapter F}
      → adapter_init platform lms cached db user course_key rows root_block recalculate_stale
        ≡ ok adapter
      → Presents user course_key adapter
  unfolding adapter_init get_named
  adapter_init-Presents platform lms cached user course_key rows root_block recalculate_stale e name
        row m =
      let own =
        adapter_update-Owns platform lms cached rows root_block _
          (record { user = user; course_key = course_key; aggregators = [] }) e
          (λ _ _ none. elim none [ ]) name row m in
      (ground (arith, own), ground (arith, own))

  pub adapters_for-All :
      (P : User → CourseKey → Type 0) (user_of : CourseEnrollment → User)
      (rows_of : CourseEnrollment → List (Aggregator F)) (root_block : Option BlockKey)
      (recalculate_stale : Bool) (page : List CourseEnrollment)
      {adapters : List (AggregatorAdapter F)}
      → ((e : CourseEnrollment) → In e page → P (user_of e) e.course_id)
      → adapters_for site db user_of rows_of root_block recalculate_stale page ≡ ok adapters
      → All (Shown P) adapters
  unfolding adapters_for
  adapters_for-All P user_of rows_of root_block recalculate_stale [] {adapters} own e =
      subst (All (Shown P)) (ok_inj e) tt
  adapters_for-All P user_of rows_of root_block recalculate_stale (row ∷ page) own e =
      let more = adapters_for site db user_of rows_of root_block recalculate_stale page in
      let (adapter, made, e₁) =
        >>=-eq-ok
          (adapter_init site.platform site.lms (site.cached (user_of row) row.course_id root_block)
            db (user_of row) row.course_id (rows_of row) root_block recalculate_stale)
          (λ a. more >>= λ others. ok (a ∷ others)) e in
      let (adapters, rest, e₂) = >>=-eq-ok more (λ others. ok (adapter ∷ others)) e₁ in
      let (same_user, same_course) = adapter_init_keeps _ _ _ _ _ _ _ _ made in
      let owns = adapter_init-Presents _ _ _ _ _ _ _ _ made in
      subst (All (Shown P)) (ok_inj e₂) (
        subst (λ u. P u adapter.course_key × Presents u adapter.course_key adapter) (sym same_user)
            (subst (λ k. P (user_of row) k × Presents (user_of row) k adapter) (sym same_course)
              (own row (inl refl), owns)),
        adapters_for-All P user_of rows_of root_block recalculate_stale page (λ x m. own x (inr m))
            rest,
      )
