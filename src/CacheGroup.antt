-- ===== src/CacheGroup.antt =====
-- completion_aggregator/cachegroup.py, over Django's cache as an interface.
pub mod Invalidation
use openedx_completion_aggre.Prelude.{
  ℕ, ◌+◌, ◌-◌, ◌*◌, ◌<◌, ◌≡◌, Bool, true, Option, none, some, List, [], ◌∷◌, ◌==◌, ltb, not, first,
  select, if◌then◌else◌, ok,
}
use openedx_completion_aggre.Platform.{Time, CourseKey, Platform}
use openedx_completion_aggre.Models.{CacheGroupInvalidation, Database, Query}

-- `django.core.cache.cache`: a state `C`, keys `K` and values `V`. An entry may go at any time; the
-- laws say what an operation that has just been made shows; a timeout of 0 stores nothing.
pub record CacheBackend (C K V : Type 0) : Type 0 where
  pub get : K → C → Option V
  pub set : K → V → ℕ → C → C
  pub touch : K → ℕ → C → Bool × C
  pub delete : K → C → C
  pub get-set :
      (k : K) (v : V) (timeout : ℕ) (c : C) → 0 < timeout → get k (set k v timeout c) ≡ some v
  pub get-delete : (k : K) (c : C) → get k (delete k c) ≡ none

-- `_CacheGroupEntry`
pub record CacheGroupEntry (V : Type 0) : Type 0 where
  pub group : CourseKey
  pub value : V
  pub cached_at : Time

-- `DELETE_INVALIDATIONS_AFTER`: ninety days, in microseconds.
abbrev pub delete_invalidations_after : Time
delete_invalidations_after = 90 * 24 * 60 * 60 * 1000000

-- `CacheGroupInvalidation.objects.filter(group=group).first()`
unfoldable pub invalidation_of :
    CourseKey → List CacheGroupInvalidation → Option CacheGroupInvalidation
invalidation_of group [] = none
invalidation_of group (i ∷ rest) = if i.group == group then some i else invalidation_of group rest

-- `CacheGroupInvalidation.objects.update_or_create(group=group, …)`
unfoldable pub put_invalidation :
    CourseKey → Time → List CacheGroupInvalidation → List CacheGroupInvalidation
put_invalidation group time [] = record { group = group; invalidated_at = time } ∷ []
put_invalidation group time (i ∷ rest) =
    if i.group == group
    then record { group = group; invalidated_at = time } ∷ rest
    else i ∷ put_invalidation group time rest

-- `CacheGroupInvalidation.objects.filter(invalidated_at__lt=limit).delete()`
unfoldable pub delete_before : Time → List CacheGroupInvalidation → List CacheGroupInvalidation
delete_before limit [] = []
delete_before limit (i ∷ rest) =
    let kept = delete_before limit rest in if ltb i.invalidated_at limit then kept else i ∷ kept

unfoldable pub delete_group : {F : Type 0} → Platform → CourseKey → Query F (Unit {0})
unfolding put_invalidation delete_before
delete_group platform group db =
    let invalidated_at = platform.clock db.ticks in
    let later = platform.clock (db.ticks + 1) in
    (
      ok tt,
      record db {
        invalidations =
            delete_before (later - delete_invalidations_after)
              (put_invalidation group invalidated_at db.invalidations);
        ticks = db.ticks + 2;
      },
    )

module _ {C K V : Type 0} (cache : CacheBackend C K (CacheGroupEntry V)) where
  -- What `CacheGroup.get` makes of the entry that Django's cache returned.
  unfoldable pub valid_entry : List CacheGroupInvalidation → Option (CacheGroupEntry V) → Option V
  unfolding invalidation_of
  valid_entry invalidations none = none
  valid_entry invalidations (some entry) = elim (invalidation_of entry.group invalidations) [
    | none ↦ some entry.value
    | some invalidation ↦
        if ltb entry.cached_at invalidation.invalidated_at then none else some entry.value
  ]

  unfoldable pub get : K → List CacheGroupInvalidation → C → Option V
  unfolding valid_entry
  get key invalidations c = valid_entry invalidations (cache.get key c)

  -- `cached_at` is the reading of the clock that the call makes.
  unfoldable pub set : CourseKey → K → V → ℕ → Time → C → C
  set group key value timeout cached_at c =
      cache.set key (record { group = group; value = value; cached_at = cached_at }) timeout c

  -- Django has `touch` since version 2.1.
  unfoldable pub touch : K → ℕ → C → Bool × C
  touch key timeout c = cache.touch key timeout c

  unfoldable pub delete : K → C → C
  delete key c = cache.delete key c
