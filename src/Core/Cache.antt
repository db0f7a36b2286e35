-- ===== src/Core/Cache.antt =====
-- completion_aggregator/core.py: `UpdaterCache` and `AggregationUpdater.set_cache`.
use openedx_completion_aggre.Prelude.{
  ℕ, ◌≡◌, Bool, Option, none, some, List, ltb, if◌then◌else◌, ok, arith,
}
use openedx_completion_aggre.Platform.{Time, CourseKey, BlockKey, User, Platform}
use openedx_completion_aggre.Models.{CacheGroupInvalidation}
use openedx_completion_aggre.CacheGroup
use openedx_completion_aggre.CacheGroup.{CacheBackend, CacheGroupEntry, invalidation_of}
use openedx_completion_aggre.CacheGroup.Invalidation.{get-set}
use openedx_completion_aggre.Core.{AggregationUpdater}
use openedx_completion_aggre.Core.Updater.{CacheEntry, Lms, course_structure}

-- `UPDATER_CACHE_TIMEOUT`, in seconds.
abbrev pub updater_cache_timeout : ℕ
updater_cache_timeout = 600

-- `UpdaterCache.cache_key`; the text of the key names these three.
pub record UpdaterKey : Type 0 where
  pub user_id : ℕ
  pub course_key : CourseKey
  pub root_block : Option BlockKey

module _ {C : Type 0} (cache : CacheBackend C UpdaterKey (CacheGroupEntry CacheEntry)) where
  unfoldable pub updater_cache_get :
      UpdaterKey → List CacheGroupInvalidation → C → Option CacheEntry
  updater_cache_get key invalidations c = CacheGroup.get cache key invalidations c

  unfoldable pub updater_cache_set : UpdaterKey → CacheEntry → Time → C → C
  updater_cache_set key value cached_at c =
      CacheGroup.set cache key.course_key key value updater_cache_timeout cached_at c

  unfoldable pub updater_cache_touch : UpdaterKey → C → C
  updater_cache_touch key c = (CacheGroup.touch cache key updater_cache_timeout c).1

  -- `using_cache` tells whether the updater was made from a cached structure.
  unfoldable pub set_cache : {F : Type 0} → UpdaterKey → Bool → Time → AggregationUpdater F → C → C
  unfolding updater_cache_set updater_cache_touch
  set_cache key using_cache cached_at u c =
      let c' = if using_cache then updater_cache_touch key c else c in
      updater_cache_set key (record { course_blocks = u.course_blocks; root_block = u.root_block })
        cached_at c'

  -- Just after an updater has cached its course, the next updater for the same user, course and
  -- root block starts with the same root and the same blocks, and does not ask the LMS; unless the
  -- course was invalidated after the moment of caching: then it asks the LMS.
  pub course_structure-set_cache :
      {F : Type 0} (platform : Platform) (lms : Lms F) (user : User) (key : UpdaterKey)
      (using_cache : Bool) (cached_at : Time) (u : AggregationUpdater F)
      (invalidations : List CacheGroupInvalidation) (c : C)
      → course_structure platform lms
          (updater_cache_get key invalidations (set_cache key using_cache cached_at u c))
          user
          key.course_key
          key.root_block
        ≡ (elim (invalidation_of key.course_key invalidations) [
          | none ↦ ok (u.root_block, u.course_blocks)
          | some i ↦
              if ltb cached_at i.invalidated_at
              then course_structure platform lms none user key.course_key key.root_block
              else ok (u.root_block, u.course_blocks)
        ])
  unfolding updater_cache_get set_cache course_structure invalidation_of
  course_structure-set_cache platform lms user key using_cache cached_at u invalidations c =
      ground (
        arith,
        get-set cache key.course_key key
            (record { course_blocks = u.course_blocks; root_block = u.root_block })
            updater_cache_timeout cached_at invalidations
            (if using_cache then updater_cache_touch key c else c) (omega arith),
      )
