-- ===== src/Examples/Caches.antt =====
-- A cache that keeps what it is given.
use openedx_completion_aggre.Prelude.{
  ℕ, ◌≡◌, refl, ap, Bool, true, false, ◌&&◌, Option, none, some, [], ◌==◌, ==_refl, if◌then◌else◌,
  arith, ok, leb,
}
use openedx_completion_aggre.Platform.{BlockKey}
use openedx_completion_aggre.CacheGroup
use openedx_completion_aggre.CacheGroup.{
  CacheBackend, CacheGroupEntry, invalidation_of, delete_group,
}
use openedx_completion_aggre.CacheGroup.Invalidation.{get-set-delete_group, get-delete_group}
use openedx_completion_aggre.Core.Updater.{CacheEntry, course_structure}
use openedx_completion_aggre.Core.Cache.{
  UpdaterKey, updater_cache_get, set_cache, course_structure-set_cache,
}
use openedx_completion_aggre.Examples.{learner, platform, lms, updater, blocks, empty_database}

module _ {K V : Type 0} (eq : K → K → Bool) (eq_refl : (k : K) → eq k k ≡ true) where
  abbrev kept : CacheBackend (K → Option V) K V
  kept = record {
    get = λ k c. c k;
    set = λ k v timeout c. λ j. if eq j k then some v else c j;
    touch = λ k timeout c. (true, c);
    delete = λ k c. λ j. if eq j k then none else c j;
    get-set = λ k v timeout c positive. ap (λ b. if b then some v else c k) (eq_refl k);
    get-delete = λ k c. ap (λ b. if b then none else c k) (eq_refl k);
  }

abbrev numbers : CacheBackend (ℕ → Option (CacheGroupEntry ℕ)) ℕ (CacheGroupEntry ℕ)
numbers = kept (λ a b. a == b) ==_refl

-- Cached at moment 12, after the invalidation at moment 0.
get-set-delete_group_example :
    CacheGroup.get numbers 3
      (delete_group platform 9 empty_database).1.invalidations
      (CacheGroup.set numbers 9 3 44 600 12 (λ k. none))
    ≡ (if leb (platform.clock empty_database.ticks) 12 then some 44 else none)
get-set-delete_group_example =
    get-set-delete_group numbers platform 9 empty_database 3 44 600 12 (λ k. none) (omega arith)
      (omega arith)

abbrev cached_number : CacheGroupEntry ℕ
cached_number = record { group = 9; value = 44; cached_at = 12 }

get-delete_group_example :
    CacheGroup.get numbers 3
      (delete_group platform 9 empty_database).1.invalidations
      (λ k. some cached_number)
    ≡ none
get-delete_group_example =
    get-delete_group numbers platform 9 empty_database 3 (λ k. some cached_number) cached_number
      refl refl (omega arith) (omega arith)

abbrev root_eq : Option BlockKey → Option BlockKey → Bool
root_eq none none = true
root_eq none (some b) = false
root_eq (some a) none = false
root_eq (some a) (some b) = a == b

root_eq_refl : (r : Option BlockKey) → root_eq r r ≡ true
root_eq_refl none = refl
root_eq_refl (some a) = ==_refl a

abbrev updater_key_eq : UpdaterKey → UpdaterKey → Bool
updater_key_eq a b =
    (a.user_id == b.user_id)
    && ((a.course_key == b.course_key) && root_eq a.root_block b.root_block)

updater_key_eq_refl : (k : UpdaterKey) → updater_key_eq k k ≡ true
updater_key_eq_refl k = ground (arith, root_eq_refl k.root_block)

abbrev structures :
    CacheBackend
      (UpdaterKey → Option (CacheGroupEntry CacheEntry))
      UpdaterKey
      (CacheGroupEntry CacheEntry)
structures = kept updater_key_eq updater_key_eq_refl

abbrev course_of_learner : UpdaterKey
course_of_learner = record { user_id = 7; course_key = 9; root_block = none }

course_structure-set_cache_example :
    course_structure platform lms
      (updater_cache_get structures course_of_learner []
        (set_cache structures course_of_learner false 12 updater (λ k. none)))
      learner
      9
      none
    ≡ ok (1, blocks)
unfolding invalidation_of
course_structure-set_cache_example =
    course_structure-set_cache structures platform lms learner course_of_learner false 12 updater []
      (λ k. none)
