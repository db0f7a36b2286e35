-- ===== src/CacheGroup/Invalidation.antt =====
-- `CacheGroup.get` (cachegroup.py) after an invalidation of the group.
use openedx_completion_aggre.Prelude.{
  ℕ, ◌+◌, ◌-◌, ◌<◌, ◌≤◌, ◌≡◌, refl, ap, ◌∙◌, none, some, List, [], ◌∷◌, ◌==◌, arith, ltb, leb,
  if◌then◌else◌,
}
use openedx_completion_aggre.Platform.{Time, CourseKey, Platform}
use openedx_completion_aggre.Models.{CacheGroupInvalidation, Database}
use openedx_completion_aggre.CacheGroup
use openedx_completion_aggre.CacheGroup.{
  CacheBackend, CacheGroupEntry, delete_invalidations_after, invalidation_of, put_invalidation,
  delete_before, delete_group, valid_entry,
}

invalidation_of-put :
    (g h : CourseKey) (time : Time) (l : List CacheGroupInvalidation)
    → invalidation_of h (put_invalidation g time l)
      ≡ (if g == h then some (record { group = g; invalidated_at = time }) else invalidation_of h l)
unfolding invalidation_of put_invalidation
invalidation_of-put g h time [] = refl
invalidation_of-put g h time (i ∷ l) = ground (arith, invalidation_of-put g h time l)

-- Deleting old invalidations keeps the first one of a group if that is recent.
invalidation_of-delete_before :
    (limit : Time) (g : CourseKey) (i : CacheGroupInvalidation) (l : List CacheGroupInvalidation)
    → invalidation_of g l ≡ some i
    → limit ≤ i.invalidated_at
    → invalidation_of g (delete_before limit l) ≡ some i
unfolding invalidation_of delete_before
invalidation_of-delete_before limit g i [] h p = h
invalidation_of-delete_before limit g i (j ∷ l) h p =
    ground (arith, invalidation_of-delete_before limit g i l)

invalidation_of-put_self :
    (g : CourseKey) (time : Time) (l : List CacheGroupInvalidation)
    → invalidation_of g (put_invalidation g time l)
      ≡ some (record { group = g; invalidated_at = time })
invalidation_of-put_self g time l = rw invalidation_of-put (ground arith)

valid_entry_invalid :
    {C K V : Type 0} (cache : CacheBackend C K (CacheGroupEntry V)) (entry : CacheGroupEntry V)
    (i : CacheGroupInvalidation) (l : List CacheGroupInvalidation)
    → invalidation_of entry.group l ≡ some i
    → entry.cached_at < i.invalidated_at
    → valid_entry cache l (some entry) ≡ none
unfolding valid_entry
valid_entry_invalid cache entry i l found before = ground arith

-- The invalidation that `delete_group` records is there after its clean-up.
invalidation_of-delete_group :
    {F : Type 0} (platform : Platform) (group : CourseKey) (db : Database F)
    → platform.clock (db.ticks + 1) ≤ platform.clock db.ticks + delete_invalidations_after
    → invalidation_of group (delete_group platform group db).1.invalidations
      ≡ some (record { group = group; invalidated_at = platform.clock db.ticks })
unfolding delete_group
invalidation_of-delete_group platform group db recent =
    let time = platform.clock db.ticks in
    invalidation_of-delete_before (platform.clock (db.ticks + 1) - delete_invalidations_after) group
      (record { group = group; invalidated_at = time })
      (put_invalidation group time db.invalidations)
      (invalidation_of-put_self group time db.invalidations) (omega arith)

module _ {C K V : Type 0} (cache : CacheBackend C K (CacheGroupEntry V)) where
  -- A value that was just set, with a positive timeout, is read back, unless its group was invalidated after the moment at
  -- which it was cached; then nothing is read.
  pub get-set :
      (group : CourseKey) (key : K) (value : V) (timeout cached_at : ℕ)
      (l : List CacheGroupInvalidation) (c : C)
      → 0 < timeout
      → CacheGroup.get cache key l (CacheGroup.set cache group key value timeout cached_at c)
        ≡ (elim (invalidation_of group l) [
          | none ↦ some value
          | some i ↦ if ltb cached_at i.invalidated_at then none else some value
        ])
  unfolding CacheGroup.get CacheGroup.set
  get-set group key value timeout cached_at l c positive = ap (valid_entry cache l) (
      cache.get-set key (record { group = group; value = value; cached_at = cached_at }) timeout c
        positive)

  -- After `delete_group`, a value that is set in the group with a positive timeout is read back if
  -- it was cached at or after the first reading of the clock in `delete_group`, and is not if it was
  -- cached before; where the second reading is at most ninety days after the first.
  pub get-set-delete_group :
      {F : Type 0} (platform : Platform) (group : CourseKey) (db : Database F) (key : K) (value : V)
      (timeout cached_at : ℕ) (c : C)
      → 0 < timeout
      → platform.clock (db.ticks + 1) ≤ platform.clock db.ticks + delete_invalidations_after
      → CacheGroup.get cache key
          (delete_group platform group db).1.invalidations
          (CacheGroup.set cache group key value timeout cached_at c)
        ≡ (if leb (platform.clock db.ticks) cached_at then some value else none)
  get-set-delete_group platform group db key value timeout cached_at c positive recent =
      let read =
        get-set group key value timeout cached_at (delete_group platform group db).1.invalidations c
          positive in
      let kept = invalidation_of-delete_group platform group db recent in
      rw (read, kept) (ground arith)

  -- After `delete_group`, an entry of the group that was cached before it is not returned, whatever
  -- the state of Django's cache; where the second reading of the clock in `delete_group` is at most
  -- ninety days after the first.
  pub get-delete_group :
      {F : Type 0} (platform : Platform) (group : CourseKey) (db : Database F) (key : K) (c : C)
      (entry : CacheGroupEntry V)
      → cache.get key c ≡ some entry
      → entry.group ≡ group
      → entry.cached_at < platform.clock db.ticks
      → platform.clock (db.ticks + 1) ≤ platform.clock db.ticks + delete_invalidations_after
      → CacheGroup.get cache key (delete_group platform group db).1.invalidations c ≡ none
  unfolding CacheGroup.get delete_group
  get-delete_group platform group db key c entry found same before recent =
      let i : CacheGroupInvalidation = record {
        group = group;
        invalidated_at = platform.clock db.ticks;
      } in
      let kept = invalidation_of-delete_group platform group db recent in
      ap (valid_entry cache _) found
      ∙ valid_entry_invalid cache entry i _
          (ap (λ g. invalidation_of g (delete_group platform group db).1.invalidations) same ∙ kept)
          before
