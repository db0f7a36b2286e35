-- ===== src/Signals/Running.antt =====
-- The task `update_aggregators` (tasks/aggregation_tasks.py) and the stale completions it is for.
use openedx_completion_aggre.Prelude.{
  ◌+◌, ◌<◌, ◌≡◌, refl, sym, ap, ◌∙◌, ◌⊎◌, inl, inr, String, Bool, true, ◌&&◌, and_intro, ◌==◌,
  Option, none, some, List, [], ◌∷◌, In, elem, elem-add, str_eq, str_eq_iff, Option-cases,
  Result-cases, ==_iff, Bool-cases, arith, Result, ok, raise, item_not_found, type_error,
}
use openedx_completion_aggre.Float.{Float}
use openedx_completion_aggre.Platform.{Time, CourseKey, BlockKey, User, Platform}
use openedx_completion_aggre.Models
use openedx_completion_aggre.Models.{StaleCompletion, Database, Query, continue}
use openedx_completion_aggre.Models.Manager.{bulk_create_or_update}
use openedx_completion_aggre.Models.Preserving.{Preserves, Preserves-bulk_create_or_update}
use openedx_completion_aggre.Core.{AggregationUpdater}
use openedx_completion_aggre.Core.Updater.{
  CacheEntry, Lms, is_resolved_by, resolve_stale_completions, init, calculate, update, resolve_all,
  update_aggregators,
}
use openedx_completion_aggre.Core.Preserving.{init-user, init-course_key}
use openedx_completion_aggre.Core.Resolving.{
  In-mark_resolved_matching, Present, Present-KeptByWrites,
}
use openedx_completion_aggre.Batch.{Enrollment, UpdateTask}
use openedx_completion_aggre.Batch.Queue.{Serves}
use openedx_completion_aggre.Signals.{IsLookup, changed_blocks_of, run_update_task}

-- The changed blocks are none, which stands for all, or the key is one of them.
abbrev Touches : List BlockKey → Option BlockKey → Type 0
Touches changed_blocks key =
    (changed_blocks ≡ []) ⊎ ((k : BlockKey) × (key ≡ some k) × (elem k changed_blocks ≡ true))

changed_blocks_of-keeps :
    (platform : Platform) (course_key : CourseKey) (keys acc : List BlockKey) (k : BlockKey)
    → elem k acc ≡ true
    → elem k (changed_blocks_of platform course_key keys acc) ≡ true
unfolding changed_blocks_of
changed_blocks_of-keeps platform course_key [] acc k h = h
changed_blocks_of-keeps platform course_key (key ∷ keys) acc k h =
    changed_blocks_of-keeps platform course_key keys _ k
      (ground (arith, elem-add k (platform.map_into_course key course_key) acc))

changed_blocks_of-elem :
    (platform : Platform) (course_key : CourseKey) (keys acc : List BlockKey) (k : BlockKey)
    → platform.map_into_course k course_key ≡ k
    → elem k keys ≡ true
    → elem k (changed_blocks_of platform course_key keys acc) ≡ true
unfolding changed_blocks_of
changed_blocks_of-elem platform course_key [] acc k own h = cc
changed_blocks_of-elem platform course_key (key ∷ keys) acc k own h = elim (Bool-cases (k == key)) [
  | inl same ↦ changed_blocks_of-keeps platform course_key keys _ k (
      ground (
        arith,
        elem-add k (platform.map_into_course key course_key) acc,
        ap (λ x. platform.map_into_course x course_key) (sym ((==_iff k key).0 same)),
      ))
  | inr other ↦ changed_blocks_of-elem platform course_key keys _ k own (ground arith)
]

changed_blocks_of-Touches :
    (platform : Platform) (course_key : CourseKey) (keys : List BlockKey) (key : Option BlockKey)
    → ((k : BlockKey) → key ≡ some k → platform.map_into_course k course_key ≡ k)
    → Touches keys key
    → Touches (changed_blocks_of platform course_key keys []) key
unfolding changed_blocks_of
changed_blocks_of-Touches platform course_key keys key own (inl e) =
    inl (ap (λ ks. changed_blocks_of platform course_key ks []) e)
changed_blocks_of-Touches platform course_key keys key own (inr (k, e, h)) =
    inr (k, e, changed_blocks_of-elem platform course_key keys [] k (own k e) h)

is_resolved_by-Touches :
    (user : User) (course_key : CourseKey) (changed_blocks : List BlockKey) (start : Time)
    (row : StaleCompletion)
    → row.username ≡ user.username
    → row.course_key ≡ course_key
    → row.modified < start
    → Touches changed_blocks row.block_key
    → is_resolved_by user course_key changed_blocks start row ≡ true
unfolding is_resolved_by
is_resolved_by-Touches user course_key changed_blocks start row name course older touches =
    let named : str_eq row.username user.username ≡ true =
      (str_eq_iff row.username user.username).1 name in
    elim touches [
      | inl e ↦ rw e (ground arith)
      | inr (k, e, h) ↦ by_blocks changed_blocks k e h named
    ]
  where
    by_blocks :
        (blocks : List BlockKey) (k : BlockKey)
        → row.block_key ≡ some k
        → elem k blocks ≡ true
        → str_eq row.username user.username ≡ true
        → is_resolved_by user course_key blocks start row ≡ true
    by_blocks [] k e h named = cc
    by_blocks (block ∷ rest) k e h named = ground arith

module _ (row : StaleCompletion) {F : Type 0} ⦃fl : Float F⦄ where
  -- A call that returns has marked the row as resolved, and one that raises has left it as it was.
  abbrev pub Settles : Result (Unit {0}) × Database F → Type 0
  Settles (ok a, db) = In (record row { resolved = true }) db.stale_completions
  Settles (raise e, db) = In row db.stale_completions

  bind-Settles :
      {A : Type 0} (m : Query F A) (f : A → Query F (Unit {0}))
      → Preserves (Present row) m
      → ((a : A) (db : Database F) → Present row db → Settles (f a db))
      → (db : Database F) → Present row db
      → Settles (Models.◌>>=◌ m f db)
  bind-Settles {A = A} m f p q db h = go (m db).0 (m db).1 (p db h)
    where
      go : (r : Result A) (db' : Database F) → Present row db' → Settles (continue r f db')
      go (ok a) db' k = q a db' k
      go (raise e) db' k = k

  update-Settles :
      (platform : Platform) (changed_blocks : List BlockKey) (force : Bool)
      (u : AggregationUpdater F) (db : Database F)
      → row.username ≡ u.user.username
      → row.course_key ≡ u.course_key
      → row.modified < platform.clock db.ticks
      → Touches changed_blocks row.block_key
      → In row db.stale_completions
      → Settles (update platform changed_blocks force u db)
  unfolding update resolve_stale_completions
  update-Settles platform changed_blocks force u db name course older touches m =
      let start = platform.clock db.ticks in
      elim (Result-cases
        (calculate platform changed_blocks force (record u { ticks = db.ticks + 1 }))) [
          | inl (e, raised) ↦ rw (raised, update) m
          | inr (done, found) ↦
              rw (found, update)
                (bind-Settles (bulk_create_or_update platform done.0) _
                  (Preserves-bulk_create_or_update (Present row) platform
                    (Present-KeptByWrites row platform) done.0)
                  (λ _ db' h.
                    In-mark_resolved_matching row
                      (is_resolved_by u.user u.course_key changed_blocks start)
                      db'.stale_completions
                      (is_resolved_by-Touches u.user u.course_key changed_blocks start row name
                        course older touches)
                      h)
                  (record db { ticks = done.1.ticks }) m)
        ]

  update_aggregators-Settles :
      (platform : Platform) (lms : Lms F) (cached : Option CacheEntry) (user : User)
      (course_key : CourseKey) (changed_blocks : List BlockKey) (force : Bool) (db : Database F)
      → row.username ≡ user.username
      → row.course_key ≡ course_key
      → row.modified < platform.clock db.ticks
      → Touches changed_blocks row.block_key
      → In row db.stale_completions
      → Settles (update_aggregators platform lms cached user course_key changed_blocks force db)
  unfolding update_aggregators resolve_all
  update_aggregators-Settles platform lms cached user course_key changed_blocks force db name course
        older touches m =
      by_cases (init platform lms cached user course_key none db) refl
    where
      resolved : Settles (resolve_all user course_key db)
      resolved =
          In-mark_resolved_matching row
            (λ stale. str_eq stale.username user.username && (stale.course_key == course_key))
            db.stale_completions
            (and_intro (str_eq row.username user.username) (row.course_key == course_key)
              ((str_eq_iff row.username user.username).1 name)
              ((==_iff row.course_key course_key).1 course))
            m

      by_cases :
          (r : Result (AggregationUpdater F))
          → init platform lms cached user course_key none db ≡ r
          → Settles (update_aggregators platform lms cached user course_key changed_blocks force db)
      by_cases (ok u) e =
          rw (e, update_aggregators)
            (update-Settles platform changed_blocks force u db
              (name
                ∙ ap (λ (v : User). v.username)
                    (sym (init-user platform lms cached user course_key none db {u = u} e)))
              (course ∙ sym (init-course_key platform lms cached user course_key none db {u = u} e))
              older touches m)
      by_cases (raise item_not_found) e = rw (e, update_aggregators) resolved
      by_cases (raise type_error) e = rw (e, update_aggregators) resolved
      by_cases (raise other) e = rw (e, update_aggregators) m

  -- The task for a stale completion, recorded before the task starts and for a block whose key is
  -- one of its course, settles it: where the task returns, the stale completion is marked as
  -- resolved, and where it raises, it is in the table as before, so that a later run finds it.
  pub run_update_task-Settles :
      (platform : Platform) (lms : Lms F) (cached : Option CacheEntry)
      (find_user : String → Option User) (task : UpdateTask) (db : Database F)
      → IsLookup find_user
      → Serves row task
      → ((k : BlockKey) → row.block_key ≡ some k → platform.map_into_course k row.course_key ≡ k)
      → row.modified < platform.clock db.ticks
      → In row db.stale_completions
      → Settles (run_update_task platform lms cached find_user task db)
  unfolding run_update_task
  run_update_task-Settles platform lms cached find_user task db lookup serves own older m =
      let name = task.enrollment.username in
      let name_eq : row.username ≡ name =
        sym (ap (λ (e : Enrollment). e.username) serves.enrollment) in
      let course_eq : row.course_key ≡ task.enrollment.course_key =
        sym (ap (λ (e : Enrollment). e.course_key) serves.enrollment) in
      elim (Option-cases (find_user name)) [
        | inl missing ↦
            rw (missing, run_update_task)
              (In-mark_resolved_matching row (λ stale. str_eq stale.username name)
                db.stale_completions ((str_eq_iff row.username name).1 name_eq) m)
        | inr (user, found) ↦
            rw (found, run_update_task)
              (update_aggregators-Settles platform lms cached user task.enrollment.course_key
                (changed_blocks_of platform task.enrollment.course_key task.block_keys [])
                task.force db (name_eq ∙ sym (lookup name user found)) course_eq older
                (changed_blocks_of-Touches platform task.enrollment.course_key task.block_keys
                  row.block_key
                  (λ k e. ap (λ c. platform.map_into_course k c) (sym course_eq) ∙ own k e)
                  serves.recalculates)
                m)
      ]
