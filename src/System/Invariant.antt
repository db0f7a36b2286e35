-- ===== src/System/Invariant.antt =====
-- What holds of the database, the queue and the locks between any two steps.
use openedx_completion_aggre.Prelude.{
  ℕ, zero, suc, ◌+◌, ◌≡◌, refl, sym, subst, inl, inr, String, Bool, true, false, Option, none, List,
  [], ◌∷◌, All, All-append, All-take, ◌++◌, ltb, length, take, Bool-cases, arith, str_eq,
  str_eq_iff, Option-cases, map, Result,
}
use openedx_completion_aggre.Float.{Float}
use openedx_completion_aggre.Platform.{CourseKey, BlockKey, User, Platform}
use openedx_completion_aggre.Models.{Database}
use openedx_completion_aggre.Models.Preserving.{Preserves, KeptByWrites-both, KeptByWrites-stale}
use openedx_completion_aggre.Models.Soundness.{SoundDatabase, SoundDatabase-KeptByWrites}
use openedx_completion_aggre.CacheGroup.{delete_group}
use openedx_completion_aggre.Core.Updater.{CacheEntry, Lms}
use openedx_completion_aggre.Core.Preserving.{KeptByUpdates, Preserves-update_aggregators}
use openedx_completion_aggre.Batch.{
  UpdateTask, Service, perform_aggregation, interrupted_aggregation, perform_cleanup,
}
use openedx_completion_aggre.Batch.Runs.{
  IsSmall, perform_aggregation_locked, perform_aggregation_sizeless, perform_aggregation-IsRunOf,
}
use openedx_completion_aggre.Signals.{
  create_stale, create_all_stale, changed_blocks_of, run_update_task,
}
use openedx_completion_aggre.Commands.{reaggregate_course}
use openedx_completion_aggre.System.Numbering.{
  Ascending, Ascending-mark_resolved, Ascending-select, Ascending-append,
}

module _ {F : Type 0} ⦃fl : Float F⦄ where
  -- The table of aggregators is sound, and the ids of the stale completions increase.
  abbrev pub IsSoundDatabase : Database F → Type 0
  IsSoundDatabase db = SoundDatabase db × Ascending 0 db.stale_completions db.next_id

  pub record Inv (s : Service F) : Type 0 where
    pub sound : IsSoundDatabase s.database
    pub small : All IsSmall s.queue

  IsSoundDatabase-KeptByUpdates : (name : String) → KeptByUpdates name IsSoundDatabase
  IsSoundDatabase-KeptByUpdates name = record {
    writes = λ platform.
        KeptByWrites-both (SoundDatabase-KeptByWrites platform)
          (KeptByWrites-stale platform (Ascending 0));
    readings = λ db n h. h;
    resolutions =
        λ db p own (h, k). (h, Ascending-mark_resolved 0 db.next_id p db.stale_completions k);
  }

  pub create_stale-IsSoundDatabase :
      (platform : Platform) (username : String) (course_key : CourseKey) (key : Option BlockKey)
      (force : Bool) (db : Database F)
      → IsSoundDatabase db
      → IsSoundDatabase (create_stale platform username course_key key force db)
  unfolding create_stale
  create_stale-IsSoundDatabase platform username course_key key force db (h, k) =
      (h, Ascending-append 0 db.next_id db.stale_completions _ refl k)

  pub create_all_stale-IsSoundDatabase :
      (platform : Platform) (course_key : CourseKey) (usernames : List String) (db : Database F)
      → IsSoundDatabase db
      → IsSoundDatabase (create_all_stale platform course_key usernames db)
  unfolding create_all_stale
  create_all_stale-IsSoundDatabase platform course_key [] db h = h
  create_all_stale-IsSoundDatabase platform course_key (name ∷ names) db h =
      create_all_stale-IsSoundDatabase platform course_key names _
        (create_stale-IsSoundDatabase platform name course_key none true db h)

  pub delete_group-IsSoundDatabase :
      (platform : Platform) (group : CourseKey) (db : Database F)
      → IsSoundDatabase db
      → IsSoundDatabase (delete_group platform group db).1
  unfolding delete_group
  delete_group-IsSoundDatabase platform group db h = h

  pub reaggregate_course-IsSoundDatabase :
      (platform : Platform) (enrolled : CourseKey → List User) (course_keys : List CourseKey)
      (db : Database F)
      → IsSoundDatabase db
      → IsSoundDatabase (reaggregate_course platform enrolled course_keys db)
  unfolding reaggregate_course
  reaggregate_course-IsSoundDatabase platform enrolled [] db h = h
  reaggregate_course-IsSoundDatabase platform enrolled (course_key ∷ rest) db h =
      let usernames = map (λ (user : User). user.username) (enrolled course_key) in
      reaggregate_course-IsSoundDatabase platform enrolled rest
        (create_all_stale platform course_key usernames db)
        (create_all_stale-IsSoundDatabase platform course_key usernames db h)

  pub Inv-queue :
      (s : Service F) (queue : List UpdateTask) (lock : Bool)
      → All IsSmall queue
      → Inv s
      → Inv (record s { queue = queue; aggregation_lock = lock })
  Inv-queue s queue lock small inv = record { sound = inv.sound; small = small }

  pub perform_aggregation-Inv :
      (batch_size : ℕ) (limit : Option ℕ) (s : Service F)
      → Inv s
      → Inv (perform_aggregation batch_size limit s).1
  perform_aggregation-Inv batch_size limit s inv = elim (Bool-cases s.aggregation_lock) [
    | inl taken ↦
        subst (λ (r : Result (Unit {0}) × Service F). Inv r.1)
          (sym (perform_aggregation_locked batch_size limit s taken)) inv
    | inr free ↦ with_size batch_size free
  ]
    where
      with_size :
          (batch_size : ℕ)
          → s.aggregation_lock ≡ false
          → Inv (perform_aggregation batch_size limit s).1
      with_size zero free =
          let (r, lock, run) = perform_aggregation_sizeless limit s free in
          subst (λ (r : Result (Unit {0}) × Service F). Inv r.1) (sym run)
            (Inv-queue s s.queue lock inv.small inv)
      with_size (suc n) free =
          let (tasks, run, shape) =
            perform_aggregation-IsRunOf (suc n) limit s free (omega arith) in
          subst (λ (r : Result (Unit {0}) × Service F). Inv r.1) (sym run)
            (Inv-queue s (s.queue ++ tasks) false
              (All-append IsSmall s.queue tasks inv.small shape.small) inv)

  pub interrupted_aggregation-Inv :
      (sent batch_size : ℕ) (limit : Option ℕ) (s : Service F)
      → Inv s
      → Inv (interrupted_aggregation sent batch_size limit s).1
  unfolding interrupted_aggregation
  interrupted_aggregation-Inv sent batch_size limit s inv =
      let run = perform_aggregation batch_size limit s in
      let queued = length s.queue + sent in
      let after = perform_aggregation-Inv batch_size limit s inv in
      elim (Bool-cases (ltb queued (length run.1.queue))) [
        | inl more ↦ rw more (
            Inv-queue s (take queued run.1.queue) true
              (All-take IsSmall queued run.1.queue after.small) inv)
        | inr all ↦ rw all after
      ]

  pub perform_cleanup-Inv : (s : Service F) → Inv s → Inv (perform_cleanup s)
  unfolding perform_cleanup
  perform_cleanup-Inv s inv =
      let (table, ids) = inv.sound in
      elim (Bool-cases s.cleanup_lock) [
        | inl taken ↦ rw taken (record { sound = inv.sound; small = inv.small })
        | inr free ↦ rw free (record {
          sound = (table, Ascending-select 0 s.database.next_id _ s.database.stale_completions ids);
          small = inv.small;
        })
      ]

  pub Inv-database :
      (s : Service F) (db : Database F)
      → IsSoundDatabase db
      → Inv s
      → Inv (record s { database = db })
  Inv-database s db h inv = record { sound = h; small = inv.small }

  pub run_update_task-IsSoundDatabase :
      (platform : Platform) (lms : Lms F) (cached : Option CacheEntry)
      (find_user : String → Option User) (task : UpdateTask)
      → Preserves IsSoundDatabase (run_update_task platform lms cached find_user task)
  unfolding run_update_task
  run_update_task-IsSoundDatabase platform lms cached find_user task db h =
      let name = task.enrollment.username in
      elim (Option-cases (find_user name)) [
        | inl missing ↦
            rw (missing, run_update_task)
              ((IsSoundDatabase-KeptByUpdates name).resolutions db
                (λ stale. str_eq stale.username name) (λ row e. (str_eq_iff row.username name).0 e)
                h)
        | inr (user, found) ↦
            rw (found, run_update_task)
              (Preserves-update_aggregators IsSoundDatabase user
                (IsSoundDatabase-KeptByUpdates user.username) platform lms cached
                task.enrollment.course_key
                (changed_blocks_of platform task.enrollment.course_key task.block_keys [])
                task.force db h)
      ]
