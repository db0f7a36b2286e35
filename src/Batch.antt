-- ===== src/Batch.antt =====
-- completion_aggregator/batch.py: the aggregator service.
--
-- The two locks are entries of Django's cache that are there or not. A lock that runs into its
-- timeout is an event outside these functions, a step of System.
pub mod Collecting
pub mod Windows
pub mod Queue
pub mod Sources
pub mod Runs
pub mod Draining
pub mod Oldest
use openedx_completion_aggre.Prelude.{
  ℕ, zero, suc, ◌+◌, ◌-◌, min, max, String, Bool, true, false, ◌&&◌, not, Option, none, some, List,
  [], ◌∷◌, ◌++◌, ◌==◌, leb, ltb, length, add, select, str_eq, if◌then◌else◌, take, Exception,
  value_error, operational_error, Result, ok, raise,
}
use openedx_completion_aggre.Platform.{CourseKey, BlockKey}
use openedx_completion_aggre.Utils.{Container, bag_of_holding, key_set}
use openedx_completion_aggre.Models.{StaleCompletion, Database}

-- `EnrollmentTuple`
pub record Enrollment : Type 0 where
  pub username : String
  pub course_key : CourseKey

abbrev pub enrollment_eq : Enrollment → Enrollment → Bool
enrollment_eq a b = (a.course_key == b.course_key) && str_eq a.username b.username

-- `MAX_KEYS_PER_TASK`
abbrev pub max_keys_per_task : ℕ
max_keys_per_task = 16

-- The keyword arguments of one `update_aggregators.apply_async`.
pub record UpdateTask : Type 0 where
  pub enrollment : Enrollment
  pub block_keys : List BlockKey
  pub force : Bool

pub record Service (F : Type 0) : Type 0 where
  pub database : Database F
  pub queue : List UpdateTask
  pub aggregation_lock : Bool
  pub cleanup_lock : Bool

-- The local variables of `perform_aggregation`; `stale_blocks` is in the order of insertion.
pub record Collected : Type 0 where
  pub stale_blocks : List (Enrollment × Container)
  pub forced_updates : List Enrollment
  pub enqueued : ℕ

unfoldable pub blocks_of : Enrollment → List (Enrollment × Container) → Option Container
blocks_of e [] = none
blocks_of e ((f, c) ∷ d) = if enrollment_eq f e then some c else blocks_of e d

unfoldable pub put_blocks :
    Enrollment
    → (Container → Container)
    → List (Enrollment × Container)
    → List (Enrollment × Container)
put_blocks e change [] = (e, change (key_set [])) ∷ []
put_blocks e change ((f, c) ∷ d) =
    if enrollment_eq f e then (f, change c) ∷ d else (f, c) ∷ put_blocks e change d

unfoldable pub is_forced : Enrollment → List Enrollment → Bool
is_forced e [] = false
is_forced e (f ∷ rest) = if enrollment_eq f e then true else is_forced e rest

abbrev pub enrollment_of : StaleCompletion → Enrollment
enrollment_of stale = record { username = stale.username; course_key = stale.course_key }

-- What one stale completion makes of the blocks of its enrollment.
unfoldable pub note_block : Option BlockKey → Container → Container
note_block none blocks = bag_of_holding
note_block (some key) bag_of_holding = bag_of_holding
note_block (some key) (key_set keys) =
    if leb (length keys) max_keys_per_task then key_set (add key keys) else key_set keys

unfoldable pub collect_one : StaleCompletion → Collected → Collected
unfolding put_blocks note_block is_forced
collect_one stale c = record c {
  stale_blocks = put_blocks (enrollment_of stale) (note_block stale.block_key) c.stale_blocks;
  forced_updates = if stale.force then enrollment_of stale ∷ c.forced_updates else c.forced_updates;
}

unfoldable pub collect_all : List StaleCompletion → Collected → Collected
collect_all [] c = c
collect_all (stale ∷ rest) c = collect_all rest (collect_one stale c)

-- `id__gt=idx - batch_size, id__lte=idx`
abbrev pub in_window : ℕ → ℕ → StaleCompletion → Bool
in_window batch_size idx stale = ltb idx (stale.id + batch_size) && leb stale.id idx

unfoldable pub reached : Option ℕ → ℕ → Bool
reached none enqueued = false
reached (some limit) enqueued = leb limit enqueued

-- The loop over `range(max_id, stop - 1, -batch_size)`: `idx` takes the values from `max_id` down
-- to `stop`, and `rounds` bounds their number.
unfoldable pub scan : ℕ → Option ℕ → ℕ → List StaleCompletion → ℕ → ℕ → Collected → Collected
scan batch_size limit stop rows zero idx c = c
scan batch_size limit stop rows (suc rounds) idx c =
    let evaluated = select (in_window batch_size idx) rows in
    let c' = collect_all evaluated (record c { enqueued = c.enqueued + length evaluated }) in
    let rest = scan batch_size limit stop rows rounds (idx - batch_size) c' in
    if reached limit c.enqueued then c else if leb (stop + batch_size) idx then rest else c'

-- The block keys of a task: none at all stands for the whole course.
unfoldable pub keys_of : Container → List BlockKey
keys_of bag_of_holding = []
keys_of (key_set keys) = if ltb max_keys_per_task (length keys) then [] else keys

unfoldable pub tasks_of : List Enrollment → List (Enrollment × Container) → List UpdateTask
unfolding keys_of is_forced
tasks_of forced [] = []
tasks_of forced ((e, blocks) ∷ rest) =
    record { enrollment = e; block_keys = keys_of blocks; force = is_forced e forced }
    ∷ tasks_of forced rest

-- `stale_queryset.order_by('id')[0].id` and `order_by('-id')[0].id`
unfoldable pub min_id : ℕ → List StaleCompletion → ℕ
min_id i [] = i
min_id i (stale ∷ rest) = min_id (min i stale.id) rest

unfoldable pub max_id : ℕ → List StaleCompletion → ℕ
max_id i [] = i
max_id i (stale ∷ rest) = max_id (max i stale.id) rest

abbrev pub nothing_collected : Collected
nothing_collected = record { stale_blocks = []; forced_updates = []; enqueued = 0 }

-- The two loops over the unresolved rows, of which there is one at least.
unfoldable pub collect : ℕ → Option ℕ → StaleCompletion → List StaleCompletion → Collected
unfolding scan min_id max_id collect_all collect_one reached
collect batch_size limit stale rest =
    let low = min_id stale.id rest in
    let high = max_id stale.id rest in
    scan batch_size limit (min (low + batch_size) high) (stale ∷ rest) (suc high) high
      nothing_collected

abbrev pub unresolved : List StaleCompletion → List StaleCompletion
unresolved = select (λ stale. not stale.resolved)

module _ {F : Type 0} where
  -- The part of `perform_aggregation` behind the lock, on the unresolved rows. A `batch_size` of
  -- zero makes `range` raise, with the lock held. `delay` and `routing_key` only time and route
  -- the calls.
  unfoldable pub enqueue_tasks :
      ℕ → Option ℕ → List StaleCompletion → Service F → Result (Unit {0}) × Service F
  enqueue_tasks batch_size limit [] s = (ok tt, record s { aggregation_lock = false })
  enqueue_tasks batch_size limit (stale ∷ rest) s =
      let c = collect batch_size limit stale rest in
      if batch_size == 0 then (raise value_error, record s { aggregation_lock = true }) else (
        ok tt,
        record s {
          queue = s.queue ++ tasks_of c.forced_updates c.stale_blocks;
          aggregation_lock = false;
        },
      )

  unfoldable pub perform_aggregation : ℕ → Option ℕ → Service F → Result (Unit {0}) × Service F
  unfolding enqueue_tasks
  perform_aggregation batch_size limit s =
      if s.aggregation_lock
      then (ok tt, s)
      else enqueue_tasks batch_size limit (unresolved s.database.stale_completions) s

  -- A run in which `apply_async` raises after it has queued `sent` tasks, where there are more to
  -- queue: nothing releases the lock then.
  unfoldable pub interrupted_aggregation :
      ℕ → ℕ → Option ℕ → Service F → Result (Unit {0}) × Service F
  unfolding perform_aggregation
  interrupted_aggregation sent batch_size limit s =
      let run = perform_aggregation batch_size limit s in
      let queued = length s.queue + sent in
      if ltb queued (length run.1.queue)
      then (
        raise operational_error,
        record s { queue = take queued run.1.queue; aggregation_lock = true },
      )
      else run

  unfoldable pub perform_cleanup : Service F → Service F
  perform_cleanup s = if s.cleanup_lock then s else record s {
    database = record (s.database) {
      stale_completions = select (λ stale. not stale.resolved) (s.database.stale_completions);
    };
    cleanup_lock = false;
  }
