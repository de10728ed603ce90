-- ===== src/Scheduler/Tasks.antt =====
-- The scheduler's tasks in internal/arcade/scheduler.go: the rules for a task and the operations on the
-- list of tasks, in memory and on disk. `saved` is whether `writeFileAtomic` returned without an
-- error; the clock counts seconds.
use teploy_arcade.Prelude.{
  nat_key, Bytes, ℕ, zero, suc, String, Bool, not, ◌&&◌, ◌||◌, Option, none, some, List, [], ◌∷◌,
  ◌++◌, if◌then◌else◌, ◌==◌, length, retain, any, contains, add, string_key,
}
use teploy_arcade.Text.{bytes_key, trim_space}
use teploy_arcade.Scheduler.Clock.{parse_clock}

pub record Task : Type 0 where
  pub id : Bytes
  pub server_id : String
  pub name : Bytes
  pub commands : Bytes
  pub time : Bytes
  pub repeat : Bool
  pub enabled : Bool
  pub last_run : ℕ
  pub last_err : String
  pub pending_at : ℕ
  pub run_state : String
  pub runs : ℕ

-- `disk` is what tasks.json holds; `running` are the tasks with a run in progress, `stopped` those of
-- them whose context was cancelled, and `slots` counts the execution slots in use.
pub record Scheduler : Type 0 where
  pub tasks : List Task
  pub disk : List Task
  pub running : List Bytes
  pub stopped : List Bytes
  pub slots : ℕ

pub data TaskError : Type 0 where
  no_name no_commands bad_time no_server no_task no_id not_saved : TaskError
  shutting_down slots_busy already_running not_claimed : TaskError

pub data Answer {ℓ} (A : Type ℓ) : Type ℓ where
  done : A → Answer A
  error : TaskError → Answer A

unfoldable pub validate_task : Task → Option TaskError
validate_task t =
    if length (trim_space t.name) == 0
    then some no_name
    else if length (trim_space t.commands) == 0
    then some no_commands
    else elim (parse_clock t.time) [ none ↦ some bad_time | some secs ↦ none ]

-- What `newScheduler` does with one record of the file, `none` for a null: a record it drops, or the
-- task, which did not finish if the file says that it runs.
unfoldable pub load_task : Option Task → Option Task
load_task none = none
load_task (some t) = elim (validate_task t) [
  | some why ↦ none
  | none ↦ some (
      if t.run_state == "running"
      then record t {
        run_state = "interrupted";
        enabled = t.enabled && t.repeat;
        last_err =
            "panel stopped during execution; outcome may be incomplete; inspect before retrying";
      }
      else t)
]

unfoldable pub load_tasks : List (Option Task) → List Task
unfolding load_task
load_tasks [] = []
load_tasks (x ∷ xs) =
    let rest = load_tasks xs in elim (load_task x) [ none ↦ rest | some t ↦ t ∷ rest ]

unfoldable pub known : List (Option Task) → List Task
known [] = []
known (none ∷ xs) = known xs
known (some t ∷ xs) = t ∷ known xs

-- `newScheduler`, of the records that the file decodes to.
unfoldable pub new_scheduler : List (Option Task) → Scheduler
unfolding load_tasks known
new_scheduler records = record {
  tasks = load_tasks records;
  disk = known records;
  running = [];
  stopped = [];
  slots = 0;
}

-- `persist` and the publication of the list that was saved.
unfoldable pub publish_tasks {ℓ} :
    {A : Type ℓ} → Bool → List Task → A → Scheduler → Answer A × Scheduler
publish_tasks saved next x s =
    if saved then (done x, record s { tasks = next; disk = next }) else (error not_saved, s)

abbrev pub has_id : Bytes → Task → Bool
has_id id t = t.id == id

abbrev pub is_at : String → Bytes → Task → Bool
is_at server id t = t.id == id && t.server_id == server

-- The first task that passes a test, the list with it changed, and the list without it.
unfoldable pub find : (Task → Bool) → List Task → Option Task
find p [] = none
find p (t ∷ ts) = if p t then some t else find p ts

unfoldable pub replace : (Task → Bool) → Task → List Task → List Task
replace p u [] = []
replace p u (t ∷ ts) = if p t then u ∷ ts else t ∷ replace p u ts

unfoldable pub without : (Task → Bool) → List Task → List Task
without p [] = []
without p (t ∷ ts) = if p t then ts else t ∷ without p ts

unfoldable pub id_taken : Bytes → List Task → Bool
id_taken id ts = any (has_id id) ts

-- The attempts at a new ID; `entropy` gives what `randomHex` returned at each.
unfoldable pub new_id : ℕ → (ℕ → Option Bytes) → List Task → Option Bytes
unfolding id_taken
new_id zero entropy ts = none
new_id (suc n) entropy ts =
    let rest = new_id n entropy ts in
    elim (entropy n) [
      | none ↦ none
      | some suffix ↦ if id_taken (116 ∷ suffix) ts then rest else some (116 ∷ suffix)
    ]

-- `Add`; `registered` is whether the manager has the task's server.
unfoldable pub add_task :
    Bool → Bool → (ℕ → Option Bytes) → Task → Scheduler → Answer Task × Scheduler
unfolding new_id publish_tasks validate_task
add_task saved registered entropy t s = elim (validate_task t) [
  | some why ↦ (error why, s)
  | none ↦ if not registered then (error no_server, s) else elim (new_id 20 entropy s.tasks) [
    | none ↦ (error no_id, s)
    | some id ↦
        let created = record t {
          id = id;
          runs = 0;
          last_run = 0;
          last_err = "";
          pending_at = 0;
          run_state = "";
        } in
        publish_tasks saved (s.tasks ++ created ∷ []) created s
  ]
]

-- An edit that disables a task whose occurrence is pending cancels the occurrence.
unfoldable pub cancel_pending : Task → Task → Task
cancel_pending before t =
    if before.enabled && not t.enabled && t.run_state == "pending"
    then record t {
      pending_at = 0;
      run_state = "cancelled";
      last_err = "pending occurrence cancelled because task was disabled";
    }
    else t

-- `Update`; `edit` is what the caller does to the task.
unfoldable pub update_task :
    Bool → String → Bytes → (Task → Task) → Scheduler → Answer Task × Scheduler
unfolding find replace publish_tasks cancel_pending validate_task
update_task saved server id edit s = elim (find (is_at server id) s.tasks) [
  | none ↦ (error no_task, s)
  | some before ↦
      let t = cancel_pending before (edit before) in
      elim (validate_task t) [
        | some why ↦ (error why, s)
        | none ↦ publish_tasks saved (replace (is_at server id) t s.tasks) t s
      ]
]

-- `record`: the bookkeeping of a run, without the rules for a task.
unfoldable pub record_run : Bool → Bytes → (Task → Task) → Scheduler → Answer Task × Scheduler
unfolding find replace publish_tasks
record_run saved id edit s = elim (find (has_id id) s.tasks) [
  | none ↦ (error no_task, s)
  | some before ↦ publish_tasks saved (replace (has_id id) (edit before) s.tasks) (edit before) s
]

-- `cancelTask`: a run in progress has its context cancelled.
unfoldable pub cancel_task : Bytes → Scheduler → Scheduler
cancel_task id s = if contains s.running id then record s { stopped = add id s.stopped } else s

unfoldable pub delete_task : Bool → String → Bytes → Scheduler → Answer (Unit {0}) × Scheduler
unfolding find without cancel_task
delete_task saved server id s = elim (find (is_at server id) s.tasks) [
  | none ↦ (error no_task, s)
  | some t ↦
      let next = without (is_at server id) s.tasks in
      if saved
      then (done tt, cancel_task id (record s { tasks = next; disk = next }))
      else (error not_saved, s)
]

unfoldable pub cancel_all : List Task → Scheduler → Scheduler
unfolding cancel_task
cancel_all [] s = s
cancel_all (t ∷ ts) s = cancel_all ts (cancel_task t.id s)

-- `DropServer`: what it drops is dropped in memory even when it cannot be saved.
unfoldable pub drop_server : Bool → String → Scheduler → ℕ × Scheduler
unfolding cancel_all
drop_server saved server s =
    let dropped = retain (λ (t : Task). t.server_id == server) s.tasks in
    let kept = retain (λ (t : Task). not (t.server_id == server)) s.tasks in
    let s' = cancel_all dropped s in
    if server == "" || length dropped == 0
    then (0, s)
    else (length dropped, record s' { tasks = kept; disk = if saved then kept else s.disk })
