-- ===== src/Scheduler/History.antt =====
-- The scheduler of internal/arcade/scheduler.go through any history of calls.
-- What may happen to the scheduler: each call is what runs under its lock.
use teploy_arcade.Text.{bytes_key}
use teploy_arcade.Prelude.{
  Bytes, ℕ, zero, suc, ◌+◌, ◌≤◌, String, ◌≡◌, inl, inr, Bool, true, false, ◌&&◌, Option, List, [],
  ◌∷◌, arith, if◌then◌else◌, Bool-cases, length, contains,
}
use teploy_arcade.Scheduler.Kept.{
  IsKept, add_task-IsKept, update_task-IsKept, delete_task-IsKept, drop_server-IsKept,
}
use teploy_arcade.Scheduler.Runs.{max_runs, Clock, dispatch_task, begin_run, finish_run}
use teploy_arcade.Scheduler.Slots.{dispatch_task-IsKept, finish_run-IsKept, begin_run-IsKept}
use teploy_arcade.Scheduler.Tasks.{Task, Scheduler, add_task, update_task, delete_task, drop_server}
use teploy_arcade.Scheduler.Count.{
  IsCounted, IsCounted-alike, add_task_lem, update_task_lem, delete_task_lem, drop_server_lem,
}
use teploy_arcade.Scheduler.Turns.{
  finish_run-IsCounted, with_own, begin_run-IsCounted, dispatch_task-IsCounted,
}

pub data TaskCall : Type 0 where
  adds : Bool → Bool → (ℕ → Option Bytes) → Task → TaskCall
  updates : Bool → String → Bytes → (Task → Task) → TaskCall
  deletes : Bool → String → Bytes → TaskCall
  drops : Bool → String → TaskCall
  dispatches : Bool → Bool → Clock → Task → TaskCall
  begins : Bool → Bool → Bool → String → (String → Bool) → ℕ → Bytes → TaskCall
  finishes : Bool → ℕ → Option String → Bytes → TaskCall

-- The scheduler, and how many runs the loop has given a slot that have not begun.
pub record Work : Type 0 where
  pub waiting : ℕ
  pub scheduler : Scheduler

-- A run begins with the loop's slot only where one waits, and only a run that is marked as running
-- comes to its end: any other call of the two does not happen.
unfoldable pub task_step : TaskCall → Work → Work
task_step (adds saved registered entropy t) w = record w {
  scheduler = (add_task saved registered entropy t w.scheduler).1;
}
task_step (updates saved server id edit) w = record w {
  scheduler = (update_task saved server id edit w.scheduler).1;
}
task_step (deletes saved server id) w = record w {
  scheduler = (delete_task saved server id w.scheduler).1;
}
task_step (drops saved server) w = record w { scheduler = (drop_server saved server w.scheduler).1 }
task_step (dispatches saved own now t) w =
    let (started, s) = dispatch_task saved own now t w.scheduler in
    record { waiting = with_own started w.waiting; scheduler = s }
task_step (begins saved closing true server registered now id) w = elim w.waiting [
  | zero ↦ w
  | suc n ↦ record {
    waiting = n;
    scheduler = (begin_run saved closing true server registered now id w.scheduler).1;
  }
]
task_step (begins saved closing false server registered now id) w = record w {
  scheduler = (begin_run saved closing false server registered now id w.scheduler).1;
}
task_step (finishes saved now err id) w =
    if contains w.scheduler.running id
    then record w { scheduler = finish_run saved now err id w.scheduler }
    else w

unfoldable pub task_run : List TaskCall → Work → Work
unfolding task_step
task_run [] w = w
task_run (c ∷ cs) w = task_run cs (task_step c w)

-- Every drop of a server's tasks in the history could be saved.
unfoldable pub drops_saved : List TaskCall → Bool
drops_saved [] = true
drops_saved (drops saved server ∷ cs) = saved && drops_saved cs
drops_saved (_ ∷ cs) = drops_saved cs

-- The tasks are kept, and the slots in use are those of the runs.
pub record IsOrderly (w : Work) : Type 0 where
  pub kept : IsKept w.scheduler
  pub counted : IsCounted w.waiting w.scheduler

begins-IsOrderly :
    (n : ℕ) (saved closing admitted : Bool) (server : String) (registered : String → Bool) (now : ℕ)
    (id : Bytes) (s : Scheduler)
    → IsOrderly (record { waiting = with_own admitted n; scheduler = s })
    → IsOrderly (record {
      waiting = n;
      scheduler = (begin_run saved closing admitted server registered now id s).1;
    })
begins-IsOrderly n saved closing admitted server registered now id s v = record {
  kept = begin_run-IsKept saved closing admitted server registered now id s v.kept;
  counted = begin_run-IsCounted n saved closing admitted server registered now id s v.counted;
}

step-IsOrderly :
    (c : TaskCall) (cs : List TaskCall) (n : ℕ) (s : Scheduler)
    → drops_saved (c ∷ cs) ≡ true
    → IsOrderly (record { waiting = n; scheduler = s })
    → IsOrderly (task_step c (record { waiting = n; scheduler = s })) × (drops_saved cs ≡ true)
unfolding task_step drops_saved
step-IsOrderly (adds saved registered entropy t) cs n s d v =
    let (slots, runs) = add_task_lem saved registered entropy t s in
    (
      record {
        kept = add_task-IsKept saved registered entropy t s v.kept;
        counted = IsCounted-alike n s _ slots runs v.counted;
      },
      d,
    )
step-IsOrderly (updates saved server id edit) cs n s d v =
    let (slots, runs) = update_task_lem saved server id edit s in
    (
      record {
        kept = update_task-IsKept saved server id edit s v.kept;
        counted = IsCounted-alike n s _ slots runs v.counted;
      },
      d,
    )
step-IsOrderly (deletes saved server id) cs n s d v =
    let (slots, runs) = delete_task_lem saved server id s in
    (
      record {
        kept = delete_task-IsKept saved server id s v.kept;
        counted = IsCounted-alike n s _ slots runs v.counted;
      },
      d,
    )
step-IsOrderly (drops true server) cs n s d v =
    let (slots, runs) = drop_server_lem server s in
    (
      record {
        kept = drop_server-IsKept server s v.kept;
        counted = IsCounted-alike n s _ slots runs v.counted;
      },
      d,
    )
step-IsOrderly (drops false server) cs n s d v = absurd (let no : false ≡ true = d in ground arith)
step-IsOrderly (dispatches saved own now t) cs n s d v = (
  record {
    kept = dispatch_task-IsKept saved own now t s v.kept;
    counted = dispatch_task-IsCounted n saved own now t s v.counted;
  },
  d,
)
step-IsOrderly (begins saved closing true server registered now id) cs zero s d v = (v, d)
step-IsOrderly (begins saved closing true server registered now id) cs (suc n) s d v =
    (begins-IsOrderly n saved closing true server registered now id s v, d)
step-IsOrderly (begins saved closing false server registered now id) cs n s d v =
    (begins-IsOrderly n saved closing false server registered now id s v, d)
step-IsOrderly (finishes saved now err id) cs n s d v = elim (Bool-cases (contains s.running id)) [
  | inr away ↦ rw away (v, d)
  | inl runs ↦ rw runs (
    record {
      kept = finish_run-IsKept saved now err id s v.kept;
      counted = finish_run-IsCounted n saved now err id s runs v.counted;
    },
    d,
  )
]

run-IsOrderly :
    (calls : List TaskCall) (w : Work)
    → drops_saved calls ≡ true
    → IsOrderly w
    → IsOrderly (task_run calls w)
unfolding task_run
run-IsOrderly [] w d v = v
run-IsOrderly (c ∷ cs) w d v =
    let (next, rest) = step-IsOrderly c cs w.waiting w.scheduler d v in
    run-IsOrderly cs (task_step c w) rest next

fits : (n runs slots : ℕ) → slots ≡ n + runs → slots ≤ max_runs → n + runs ≤ max_runs
fits n runs slots h e = omega arith

-- From a scheduler whose tasks pass the rules, whose file holds them, and whose slots in use are
-- those of its runs, any history of calls leads to one, whichever writes of single tasks fail, if the
-- writes after the deletion of a server succeed: the slots in use are exactly as many as the tasks
-- marked as running, each once, and the runs that wait to begin, and these are at most four. A history
-- begins a run with the loop's slot only where one waits, and ends only runs that are marked.
pub run-IsKept :
    (calls : List TaskCall) (w : Work)
    → drops_saved calls ≡ true
    → IsOrderly w
    → IsOrderly (task_run calls w)
      × ((task_run calls w).waiting + length (task_run calls w).scheduler.running ≤ max_runs)
run-IsKept calls w d v =
    let after = run-IsOrderly calls w d v in
    (after, fits _ _ (task_run calls w).scheduler.slots after.counted.counted after.kept.capped)
