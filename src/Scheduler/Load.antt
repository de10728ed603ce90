-- ===== src/Scheduler/Load.antt =====
-- What the scheduler of internal/arcade/scheduler.go makes of its file at a start of the panel.
use teploy_arcade.Prelude.{
  ◌&&◌, ◌≡◌, refl, subst, inl, inr, false, Option, none, some, List, [], ◌∷◌, ◌==◌, Bool-cases,
  Option-cases, All, string_key,
}
use teploy_arcade.Scheduler.Tasks.{Task, validate_task, load_task, load_tasks, new_scheduler}
use teploy_arcade.Scheduler.Kept.{rules_only, IsValidTask}

-- A task that may be kept from the file: it passes the rules, and no run of it counts as running.
abbrev pub IsSettled : Task → Type 0
IsSettled t = IsValidTask t × ((t.run_state == "running") ≡ false)

-- What becomes of one record of the file.
abbrev pub Loads : Option Task → Type 0
Loads none = Unit
Loads (some t) = IsSettled t

load_task-Loads : (x : Option Task) → Loads (load_task x)
unfolding load_task
load_task-Loads none = tt
load_task-Loads (some t) = elim (Option-cases (validate_task t)) [
  | inr (why, bad) ↦ rw (bad, load_task) tt
  | inl good ↦
      rw (good, load_task)
        (elim (Bool-cases (t.run_state == "running")) [
          | inl runs ↦ rw runs (
            rules_only t
                (record t {
                  run_state = "interrupted";
                  enabled = t.enabled && t.repeat;
                  last_err =
                      "panel stopped during execution; outcome may be incomplete; inspect before retrying";
                })
                refl refl refl good,
            refl,
          )
          | inr idle ↦ rw idle (good, idle)
        ])
]

load_tasks-IsSettled : (xs : List (Option Task)) → All IsSettled (load_tasks xs)
unfolding load_tasks
load_tasks-IsSettled [] = tt
load_tasks-IsSettled (x ∷ xs) = elim (Option-cases (load_task x)) [
  | inl dropped ↦ rw (dropped, load_tasks) (load_tasks-IsSettled xs)
  | inr (t, kept) ↦
      rw (kept, load_tasks) (subst Loads kept (load_task-Loads x), load_tasks-IsSettled xs)
]

-- Whatever records the file decodes to, every task that the panel starts with passes the rules, and
-- none counts as running; no slot is in use and no run is in progress.
pub new_scheduler-IsSettled :
    (records : List (Option Task))
    → All IsSettled (new_scheduler records).tasks
      × ((new_scheduler records).slots ≡ 0)
      × ((new_scheduler records).running ≡ [])
unfolding new_scheduler
new_scheduler-IsSettled records = (load_tasks-IsSettled records, refl, refl)
