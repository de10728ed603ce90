-- ===== src/Scheduler/Count.antt =====
-- The slots of the scheduler in internal/arcade/scheduler.go and the runs that have them. `waiting` is
-- the number of runs that the loop has given a slot and that have not begun.
use teploy_arcade.Text.{bytes_key}
use teploy_arcade.Prelude.{
  nat_key, Bytes, ℕ, ◌+◌, String, ◌≡◌, refl, sym, ap, ◌∙◌, inl, inr, Bool, true, false, not, ◌||◌,
  Option, List, [], ◌∷◌, ◌==◌, Bool-cases, Option-cases, length, retain, contains, Distinct,
  string_key,
}
use teploy_arcade.Scheduler.Tasks.{
  Task, Scheduler, validate_task, publish_tasks, has_id, is_at, find, without, new_id, add_task,
  cancel_pending, update_task, record_run, cancel_task, delete_task, cancel_all, drop_server,
}

-- The slots in use are those of the runs that are marked as running, each once, and of those that
-- wait to begin.
pub record IsCounted (waiting : ℕ) (s : Scheduler) : Type 0 where
  pub counted : s.slots ≡ waiting + length s.running
  pub once : Distinct s.running

-- The slots and the marks are the same.
abbrev pub SameRuns : Scheduler → Scheduler → Type 0
SameRuns s s' = (s'.slots ≡ s.slots) × (s'.running ≡ s.running)

pub IsCounted-alike :
    (n : ℕ) (s s' : Scheduler)
    → s'.slots ≡ s.slots
    → s'.running ≡ s.running
    → IsCounted n s
    → IsCounted n s'
IsCounted-alike n s s' slots runs v = record {
  counted = slots ∙ v.counted ∙ ap (λ ids. n + length ids) (sym runs);
  once = rw runs v.once;
}

publish_tasks_lem {ℓ} :
    {A : Type ℓ} (saved : Bool) (next : List Task) (x : A) (s : Scheduler)
    → SameRuns s (publish_tasks saved next x s).1
unfolding publish_tasks
publish_tasks_lem true next x s = (refl, refl)
publish_tasks_lem false next x s = (refl, refl)

pub add_task_lem :
    (saved registered : Bool) (entropy : ℕ → Option Bytes) (t : Task) (s : Scheduler)
    → SameRuns s (add_task saved registered entropy t s).1
unfolding add_task
add_task_lem saved registered entropy t s = elim (Option-cases (validate_task t)) [
  | inr (why, bad) ↦ rw (bad, add_task) (refl, refl)
  | inl good ↦
      rw (good, add_task)
        (elim (Bool-cases (not registered)) [
          | inl missing ↦ rw missing (refl, refl)
          | inr there ↦ rw there (elim (Option-cases (new_id 20 entropy s.tasks)) [
            | inl none_free ↦ rw (none_free, add_task) (refl, refl)
            | inr (id, free) ↦ rw (free, add_task) (publish_tasks_lem saved _ _ s)
          ])
        ])
]

pub update_task_lem :
    (saved : Bool) (server : String) (id : Bytes) (edit : Task → Task) (s : Scheduler)
    → SameRuns s (update_task saved server id edit s).1
unfolding update_task
update_task_lem saved server id edit s = elim (Option-cases (find (is_at server id) s.tasks)) [
  | inl away ↦ rw (away, update_task) (refl, refl)
  | inr (before, there) ↦
      elim (Option-cases (validate_task (cancel_pending before (edit before)))) [
        | inr (why, bad) ↦ rw (there, update_task, bad) (refl, refl)
        | inl good ↦ rw (there, update_task, good) (publish_tasks_lem saved _ _ s)
      ]
]

cancel_task_lem : (id : Bytes) (s : Scheduler) → SameRuns s (cancel_task id s)
unfolding cancel_task
cancel_task_lem id s = elim (Bool-cases (contains s.running id)) [
  | inl runs ↦ rw runs (refl, refl)
  | inr idle ↦ rw idle (refl, refl)
]

cancel_all_lem : (ts : List Task) (s : Scheduler) → SameRuns s (cancel_all ts s)
unfolding cancel_all
cancel_all_lem [] s = (refl, refl)
cancel_all_lem (t ∷ ts) s =
    let (slots, runs) = cancel_all_lem ts (cancel_task t.id s) in
    let (slots', runs') = cancel_task_lem t.id s in (slots ∙ slots', runs ∙ runs')

pub delete_task_lem :
    (saved : Bool) (server : String) (id : Bytes) (s : Scheduler)
    → SameRuns s (delete_task saved server id s).1
unfolding delete_task
delete_task_lem saved server id s = elim (Option-cases (find (is_at server id) s.tasks)) [
  | inl away ↦ rw (away, delete_task) (refl, refl)
  | inr (t, there) ↦ elim (Bool-cases saved) [
    | inr lost ↦ rw (there, delete_task, lost) (refl, refl)
    | inl kept ↦
        let next = without (is_at server id) s.tasks in
        rw (there, delete_task, kept) (cancel_task_lem id (record s { tasks = next; disk = next }))
  ]
]

pub drop_server_lem : (server : String) (s : Scheduler) → SameRuns s (drop_server true server s).1
unfolding drop_server
drop_server_lem server s =
    let dropped = retain (λ (t : Task). t.server_id == server) s.tasks in
    elim (Bool-cases (server == "" || length dropped == 0)) [
      | inl idle ↦ rw idle (refl, refl)
      | inr some_go ↦ rw some_go (cancel_all_lem dropped s)
    ]

pub record_run_lem :
    (saved : Bool) (id : Bytes) (edit : Task → Task) (s : Scheduler)
    → SameRuns s (record_run saved id edit s).1
unfolding record_run
record_run_lem saved id edit s = elim (Option-cases (find (has_id id) s.tasks)) [
  | inl away ↦ rw (away, record_run) (refl, refl)
  | inr (t, there) ↦ rw (there, record_run) (publish_tasks_lem saved _ (edit t) s)
]

pub record_run-IsCounted :
    (n : ℕ) (saved : Bool) (id : Bytes) (edit : Task → Task) (s : Scheduler)
    → IsCounted n s
    → IsCounted n (record_run saved id edit s).1
record_run-IsCounted n saved id edit s v =
    let (slots, runs) = record_run_lem saved id edit s in
    IsCounted-alike n s (record_run saved id edit s).1 slots runs v
