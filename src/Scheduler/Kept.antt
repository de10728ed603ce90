-- ===== src/Scheduler/Kept.antt =====
-- The list of tasks in internal/arcade/scheduler.go, in memory and on disk, under its operations.
use teploy_arcade.Text.{bytes_key}
use teploy_arcade.Prelude.{
  nat_key, Bytes, ℕ, ◌≤◌, String, ◌≡◌, refl, sym, ◌∙◌, subst, inl, inr, Bool, true, false, not,
  ◌||◌, Option, none, some, List, [], ◌∷◌, arith, ◌==◌, Bool-cases, Option-cases, some-inj, length,
  retain, All, append-All, retain-All, contains, string_key,
}
use teploy_arcade.Scheduler.Tasks.{
  Task, Scheduler, validate_task, publish_tasks, has_id, is_at, find, replace, without, new_id,
  add_task, cancel_pending, update_task, record_run, cancel_task, delete_task, cancel_all,
  drop_server,
}
use teploy_arcade.Scheduler.Runs.{max_runs}

abbrev pub IsValidTask : Task → Type 0
IsValidTask t = validate_task t ≡ none

-- Every task passes the rules, the file holds the tasks of the memory, and no more runs have a slot
-- than there are slots.
pub record IsKept (s : Scheduler) : Type 0 where
  pub valid : All IsValidTask s.tasks
  pub agree : s.tasks ≡ s.disk
  pub capped : s.slots ≤ max_runs

-- The rules look at the name, the commands and the time alone.
pub rules_only :
    (t u : Task)
    → u.name ≡ t.name
    → u.commands ≡ t.commands
    → u.time ≡ t.time
    → IsValidTask t
    → IsValidTask u
unfolding validate_task
rules_only t u n c e v = rw (n, c, e) v

pub find-All :
    (P : Task → Type 0) (p : Task → Bool) (ts : List Task) (t : Task)
    → find p ts ≡ some t
    → All P ts
    → P t
unfolding find
find-All P p [] t e h = ground arith
find-All P p (x ∷ xs) t e h = elim (Bool-cases (p x)) [
  | inl here ↦ subst P (some-inj (rw here at e)) h.0
  | inr away ↦ find-All P p xs t (rw away at e) h.1
]

pub replace-All :
    (P : Task → Type 0) (p : Task → Bool) (u : Task) (ts : List Task)
    → P u
    → All P ts
    → All P (replace p u ts)
unfolding replace
replace-All P p u [] hu h = tt
replace-All P p u (x ∷ xs) hu h = elim (Bool-cases (p x)) [
  | inl here ↦ rw here (hu, h.1)
  | inr away ↦ rw away (h.0, replace-All P p u xs hu h.1)
]

without-All :
    (P : Task → Type 0) (p : Task → Bool) (ts : List Task) → All P ts → All P (without p ts)
unfolding without
without-All P p [] h = tt
without-All P p (x ∷ xs) h = elim (Bool-cases (p x)) [
  | inl here ↦ rw here h.1
  | inr away ↦ rw away (h.0, without-All P p xs h.1)
]

publish_tasks-IsKept {ℓ} :
    {A : Type ℓ} (saved : Bool) (next : List Task) (x : A) (s : Scheduler)
    → All IsValidTask next
    → IsKept s
    → IsKept (publish_tasks saved next x s).1
unfolding publish_tasks
publish_tasks-IsKept true next x s n v = record { valid = n; agree = refl; capped = v.capped }
publish_tasks-IsKept false next x s n v = v

-- An edit of the bookkeeping alone.
pub record_run-IsKept :
    (saved : Bool) (id : Bytes) (edit : Task → Task) (s : Scheduler)
    → ((t : Task) → IsValidTask t → IsValidTask (edit t))
    → IsKept s
    → IsKept (record_run saved id edit s).1
unfolding record_run
record_run-IsKept saved id edit s books v = elim (Option-cases (find (has_id id) s.tasks)) [
  | inl away ↦ rw (away, record_run) v
  | inr (t, there) ↦
      rw (there, record_run)
        (publish_tasks-IsKept saved _ (edit t) s
          (replace-All IsValidTask (has_id id) (edit t) s.tasks
            (books t (find-All IsValidTask (has_id id) s.tasks t there v.valid)) v.valid)
          v)
]

pub add_task-IsKept :
    (saved registered : Bool) (entropy : ℕ → Option Bytes) (t : Task) (s : Scheduler)
    → IsKept s
    → IsKept (add_task saved registered entropy t s).1
unfolding add_task
add_task-IsKept saved registered entropy t s v = elim (Option-cases (validate_task t)) [
  | inr (why, bad) ↦ rw (bad, add_task) v
  | inl good ↦
      rw (good, add_task)
        (elim (Bool-cases (not registered)) [
          | inl missing ↦ rw missing v
          | inr there ↦ rw there (elim (Option-cases (new_id 20 entropy s.tasks)) [
            | inl none_free ↦ rw (none_free, add_task) v
            | inr (id, free) ↦
                rw (free, add_task)
                  (publish_tasks-IsKept saved _ _ s
                    (append-All IsValidTask s.tasks _ v.valid (
                      rules_only t
                          (record t {
                            id = id;
                            runs = 0;
                            last_run = 0;
                            last_err = "";
                            pending_at = 0;
                            run_state = "";
                          })
                          refl refl refl good,
                      tt,
                    ))
                    v)
          ])
        ])
]

pub update_task-IsKept :
    (saved : Bool) (server : String) (id : Bytes) (edit : Task → Task) (s : Scheduler)
    → IsKept s
    → IsKept (update_task saved server id edit s).1
unfolding update_task
update_task-IsKept saved server id edit s v = elim (Option-cases (find (is_at server id) s.tasks)) [
  | inl away ↦ rw (away, update_task) v
  | inr (before, there) ↦
      elim (Option-cases (validate_task (cancel_pending before (edit before)))) [
        | inr (why, bad) ↦ rw (there, update_task, bad) v
        | inl good ↦
            rw (there, update_task, good)
              (publish_tasks-IsKept saved _ _ s
                (replace-All IsValidTask (is_at server id) _ s.tasks good v.valid) v)
      ]
]

cancel_task_lem :
    (id : Bytes) (s : Scheduler)
    → ((cancel_task id s).tasks ≡ s.tasks)
      × ((cancel_task id s).disk ≡ s.disk)
      × ((cancel_task id s).slots ≡ s.slots)
unfolding cancel_task
cancel_task_lem id s = elim (Bool-cases (contains s.running id)) [
  | inl runs ↦ rw runs (refl, refl, refl)
  | inr idle ↦ rw idle (refl, refl, refl)
]

cancel_all-slots : (ts : List Task) (s : Scheduler) → (cancel_all ts s).slots ≡ s.slots
unfolding cancel_all
cancel_all-slots [] s = refl
cancel_all-slots (t ∷ ts) s = cancel_all-slots ts (cancel_task t.id s) ∙ (cancel_task_lem t.id s).2

pub delete_task-IsKept :
    (saved : Bool) (server : String) (id : Bytes) (s : Scheduler)
    → IsKept s
    → IsKept (delete_task saved server id s).1
unfolding delete_task
delete_task-IsKept saved server id s v = elim (Option-cases (find (is_at server id) s.tasks)) [
  | inl away ↦ rw (away, delete_task) v
  | inr (t, there) ↦ elim (Bool-cases saved) [
    | inr lost ↦ rw (there, delete_task, lost) v
    | inl kept ↦
        let next = without (is_at server id) s.tasks in
        let (ts, d, n) = cancel_task_lem id (record s { tasks = next; disk = next }) in
        rw (there, delete_task, kept)
          (record {
            valid = rw ts (without-All IsValidTask (is_at server id) s.tasks v.valid);
            agree = ts ∙ sym d;
            capped = rw n v.capped;
          })
  ]
]

pub drop_server-IsKept :
    (server : String) (s : Scheduler) → IsKept s → IsKept (drop_server true server s).1
unfolding drop_server
drop_server-IsKept server s v =
    let dropped = retain (λ (t : Task). t.server_id == server) s.tasks in
    elim (Bool-cases (server == "" || length dropped == 0)) [
      | inl idle ↦ rw idle v
      | inr some_go ↦ rw some_go (record {
        valid = retain-All IsValidTask (λ (t : Task). not (t.server_id == server)) s.tasks v.valid;
        agree = refl;
        capped = rw (cancel_all-slots dropped s) v.capped;
      })
    ]
