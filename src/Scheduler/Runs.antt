-- ===== src/Scheduler/Runs.antt =====
-- The dispatch and the runs of tasks in internal/arcade/scheduler.go.
use teploy_arcade.Prelude.{
  nat_key, Bytes, ℕ, suc, ◌-◌, String, Bool, true, false, not, ◌&&◌, Option, none, some, List, [],
  ◌∷◌, ltb, if◌then◌else◌, ◌==◌, length, contains, add, delete, string_key,
}
use teploy_arcade.Text.{bytes_key, trim_space}
use teploy_arcade.Scheduler.Clock.{parse_clock}
use teploy_arcade.Scheduler.Tasks.{
  Task, Scheduler, Answer, has_id, find, record_run, no_server, no_task, not_saved, shutting_down,
  slots_busy, already_running, not_claimed, done, error,
}

abbrev pub max_runs : ℕ
max_runs = 4

-- What the loop reads of the clock: seconds since the epoch, the seconds of the local day, and the
-- local date of any moment. The last two depend on the time zone of the host.
pub record Clock : Type 0 where
  pub unix : ℕ
  pub day_seconds : ℕ
  pub date_of : ℕ → ℕ

abbrev pub mark_pending : ℕ → Task → Task
mark_pending now t = if t.enabled then record t { pending_at = now; run_state = "pending" } else t

-- Whether an enabled task without a pending occurrence has one now.
unfoldable pub is_due : Clock → Task → Bool
is_due now t = elim (parse_clock t.time) [
  | none ↦ false
  | some at ↦
      not (ltb now.day_seconds at)
      && not (ltb 0 t.last_run && now.date_of t.last_run == now.date_of now.unix)
]

-- One turn of `dispatchDue` for the task `t` of the snapshot: whether a run of it was started. `own` is
-- whether the manager still takes workers.
unfoldable pub take_slot : Bool → Scheduler → Bool × Scheduler
take_slot own s =
    if ltb s.slots max_runs && own then (true, record s { slots = suc s.slots }) else (false, s)

unfoldable pub is_saved {ℓ} : {A : Type ℓ} → Answer A → Bool
is_saved (done x) = true
is_saved (error why) = false

unfoldable pub dispatch_task : Bool → Bool → Clock → Task → Scheduler → Bool × Scheduler
unfolding is_due take_slot record_run is_saved
dispatch_task saved own now t s =
    let (answer, marked) = record_run saved t.id (mark_pending now.unix) s in
    if not t.enabled then (false, s) else elim (parse_clock t.time) [
      | none ↦ (false, s)
      | some at ↦
          if not (t.pending_at == 0)
          then take_slot own s
          else if not (is_due now t)
          then (false, s)
          else if is_saved answer
          then take_slot own marked
          else (false, s)
    ]

-- `dispatchDue` over the rest of the snapshot: the tasks whose runs were started. `saves` and `owns`
-- say how each write and each admission went.
unfoldable pub dispatch_tasks :
    (Bytes → Bool) → (Bytes → Bool) → Clock → List Task → Scheduler → List Bytes × Scheduler
unfolding dispatch_task
dispatch_tasks saves owns now [] s = ([], s)
dispatch_tasks saves owns now (t ∷ ts) s =
    let (started, s') = dispatch_task (saves t.id) (owns t.id) now t s in
    let (others, s'') = dispatch_tasks saves owns now ts s' in
    (if started then t.id ∷ others else others, s'')

unfoldable pub dispatch_due :
    (Bytes → Bool) → (Bytes → Bool) → Clock → Scheduler → List Bytes × Scheduler
unfolding dispatch_tasks
dispatch_due saves owns now s = dispatch_tasks saves owns now s.tasks s

abbrev pub release_slot : Scheduler → Scheduler
release_slot s = record s { slots = s.slots - 1 }

-- What the deferred calls of `runTask` undo once it is marked as running.
abbrev pub end_run : Bytes → Scheduler → Scheduler
end_run id s = record s {
  slots = s.slots - 1;
  running = delete id s.running;
  stopped = delete id s.stopped;
}

abbrev pub claim : Bool → ℕ → Task → Task
claim admitted now t =
    if admitted && not t.enabled
    then t
    else record t { last_run = now; pending_at = 0; run_state = "running" }

-- `runTask` from the mark on: the task is found, its server is there, and the claim is saved before
-- anything happens. Every refusal gives back the slot and the mark. The source takes its locks in turn for
-- the task, the server and the claim; here they are one step.
unfoldable pub claim_run :
    Bool → Bool → String → (String → Bool) → ℕ → Bytes → Scheduler → Answer Task × Scheduler
unfolding find record_run
claim_run saved admitted server registered now id s = elim (find (has_id id) s.tasks) [
  | none ↦ (error no_task, end_run id s)
  | some t ↦
      if not (server == "") && not (t.server_id == server)
      then (error no_task, end_run id s)
      else if not (registered t.server_id)
      then (error no_server, end_run id s)
      else let (answer, s') = record_run saved id (claim admitted now) s in
        if not (is_saved answer)
        then (error not_saved, end_run id s')
        else if admitted && not t.enabled
        then (error not_claimed, end_run id s')
        else (done t, s')
]

-- `runTask` up to its claim. A run that was `admitted` has its slot already.
unfoldable pub begin_run :
    Bool → Bool → Bool → String → (String → Bool) → ℕ → Bytes → Scheduler → Answer Task × Scheduler
unfolding claim_run
begin_run saved closing admitted server registered now id s =
    if closing
    then (error shutting_down, if admitted then release_slot s else s)
    else if not admitted && not (ltb s.slots max_runs)
    then (error slots_busy, s)
    else let s' = if admitted then s else record s { slots = suc s.slots } in
      if contains s.running id
      then (error already_running, release_slot s')
      else claim_run saved admitted server registered now id
          (record s' { running = add id s'.running })

-- The steps of a task in order, until one fails; `step` is `stepContext`, none when it succeeds.
unfoldable pub run_steps : (Bytes → Option String) → List Bytes → Option String
run_steps step [] = none
run_steps step (part ∷ parts) =
    let rest = run_steps step parts in
    if length (trim_space part) == 0
    then rest
    else elim (step (trim_space part)) [ some err ↦ some err | none ↦ rest ]

abbrev pub error_text : Option String → String
error_text none = ""
error_text (some err) = err

abbrev pub finish : ℕ → Option String → Task → Task
finish now err t = record t {
  last_run = now;
  runs = suc t.runs;
  run_state = elim err [ none ↦ "completed" | some _ ↦ "failed" ];
  last_err = error_text err;
  enabled = t.enabled && t.repeat;
}

-- The end of `runTask`: the outcome is recorded, and the slot and the mark are given back.
unfoldable pub finish_run : Bool → ℕ → Option String → Bytes → Scheduler → Scheduler
unfolding record_run
finish_run saved now err id s =
    let (answer, s') = record_run saved id (finish now err) s in end_run id s'
