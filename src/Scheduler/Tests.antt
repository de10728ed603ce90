-- ===== src/Scheduler/Tests.antt =====
-- The theorems on the scheduler at a concrete task, and runs of the model.
use teploy_arcade.Prelude.{
  Bytes, ℕ, ◌+◌, ◌/◌, ◌≤◌, ◌≡◌, refl, true, false, none, some, List, [], ◌∷◌, arith, length, take,
  All, contains, add,
}
use teploy_arcade.Text.{
  is_space, is_digit, trim_left, trim_space, digits_value, parse_int, atoi, split_at,
}
use teploy_arcade.Scheduler.Clock.{all_digits, clock_field, clock_time, parse_clock}
use teploy_arcade.Scheduler.Format.{clock_text, parse_clock-clock_text}
use teploy_arcade.Scheduler.History.{
  TaskCall, Work, task_run, drops_saved, IsOrderly, run-IsKept, adds, deletes, drops, dispatches,
  begins, finishes,
}
use teploy_arcade.Scheduler.Kept.{IsValidTask, IsKept}
use teploy_arcade.Scheduler.Load.{IsSettled, new_scheduler-IsSettled}
use teploy_arcade.Scheduler.Once.{Started, Claimed, begin_run-Started}
use teploy_arcade.Scheduler.Runs.{max_runs, Clock, dispatch_task, begin_run}
use teploy_arcade.Scheduler.Tasks.{Task, Scheduler, validate_task, new_scheduler}

abbrev half_past_four : Bytes
half_past_four = 48 ∷ 52 ∷ 58 ∷ 51 ∷ 48 ∷ []

abbrev nightly : Task
nightly = record {
  id = 116 ∷ 49 ∷ [];
  server_id = "s1";
  name = 110 ∷ [];
  commands = 33 ∷ 115 ∷ 59 ∷ 32 ∷ 120 ∷ [];
  time = half_past_four;
  repeat = true;
  enabled = true;
  last_run = 0;
  last_err = "";
  pending_at = 0;
  run_state = "";
  runs = 0;
}

abbrev one_task : Scheduler
one_task = record {
  tasks = nightly ∷ [];
  disk = nightly ∷ [];
  running = [];
  stopped = [];
  slots = 0;
}

time_of_day : parse_clock half_past_four ≡ some 16200
unfolding parse_clock clock_time clock_field all_digits split_at trim_space atoi parse_int trim_left
    is_space is_digit digits_value
time_of_day = refl

nightly-IsValidTask : IsValidTask nightly
unfolding validate_task parse_clock clock_time clock_field all_digits split_at trim_space atoi
    parse_int trim_left is_space is_digit digits_value
nightly-IsValidTask = refl

one_task-IsKept : IsKept one_task
one_task-IsKept = record { valid = (nightly-IsValidTask, tt); agree = refl; capped = omega arith }

abbrev daily : ℕ → ℕ
daily seconds = seconds / 86400

abbrev dawn : Clock
dawn = record { unix = 16210; day_seconds = 16210; date_of = daily }

abbrev night : List TaskCall
night =
    dispatches true true dawn nightly
    ∷ begins true false true "" (λ s. true) 16210 nightly.id
    ∷ finishes false 16220 (some "failed") nightly.id
    ∷ drops true "s2"
    ∷ adds true true (λ n. some (n ∷ [])) nightly
    ∷ deletes true "s1" nightly.id
    ∷ []

night_saved : drops_saved night ≡ true
unfolding drops_saved
night_saved = refl

-- Nothing runs yet.
abbrev evening : Work
evening = record { waiting = 0; scheduler = one_task }

evening-IsOrderly : IsOrderly evening
evening-IsOrderly = record {
  kept = one_task-IsKept;
  counted = record { counted = refl; once = tt };
}

-- The first two calls of the night leave one run, which has its slot.
night_runs :
    ((task_run (take 2 night) evening).scheduler.running ≡ nightly.id ∷ [])
    × ((task_run (take 2 night) evening).scheduler.slots ≡ 1)
    × ((task_run (take 2 night) evening).waiting ≡ 0)
unfolding task_run parse_clock clock_time clock_field all_digits split_at trim_space atoi parse_int
    trim_left is_space is_digit digits_value dispatch_task begin_run contains add
night_runs = (refl, refl, refl)

run-IsKept_example :
    IsOrderly (task_run night evening)
    × ((task_run night evening).waiting + length (task_run night evening).scheduler.running
        ≤ max_runs)
run-IsKept_example = run-IsKept night evening night_saved evening-IsOrderly

begin_run-Started_example :
    Started
      (Claimed dawn 16205 nightly.id)
      (begin_run true false false "s1" (λ s. true) 16205 nightly.id one_task)
begin_run-Started_example =
    begin_run-Started true false false "s1" (λ s. true) 16205 nightly.id one_task dawn (omega arith)
      refl

new_scheduler-IsSettled_example :
    All IsSettled
      (new_scheduler (some (record nightly { run_state = "running" }) ∷ none ∷ [])).tasks
    × ((new_scheduler (some (record nightly { run_state = "running" }) ∷ none ∷ [])).slots ≡ 0)
    × ((new_scheduler (some (record nightly { run_state = "running" }) ∷ none ∷ [])).running ≡ [])
new_scheduler-IsSettled_example =
    new_scheduler-IsSettled (some (record nightly { run_state = "running" }) ∷ none ∷ [])

parse_clock-clock_text_example : parse_clock (clock_text 4 30 5) ≡ some 16205
parse_clock-clock_text_example =
    parse_clock-clock_text 4 30 5 (omega arith) (omega arith) (omega arith)
