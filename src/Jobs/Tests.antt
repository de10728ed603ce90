-- ===== src/Jobs/Tests.antt =====
-- A backup that is asked for twice under one key.
use teploy_arcade.Text.{bytes_key}
use teploy_arcade.Prelude.{
  Bytes, ℕ, ◌≡◌, refl, Bool, true, List, [], ◌∷◌, ◌++◌, arith, if◌then◌else◌, ◌==◌, string_key,
}
use teploy_arcade.Prelude.Int.{ℤ, pos}
use teploy_arcade.Jobs.State.{ImportJob, LiveJob, view, backup_mode}
use teploy_arcade.Jobs.Store.{
  JobStore, new_job, start_operation, write_ok, usable, known_job, started_job, key_reused,
}
use teploy_arcade.Jobs.Steps.{JobCall, run_jobs, done_for, job_ended, jobs_reaped, operation_asked}
use teploy_arcade.Jobs.Key.{start_operation-once}
use teploy_arcade.Jobs.Valid.{IsSound, run_jobs-IsSound}

abbrev eight : Bytes
eight = 97 ∷ 48 ∷ 98 ∷ 49 ∷ 99 ∷ 50 ∷ 100 ∷ 51 ∷ []

abbrev fingerprint : Bytes
fingerprint = eight ++ eight ++ eight ++ eight ++ eight ++ eight ++ eight ++ eight

abbrev id : Bytes
id = eight ++ eight ++ eight ++ eight

abbrev path : Bytes
path = 47 ∷ 100 ∷ []

abbrev no_share : ℤ → ℤ → ℤ
no_share copied total = pos 0

abbrev small : ImportJob → Bool
small v = true

abbrev empty : JobStore
empty = record { jobs = []; records = [] }

abbrev backup : LiveJob
backup = new_job no_share small id fingerprint path backup_mode "Survival" "s1" (pos 1000)

abbrev all_removed : Bytes → Bool
all_removed key = true

backup-started :
    (start_operation no_share small true true usable all_removed
      (pos 1000)
      write_ok
      write_ok
      id
      backup
      empty).0
    ≡ started_job (view backup)
unfolding start_operation teploy_arcade.Prelude.lookup teploy_arcade.Prelude.all
    teploy_arcade.Prelude.contains
backup-started = refl

-- It is done, and the registry is reaped before the hour is over.
abbrev calls : List (ℕ × JobCall)
calls = (1010, job_ended (done_for "s1") write_ok id) ∷ (1500, jobs_reaped usable all_removed) ∷ []

start_operation-once_example :
    (let n =
        run_jobs no_share small calls
          (start_operation no_share small true true usable all_removed
            (pos 1000)
            write_ok
            write_ok
            id
            backup
            empty).1 in
      (k : ImportJob) × ((k.request_hash ≡ fingerprint)
        × (start_operation no_share small true true usable all_removed
              (pos 1600)
              write_ok
              write_ok
              id
              backup
              n
            ≡ (if fingerprint == fingerprint then known_job k else key_reused, n))))
start_operation-once_example =
    start_operation-once no_share small 1000 fingerprint id path backup_mode "Survival" "s1" true
      true usable all_removed write_ok write_ok empty (view backup) calls true true usable
      all_removed (pos 1600) write_ok write_ok backup backup-started
      ((omega arith, omega arith), ((omega arith, omega arith), tt))

run_jobs-IsSound_example : IsSound (
    run_jobs no_share small
      ((1000, operation_asked true true usable all_removed write_ok write_ok id backup) ∷ calls)
      empty)
run_jobs-IsSound_example =
    run_jobs-IsSound no_share small
      ((1000, operation_asked true true usable all_removed write_ok write_ok id backup) ∷ calls)
      empty tt
