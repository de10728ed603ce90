-- ===== src/Jobs/Valid.antt =====
-- The registry stays readable: every record is valid, in internal/arcade/job_store.go.
use teploy_arcade.Prelude.{
  Bytes, ℕ, ◌≡◌, refl, sym, inl, inr, Bool, true, false, not, ◌&&◌, ◌||◌, List, [], ◌∷◌, ltb, leb,
  ◌==◌, Bool-cases, Option-cases, length, retain, all, All, retain-All, contains, Assoc, lookup,
  insert, keys, string_key,
}
use teploy_arcade.Prelude.Int.{ℤ, pos}
use teploy_arcade.Text.{bytes_key}
use teploy_arcade.Jobs.State.{ImportJob, LiveJob, validate_job, view}
use teploy_arcade.Jobs.Store.{
  JobStore, durable_job_limit, Write, succeeds, write_record, Access, is_readable, retained,
  open_records, stored_view, track_job, persist, end_job, fail_job, advance, reap_jobs, not_expired,
  start_operation, write_ok, write_lost, write_unsure,
}
use teploy_arcade.Jobs.Steps.{
  ending, JobCall, job_step, run_jobs, job_ended, job_advanced, jobs_reaped, operation_asked,
}

abbrev pub IsSound : JobStore → Type 0
IsSound m = All (λ r. validate_job r.1 r.0 ≡ true) m.records

insert-All :
    (id : Bytes) (v : ImportJob) (records : Assoc Bytes ImportJob)
    → validate_job v id ≡ true
    → All (λ r. validate_job r.1 r.0 ≡ true) records
    → All (λ r. validate_job r.1 r.0 ≡ true) (insert id v records)
unfolding insert
insert-All id v [] valid sound = (valid, tt)
insert-All id v ((other, old) ∷ others) valid sound = elim (Bool-cases (other == id)) [
  | inl same ↦ rw same (valid, sound.1)
  | inr apart ↦ rw apart (sound.0, insert-All id v others valid sound.1)
]

write_record-IsSound :
    (w : Write) (id : Bytes) (v : ImportJob) (m : JobStore)
    → validate_job v id ≡ true
    → IsSound m
    → IsSound (write_record w id v m)
write_record-IsSound write_lost id v m valid sound = sound
write_record-IsSound write_ok id v m valid sound = insert-All id v m.records valid sound
write_record-IsSound write_unsure id v m valid sound = insert-All id v m.records valid sound

open_records-IsSound :
    (access : Access) (removed : Bytes → Bool) (now : ℤ) (m : JobStore)
    → IsSound m
    → IsSound (open_records access removed now m).1
unfolding open_records
open_records-IsSound access removed now m sound =
    elim (Bool-cases (
      is_readable access
      && leb (length m.records) durable_job_limit
      && all (λ r. validate_job r.1 r.0) m.records)) [
        | inr shut ↦ rw shut sound
        | inl opened ↦ rw opened (
            retain-All (λ r. validate_job r.1 r.0 ≡ true) (λ r. retained now r || not (removed r.0))
              m.records sound)
      ]

middle : (a b c : Bool) → (a && b && c) ≡ true → b ≡ true
middle a true c h = refl
middle true false c h = h
middle false false c h = h

fourth : (a b c d e : Bool) → not (a && b && c && d && e) ≡ false → d ≡ true
fourth a b c true e h = refl
fourth true true true false e h = sym h
fourth true true false false e h = sym h
fourth true false c false e h = sym h
fourth false b c false e h = sym h

module _ (percent_of : ℤ → ℤ → ℤ) (fits : ImportJob → Bool) where
  track_job-IsSound :
      (access : Access) (removed : Bytes → Bool) (now : ℤ) (w : Write) (id : Bytes) (j : LiveJob)
      (m : JobStore)
      → IsSound m
      → IsSound (track_job percent_of fits access removed now w id j m).1
  unfolding track_job
  track_job-IsSound access removed now w id j m sound =
      let r = open_records access removed now m in
      let sound1 = open_records-IsSound access removed now m sound in
      elim (Bool-cases (
        not (
          r.0
          && ltb (length r.1.records) durable_job_limit
          && not (contains (keys r.1.records) id)
          && validate_job (view j) id
          && fits (view j)))) [
            | inl closed ↦ rw (closed, track_job) sound1
            | inr admitted ↦
                let valid =
                  fourth r.0 (ltb (length r.1.records) durable_job_limit)
                    (not (contains (keys r.1.records) id)) (validate_job (view j) id)
                    (fits (view j)) admitted in
                let written = write_record-IsSound w id (view j) r.1 valid sound1 in
                rw (admitted, track_job)
                  (elim (Bool-cases (succeeds w)) [
                    | inl good ↦ rw good written
                    | inr lost ↦ rw lost written
                  ])
          ]

  persist-IsSound :
      (w : Write) (id : Bytes) (j : LiveJob) (m : JobStore)
      → IsSound m
      → IsSound (persist percent_of fits w id j m)
  unfolding persist
  persist-IsSound w id j m sound =
      let v = stored_view percent_of j in
      elim (Bool-cases (j.stored && validate_job v id && fits v)) [
        | inr refused ↦ rw refused sound
        | inl admitted ↦ rw admitted (
            write_record-IsSound w id v m (middle j.stored (validate_job v id) (fits v) admitted)
              sound)
      ]

  end_job-IsSound :
      (change : ImportJob → ImportJob) (w : Write) (id : Bytes) (m : JobStore)
      → IsSound m
      → IsSound (end_job percent_of fits change w id m)
  unfolding end_job
  end_job-IsSound change w id m sound = elim (Option-cases (lookup id m.jobs)) [
    | inl away ↦ rw (away, end_job) sound
    | inr (j, there) ↦
        rw (there, end_job)
          (persist-IsSound w id (record j { job = change j.job })
            (record m { jobs = insert id (record j { job = change j.job }) m.jobs }) sound)
  ]

  advance-IsSound : (n : ℤ) (id : Bytes) (m : JobStore) → IsSound m → IsSound (advance n id m)
  unfolding advance
  advance-IsSound n id m sound = elim (Option-cases (lookup id m.jobs)) [
    | inl away ↦ rw (away, advance) sound
    | inr (j, there) ↦ rw (there, advance) sound
  ]

  reap_jobs-IsSound :
      (access : Access) (removed : Bytes → Bool) (now : ℤ) (m : JobStore)
      → IsSound m
      → IsSound (reap_jobs access removed now m)
  unfolding reap_jobs
  reap_jobs-IsSound access removed now m sound =
      let sound1 = open_records-IsSound access removed now m sound in
      elim (Bool-cases (open_records access removed now m).0) [
        | inr shut ↦ rw (shut, reap_jobs) sound1
        | inl opened ↦ rw (opened, reap_jobs) sound1
      ]

  start_operation-IsSound :
      (registered owned : Bool) (access : Access) (removed : Bytes → Bool) (now : ℤ) (w w' : Write)
      (id : Bytes) (j : LiveJob) (m : JobStore)
      → IsSound m
      → IsSound (start_operation percent_of fits registered owned access removed now w w' id j m).1
  unfolding start_operation
  start_operation-IsSound registered owned access removed now w w' id j m sound =
      let fresh : JobStore = record m { jobs = insert id j (retain (not_expired now) m.jobs) } in
      let r = track_job percent_of fits access removed now w id j fresh in
      let tracked = track_job-IsSound access removed now w id j fresh sound in
      elim (Option-cases (lookup id m.jobs)) [
        | inr (old, there) ↦
            rw (there, start_operation)
              (elim (Bool-cases ((view old).request_hash == j.job.request_hash)) [
                | inl same ↦ rw same sound
                | inr differs ↦ rw differs sound
              ])
        | inl away ↦
            rw (away, start_operation)
              (elim (Bool-cases registered) [
                | inr gone ↦ rw gone sound
                | inl here ↦ rw here (elim (Bool-cases r.0) [
                  | inr closed ↦ rw closed tracked
                  | inl admitted ↦ rw admitted (elim (Bool-cases owned) [
                    | inl runs ↦ rw runs tracked
                    | inr closing ↦
                        rw closing
                          (end_job-IsSound (fail_job now "context canceled") w' id r.1 tracked)
                  ])
                ])
              ])
      ]

  job_step-IsSound :
      (now : ℕ) (c : JobCall) (m : JobStore)
      → IsSound m
      → IsSound (job_step percent_of fits now c m)
  unfolding job_step
  job_step-IsSound now (job_ended how w id) m sound = end_job-IsSound (ending now how) w id m sound
  job_step-IsSound now (job_advanced n id) m sound = advance-IsSound n id m sound
  job_step-IsSound now (jobs_reaped access removed) m sound =
      reap_jobs-IsSound access removed (pos now) m sound
  job_step-IsSound now (operation_asked registered owned access removed w w' id j) m sound =
      start_operation-IsSound registered owned access removed (pos now) w w' id j m sound

  -- Whatever happens to the jobs, at whichever times and whichever writes and removals fail, a registry of
  -- which every record is valid stays one, so that no later reading of it is refused for a bad record.
  pub run_jobs-IsSound :
      (calls : List (ℕ × JobCall)) (m : JobStore)
      → IsSound m
      → IsSound (run_jobs percent_of fits calls m)
  unfolding run_jobs
  run_jobs-IsSound [] m sound = sound
  run_jobs-IsSound ((now, c) ∷ calls) m sound =
      run_jobs-IsSound calls (job_step percent_of fits now c m) (job_step-IsSound now c m sound)
