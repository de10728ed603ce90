-- ===== src/Jobs/Key.antt =====
-- An idempotency key starts its work once, in `startOperation` of internal/arcade/operations.go.
use teploy_arcade.Prelude.{
  Bytes, ℕ, String, ◌≡◌, refl, ◌∙◌, inl, inr, Bool, true, false, not, ◌&&◌, some, List, [], ◌∷◌,
  arith, ltb, if◌then◌else◌, ◌==◌, Bool-cases, Option-cases, length, retain, All, contains, lookup,
  remove, insert, keys, string_key,
}
use teploy_arcade.Prelude.Int.{ℤ, ltb_ℤ, pos}
use teploy_arcade.Text.{bytes_key}
use teploy_arcade.Jobs.State.{Mode, ImportJob, LiveJob, validate_job, is_finished, view}
use teploy_arcade.Jobs.Store.{
  JobStore, durable_job_limit, Write, succeeds, write_record, Access, open_records, track_job,
  not_expired, new_job, start_operation, write_ok, write_lost, write_unsure, known_job, started_job,
  key_reused, not_registered, not_tracked, not_owned,
}
use teploy_arcade.Jobs.Known.{IsKnown, InTime, same_lookup}
use teploy_arcade.Jobs.Steps.{
  JobCall, job_step, run_jobs, end_job-Known, advance-Known, reap_jobs-Known, job_ended,
  job_advanced, jobs_reaped, operation_asked,
}
use teploy_arcade.Jobs.Once.{other_asked}

view-request_hash : (j : LiveJob) → (view j).request_hash ≡ j.job.request_hash
unfolding view
view-request_hash j = elim (Bool-cases (is_finished j.job.state)) [
  | inl all_done ↦ rw (all_done, view) refl
  | inr other ↦
      rw (other, view)
        (elim (Bool-cases (ltb_ℤ (pos 0) j.job.total)) [
          | inl sized ↦ rw sized refl
          | inr unknown ↦ rw unknown refl
        ])
]

module _ (percent_of : ℤ → ℤ → ℤ) (fits : ImportJob → Bool) (t0 : ℕ) (fingerprint id : Bytes) where
  abbrev Kept : JobStore → Type 0
  Kept = IsKnown t0 fingerprint id

  job_step-Kept :
      (now : ℕ) (c : JobCall) (m : JobStore)
      → InTime t0 now
      → Kept m
      → Kept (job_step percent_of fits now c m)
  unfolding job_step
  job_step-Kept now (job_ended how w other) m (late, soon) k =
      end_job-Known percent_of fits t0 fingerprint id now how w other m late k
  job_step-Kept now (job_advanced n other) m (late, soon) k =
      advance-Known percent_of fits t0 fingerprint id n other m k
  job_step-Kept now (jobs_reaped access removed) m (late, soon) k =
      reap_jobs-Known percent_of fits t0 fingerprint id access removed now m soon k
  job_step-Kept now (operation_asked registered owned access removed w w' other j) m (late, soon)
        k =
      other_asked percent_of fits t0 fingerprint id registered owned access removed now w w' other j
        m late soon k

  run_jobs-Kept :
      (calls : List (ℕ × JobCall)) (m : JobStore)
      → All (λ c. InTime t0 c.0) calls
      → Kept m
      → Kept (run_jobs percent_of fits calls m)
  unfolding run_jobs
  run_jobs-Kept [] m times k = k
  run_jobs-Kept ((now, c) ∷ calls) m (time, times) k =
      run_jobs-Kept calls (job_step percent_of fits now c m) times (job_step-Kept now c m time k)

  module _ (path : Bytes) (mode : Mode) (name server : String) where
    abbrev asked : LiveJob
    asked = new_job percent_of fits id fingerprint path mode name server (pos t0)

    asked_again :
        (registered owned : Bool) (access : Access) (removed : Bytes → Bool) (now : ℤ)
        (w w' : Write) (j : LiveJob) (n : JobStore) (old : LiveJob)
        → lookup id n.jobs ≡ some old
        → (view old).request_hash ≡ fingerprint
        → start_operation percent_of fits registered owned access removed now w w' id j n
          ≡ (if fingerprint == j.job.request_hash then known_job (view old) else key_reused, n)
    unfolding start_operation
    asked_again registered owned access removed now w w' j n old there hash =
        rw (there, start_operation, hash)
          (elim (Bool-cases (fingerprint == j.job.request_hash)) [
            | inl same ↦ rw same refl
            | inr differs ↦ rw differs refl
          ])

    asked-Kept :
        (m : JobStore)
        → Kept (record m {
          jobs = insert id (record asked { stored = true }) m.jobs;
          records = insert id (view asked) m.records;
        })
    unfolding view
    asked-Kept m = record {
      job = record asked { stored = true };
      there = same_lookup id (record asked { stored = true }) m.jobs;
      same_request = refl;
      recent = inl (refl, refl);
      stored_as = view asked;
      on_disk = same_lookup id (view asked) m.records;
      recorded = inl (refl, refl);
    }

    written-Kept :
        (w : Write) (m : JobStore)
        → (let m2 = write_record w id (view asked) m in
            let r : Bool × JobStore =
              if succeeds w
              then (true, record m2 { jobs = insert id (record asked { stored = true }) m2.jobs })
              else (false, record m2 { jobs = remove id m2.jobs }) in
            r.0 ≡ true → Kept r.1)
    written-Kept write_ok m tracked = asked-Kept m
    written-Kept write_lost m tracked = absurd (let no : false ≡ true = tracked in ground arith)
    written-Kept write_unsure m tracked = absurd (let no : false ≡ true = tracked in ground arith)

    tracked-Kept :
        (access : Access) (removed : Bytes → Bool) (w : Write) (m : JobStore)
        → (track_job percent_of fits access removed (pos t0) w id asked m).0 ≡ true
        → Kept (track_job percent_of fits access removed (pos t0) w id asked m).1
    unfolding track_job
    tracked-Kept access removed w m tracked =
        let r = open_records access removed (pos t0) m in
        elim (Bool-cases (
          not (
            r.0
            && ltb (length r.1.records) durable_job_limit
            && not (contains (keys r.1.records) id)
            && validate_job (view asked) id
            && fits (view asked)))) [
              | inl closed ↦
                  absurd (let no : false ≡ true = rw (closed, track_job) at tracked in ground arith)
              | inr admitted ↦
                  rw (admitted, track_job)
                    (written-Kept w r.1 (rw (admitted, track_job) at tracked))
            ]

    started-Kept :
        (registered owned : Bool) (access : Access) (removed : Bytes → Bool) (w w' : Write)
        (m : JobStore) (v : ImportJob)
        → (start_operation percent_of fits registered owned access removed
            (pos t0)
            w
            w'
            id
            asked
            m).0
          ≡ started_job v
        → Kept
            (start_operation percent_of fits registered owned access removed
              (pos t0)
              w
              w'
              id
              asked
              m).1
    unfolding start_operation
    started-Kept registered owned access removed w w' m v started =
        let fresh : JobStore = record m {
          jobs = insert id asked (retain (not_expired (pos t0)) m.jobs);
        } in
        let r = track_job percent_of fits access removed (pos t0) w id asked fresh in
        elim (Option-cases (lookup id m.jobs)) [
          | inr (old, there) ↦ elim (Bool-cases ((view old).request_hash == fingerprint)) [
            | inl same ↦ absurd (
                let no : known_job (view old) ≡ started_job v =
                  rw (there, start_operation, same) at started in
                ground arith)
            | inr differs ↦ absurd (
                let no : key_reused ≡ started_job v =
                  rw (there, start_operation, differs) at started in
                ground arith)
          ]
          | inl away ↦ elim (Bool-cases registered) [
            | inr gone ↦ absurd (
                let no : not_registered ≡ started_job v =
                  rw (away, start_operation, gone) at started in
                ground arith)
            | inl here ↦ elim (Bool-cases r.0) [
              | inr closed ↦ absurd (
                  let no : not_tracked ≡ started_job v =
                    rw (away, start_operation, here, closed) at started in
                  ground arith)
              | inl admitted ↦ elim (Bool-cases owned) [
                | inr closing ↦ absurd (
                    let no : not_owned ≡ started_job v =
                      rw (away, start_operation, here, admitted, closing) at started in
                    ground arith)
                | inl runs ↦
                    rw (away, start_operation, here, admitted, runs)
                      (tracked-Kept access removed w fresh admitted)
              ]
            ]
          ]
        ]

    -- Once an operation was started under an idempotency key, and while no more than the time passed for
    -- which a job is kept, whatever happened to this and other jobs, and also if writes of records failed: a
    -- start with the same key starts nothing and changes nothing. It is answered with the job, or
    -- refused if its request is another one.
    pub start_operation-once :
        (registered owned : Bool) (access : Access) (removed : Bytes → Bool) (w w' : Write)
        (m : JobStore) (v : ImportJob) (calls : List (ℕ × JobCall)) (registered' owned' : Bool)
        (access' : Access) (removed' : Bytes → Bool) (now : ℤ) (v1 v2 : Write) (j : LiveJob)
        → (start_operation percent_of fits registered owned access removed
            (pos t0)
            w
            w'
            id
            asked
            m).0
          ≡ started_job v
        → All (λ c. InTime t0 c.0) calls
        → (let n =
              run_jobs percent_of fits calls
                (start_operation percent_of fits registered owned access removed
                  (pos t0)
                  w
                  w'
                  id
                  asked
                  m).1 in
            (k : ImportJob) × ((k.request_hash ≡ fingerprint)
              × (start_operation percent_of fits registered' owned' access' removed' now v1 v2 id j
                    n
                  ≡ (if fingerprint == j.job.request_hash then known_job k else key_reused, n))))
    unfolding start_operation
    start_operation-once registered owned access removed w w' m v calls registered' owned' access'
          removed' now v1 v2 j started times =
        let first =
          start_operation percent_of fits registered owned access removed (pos t0) w w' id asked
            m in
        let n = run_jobs percent_of fits calls first.1 in
        let k =
          run_jobs-Kept calls first.1 times
            (started-Kept registered owned access removed w w' m v started) in
        let hash = view-request_hash k.job ∙ k.same_request in
        (
          view k.job,
          (hash, asked_again registered' owned' access' removed' now v1 v2 j n k.job k.there hash),
        )
