-- ===== src/Jobs/Steps.antt =====
-- What happens to the jobs of a running panel, in any order, and that a known job stays known, in
-- internal/arcade/job_store.go, internal/arcade/import.go and internal/arcade/operations.go.
use teploy_arcade.Prelude.{
  Bytes, ℕ, ◌+◌, ◌≤◌, String, ◌≡◌, refl, sym, ap, ◌∙◌, subst, inl, inr, Bool, true, false, not,
  ◌&&◌, ◌||◌, none, some, List, [], ◌∷◌, arith, ◌==◌, Bool-cases, Option-cases, same_cases,
  some-inj, lookup, insert, lookup-retain_kept, keys_cases, string_key,
}
use teploy_arcade.Prelude.Int.{ℤ, ◌+ℤ◌, ltb_ℤ, pos}
use teploy_arcade.Text.{bytes_key}
use teploy_arcade.Jobs.State.{ImportJob, LiveJob, validate_job, is_in_progress, is_finished}
use teploy_arcade.Jobs.Store.{
  JobStore, Write, Access, open_records, stored_view, persist, end_job, fail_job, done_job, advance,
  still_known, reap_jobs, start_operation,
}
use teploy_arcade.Jobs.Known.{
  Recent, IsKnown, same-IsKnown, open_records-IsKnown, others-IsKnown, write_record-IsKnown,
  changed-IsKnown, rewritten-IsKnown,
}

pub data Ended : Type 0 where
  failed_with done_for : String → Ended

abbrev pub ending : ℕ → Ended → ImportJob → ImportJob
ending now (failed_with error) = fail_job (pos now) error
ending now (done_for server) = done_job (pos now) server

-- A step, at a time.
pub data JobCall : Type 0 where
  job_ended : Ended → Write → Bytes → JobCall
  job_advanced : ℤ → Bytes → JobCall
  jobs_reaped : Access → (Bytes → Bool) → JobCall
  operation_asked :
      Bool → Bool → Access → (Bytes → Bool) → Write → Write → Bytes → LiveJob → JobCall

any_true : (a b : Bool) → (a || b || true) ≡ true
any_true true true = refl
any_true true false = refl
any_true false true = refl
any_true false false = refl

module _ (percent_of : ℤ → ℤ → ℤ) (fits : ImportJob → Bool) where
  unfoldable pub job_step : ℕ → JobCall → JobStore → JobStore
  unfolding end_job advance reap_jobs start_operation
  job_step now (job_ended how w id) m = end_job percent_of fits (ending now how) w id m
  job_step now (job_advanced n id) m = advance n id m
  job_step now (jobs_reaped access removed) m = reap_jobs access removed (pos now) m
  job_step now (operation_asked registered owned access removed w w' id j) m =
      (start_operation percent_of fits registered owned access removed (pos now) w w' id j m).1

  unfoldable pub run_jobs : List (ℕ × JobCall) → JobStore → JobStore
  unfolding job_step
  run_jobs [] m = m
  run_jobs ((now, c) ∷ calls) m = run_jobs calls (job_step now c m)

  module _ (t0 : ℕ) (fingerprint id : Bytes) where
    abbrev Known : JobStore → Type 0
    Known = IsKnown t0 fingerprint id

    stored_view-Recent : (j : LiveJob) → Recent t0 j.job → Recent t0 (stored_view percent_of j)
    unfolding stored_view
    stored_view-Recent j recent = elim (Bool-cases (is_finished j.job.state)) [
      | inl all_done ↦ rw all_done recent
      | inr other ↦ rw other (elim (Bool-cases (ltb_ℤ (pos 0) j.job.total)) [
        | inr unknown ↦ rw unknown recent
        | inl known ↦ rw known (elim (Bool-cases (ltb_ℤ j.copied_so_far j.job.total)) [
          | inl some_left ↦ rw some_left recent
          | inr all_copied ↦ rw all_copied recent
        ])
      ])
    ]

    ending-Recent :
        (now : ℕ) (how : Ended) (v : ImportJob) → t0 ≤ now → Recent t0 (ending now how v)
    ending-Recent now (failed_with error) v late = inr (ground arith)
    ending-Recent now (done_for server) v late = inr (ground arith)

    ending-request_hash :
        (now : ℕ) (how : Ended) (v : ImportJob) → (ending now how v).request_hash ≡ v.request_hash
    ending-request_hash now (failed_with error) v = refl
    ending-request_hash now (done_for server) v = refl

    persist-Known :
        (w : Write) (j : LiveJob) (m : JobStore)
        → Recent t0 j.job
        → Known m
        → Known (persist percent_of fits w id j m)
    unfolding persist
    persist-Known w j m recent k =
        elim (Bool-cases (
          j.stored
          && validate_job (stored_view percent_of j) id
          && fits (stored_view percent_of j))) [
            | inr kept ↦ rw kept k
            | inl written ↦ rw written (
                rewritten-IsKnown t0 fingerprint id w (stored_view percent_of j) m
                  (stored_view-Recent j recent) k)
          ]

    persist_other-Known :
        (w : Write) (other : Bytes) (j : LiveJob) (m : JobStore)
        → (other == id) ≡ false
        → Known m
        → Known (persist percent_of fits w other j m)
    unfolding persist
    persist_other-Known w other j m apart k =
        elim (Bool-cases (
          j.stored
          && validate_job (stored_view percent_of j) other
          && fits (stored_view percent_of j))) [
            | inr kept ↦ rw kept k
            | inl written ↦ rw written (write_record-IsKnown t0 fingerprint id other w _ m apart k)
          ]

    -- The job found in memory is the known one.
    same_job : (m : JobStore) (j : LiveJob) (k : Known m) → lookup id m.jobs ≡ some j → k.job ≡ j
    same_job m j k there = some-inj (sym k.there ∙ there)

    pub end_job-Known :
        (now : ℕ) (how : Ended) (w : Write) (other : Bytes) (m : JobStore)
        → t0 ≤ now
        → Known m
        → Known (end_job percent_of fits (ending now how) w other m)
    unfolding end_job
    end_job-Known now how w other m late k = elim (Option-cases (lookup other m.jobs)) [
      | inl away ↦ rw (away, end_job) k
      | inr (j, there) ↦
          let j' : LiveJob = record j { job = ending now how j.job } in
          rw (there, end_job)
            (elim (same_cases other id) [
              | inr apart ↦
                  persist_other-Known w other j' (record m { jobs = insert other j' m.jobs }) apart
                    (others-IsKnown t0 fingerprint id other m j' apart k)
              | inl same ↦ rw same (
                  let recent = ending-Recent now how j.job late in
                  let hash =
                    ending-request_hash now how j.job
                    ∙ sym (ap (λ x. x.job.request_hash) (same_job m j k (rw same at there)))
                    ∙ k.same_request in
                  persist-Known w j' (record m { jobs = insert id j' m.jobs }) recent
                    (changed-IsKnown t0 fingerprint id m j' hash recent k))
            ])
    ]

    pub advance-Known : (n : ℤ) (other : Bytes) (m : JobStore) → Known m → Known (advance n other m)
    unfolding advance
    advance-Known n other m k = elim (Option-cases (lookup other m.jobs)) [
      | inl away ↦ rw (away, advance) k
      | inr (j, there) ↦
          let j' : LiveJob = record j { copied_so_far = j.copied_so_far +ℤ n } in
          rw (there, advance)
            (elim (same_cases other id) [
              | inr apart ↦ others-IsKnown t0 fingerprint id other m j' apart k
              | inl same ↦ rw same (
                  let mine = same_job m j k (rw same at there) in
                  changed-IsKnown t0 fingerprint id m j'
                    (sym (ap (λ x. x.job.request_hash) mine) ∙ k.same_request)
                    (subst (λ x. Recent t0 x.job) mine k.recent) k)
            ])
    ]

    pub reap_jobs-Known :
        (access : Access) (removed : Bytes → Bool) (now : ℕ) (m : JobStore)
        → now ≤ t0 + 3600
        → Known m
        → Known (reap_jobs access removed (pos now) m)
    unfolding reap_jobs
    reap_jobs-Known access removed now m soon k =
        let r = open_records access removed (pos now) m in
        let k1 = open_records-IsKnown access removed t0 now fingerprint id m soon k in
        elim (Bool-cases r.0) [
          | inr shut ↦ rw (shut, reap_jobs) k1
          | inl opened ↦
              rw (opened, reap_jobs)
                (same-IsKnown t0 fingerprint id r.1 _
                  (lookup-retain_kept (still_known r.1.records) id r.1.jobs k1.job k1.there
                      (on_record r.1 k1)
                    ∙ sym k1.there)
                  refl k1)
        ]
      where
        on_record : (n : JobStore) (k' : Known n) → still_known n.records (id, k'.job) ≡ true
        on_record n k' = elim (keys_cases id n.records) [
          | inl (listed, found) ↦
              rw listed (any_true (not k'.job.stored) (is_in_progress k'.job.job.state))
          | inr (unlisted, away) ↦
              absurd (let no : none ≡ some k'.stored_as = sym away ∙ k'.on_disk in ground arith)
        ]
