-- ===== src/Jobs/Once.antt =====
-- One start for one idempotency key, in `startOperation` of internal/arcade/operations.go.
use teploy_arcade.Prelude.{
  Bytes, ℕ, ◌+◌, ◌≤◌, ◌≡◌, refl, sym, ◌∙◌, inl, inr, Bool, true, false, not, ◌&&◌, none, some,
  arith, ltb, ◌==◌, Bool-cases, Option-cases, same_cases, length, retain, contains, lookup, insert,
  keys, lookup-retain_kept, string_key,
}
use teploy_arcade.Prelude.Int.{ℤ, pos}
use teploy_arcade.Text.{bytes_key}
use teploy_arcade.Jobs.State.{ImportJob, LiveJob, validate_job, view}
use teploy_arcade.Jobs.Store.{
  JobStore, durable_job_limit, Write, succeeds, write_record, Access, open_records, track_job,
  not_expired, start_operation,
}
use teploy_arcade.Jobs.Known.{
  IsKnown, not_expired_lem, same-IsKnown, open_records-IsKnown, others-IsKnown,
  write_record-IsKnown, dropped-IsKnown,
}
use teploy_arcade.Jobs.Steps.{end_job-Known, failed_with}

module _ (percent_of : ℤ → ℤ → ℤ) (fits : ImportJob → Bool) (t0 : ℕ) (fingerprint id : Bytes) where
  abbrev Kept : JobStore → Type 0
  Kept = IsKnown t0 fingerprint id

  track_other :
      (access : Access) (removed : Bytes → Bool) (now : ℕ) (w : Write) (other : Bytes) (j : LiveJob)
      (m : JobStore)
      → now ≤ t0 + 3600
      → (other == id) ≡ false
      → Kept m
      → Kept (track_job percent_of fits access removed (pos now) w other j m).1
  unfolding track_job
  track_other access removed now w other j m soon apart k =
      let r = open_records access removed (pos now) m in
      let k1 = open_records-IsKnown access removed t0 now fingerprint id m soon k in
      let m2 = write_record w other (view j) r.1 in
      let k2 = write_record-IsKnown t0 fingerprint id other w (view j) r.1 apart k1 in
      elim (Bool-cases (
        not (
          r.0
          && ltb (length r.1.records) durable_job_limit
          && not (contains (keys r.1.records) other)
          && validate_job (view j) other
          && fits (view j)))) [
            | inl closed ↦
                rw (closed, track_job) (dropped-IsKnown t0 fingerprint id other r.1 apart k1)
            | inr admitted ↦
                rw (admitted, track_job)
                  (elim (Bool-cases (succeeds w)) [
                    | inl written ↦ rw written (
                        others-IsKnown t0 fingerprint id other m2 (record j { stored = true }) apart
                          k2)
                    | inr lost ↦ rw lost (dropped-IsKnown t0 fingerprint id other m2 apart k2)
                  ])
          ]

  pub other_asked :
      (registered owned : Bool) (access : Access) (removed : Bytes → Bool) (now : ℕ) (w w' : Write)
      (other : Bytes) (j : LiveJob) (m : JobStore)
      → t0 ≤ now
      → now ≤ t0 + 3600
      → Kept m
      → Kept
          (start_operation percent_of fits registered owned access removed
            (pos now)
            w
            w'
            other
            j
            m).1
  unfolding start_operation
  other_asked registered owned access removed now w w' other j m late soon k =
      elim (Option-cases (lookup other m.jobs)) [
        | inr (old, there) ↦
            rw (there, start_operation)
              (elim (Bool-cases ((view old).request_hash == j.job.request_hash)) [
                | inl same ↦ rw same k
                | inr differs ↦ rw differs k
              ])
        | inl away ↦
            rw (away, start_operation)
              (elim (same_cases other id) [
                | inl same ↦
                    absurd
                      (let no : none ≡ some k.job = sym (rw same at away) ∙ k.there in ground arith)
                | inr apart ↦
                    let base : JobStore = record m {
                      jobs = retain (not_expired (pos now)) m.jobs;
                    } in
                    let kept =
                      same-IsKnown t0 fingerprint id m base
                        (lookup-retain_kept (not_expired (pos now)) id m.jobs k.job k.there
                            (not_expired_lem t0 now id k.job soon k.recent)
                          ∙ sym k.there)
                        refl k in
                    let fresh : JobStore = record m {
                      jobs = insert other j (retain (not_expired (pos now)) m.jobs);
                    } in
                    let r = track_job percent_of fits access removed (pos now) w other j fresh in
                    let tracked =
                      track_other access removed now w other j fresh soon apart
                        (others-IsKnown t0 fingerprint id other base j apart kept) in
                    elim (Bool-cases registered) [
                      | inr gone ↦ rw gone k
                      | inl here ↦ rw here (elim (Bool-cases r.0) [
                        | inr refused_job ↦ rw refused_job tracked
                        | inl admitted ↦ rw admitted (elim (Bool-cases owned) [
                          | inl runs ↦ rw runs tracked
                          | inr closing ↦ rw closing (
                              end_job-Known percent_of fits t0 fingerprint id now
                                (failed_with "context canceled") w' other r.1 late tracked)
                        ])
                      ])
                    ]
              ])
      ]
