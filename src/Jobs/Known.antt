-- ===== src/Jobs/Known.antt =====
-- A job that was started stays known for `importJobTTL`, in internal/arcade/job_store.go and
-- internal/arcade/import.go.
use teploy_arcade.Prelude.{
  Bytes, ℕ, ◌+◌, ◌≤◌, ◌≡◌, refl, sym, ◌∙◌, ◌⊎◌, inl, inr, Bool, true, false, not, ◌&&◌, ◌||◌, some,
  map, arith, leb, ◌==◌, Bool-cases, same_refl, length, retain, all, Assoc, lookup, remove, insert,
  lookup-remove, lookup-insert, lookup-retain_kept, string_key,
}
use teploy_arcade.Prelude.Int.{ℤ, ◌+ℤ◌, ltb_ℤ, pos, negsuc}
use teploy_arcade.Text.{bytes_key}
use teploy_arcade.Jobs.State.{ImportJob, LiveJob, validate_job, is_in_progress}
use teploy_arcade.Jobs.Store.{
  JobStore, durable_job_limit, job_ttl, Write, write_record, Access, is_readable, retained,
  open_records, not_expired, write_ok, write_lost, write_unsure,
}

-- It runs, or it ended at `t0` or later.
abbrev pub Recent : ℕ → ImportJob → Type 0
Recent t0 v =
    ((is_in_progress v.state ≡ true) × (v.ended ≡ pos 0)) ⊎ (ltb_ℤ v.ended (pos t0) ≡ false)

-- The job is in memory and on disk, under its fingerprint.
pub record IsKnown (t0 : ℕ) (fingerprint id : Bytes) (m : JobStore) : Type 0 where
  pub job : LiveJob
  pub there : lookup id m.jobs ≡ some job
  pub same_request : job.job.request_hash ≡ fingerprint
  pub recent : Recent t0 job.job
  pub stored_as : ImportJob
  pub on_disk : lookup id m.records ≡ some stored_as
  pub recorded : Recent t0 stored_as

-- A moment in the time for which the job is kept.
abbrev pub InTime : ℕ → ℕ → Type 0
InTime t0 now = (t0 ≤ now) × (now ≤ t0 + 3600)

late_end :
    (e : ℤ) (t0 now : ℕ)
    → ltb_ℤ e (pos t0) ≡ false
    → now ≤ t0 + 3600
    → ltb_ℤ (e +ℤ job_ttl) (pos now) ≡ false
unfolding ◌+ℤ◌
late_end (pos n) t0 now late soon = ground arith
late_end (negsuc n) t0 now late soon = ground arith

or_true : (b : Bool) → (b || true) ≡ true
or_true true = refl
or_true false = refl

never_both : (b : Bool) → not (b && false) ≡ true
never_both true = refl
never_both false = refl

retained_lem :
    (t0 now : ℕ) (id : Bytes) (v : ImportJob)
    → now ≤ t0 + 3600
    → Recent t0 v
    → retained (pos now) (id, v) ≡ true
retained_lem t0 now id v soon (inl (runs, unended)) = rw runs refl
retained_lem t0 now id v soon (inr late) =
    rw (late_end v.ended t0 now late soon) (or_true (is_in_progress v.state))

pub not_expired_lem :
    (t0 now : ℕ) (id : Bytes) (j : LiveJob)
    → now ≤ t0 + 3600
    → Recent t0 j.job
    → not_expired (pos now) (id, j) ≡ true
not_expired_lem t0 now id j soon (inl (runs, unended)) = rw unended refl
not_expired_lem t0 now id j soon (inr late) =
    rw (late_end j.job.ended t0 now late soon) (never_both (ltb_ℤ (pos 0) j.job.ended))

pub other_lookup :
    {A : Type 0} (a b : Bytes) (x : A) (map : Assoc Bytes A)
    → (a == b) ≡ false
    → lookup b (insert a x map) ≡ lookup b map
other_lookup a b x map apart = lookup-insert a b x map ∙ rw apart refl

pub same_lookup :
    {A : Type 0} (a : Bytes) (x : A) (map : Assoc Bytes A) → lookup a (insert a x map) ≡ some x
same_lookup a x map = lookup-insert a a x map ∙ rw (same_refl a) refl

-- What changes neither the job nor its record keeps it known.
pub same-IsKnown :
    (t0 : ℕ) (fingerprint id : Bytes) (m n : JobStore)
    → lookup id n.jobs ≡ lookup id m.jobs
    → lookup id n.records ≡ lookup id m.records
    → IsKnown t0 fingerprint id m
    → IsKnown t0 fingerprint id n
same-IsKnown t0 fingerprint id m n jobs records k = record {
  job = k.job;
  there = jobs ∙ k.there;
  same_request = k.same_request;
  recent = k.recent;
  stored_as = k.stored_as;
  on_disk = records ∙ k.on_disk;
  recorded = k.recorded;
}

pub open_records-IsKnown :
    (access : Access) (removed : Bytes → Bool) (t0 now : ℕ) (fingerprint id : Bytes) (m : JobStore)
    → now ≤ t0 + 3600
    → IsKnown t0 fingerprint id m
    → IsKnown t0 fingerprint id (open_records access removed (pos now) m).1
unfolding open_records
open_records-IsKnown access removed t0 now fingerprint id m soon k =
    let keep = λ (r : Bytes × ImportJob). retained (pos now) r || not (removed r.0) in
    let kept =
      lookup-retain_kept keep id m.records k.stored_as k.on_disk
        (rw (retained_lem t0 now id k.stored_as soon k.recorded) refl) in
    elim (Bool-cases (
      is_readable access
      && leb (length m.records) durable_job_limit
      && all (λ r. validate_job r.1 r.0) m.records)) [
        | inr shut ↦ rw shut k
        | inl opened ↦ rw opened (
            same-IsKnown t0 fingerprint id m (record m { records = retain keep m.records }) refl
              (kept ∙ sym k.on_disk) k)
      ]

-- A change of another job, or of its record.
pub others-IsKnown :
    (t0 : ℕ) (fingerprint id other : Bytes) (m : JobStore) (j : LiveJob)
    → (other == id) ≡ false
    → IsKnown t0 fingerprint id m
    → IsKnown t0 fingerprint id (record m { jobs = insert other j m.jobs })
others-IsKnown t0 fingerprint id other m j apart k =
    same-IsKnown t0 fingerprint id m _ (other_lookup other id j m.jobs apart) refl k

pub write_record-IsKnown :
    (t0 : ℕ) (fingerprint id other : Bytes) (w : Write) (v : ImportJob) (m : JobStore)
    → (other == id) ≡ false
    → IsKnown t0 fingerprint id m
    → IsKnown t0 fingerprint id (write_record w other v m)
write_record-IsKnown t0 fingerprint id other write_lost v m apart k = k
write_record-IsKnown t0 fingerprint id other write_ok v m apart k =
    same-IsKnown t0 fingerprint id m _ refl (other_lookup other id v m.records apart) k
write_record-IsKnown t0 fingerprint id other write_unsure v m apart k =
    same-IsKnown t0 fingerprint id m _ refl (other_lookup other id v m.records apart) k

pub dropped-IsKnown :
    (t0 : ℕ) (fingerprint id other : Bytes) (m : JobStore)
    → (other == id) ≡ false
    → IsKnown t0 fingerprint id m
    → IsKnown t0 fingerprint id (record m { jobs = remove other m.jobs })
dropped-IsKnown t0 fingerprint id other m apart k =
    same-IsKnown t0 fingerprint id m _ (lookup-remove other id m.jobs ∙ rw apart refl) refl k

-- The job itself changes, and its record is written or not.
pub changed-IsKnown :
    (t0 : ℕ) (fingerprint id : Bytes) (m : JobStore) (j : LiveJob)
    → j.job.request_hash ≡ fingerprint
    → Recent t0 j.job
    → IsKnown t0 fingerprint id m
    → IsKnown t0 fingerprint id (record m { jobs = insert id j m.jobs })
changed-IsKnown t0 fingerprint id m j same recent k = record {
  job = j;
  there = same_lookup id j m.jobs;
  same_request = same;
  recent = recent;
  stored_as = k.stored_as;
  on_disk = k.on_disk;
  recorded = k.recorded;
}

landed-IsKnown :
    (t0 : ℕ) (fingerprint id : Bytes) (v : ImportJob) (m : JobStore)
    → Recent t0 v
    → IsKnown t0 fingerprint id m
    → IsKnown t0 fingerprint id (record m { records = insert id v m.records })
landed-IsKnown t0 fingerprint id v m recent k = record {
  job = k.job;
  there = k.there;
  same_request = k.same_request;
  recent = k.recent;
  stored_as = v;
  on_disk = same_lookup id v m.records;
  recorded = recent;
}

pub rewritten-IsKnown :
    (t0 : ℕ) (fingerprint id : Bytes) (w : Write) (v : ImportJob) (m : JobStore)
    → Recent t0 v
    → IsKnown t0 fingerprint id m
    → IsKnown t0 fingerprint id (write_record w id v m)
rewritten-IsKnown t0 fingerprint id write_lost v m recent k = k
rewritten-IsKnown t0 fingerprint id write_ok v m recent k =
    landed-IsKnown t0 fingerprint id v m recent k
rewritten-IsKnown t0 fingerprint id write_unsure v m recent k =
    landed-IsKnown t0 fingerprint id v m recent k
