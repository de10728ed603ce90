-- ===== src/Jobs/Store.antt =====
-- The registry of jobs: `newImportJob`, `fail` and `done` of internal/arcade/import.go,
-- `pruneJobRecords`, `trackImportJob`, `persist`, `loadImportJobs` and `reapImportJobs` of
-- internal/arcade/job_store.go, `startOperation` of internal/arcade/operations.go.
use teploy_arcade.Prelude.{
  Bytes, ℕ, String, Bool, true, false, not, ◌&&◌, ◌||◌, none, some, ltb, leb, if◌then◌else◌, ◌==◌,
  length, retain, all, contains, Assoc, lookup, remove, insert, keys, string_key,
}
use teploy_arcade.Prelude.Int.{ℤ, ◌+ℤ◌, ltb_ℤ, pos}
use teploy_arcade.Text.{bytes_key}
use teploy_arcade.Jobs.State.{
  Mode, ImportJob, LiveJob, validate_job, is_in_progress, is_finished, view, in_progress, finished,
  broken,
}

-- The jobs in memory and the records on disk, by ID.
pub record JobStore : Type 0 where
  pub jobs : Assoc Bytes LiveJob
  pub records : Assoc Bytes ImportJob

abbrev pub durable_job_limit : ℕ
durable_job_limit = 1000

-- `importJobTTL`, in seconds.
abbrev pub job_ttl : ℤ
job_ttl = pos 3600

-- How a durable write turns out: it may land although it reports a failure.
pub data Write : Type 0 where
  write_ok write_lost write_unsure : Write

abbrev lands : Write → Bool
lands write_ok = true
lands write_unsure = true
lands write_lost = false

abbrev pub succeeds : Write → Bool
succeeds write_ok = true
succeeds write_unsure = false
succeeds write_lost = false

abbrev pub write_record : Write → Bytes → ImportJob → JobStore → JobStore
write_record w key v m = if lands w then record m { records = insert key v m.records } else m

-- Whether the directory of the records can be read, and synced after records were removed.
pub data Access : Type 0 where
  unreadable unsynced usable : Access

abbrev pub is_readable : Access → Bool
is_readable unreadable = false
is_readable unsynced = true
is_readable usable = true

abbrev is_synced : Access → Bool
is_synced unreadable = false
is_synced unsynced = false
is_synced usable = true

-- A record that `pruneJobRecords` keeps.
abbrev pub retained : ℤ → Bytes × ImportJob → Bool
retained now (key, v) = is_in_progress v.state || not (ltb_ℤ (v.ended +ℤ job_ttl) now)

-- `readJobRecords` and `pruneJobRecords`: one bad record stops everything, and so does an expired one that
-- cannot be removed, after others were. `removed` says which of the expired records were removed.
unfoldable pub open_records : Access → (Bytes → Bool) → ℤ → JobStore → Bool × JobStore
unfolding retain
open_records access removed now m =
    let pruned = retain (λ r. retained now r || not (removed r.0)) m.records in
    if is_readable access
      && leb (length m.records) durable_job_limit
      && all (λ r. validate_job r.1 r.0) m.records
    then (
      all (retained now) m.records
          || is_synced access && all (λ r. retained now r || removed r.0) m.records,
      record m { records = pruned },
    )
    else (false, m)

-- What `persist` writes: `percent_of` is the share of the bytes copied, computed by floats.
unfoldable pub stored_view : (ℤ → ℤ → ℤ) → LiveJob → ImportJob
stored_view percent_of j =
    let v = record j.job { copied = j.copied_so_far } in
    if is_finished v.state
    then record v { percent = pos 100 }
    else if ltb_ℤ (pos 0) v.total
    then if not (ltb_ℤ v.copied v.total)
      then record v { percent = pos 99 }
      else record v { percent = percent_of v.copied v.total }
    else v

-- The parameters: the share of a job by floats, and whether its JSON stays within 64 KiB.
module _ (percent_of : ℤ → ℤ → ℤ) (fits : ImportJob → Bool) where
  -- `trackImportJob`; a job that is not admitted leaves the memory.
  unfoldable pub track_job :
      Access → (Bytes → Bool) → ℤ → Write → Bytes → LiveJob → JobStore → Bool × JobStore
  unfolding open_records validate_job view
  track_job access removed now w id j m =
      let (opened, m1) = open_records access removed now m in
      let dropped : JobStore = record m1 { jobs = remove id m1.jobs } in
      let m2 = write_record w id (view j) m1 in
      if not (
        opened
        && ltb (length m1.records) durable_job_limit
        && not (contains (keys m1.records) id)
        && validate_job (view j) id
        && fits (view j))
      then (false, dropped)
      else if succeeds w
      then (true, record m2 { jobs = insert id (record j { stored = true }) m2.jobs })
      else (false, record m2 { jobs = remove id m2.jobs })

  -- `persist`.
  unfoldable pub persist : Write → Bytes → LiveJob → JobStore → JobStore
  unfolding stored_view validate_job
  persist w id j m =
      let v = stored_view percent_of j in
      if j.stored && validate_job v id && fits v then write_record w id v m else m

  -- `fail` and `done`, by the result `change` that they set.
  unfoldable pub end_job : (ImportJob → ImportJob) → Write → Bytes → JobStore → JobStore
  unfolding persist
  end_job change w id m = elim (lookup id m.jobs) [
    | none ↦ m
    | some j ↦
        let j' = record j { job = change j.job } in
        persist w id j' (record m { jobs = insert id j' m.jobs })
  ]

abbrev pub fail_job : ℤ → String → ImportJob → ImportJob
fail_job now error v = record v { state = broken; error = error; ended = now }

abbrev pub done_job : ℤ → String → ImportJob → ImportJob
done_job now server v = record v { state = finished; server_id = server; current = ""; ended = now }

-- `advance`.
unfoldable pub advance : ℤ → Bytes → JobStore → JobStore
advance n id m = elim (lookup id m.jobs) [
  | none ↦ m
  | some j ↦ record m {
    jobs = insert id (record j { copied_so_far = j.copied_so_far +ℤ n }) m.jobs;
  }
]

-- A job that `reapImportJobs` leaves in memory.
abbrev pub still_known : Assoc Bytes ImportJob → Bytes × LiveJob → Bool
still_known records (id, j) =
    not j.stored || is_in_progress j.job.state || contains (keys records) id

-- `reapImportJobs`.
unfoldable pub reap_jobs : Access → (Bytes → Bool) → ℤ → JobStore → JobStore
unfolding open_records retain
reap_jobs access removed now m =
    let (opened, m1) = open_records access removed now m in
    if opened then record m1 { jobs = retain (still_known m1.records) m1.jobs } else m1

-- A job that `newImportJob` leaves in memory.
abbrev pub not_expired : ℤ → Bytes × LiveJob → Bool
not_expired now (id, j) = not (ltb_ℤ (pos 0) j.job.ended && ltb_ℤ (j.job.ended +ℤ job_ttl) now)

pub data Operation : Type 0 where
  known_job started_job : ImportJob → Operation
  key_reused not_registered not_tracked not_owned : Operation

-- `startOperation`. The ID is the hash of actor, server, kind and key, the fingerprint that of the
-- request; `registered` is what `requireRegistered` found, `owned` whether the panel still runs. The
-- job's first ID, random and of another length, is left out.
module _ (percent_of : ℤ → ℤ → ℤ) (fits : ImportJob → Bool) where
  abbrev pub new_job : Bytes → Bytes → Bytes → Mode → String → String → ℤ → LiveJob
  new_job id fingerprint path mode name server now = record {
    job = record {
      request_hash = fingerprint;
      id = id;
      path = path;
      mode = mode;
      name = name;
      state = in_progress;
      total = pos 0;
      copied = pos 0;
      percent = pos 0;
      current = "";
      skipped = pos 0;
      server_id = server;
      error = "";
      started = now;
      ended = pos 0;
    };
    copied_so_far = pos 0;
    stored = false;
  }

  unfoldable pub start_operation :
      Bool
      → Bool
      → Access
      → (Bytes → Bool)
      → ℤ
      → Write
      → Write
      → Bytes
      → LiveJob
      → JobStore
      → Operation × JobStore
  unfolding track_job end_job view retain
  start_operation registered owned access removed now w w' id j m =
      let fresh : JobStore = record m { jobs = insert id j (retain (not_expired now) m.jobs) } in
      let (tracked, m1) = track_job percent_of fits access removed now w id j fresh in
      elim (lookup id m.jobs) [
        | some old ↦
            if (view old).request_hash == j.job.request_hash
            then (known_job (view old), m)
            else (key_reused, m)
        | none ↦
            if not registered
            then (not_registered, m)
            else if not tracked
            then (not_tracked, m1)
            else if not owned
            then (not_owned, end_job percent_of fits (fail_job now "context canceled") w' id m1)
            else (started_job (view j), m1)
      ]
