-- ===== src/Scheduler/Turns.antt =====
-- The turns of a run in internal/arcade/scheduler.go, from its slot to its end, and the count of slots.
use teploy_arcade.Text.{bytes_key}
use teploy_arcade.Prelude.{
  nat_key, Bytes, ℕ, suc, ◌+◌, ◌-◌, String, ◌≡◌, refl, ap, ◌∙◌, inl, inr, Bool, true, false, not,
  ◌&&◌, Option, arith, ltb, if◌then◌else◌, ◌==◌, Bool-cases, Option-cases, same_refl, length,
  contains, add, contains-add, length-delete, length-add, add-Distinct, delete-Distinct, string_key,
}
use teploy_arcade.Scheduler.Tasks.{
  Task, Scheduler, has_id, find, record_run, already_running, error,
}
use teploy_arcade.Scheduler.Runs.{
  max_runs, Clock, mark_pending, is_due, take_slot, is_saved, dispatch_task, release_slot, end_run,
  claim, claim_run, begin_run, finish, finish_run,
}
use teploy_arcade.Scheduler.Clock.{parse_clock}
use teploy_arcade.Scheduler.Count.{IsCounted, record_run_lem, record_run-IsCounted}

fewer : (n runs more slots : ℕ) → suc runs ≡ more → slots ≡ n + more → slots - 1 ≡ n + runs
fewer n runs more slots h e = omega arith

released : (n runs slots : ℕ) → slots ≡ suc n + runs → slots - 1 ≡ n + runs
released n runs slots h = omega arith

moved : (n runs more slots : ℕ) → more ≡ suc runs → slots ≡ suc n + runs → slots ≡ n + more
moved n runs more slots h e = omega arith

one_more : (n runs slots : ℕ) → slots ≡ n + runs → suc slots ≡ suc n + runs
one_more n runs slots h = omega arith

-- The end of a run that is marked gives back its mark and its slot.
end_run-IsCounted :
    (n : ℕ) (id : Bytes) (s : Scheduler)
    → contains s.running id ≡ true
    → IsCounted n s
    → IsCounted n (end_run id s)
end_run-IsCounted n id s runs v = record {
  counted = fewer n _ _ s.slots (length-delete id s.running v.once runs) v.counted;
  once = delete-Distinct id s.running v.once;
}

pub finish_run-IsCounted :
    (n : ℕ) (saved : Bool) (now : ℕ) (err : Option String) (id : Bytes) (s : Scheduler)
    → contains s.running id ≡ true
    → IsCounted n s
    → IsCounted n (finish_run saved now err id s)
unfolding finish_run
finish_run-IsCounted n saved now err id s runs v =
    let same = (record_run_lem saved id (finish now err) s).1 in
    end_run-IsCounted n id _ (ap (λ ids. contains ids id) same ∙ runs)
      (record_run-IsCounted n saved id (finish now err) s v)

-- A run that is marked, from its mark on: it goes on with its slot, or gives both back.
claim_run-IsCounted :
    (n : ℕ) (saved admitted : Bool) (server : String) (registered : String → Bool) (now : ℕ)
    (id : Bytes) (s : Scheduler)
    → contains s.running id ≡ true
    → IsCounted n s
    → IsCounted n (claim_run saved admitted server registered now id s).1
unfolding claim_run
claim_run-IsCounted n saved admitted server registered now id s runs v =
    let ended = end_run-IsCounted n id s runs v in
    let claimed = record_run-IsCounted n saved id (claim admitted now) s v in
    let same = (record_run_lem saved id (claim admitted now) s).1 in
    let undone = end_run-IsCounted n id _ (ap (λ ids. contains ids id) same ∙ runs) claimed in
    elim (Option-cases (find (has_id id) s.tasks)) [
      | inl away ↦ rw (away, claim_run) ended
      | inr (t, there) ↦
          rw (there, claim_run)
            (elim (Bool-cases (not (server == "") && not (t.server_id == server))) [
              | inl other ↦ rw other ended
              | inr mine ↦ rw mine (elim (Bool-cases (not (registered t.server_id))) [
                | inl gone ↦ rw gone ended
                | inr here ↦
                    rw here
                      (elim (Bool-cases
                        (not (is_saved (record_run saved id (claim admitted now) s).0))) [
                          | inl lost ↦ rw lost undone
                          | inr stored ↦ rw stored (elim (Bool-cases (admitted && not t.enabled)) [
                            | inl off ↦ rw off undone
                            | inr on ↦ rw on claimed
                          ])
                        ])
              ])
            ])
    ]

-- A run with a slot, before its mark.
marked_run-IsCounted :
    (n : ℕ) (saved admitted : Bool) (server : String) (registered : String → Bool) (now : ℕ)
    (id : Bytes) (s : Scheduler)
    → IsCounted (suc n) s
    → IsCounted n
        (if contains s.running id
          then (error already_running, release_slot s)
          else claim_run saved admitted server registered now id
              (record s { running = add id s.running })).1
marked_run-IsCounted n saved admitted server registered now id s v =
    elim (Bool-cases (contains s.running id)) [
      | inl runs ↦
          rw runs
            (record { counted = released n (length s.running) s.slots v.counted; once = v.once })
      | inr idle ↦ rw idle (
          claim_run-IsCounted n saved admitted server registered now id
            (record s { running = add id s.running })
            (contains-add id id s.running ∙ rw (same_refl id) refl)
            (record {
              counted = moved n _ _ s.slots (length-add id s.running idle) v.counted;
              once = add-Distinct id s.running v.once;
            }))
    ]

-- How many runs wait, of which an admitted one begins.
abbrev pub with_own : Bool → ℕ → ℕ
with_own true n = suc n
with_own false n = n

pub begin_run-IsCounted :
    (n : ℕ) (saved closing admitted : Bool) (server : String) (registered : String → Bool) (now : ℕ)
    (id : Bytes) (s : Scheduler)
    → IsCounted (with_own admitted n) s
    → IsCounted n (begin_run saved closing admitted server registered now id s).1
unfolding begin_run
begin_run-IsCounted n saved true true server registered now id s v = record {
  counted = released n (length s.running) s.slots v.counted;
  once = v.once;
}
begin_run-IsCounted n saved true false server registered now id s v = v
begin_run-IsCounted n saved false true server registered now id s v =
    marked_run-IsCounted n saved true server registered now id s v
begin_run-IsCounted n saved false false server registered now id s v =
    elim (Bool-cases (ltb s.slots max_runs)) [
      | inr full ↦ rw full v
      | inl room ↦ rw room (
          marked_run-IsCounted n saved false server registered now id
            (record s { slots = suc s.slots })
            (record { counted = one_more n (length s.running) s.slots v.counted; once = v.once }))
    ]

take_slot-IsCounted :
    (n : ℕ) (own : Bool) (s : Scheduler)
    → IsCounted n s
    → IsCounted (with_own (take_slot own s).0 n) (take_slot own s).1
unfolding take_slot
take_slot-IsCounted n own s v = elim (Bool-cases (ltb s.slots max_runs && own)) [
  | inr full ↦ rw full v
  | inl room ↦
      rw room (record { counted = one_more n (length s.running) s.slots v.counted; once = v.once })
]

pub dispatch_task-IsCounted :
    (n : ℕ) (saved own : Bool) (now : Clock) (t : Task) (s : Scheduler)
    → IsCounted n s
    → (let r = dispatch_task saved own now t s in IsCounted (with_own r.0 n) r.1)
unfolding dispatch_task
dispatch_task-IsCounted n saved own now t s v =
    let marked = record_run-IsCounted n saved t.id (mark_pending now.unix) s v in
    elim (Bool-cases (not t.enabled)) [
      | inl off ↦ rw off v
      | inr on ↦ rw on (elim (Option-cases (parse_clock t.time)) [
        | inl bad ↦ rw (bad, dispatch_task) v
        | inr (at, good) ↦
            rw (good, dispatch_task)
              (elim (Bool-cases (not (t.pending_at == 0))) [
                | inl waits ↦ rw waits (take_slot-IsCounted n own s v)
                | inr fresh ↦ rw fresh (elim (Bool-cases (not (is_due now t))) [
                  | inl early ↦ rw early v
                  | inr due ↦
                      rw due
                        (elim (Bool-cases
                          (is_saved (record_run saved t.id (mark_pending now.unix) s).0)) [
                            | inl stored ↦ rw stored (take_slot-IsCounted n own _ marked)
                            | inr lost ↦ rw lost v
                          ])
                ])
              ])
      ])
    ]
