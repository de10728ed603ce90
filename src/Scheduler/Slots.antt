-- ===== src/Scheduler/Slots.antt =====
-- The runs of tasks in internal/arcade/scheduler.go, their slots and their bookkeeping.
use teploy_arcade.Text.{bytes_key}
use teploy_arcade.Prelude.{
  nat_key, Bytes, ℕ, suc, ◌-◌, ◌≤◌, String, ◌≡◌, refl, inl, inr, Bool, true, false, not, ◌&&◌,
  Option, arith, ltb, if◌then◌else◌, ◌==◌, ltb→lt, Bool-cases, Option-cases, contains, add,
  string_key,
}
use teploy_arcade.Scheduler.Clock.{parse_clock}
use teploy_arcade.Scheduler.Tasks.{
  Task, Scheduler, has_id, find, record_run, already_running, error,
}
use teploy_arcade.Scheduler.Runs.{
  max_runs, Clock, mark_pending, is_due, take_slot, is_saved, dispatch_task, release_slot, end_run,
  claim, claim_run, begin_run, finish, finish_run,
}
use teploy_arcade.Scheduler.Kept.{IsValidTask, IsKept, rules_only, record_run-IsKept}

take_slot-IsKept : (own : Bool) (s : Scheduler) → IsKept s → IsKept (take_slot own s).1
unfolding take_slot
take_slot-IsKept own s v = elim (Bool-cases (ltb s.slots max_runs && own)) [
  | inr full ↦ rw full v
  | inl room ↦
      rw room (record { valid = v.valid; agree = v.agree; capped = below_cap s.slots own room })
]
  where
    below_cap : (n : ℕ) (own : Bool) → (ltb n max_runs && own) ≡ true → suc n ≤ max_runs
    below_cap n own h = ground arith

mark_pending_rules : (now : ℕ) (t : Task) → IsValidTask t → IsValidTask (mark_pending now t)
mark_pending_rules now t v =
    rules_only t (mark_pending now t) (ground arith) (ground arith) (ground arith) v

pub dispatch_task-IsKept :
    (saved own : Bool) (now : Clock) (t : Task) (s : Scheduler)
    → IsKept s
    → IsKept (dispatch_task saved own now t s).1
unfolding dispatch_task
dispatch_task-IsKept saved own now t s v =
    let marked =
      record_run-IsKept saved t.id (mark_pending now.unix) s (mark_pending_rules now.unix) v in
    elim (Bool-cases (not t.enabled)) [
      | inl off ↦ rw off v
      | inr on ↦ rw on (elim (Option-cases (parse_clock t.time)) [
        | inl bad ↦ rw (bad, dispatch_task) v
        | inr (at, good) ↦
            rw (good, dispatch_task)
              (elim (Bool-cases (not (t.pending_at == 0))) [
                | inl waits ↦ rw waits (take_slot-IsKept own s v)
                | inr fresh ↦ rw fresh (elim (Bool-cases (not (is_due now t))) [
                  | inl early ↦ rw early v
                  | inr due ↦
                      rw due
                        (elim (Bool-cases
                          (is_saved (record_run saved t.id (mark_pending now.unix) s).0)) [
                            | inl stored ↦ rw stored (take_slot-IsKept own _ marked)
                            | inr lost ↦ rw lost v
                          ])
                ])
              ])
      ])
    ]

one_less : (n : ℕ) → n ≤ max_runs → n - 1 ≤ max_runs
one_less n h = omega arith

end_run-IsKept : (id : Bytes) (s : Scheduler) → IsKept s → IsKept (end_run id s)
end_run-IsKept id s v = record {
  valid = v.valid;
  agree = v.agree;
  capped = one_less s.slots v.capped;
}

pub finish_run-IsKept :
    (saved : Bool) (now : ℕ) (err : Option String) (id : Bytes) (s : Scheduler)
    → IsKept s
    → IsKept (finish_run saved now err id s)
unfolding finish_run
finish_run-IsKept saved now err id s v = end_run-IsKept id _ (
    record_run-IsKept saved id (finish now err) s
      (λ t h. rules_only t (finish now err t) refl refl refl h) v)

claim_rules :
    (admitted : Bool) (now : ℕ) (t : Task) → IsValidTask t → IsValidTask (claim admitted now t)
claim_rules admitted now t v =
    rules_only t (claim admitted now t) (ground arith) (ground arith) (ground arith) v

claim_run-IsKept :
    (saved admitted : Bool) (server : String) (registered : String → Bool) (now : ℕ) (id : Bytes)
    (s : Scheduler)
    → IsKept s
    → IsKept (claim_run saved admitted server registered now id s).1
unfolding claim_run
claim_run-IsKept saved admitted server registered now id s v =
    let claimed = record_run-IsKept saved id (claim admitted now) s (claim_rules admitted now) v in
    elim (Option-cases (find (has_id id) s.tasks)) [
      | inl away ↦ rw (away, claim_run) (end_run-IsKept id s v)
      | inr (t, there) ↦
          rw (there, claim_run)
            (elim (Bool-cases (not (server == "") && not (t.server_id == server))) [
              | inl other ↦ rw other (end_run-IsKept id s v)
              | inr mine ↦ rw mine (elim (Bool-cases (not (registered t.server_id))) [
                | inl gone ↦ rw gone (end_run-IsKept id s v)
                | inr here ↦
                    rw here
                      (elim (Bool-cases
                        (not (is_saved (record_run saved id (claim admitted now) s).0))) [
                          | inl lost ↦ rw lost (end_run-IsKept id _ claimed)
                          | inr stored ↦ rw stored (elim (Bool-cases (admitted && not t.enabled)) [
                            | inl off ↦ rw off (end_run-IsKept id _ claimed)
                            | inr on ↦ rw on claimed
                          ])
                        ])
              ])
            ])
    ]

marked_run-IsKept :
    (saved admitted : Bool) (server : String) (registered : String → Bool) (now : ℕ) (id : Bytes)
    (s : Scheduler)
    → IsKept s
    → IsKept
        (if contains s.running id
          then (error already_running, release_slot s)
          else claim_run saved admitted server registered now id
              (record s { running = add id s.running })).1
marked_run-IsKept saved admitted server registered now id s v =
    elim (Bool-cases (contains s.running id)) [
      | inl runs ↦
          rw runs (record { valid = v.valid; agree = v.agree; capped = one_less s.slots v.capped })
      | inr idle ↦ rw idle (
          claim_run-IsKept saved admitted server registered now id
            (record s { running = add id s.running })
            (record { valid = v.valid; agree = v.agree; capped = v.capped }))
    ]

pub begin_run-IsKept :
    (saved closing admitted : Bool) (server : String) (registered : String → Bool) (now : ℕ)
    (id : Bytes) (s : Scheduler)
    → IsKept s
    → IsKept (begin_run saved closing admitted server registered now id s).1
unfolding begin_run
begin_run-IsKept saved true true server registered now id s v = record {
  valid = v.valid;
  agree = v.agree;
  capped = one_less s.slots v.capped;
}
begin_run-IsKept saved true false server registered now id s v = v
begin_run-IsKept saved false true server registered now id s v =
    marked_run-IsKept saved true server registered now id s v
begin_run-IsKept saved false false server registered now id s v =
    elim (Bool-cases (ltb s.slots max_runs)) [
      | inr full ↦ rw full v
      | inl room ↦ rw room (
          marked_run-IsKept saved false server registered now id (record s { slots = suc s.slots })
            (record { valid = v.valid; agree = v.agree; capped = ltb→lt s.slots max_runs room }))
    ]
