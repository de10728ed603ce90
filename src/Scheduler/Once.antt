-- ===== src/Scheduler/Once.antt =====
-- No occurrence of a task runs twice, in internal/arcade/scheduler.go.
use teploy_arcade.Text.{bytes_key}
use teploy_arcade.Prelude.{
  Bytes, ℕ, ◌<◌, String, ◌≡◌, refl, sym, ap, ◌∙◌, subst, inl, inr, Bool, true, false, not, ◌&&◌,
  some, List, [], ◌∷◌, arith, ltb, ◌==◌, lt→ltb, Bool-cases, Option-cases, same_refl, some-inj,
  contains, add, contains-add, string_key,
}
use teploy_arcade.Scheduler.Clock.{parse_clock}
use teploy_arcade.Scheduler.Runs.{
  max_runs, Clock, is_due, is_saved, dispatch_task, claim, claim_run, begin_run,
}
use teploy_arcade.Scheduler.Tasks.{
  Task, Scheduler, Answer, publish_tasks, has_id, find, replace, record_run, done, error,
}

-- What a run that was started leaves.
abbrev pub Started : (Task → Scheduler → Type 0) → Answer Task × Scheduler → Type 0
Started P (done t, s) = P t s
Started P (error why, s) = Unit

find-replace :
    (id : Bytes) (u t : Task) (ts : List Task)
    → find (has_id id) ts ≡ some t
    → (u.id == id) ≡ true
    → find (has_id id) (replace (has_id id) u ts) ≡ some u
unfolding find replace
find-replace id u t [] e h = ground arith
find-replace id u t (x ∷ xs) e h = elim (Bool-cases (x.id == id)) [
  | inl here ↦ rw (here, find, h) refl
  | inr away ↦ rw (away, find, away) (find-replace id u t xs (rw away at e) h)
]

find_id :
    (id : Bytes) (t : Task) (ts : List Task) → find (has_id id) ts ≡ some t → (t.id == id) ≡ true
unfolding find
find_id id t [] e = ground arith
find_id id t (x ∷ xs) e = elim (Bool-cases (x.id == id)) [
  | inl here ↦ subst (λ (y : Task). (y.id == id) ≡ true) (some-inj (rw here at e)) here
  | inr away ↦ find_id id t xs (rw away at e)
]

not_due :
    (now : Clock) (t : Task) (at : ℕ)
    → parse_clock t.time ≡ some at
    → 0 < t.last_run
    → now.date_of t.last_run ≡ now.date_of now.unix
    → is_due now t ≡ false
unfolding is_due
not_due now t at good ran today = rw (good, is_due, today, lt→ltb 0 t.last_run ran) (ground arith)

-- A task that ran on this local date and waits for nothing is left alone.
quiet :
    (saved own : Bool) (now : Clock) (t : Task) (s : Scheduler)
    → t.pending_at ≡ 0
    → 0 < t.last_run
    → now.date_of t.last_run ≡ now.date_of now.unix
    → dispatch_task saved own now t s ≡ (false, s)
unfolding dispatch_task
quiet saved own now t s none_pending ran today = elim (Bool-cases (not t.enabled)) [
  | inl off ↦ rw off refl
  | inr on ↦ rw on (elim (Option-cases (parse_clock t.time)) [
    | inl bad ↦ rw (bad, dispatch_task) refl
    | inr (at, good) ↦
        let due : is_due now t ≡ false = not_due now t at good ran today in
        rw (good, dispatch_task, none_pending, due) refl
  ])
]

record_started :
    (saved : Bool) (id : Bytes) (edit : Task → Task) (t : Task) (s : Scheduler)
    → find (has_id id) s.tasks ≡ some t
    → (edit t).id ≡ t.id
    → is_saved (record_run saved id edit s).0 ≡ true
    → (find (has_id id) (record_run saved id edit s).1.tasks ≡ some (edit t))
      × ((record_run saved id edit s).1.tasks ≡ (record_run saved id edit s).1.disk)
      × ((record_run saved id edit s).1.running ≡ s.running)
unfolding record_run publish_tasks is_saved
record_started true id edit t s there e h =
    rw (there, record_run)
      (
        find-replace id (edit t) t s.tasks there
            (subst (λ i. (i == id) ≡ true) (sym e) (find_id id t s.tasks there)),
        refl,
        refl,
      )
record_started false id edit t s there e h =
    absurd (let no : false ≡ true = rw (there, record_run) at h in ground arith)

-- What the list holds of a run of `t` that was started at `now`: its claim, on disk as well, which the
-- loop leaves alone at the clock `c`. The task is marked as running.
abbrev pub Claimed : Clock → ℕ → Bytes → Task → Scheduler → Type 0
Claimed c now id t b =
    (u : Task) × (find (has_id id) b.tasks ≡ some u)
    × (b.tasks ≡ b.disk)
    × (contains b.running id ≡ true)
    × (u.run_state ≡ "running")
    × (u.last_run ≡ now)
    × (u.pending_at ≡ 0)
    × (u.commands ≡ t.commands)
    × (u.server_id ≡ t.server_id)
    × ((writes own : Bool) → dispatch_task writes own c u b ≡ (false, b))

marked_by_add : (id : Bytes) (ids : List Bytes) → contains (add id ids) id ≡ true
marked_by_add id ids = contains-add id id ids ∙ rw (same_refl id) refl

claimed_task :
    (admitted : Bool) (now : ℕ) (t : Task)
    → (admitted && not t.enabled) ≡ false
    → ((claim admitted now t).pending_at ≡ 0)
      × ((claim admitted now t).last_run ≡ now)
      × ((claim admitted now t).run_state ≡ "running")
      × ((claim admitted now t).commands ≡ t.commands)
      × ((claim admitted now t).server_id ≡ t.server_id)
claimed_task admitted now t on = rw on (refl, refl, refl, refl, refl)

claim_run-Started :
    (saved admitted : Bool) (server : String) (registered : String → Bool) (now : ℕ) (id : Bytes)
    (s : Scheduler) (c : Clock)
    → 0 < now
    → c.date_of now ≡ c.date_of c.unix
    → contains s.running id ≡ true
    → Started (Claimed c now id) (claim_run saved admitted server registered now id s)
unfolding claim_run
claim_run-Started saved admitted server registered now id s c later today marked =
    elim (Option-cases (find (has_id id) s.tasks)) [
      | inl away ↦ rw (away, claim_run) tt
      | inr (t, there) ↦
          rw (there, claim_run)
            (elim (Bool-cases (not (server == "") && not (t.server_id == server))) [
              | inl other ↦ rw other tt
              | inr mine ↦ rw mine (elim (Bool-cases (not (registered t.server_id))) [
                | inl gone ↦ rw gone tt
                | inr here ↦
                    rw here
                      (elim (Bool-cases (is_saved (record_run saved id (claim admitted now) s).0)) [
                        | inr lost ↦ rw lost tt
                        | inl stored ↦ rw stored (elim (Bool-cases (admitted && not t.enabled)) [
                          | inl off ↦ rw off tt
                          | inr on ↦
                              let (held, same, runs) =
                                record_started saved id (claim admitted now) t s there
                                  (ground arith) stored in
                              let (none_pending, ran, state, steps, owner) =
                                claimed_task admitted now t on in
                              rw on (
                                claim admitted now t,
                                held,
                                same,
                                ap (λ ids. contains ids id) runs ∙ marked,
                                state,
                                ran,
                                none_pending,
                                steps,
                                owner,
                                (λ writes own.
                                    quiet writes own c (claim admitted now t) _ none_pending
                                      (rw ran later) (rw ran today)),
                              )
                        ])
                      ])
              ])
            ])
    ]

-- A run that is started after the epoch, by the loop or by hand, is marked as running and has its
-- claim in memory and on disk: the task, with the commands and the server of the run, is in the state
-- running since now and waits for nothing. The loop, when it comes to the task in that state at any
-- time of the same local date, starts no other run of it and leaves the state as it is.
pub begin_run-Started :
    (saved closing admitted : Bool) (server : String) (registered : String → Bool) (now : ℕ)
    (id : Bytes) (s : Scheduler) (c : Clock)
    → 0 < now
    → c.date_of now ≡ c.date_of c.unix
    → Started (Claimed c now id) (begin_run saved closing admitted server registered now id s)
unfolding begin_run
begin_run-Started saved true admitted server registered now id s c later today = tt
begin_run-Started saved false true server registered now id s c later today =
    elim (Bool-cases (contains s.running id)) [
      | inl runs ↦ rw runs tt
      | inr idle ↦ rw idle (
          claim_run-Started saved true server registered now id _ c later today
            (marked_by_add id s.running))
    ]
begin_run-Started saved false false server registered now id s c later today =
    elim (Bool-cases (ltb s.slots max_runs)) [
      | inr full ↦ rw full tt
      | inl room ↦ rw room (elim (Bool-cases (contains s.running id)) [
        | inl runs ↦ rw runs tt
        | inr idle ↦ rw idle (
            claim_run-Started saved false server registered now id _ c later today
              (marked_by_add id s.running))
      ])
    ]
