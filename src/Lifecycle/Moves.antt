-- ===== src/Lifecycle/Moves.antt =====
-- Every step of a server's life keeps the intents in servers.json, and runs of steps, in
-- internal/arcade/manager.go.
use teploy_arcade.Prelude.{
  nat_key, ℕ, String, ◌≡◌, inl, inr, Bool, true, false, not, ◌&&◌, Option, none, some, List, [],
  ◌∷◌, if◌then◌else◌, ◌==◌, Bool-cases, Option-cases, lookup, string_key,
}
use teploy_arcade.Prelude.Int.{pos}
use teploy_arcade.Text.{bytes_key}
use teploy_arcade.Lifecycle.State.{
  Managed, Panel, Answer, is_running, persist_intent, running, circuit_is_open, done, refused,
}
use teploy_arcade.Lifecycle.Start.{circuit_open, refusal_in, claim_start, start_commit}
use teploy_arcade.Ports.Geometry.{Binding}
use teploy_arcade.Lifecycle.Exit.{
  set_status, stopped_run, fail, process_exited, clear_failures, after_intent, stop_request,
  stop_begin, stop_failed, kill_failed, restart_intent, send_intent,
}
use teploy_arcade.Lifecycle.Quiet.{
  IsPersisted, IsQuiet, stay-IsQuiet, set_status-IsQuiet, stopped_run-IsQuiet, fail-IsQuiet,
  clear_failures-IsQuiet, stop_begin-IsQuiet, process_exited-IsQuiet, stop_failed-IsQuiet,
  kill_failed-IsQuiet,
}
use teploy_arcade.Lifecycle.Intents.{
  IsMove, quiet-IsMove, registered_cases, persist_intent-IsMove, start_intent-IsMove,
  claim_launch-IsMove,
}
use teploy_arcade.Lifecycle.Calls.{
  Call, at, step, run, start_asked, start_committed, start_failed, came_up, stop_asked, stop_begun,
  stop_done, stop_refused, kill_asked, kill_done, kill_refused, restart_asked, sent, exited,
  failures_cleared,
}

stays : (m : Panel) → IsMove m m
stays m = quiet-IsMove m m (stay-IsQuiet m)

either-IsMove :
    (m : Panel) (A : Type 0) (b : Bool) (x y : A × Panel)
    → IsMove m x.1
    → IsMove m y.1
    → IsMove m (if b then x else y).1
either-IsMove m A true x y p q = p
either-IsMove m A false x y p q = q

claim_start-IsMove :
    (id : String) (expected : ℕ) (dynamic : Option (List Binding)) (now : ℕ) (saved : Bool)
    (m : Panel)
    → IsMove m (claim_start id expected dynamic now saved m).1
unfolding claim_start
claim_start-IsMove id expected none now saved m = stays m
claim_start-IsMove id expected (some dynamic) now saved m =
    elim (Option-cases (lookup id m.servers)) [
      | inl away ↦ rw (away, claim_start) (stays m)
      | inr (s, there) ↦
          rw (there, claim_start)
            (elim (Option-cases (refusal_in s.status)) [
              | inr (why, no_start) ↦ rw no_start (stays m)
              | inl may_start ↦ rw may_start (
                  either-IsMove m (Answer (Unit {0})) (circuit_open now s)
                    (refused circuit_is_open, m) _ (stays m)
                    (claim_launch-IsMove id expected dynamic now saved s m there))
            ])
    ]

start_commit-IsMove :
    (reachable : Bool) (id : String) (expected : ℕ) (dynamic : Option (List Binding)) (now : ℕ)
    (saved : Bool) (m : Panel)
    → IsMove m (start_commit reachable id expected dynamic now saved m).1
unfolding start_commit
start_commit-IsMove reachable id expected dynamic now saved m = elim (registered_cases id m) [
  | inl (why, no_server) ↦ rw (no_server, start_commit) (stays m)
  | inr (s, (there, found)) ↦
      rw (found, start_commit)
        (elim (Bool-cases reachable) [
          | inr away ↦ rw away (stays m)
          | inl answered ↦
              rw answered
                (elim (Bool-cases (not (expected == 0) && not (s.generation == expected))) [
                  | inl stale ↦ rw stale (stays m)
                  | inr current ↦ rw current (claim_start-IsMove id expected dynamic now saved m)
                ])
        ])
]

after_intent-IsMove :
    (m : Panel) (next : Answer (Unit {0})) (r : Answer ℕ × Panel)
    → IsMove m r.1
    → IsMove m (after_intent next r).1
after_intent-IsMove m next (refused why, n) move = move
after_intent-IsMove m next (done g, n) move = move

stop_request-IsMove :
    (id : String) (update saved : Bool) (m : Panel) → IsMove m (stop_request id update saved m).1
unfolding stop_request
stop_request-IsMove id update saved m = elim (Option-cases (lookup id m.servers)) [
  | inl away ↦ rw (away, stop_request) (stays m)
  | inr (s, there) ↦
      rw (there, stop_request)
        (either-IsMove m (Answer (Unit {0})) _ _ _ (stays m)
          (after_intent-IsMove m _ _ (persist_intent-IsMove id false saved m)))
]

restart_intent-IsMove :
    (id : String) (saved : Bool) (m : Panel) → IsMove m (restart_intent id saved m).1
unfolding restart_intent
restart_intent-IsMove id saved m = elim (Option-cases (lookup id m.servers)) [
  | inl away ↦ rw (away, restart_intent) (stays m)
  | inr (s, there) ↦ rw (there, restart_intent) (persist_intent-IsMove id true saved m)
]

send_intent-IsMove :
    (id : String) (stops free saved : Bool) (m : Panel)
    → IsMove m (send_intent id stops free saved m).1
unfolding send_intent
send_intent-IsMove id stops free saved m = elim (Option-cases (lookup id m.servers)) [
  | inl away ↦ rw (away, send_intent) (stays m)
  | inr (s, there) ↦
      rw (there, send_intent)
        (elim (Bool-cases (is_running s.status)) [
          | inr down ↦ rw down (stays m)
          | inl up ↦ rw up (elim (Bool-cases free) [
            | inr taken ↦ rw taken (stays m)
            | inl gate ↦ rw gate (elim (Bool-cases stops) [
              | inr other ↦ rw other (stays m)
              | inl stop ↦ rw stop (
                  after_intent-IsMove m (done tt) (persist_intent id false saved m)
                    (persist_intent-IsMove id false saved m))
            ])
          ])
        ])
]

at-IsMove :
    (change : String → Managed → Panel → Panel) (id : String) (m : Panel)
    → ((s : Managed) → lookup id m.servers ≡ some s → IsQuiet m (change id s m))
    → IsMove m (at change id m)
at-IsMove change id m quiet = elim (Option-cases (lookup id m.servers)) [
  | inl away ↦ rw (away, at) (stays m)
  | inr (s, there) ↦ rw (there, at) (quiet-IsMove m _ (quiet s there))
]

pub step-IsMove : (c : Call) (m : Panel) → IsMove m (step c m)
unfolding step
step-IsMove (start_asked id expected saved) m = start_intent-IsMove id expected saved m
step-IsMove (start_committed reachable id expected dynamic now saved) m =
    start_commit-IsMove reachable id expected dynamic now saved m
step-IsMove (start_failed id reason now saved) m =
    at-IsMove (fail now (pos 1) reason saved) id m
      (λ s there. fail-IsQuiet now saved id s m there (pos 1) reason)
step-IsMove (came_up id now saved) m =
    at-IsMove (set_status running (pos 0) "" now saved) id m
      (λ s there. set_status-IsQuiet now saved id s m there running (pos 0) "")
step-IsMove (stop_asked id update saved) m = stop_request-IsMove id update saved m
step-IsMove (stop_begun id now saved) m =
    at-IsMove (stop_begin now saved) id m (λ s there. stop_begin-IsQuiet now saved id s m there)
step-IsMove (stop_done id now saved) m =
    at-IsMove (stopped_run now saved) id m (λ s there. stopped_run-IsQuiet now saved id s m there)
step-IsMove (stop_refused id container reason now saved) m =
    at-IsMove (stop_failed container reason now saved) id m
      (λ s there. stop_failed-IsQuiet now saved id s m there container reason)
step-IsMove (kill_asked id saved) m = persist_intent-IsMove id false saved m
step-IsMove (kill_done id now saved) m =
    at-IsMove (fail now (pos 137) "killed" saved) id m
      (λ s there. fail-IsQuiet now saved id s m there (pos 137) "killed")
step-IsMove (kill_refused id container now saved) m =
    at-IsMove (kill_failed container now saved) id m
      (λ s there. kill_failed-IsQuiet now saved id s m there container)
step-IsMove (restart_asked id saved) m = restart_intent-IsMove id saved m
step-IsMove (sent id stops free saved) m = send_intent-IsMove id stops free saved m
step-IsMove (exited id exit now saved) m =
    at-IsMove (process_exited exit now saved) id m
      (λ s there. process_exited-IsQuiet now saved id s m there exit)
step-IsMove (failures_cleared id saved) m =
    at-IsMove (clear_failures saved) id m (λ s there. clear_failures-IsQuiet 0 saved id s m there)

pub run-IsPersisted : (cs : List Call) (m : Panel) → IsPersisted m → IsPersisted (run cs m)
unfolding run
run-IsPersisted [] m p = p
run-IsPersisted (c ∷ cs) m p = run-IsPersisted cs (step c m) ((step-IsMove c m).1 p)
