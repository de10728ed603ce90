-- ===== src/Lifecycle/Exit.antt =====
-- How a server changes its status and leaves: `setStatus`, `stopped`, `fail`, `processExited`,
-- `ClearFailures`, `stopIntent`, `Kill`, `Restart` and `Send` of internal/arcade/manager.go.
use teploy_arcade.Prelude.{
  ℕ, suc, ◌-◌, String, Bool, true, false, not, ◌&&◌, Option, none, some, [], ltb, if◌then◌else◌,
  lookup, string_key,
}
use teploy_arcade.Prelude.Int.{ℤ, pos}
use teploy_arcade.Text.{bytes_key}
use teploy_arcade.Lifecycle.State.{
  Status, is_docker, Managed, Panel, Answer, put, save, is_down, is_running, persist_intent,
  stopped, starting, running, stopping, failed, no_such_server, not_running, busy, done, refused,
}
use teploy_arcade.Lifecycle.Start.{fail_window}

pub data Container : Type 0 where
  container_running container_missing container_stopped container_unknown : Container

abbrev same_status : Status → Status → Bool
same_status stopped stopped = true
same_status starting starting = true
same_status running running = true
same_status stopping stopping = true
same_status failed failed = true
same_status stopped _ = false
same_status starting _ = false
same_status running _ = false
same_status stopping _ = false
same_status failed _ = false

abbrev or_now : ℕ → Option ℕ → Option ℕ
or_now now none = some now
or_now now (some t) = some t

-- The record after `setStatus`.
unfoldable pub with_status : Status → ℤ → String → ℕ → Managed → Managed
with_status running code reason now s = record s {
  status = running;
  started_at = or_now now s.started_at;
}
with_status failed code reason now s = record s {
  status = failed;
  exit_code = code;
  exit_reason = reason;
}
with_status stopped code reason now s = record s { status = stopped }
with_status starting code reason now s = record s { status = starting }
with_status stopping code reason now s = record s { status = stopping }

-- `setStatus` saves only a change, and a failure to save is not looked at.
unfoldable pub set_status : Status → ℤ → String → ℕ → Bool → String → Managed → Panel → Panel
unfolding with_status
set_status status code reason now saved id s m =
    save (saved && not (same_status s.status status))
      (put id (with_status status code reason now s) m)

-- The container is gone, and with it the ports that it had.
abbrev pub unbound : Managed → Managed
unbound s = record s { geometry = record s.geometry { bind_port = pos 0; dynamic = [] } }

unfoldable pub stopped_run : ℕ → Bool → String → Managed → Panel → Panel
unfolding set_status
stopped_run now saved id s m =
    set_status stopped (pos 0) "" now saved id (unbound s) (put id (unbound s) m)

-- One more failure, or the first of a new window.
unfoldable pub count_failure : ℕ → Managed → Managed
count_failure now s = elim s.first_failure [
  | none ↦ record s { restarts = 1; first_failure = some now }
  | some first ↦
      if ltb fail_window (now - first)
      then record s { restarts = 1; first_failure = some now }
      else record s { restarts = suc s.restarts }
]

unfoldable pub fail : ℕ → ℤ → String → Bool → String → Managed → Panel → Panel
unfolding set_status count_failure
fail now code reason saved id s m =
    let s' = count_failure now (unbound s) in
    set_status failed code reason now saved id s' (put id s' m)

-- A process that exits while its server stops has stopped; while it starts, it failed in any case.
unfoldable pub leave : Status → Option (ℤ × String) → ℕ → Bool → String → Managed → Panel → Panel
unfolding stopped_run fail
leave stopping exit now saved id s m = stopped_run now saved id s m
leave starting none now saved id s m =
    fail now (pos 0) "exited during startup - see the console for the reason" saved id s m
leave _ none now saved id s m = stopped_run now saved id s m
leave _ (some (code, reason)) now saved id s m = fail now code reason saved id s m

-- `processExited`: `none` is a clean exit.
unfoldable pub process_exited : Option (ℤ × String) → ℕ → Bool → String → Managed → Panel → Panel
unfolding leave
process_exited exit now saved id s m = leave s.status exit now saved id s m

-- `ClearFailures`.
unfoldable pub clear_failures : Bool → String → Managed → Panel → Panel
clear_failures saved id s m =
    save saved (put id (record s { restarts = 0; first_failure = none }) m)

abbrev pub after_intent : Answer (Unit {0}) → Answer ℕ × Panel → Answer (Unit {0}) × Panel
after_intent next (refused why, m) = (refused why, m)
after_intent next (done generation, m) = (next, m)

-- The first part of `stopIntent`: a stop of an operator persists its intent, also for a server that is
-- down.
unfoldable pub stop_request : String → Bool → Bool → Panel → Answer (Unit {0}) × Panel
unfolding persist_intent
stop_request id update saved m = elim (lookup id m.servers) [
  | none ↦ (refused no_such_server, m)
  | some s ↦
      let down = if is_down s.status then refused not_running else done tt in
      if not update then (down, m) else after_intent down (persist_intent id false saved m)
]

-- The second part, under the filesystem gate.
unfoldable pub stop_begin : ℕ → Bool → String → Managed → Panel → Panel
unfolding set_status
stop_begin now saved id s m =
    if is_down s.status then m else set_status stopping (pos 0) "" now saved id s m

-- What the worker of a stop does when the runner refused, by what Docker says of the container.
unfoldable pub stop_failed : Container → String → ℕ → Bool → String → Managed → Panel → Panel
unfolding set_status
stop_failed container reason now saved id s m =
    if not (is_docker s.runtime)
    then set_status failed (pos 1) reason now saved id s m
    else elim container [
      | container_running ↦ set_status running (pos 0) "" now saved id s m
      | container_missing ↦ set_status failed (pos 1) reason now saved id s m
      | container_stopped ↦ set_status failed (pos 1) reason now saved id s m
      | container_unknown ↦ m
    ]

-- The worker of a kill in the same case.
unfoldable pub kill_failed : Container → ℕ → Bool → String → Managed → Panel → Panel
unfolding set_status fail
kill_failed container now saved id s m =
    if not (is_docker s.runtime) then fail now (pos 137) "killed" saved id s m else elim container [
      | container_running ↦ set_status running (pos 0) "" now saved id s m
      | container_missing ↦ fail now (pos 137) "killed" saved id s m
      | container_stopped ↦ fail now (pos 137) "killed" saved id s m
      | container_unknown ↦ m
    ]

-- `Restart` of a server that is up persists its intent, and starts with that generation once the stop
-- has landed; of one that is down it is a start.
unfoldable pub restart_intent : String → Bool → Panel → Answer ℕ × Panel
unfolding persist_intent
restart_intent id saved m = elim (lookup id m.servers) [
  | none ↦ (refused no_such_server, m)
  | some s ↦ persist_intent id true saved m
]

-- What `Send` does before the command goes out. `stops` is whether it is "stop" or "end" and not said,
-- `free` whether no other operation holds the filesystem gate.
unfoldable pub send_intent : String → Bool → Bool → Bool → Panel → Answer (Unit {0}) × Panel
unfolding persist_intent
send_intent id stops free saved m = elim (lookup id m.servers) [
  | none ↦ (refused no_such_server, m)
  | some s ↦
      if not (is_running s.status)
      then (refused not_running, m)
      else if not free
      then (refused busy, m)
      else if not stops
      then (done tt, m)
      else after_intent (done tt) (persist_intent id false saved m)
]
