-- ===== src/Lifecycle/Calls.antt =====
-- What happens to the servers between two starts of the panel, in any order, and the start of the
-- panel: `Load`, `resume` of internal/arcade/manager.go.
use teploy_arcade.Prelude.{
  ℕ, String, Bool, true, false, not, ◌&&◌, Option, none, some, List, [], ◌∷◌, if◌then◌else◌, Assoc,
  lookup, string_key,
}
use teploy_arcade.Prelude.Int.{ℤ, pos}
use teploy_arcade.Text.{bytes_key}
use teploy_arcade.Lifecycle.State.{
  Status, is_docker, Managed, Panel, is_down, persist_intent, stopped, starting, running, stopping,
  failed,
}
use teploy_arcade.Lifecycle.Exit.{
  Container, set_status, stopped_run, fail, process_exited, clear_failures, stop_request,
  stop_begin, stop_failed, kill_failed, restart_intent, send_intent,
}
use teploy_arcade.Lifecycle.Start.{start_intent, start_commit}
use teploy_arcade.Ports.Geometry.{Binding}

-- One step of an operation. `now` is the time, and the last Boolean whether servers.json could be
-- written. A step on a server that is not registered does nothing.
pub data Call : Type 0 where
  start_asked : String → ℕ → Bool → Call
  start_committed : Bool → String → ℕ → Option (List Binding) → ℕ → Bool → Call
  start_failed : String → String → ℕ → Bool → Call
  came_up : String → ℕ → Bool → Call
  stop_asked : String → Bool → Bool → Call
  stop_begun stop_done : String → ℕ → Bool → Call
  stop_refused : String → Container → String → ℕ → Bool → Call
  kill_asked : String → Bool → Call
  kill_done : String → ℕ → Bool → Call
  kill_refused : String → Container → ℕ → Bool → Call
  restart_asked : String → Bool → Call
  sent : String → Bool → Bool → Bool → Call
  exited : String → Option (ℤ × String) → ℕ → Bool → Call
  failures_cleared : String → Bool → Call

-- A change of one registered server.
abbrev pub at : (String → Managed → Panel → Panel) → String → Panel → Panel
at change id m = elim (lookup id m.servers) [ none ↦ m | some s ↦ change id s m ]

unfoldable pub step : Call → Panel → Panel
unfolding start_intent start_commit fail set_status stop_request stop_begin stopped_run stop_failed
    persist_intent kill_failed restart_intent send_intent process_exited clear_failures
step (start_asked id expected saved) m = (start_intent id expected saved m).1
step (start_committed reachable id expected dynamic now saved) m =
    (start_commit reachable id expected dynamic now saved m).1
step (start_failed id reason now saved) m = at (fail now (pos 1) reason saved) id m
step (came_up id now saved) m = at (set_status running (pos 0) "" now saved) id m
step (stop_asked id update saved) m = (stop_request id update saved m).1
step (stop_begun id now saved) m = at (stop_begin now saved) id m
step (stop_done id now saved) m = at (stopped_run now saved) id m
step (stop_refused id container reason now saved) m =
    at (stop_failed container reason now saved) id m
step (kill_asked id saved) m = (persist_intent id false saved m).1
step (kill_done id now saved) m = at (fail now (pos 137) "killed" saved) id m
step (kill_refused id container now saved) m = at (kill_failed container now saved) id m
step (restart_asked id saved) m = (restart_intent id saved m).1
step (sent id stops free saved) m = (send_intent id stops free saved m).1
step (exited id exit now saved) m = at (process_exited exit now saved) id m
step (failures_cleared id saved) m = at (clear_failures saved) id m

unfoldable pub run : List Call → Panel → Panel
unfolding step
run [] m = m
run (c ∷ cs) m = run cs (step c m)

abbrev pub is_failed : Status → Bool
is_failed failed = true
is_failed stopped = false
is_failed starting = false
is_failed running = false
is_failed stopping = false

abbrev is_stopping : Status → Bool
is_stopping stopping = true
is_stopping stopped = false
is_stopping starting = false
is_stopping running = false
is_stopping failed = false

-- `Load`: whether the server was up, and its record; what is not in servers.json is empty.
unfoldable pub was_up : Managed → Bool
was_up s = elim s.desired [
  | none ↦ not (is_down s.status) && not (is_stopping s.status)
  | some want ↦ want
]

unfoldable pub load_server : Managed → Managed
load_server s = record s {
  geometry = record s.geometry { bind_port = pos 0; dynamic = [] };
  status = if is_failed s.status then failed else stopped;
  resolved = false;
}

abbrev is_stopped : Status → Bool
is_stopped stopped = true
is_stopped starting = false
is_stopped running = false
is_stopped stopping = false
is_stopped failed = false

abbrev wanted : Option Bool → Bool
wanted none = true
wanted (some want) = want

-- `resume`: whether a loaded server is started again.
unfoldable pub is_resumed : Bool → Managed → Bool
is_resumed up s = up && is_docker s.runtime && is_stopped s.status && wanted s.desired

-- The servers that a start of the panel chooses to bring up, from what servers.json has. What follows the
-- choice is left out: a server without a decision or with the generation 0 gets a new intent first and
-- stays down if that cannot be saved, and the start refuses a server that needs recovery.
unfoldable pub resumed : String → Assoc String Managed → Bool
unfolding was_up load_server is_resumed
resumed id disk = elim (lookup id disk) [
  | none ↦ false
  | some s ↦ is_resumed (was_up s) (load_server s)
]
