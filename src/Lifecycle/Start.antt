-- ===== src/Lifecycle/Start.antt =====
-- `startExpected` and `claimStart` of internal/arcade/manager.go.
use teploy_arcade.Prelude.{
  nat_key, ℕ, ◌-◌, String, Bool, true, false, not, ◌&&◌, Option, none, some, List, [], ◌∷◌, ltb,
  leb, if◌then◌else◌, ◌==◌, Assoc, lookup, string_key,
}
use teploy_arcade.Prelude.Int.{pos}
use teploy_arcade.Text.{bytes_key}
use teploy_arcade.Lifecycle.State.{
  Status, Managed, Panel, Refusal, Answer, put, save, require_registered, persist_intent, stopped,
  starting, running, stopping, failed, no_such_server, superseded, already_running, still_stopping,
  circuit_is_open, claim_not_saved, docker_unreachable, no_dynamic_ports, port_in_use, done,
  refused,
}
use teploy_arcade.Ports.Geometry.{Binding, server_bindings, binding_conflict}

-- `maxRestarts` and `failWindow`, in seconds.
abbrev pub max_restarts : ℕ
max_restarts = 5

abbrev pub fail_window : ℕ
fail_window = 600

-- A time that is later than `now` gives a negative duration in the source, and 0 here: both are below
-- the window.
abbrev pub in_window : ℕ → Option ℕ → Bool
in_window now none = false
in_window now (some first) = ltb (now - first) fail_window

abbrev pub circuit_open : ℕ → Managed → Bool
circuit_open now s = leb max_restarts s.restarts && in_window now s.first_failure

abbrev pub is_live : Status → Bool
is_live running = true
is_live starting = true
is_live stopped = false
is_live stopping = false
is_live failed = false

-- The name of the first other server that is up and publishes one of the bindings.
unfoldable pub live_conflict : String → List Binding → Assoc String Managed → Option String
live_conflict id mine [] = none
live_conflict id mine ((other, s) ∷ others) =
    let rest = live_conflict id mine others in
    if not (other == id) && (binding_conflict (server_bindings s.geometry) mine && is_live s.status)
    then some s.geometry.name
    else rest

-- The bindings of the launch join the ledger before the check.
abbrev pub bind_launch : List Binding → Managed → Managed
bind_launch dynamic s = record s {
  geometry = record s.geometry { bind_port = s.geometry.port; dynamic = dynamic };
  resolved = true;
}

abbrev pub launched : ℕ → Managed → Managed
launched now s = record s {
  pending_restart = [];
  desired = some true;
  started_at = some now;
  status = starting;
}

-- A claim that cannot be saved gives back what it changed.
abbrev pub unclaimed : Managed → Managed → Managed
unclaimed old s = record s {
  pending_restart = old.pending_restart;
  started_at = old.started_at;
  status = old.status;
  desired = old.desired;
  generation = old.generation;
  geometry = record s.geometry { bind_port = pos 0; dynamic = [] };
  resolved = false;
}

-- The claim of a server that may start.
unfoldable pub claim_launch :
    String → ℕ → List Binding → ℕ → Bool → Managed → Panel → Answer (Unit {0}) × Panel
unfolding live_conflict
claim_launch id expected dynamic now saved s m =
    let s1 = bind_launch dynamic s in
    let m1 = put id s1 m in
    elim (live_conflict id (server_bindings s1.geometry) m1.servers) [
      | some name ↦ (refused (port_in_use name), m1)
      | none ↦
          if not (expected == 0) && not (s.generation == expected)
          then (refused superseded, m1)
          else if saved
          then (done tt, save true (put id (launched now s1) m1))
          else (refused claim_not_saved, put id (unclaimed s1 (launched now s1)) m1)
    ]

-- Why a server in a status is not started.
unfoldable pub refusal_in : Status → Option Refusal
refusal_in running = some already_running
refusal_in starting = some already_running
refusal_in stopping = some still_stopping
refusal_in stopped = none
refusal_in failed = none

-- `claimStart`. `dynamic` is what `detectGeyser` found, `none` if it failed.
unfoldable pub claim_start :
    String → ℕ → Option (List Binding) → ℕ → Bool → Panel → Answer (Unit {0}) × Panel
unfolding claim_launch refusal_in
claim_start id expected none now saved m = (refused no_dynamic_ports, m)
claim_start id expected (some dynamic) now saved m = elim (lookup id m.servers) [
  | none ↦ (refused no_such_server, m)
  | some s ↦ elim (refusal_in s.status) [
    | some why ↦ (refused why, m)
    | none ↦
        let launch = claim_launch id expected dynamic now saved s m in
        if circuit_open now s then (refused circuit_is_open, m) else launch
  ]
]

-- The first part of `startExpected`: without an intent of its own, a start persists one.
unfoldable pub start_intent : String → ℕ → Bool → Panel → Answer ℕ × Panel
unfolding persist_intent
start_intent id expected saved m = elim (lookup id m.servers) [
  | none ↦ (refused no_such_server, m)
  | some s ↦ if expected == 0 then persist_intent id true saved m else (done expected, m)
]

-- The second part, under the filesystem gate. `reachable` is whether Docker answered before, or is not
-- needed.
unfoldable pub start_commit :
    Bool → String → ℕ → Option (List Binding) → ℕ → Bool → Panel → Answer (Unit {0}) × Panel
unfolding claim_start require_registered
start_commit reachable id expected dynamic now saved m = elim (require_registered id m) [
  | refused why ↦ (if reachable then refused why else refused docker_unreachable, m)
  | done s ↦
      let claimed = claim_start id expected dynamic now saved m in
      if not reachable
      then (refused docker_unreachable, m)
      else if not (expected == 0) && not (s.generation == expected)
      then (refused superseded, m)
      else claimed
]
