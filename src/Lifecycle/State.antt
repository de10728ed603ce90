-- ===== src/Lifecycle/State.antt =====
-- What the panel keeps of a server's life, what servers.json has of it, and `persistIntent` of
-- internal/arcade/lifecycle_intent.go.
use teploy_arcade.Prelude.{
  ℕ, suc, ◌%◌, ◌^◌, String, Bool, true, false, Option, none, some, List, if◌then◌else◌, ◌==◌, Assoc,
  lookup, insert, string_key,
}
use teploy_arcade.Prelude.Int.{ℤ}
use teploy_arcade.Text.{bytes_key}
use teploy_arcade.Ports.Geometry.{Server}

pub data Status : Type 0 where
  stopped starting running stopping failed : Status

pub data Runtime : Type 0 where
  sim docker : Runtime

abbrev pub is_docker : Runtime → Bool
is_docker docker = true
is_docker sim = false

-- A server: its ports, and the state of its life. The times are seconds of one clock, `none` the zero
-- time. `desired` is whether it is to run, `none` for a record without an intent, and `generation` the
-- number of the intent, as the 64 bits of an unsigned number.
pub record Managed : Type 0 where
  pub geometry : Server
  pub runtime : Runtime
  pub status : Status
  pub exit_code : ℤ
  pub exit_reason : String
  pub desired : Option Bool
  pub generation : ℕ
  pub restarts : ℕ
  pub first_failure : Option ℕ
  pub started_at : Option ℕ
  pub pending_restart : List String
  pub recovery : String
  pub resolved : Bool

-- The servers in the panel's order, and the records of servers.json.
pub record Panel : Type 0 where
  pub servers : Assoc String Managed
  pub disk : Assoc String Managed

pub data Refusal : Type 0 where
  no_such_server recovery_required intent_not_saved superseded already_running still_stopping :
      Refusal
  circuit_is_open claim_not_saved not_running docker_unreachable no_dynamic_ports busy : Refusal
  port_in_use : String → Refusal

pub data Answer (A : Type 0) : Type 0 where
  done : A → Answer A
  refused : Refusal → Answer A

abbrev pub put : String → Managed → Panel → Panel
put id s m = record m { servers = insert id s m.servers }

-- `Save` and `saveHeld`: all of servers.json or nothing of it is written.
abbrev pub save : Bool → Panel → Panel
save saved m = if saved then record m { disk = m.servers } else m

abbrev pub is_down : Status → Bool
is_down stopped = true
is_down failed = true
is_down starting = false
is_down running = false
is_down stopping = false

abbrev pub is_running : Status → Bool
is_running running = true
is_running stopped = false
is_running failed = false
is_running starting = false
is_running stopping = false

-- `requireRegistered`.
unfoldable pub require_registered : String → Panel → Answer Managed
require_registered id m = elim (lookup id m.servers) [
  | none ↦ refused no_such_server
  | some s ↦ if s.recovery == "" then done s else refused recovery_required
]

abbrev pub intend : Bool → Managed → Managed
intend want s = record s { desired = some want; generation = suc s.generation % 2 ^ 64 }

-- `persistIntent`: an intent that cannot be saved is taken back.
unfoldable pub persist_intent : String → Bool → Bool → Panel → Answer ℕ × Panel
unfolding require_registered
persist_intent id want saved m = elim (require_registered id m) [
  | refused why ↦ (refused why, m)
  | done s ↦
      let s' = intend want s in
      let taken_back = record s' { desired = s.desired; generation = s.generation } in
      if saved
      then (done s'.generation, save true (put id s' m))
      else (refused intent_not_saved, put id taken_back (put id s' m))
]
