-- ===== src/Lifecycle/Tests.antt =====
-- Two Docker servers on ports of their own.
use teploy_arcade.Prelude.{
  ℕ, String, ◌≡◌, refl, true, false, not, ◌&&◌, none, some, List, [], ◌∷◌, lookup, string_key,
}
use teploy_arcade.Prelude.Int.{pos}
use teploy_arcade.Text.{bytes_key}
use teploy_arcade.Lifecycle.State.{
  is_docker, Managed, Panel, require_registered, stopped, running, stopping, docker, done,
}
use teploy_arcade.Lifecycle.Start.{start_commit}
use teploy_arcade.Ports.Geometry.{Server}
use teploy_arcade.Lifecycle.Quiet.{IsPersisted}
use teploy_arcade.Lifecycle.Calls.{
  Call, run, is_failed, resumed, stop_asked, stop_begun, failures_cleared,
}
use teploy_arcade.Lifecycle.Launched.{IsLaunched}
use teploy_arcade.Lifecycle.Claims.{IsStartable, start_commit-granted}
use teploy_arcade.Lifecycle.Resume.{resumed-run}

abbrev on : ℕ → String → Server
on p name = record {
  name = name;
  port = pos p;
  bind_port = pos 0;
  protocols = [];
  port_span = pos 1;
  extra_ports = [];
  dynamic = [];
}

abbrev idle : Server → Managed
idle g = record {
  geometry = g;
  runtime = docker;
  status = stopped;
  exit_code = pos 0;
  exit_reason = "";
  desired = some false;
  generation = 4;
  restarts = 0;
  first_failure = none;
  started_at = none;
  pending_restart = [];
  recovery = "";
  resolved = false;
}

abbrev survival : Managed
survival = idle (on 25565 "Survival")

abbrev lobby : Managed
lobby = record (idle (on 25566 "Lobby")) { status = running; desired = some true }

abbrev panel : Panel
panel = record {
  servers = ("s1", survival) ∷ ("s2", lobby) ∷ [];
  disk = ("s1", survival) ∷ ("s2", lobby) ∷ [];
}

panel-IsPersisted : IsPersisted panel
panel-IsPersisted id = refl

-- The lobby is stopped; the status of the stop could not be saved, its intent could.
abbrev calls : List Call
calls = stop_asked "s2" true true ∷ stop_begun "s2" 100 false ∷ failures_cleared "s1" false ∷ []

abbrev stopping_lobby : Managed
stopping_lobby = record lobby { status = stopping; desired = some false; generation = 5 }

calls-lobby : lookup "s2" (run calls panel).servers ≡ some stopping_lobby
unfolding run lookup teploy_arcade.Prelude.insert
calls-lobby = refl

resumed-run_example :
    (d : Managed) × ((lookup "s2" (run calls panel).disk ≡ some d)
      × (resumed "s2" (run calls panel).disk
          ≡ (false && is_docker d.runtime && not (is_failed d.status))))
resumed-run_example =
    resumed-run calls panel "s2" stopping_lobby false panel-IsPersisted calls-lobby refl

survival_starts : (start_commit true "s1" 4 (some []) 120 true panel).0 ≡ done tt
unfolding start_commit lookup teploy_arcade.Prelude.insert
    teploy_arcade.Ports.Geometry.binding_conflict teploy_arcade.Ports.Geometry.server_bindings
    teploy_arcade.Ports.Geometry.build teploy_arcade.Ports.Geometry.span_bindings
    teploy_arcade.Ports.Geometry.extra_bindings
survival_starts = refl

start_commit-granted_example :
    (s : Managed) × ((require_registered "s1" panel ≡ done s)
      × (IsStartable "s1" 120 panel s
          × IsLaunched "s1" 4 120 [] panel (start_commit true "s1" 4 (some []) 120 true panel).1 s))
start_commit-granted_example = start_commit-granted true "s1" 4 [] 120 true panel survival_starts
