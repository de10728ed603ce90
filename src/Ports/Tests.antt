-- ===== src/Ports/Tests.antt =====
-- The ledger on concrete servers.
use teploy_arcade.Prelude.{
  Bytes, ◌≤◌, String, ◌≡◌, refl, false, some, List, [], ◌∷◌, ◌++◌, arith, Returns, lookup,
  string_key,
}
use teploy_arcade.Prelude.Int.{◌+ℤ◌, int_key, pos}
use teploy_arcade.Text.{to_lower, atoi, cut_at, bytes_key}
use teploy_arcade.Ports.Bindings.{server-candidate_bindings, Checked, candidate_bindings-Checked}
use teploy_arcade.Ports.Claims.{IsLedger, claim-IsLedger, IsGranted, claim-granted}
use teploy_arcade.Ports.Geometry.{
  Binding, udp, parse_binding_number, Server, span_bindings, extra_bindings, build, server_bindings,
  binding_conflict, candidate_extras, candidate_span, candidate_bindings, ok,
}
use teploy_arcade.Ports.Ledger.{
  Ledger, conflicting_server, reserving_lease, grant, claim_port_bindings, release_reservation,
  claim_port, occupied, is_busy, first_free, start_port, next_free_port, granted, held_by_server,
}
use teploy_arcade.Ports.Release.{release-claim, release-IsLedger}
use teploy_arcade.Ports.Suggest.{next_free_port-least, on_tcp, claim_port-next_free_port}

-- "19132/UDP"
abbrev bedrock : Bytes
bedrock = 49 ∷ 57 ∷ 49 ∷ 51 ∷ 50 ∷ 47 ∷ 85 ∷ 68 ∷ 80 ∷ []

bedrock_parsed : parse_binding_number bedrock ≡ (pos 19132, udp)
unfolding parse_binding_number atoi to_lower cut_at
bedrock_parsed = refl

-- Three consecutive UDP ports and a fixed extra port.
abbrev valheim : Server
valheim = record {
  name = "valheim";
  port = pos 2456;
  bind_port = pos 0;
  protocols = udp ∷ [];
  port_span = pos 3;
  extra_ports = bedrock ∷ [];
  dynamic = [];
}

abbrev valheim_bindings : List Binding
valheim_bindings =
    record { port = pos 2456; proto = udp }
    ∷ record { port = pos 2457; proto = udp }
    ∷ record { port = pos 2458; proto = udp }
    ∷ record { port = pos 19132; proto = udp }
    ∷ []

abbrev one_server : Ledger
one_server = record { servers = ("v", valheim) ∷ []; order = "v" ∷ []; reserved = []; leases = [] }

one_server-IsLedger : IsLedger one_server
unfolding lookup
one_server-IsLedger = record { held = λ p lease e. cc }

valheim_candidate :
    candidate_bindings (pos 2456) (udp ∷ []) (pos 3) (bedrock ∷ []) ≡ ok valheim_bindings
unfolding candidate_bindings candidate_span candidate_extras parse_binding_number atoi to_lower
    cut_at ◌+ℤ◌
valheim_candidate = refl

server-candidate_bindings_example : server_bindings valheim ≡ valheim_bindings ++ []
server-candidate_bindings_example =
    server-candidate_bindings valheim valheim_bindings refl valheim_candidate

overlap_refused :
    claim_port_bindings (record { port = pos 19132; proto = udp } ∷ []) "x" (some "l") one_server
    ≡ some (held_by_server "valheim", one_server)
unfolding claim_port_bindings conflicting_server lookup binding_conflict server_bindings build
    span_bindings extra_bindings parse_binding_number atoi to_lower cut_at ◌+ℤ◌
overlap_refused = refl

claim-IsLedger_example :
    Returns (λ r. IsLedger r.1) (claim_port_bindings (on_tcp 25565) "x" (some "l") one_server)
unfolding lookup
claim-IsLedger_example = claim-IsLedger (on_tcp 25565) "x" "l" one_server one_server-IsLedger refl

granted_25565 :
    claim_port_bindings (on_tcp 25565) "x" (some "l") one_server
    ≡ some (granted "l", grant "x" (on_tcp 25565) "l" one_server)
unfolding claim_port_bindings conflicting_server reserving_lease lookup binding_conflict
    server_bindings build span_bindings extra_bindings parse_binding_number atoi to_lower cut_at
    ◌+ℤ◌
granted_25565 = refl

claim-granted_example :
    (◌≡◌ {A = String} "l" "l")
    × IsGranted (on_tcp 25565) "x" "l" one_server (grant "x" (on_tcp 25565) "l" one_server)
claim-granted_example =
    claim-granted (on_tcp 25565) "x" "l" "l" one_server (grant "x" (on_tcp 25565) "l" one_server)
      granted_25565

release-claim_example :
    (lookup (pos 25565) (release_reservation "l" (grant "x" (on_tcp 25565) "l" one_server)).reserved
      ≡ lookup (pos 25565) one_server.reserved)
    × (lookup "l" (release_reservation "l" (grant "x" (on_tcp 25565) "l" one_server)).leases
        ≡ lookup "l" one_server.leases)
unfolding lookup
release-claim_example =
    release-claim (on_tcp 25565) "x" "l" "l" one_server (grant "x" (on_tcp 25565) "l" one_server)
      (pos 25565) "l" one_server-IsLedger refl granted_25565

release-IsLedger_example : IsLedger (release_reservation "l" one_server)
release-IsLedger_example = release-IsLedger "l" one_server one_server-IsLedger

free_2459 : is_busy one_server 2459 ≡ false
unfolding is_busy occupied lookup binding_conflict server_bindings build span_bindings
    extra_bindings parse_binding_number atoi to_lower cut_at ◌+ℤ◌
free_2459 = refl

next_free_port-least_example :
    (start_port (pos 2456) ≤ next_free_port (pos 2456) one_server)
    × (next_free_port (pos 2456) one_server ≤ 2459)
    × (is_busy one_server (next_free_port (pos 2456) one_server) ≡ false)
next_free_port-least_example =
    next_free_port-least (pos 2456) one_server 2459 (omega arith) (omega arith) free_2459

claim_port-next_free_port_example :
    claim_port (pos (next_free_port (pos 65535) one_server)) "x" (some "l") one_server
    ≡ some (
        ok (granted "l", grant "x" (on_tcp (next_free_port (pos 65535) one_server)) "l" one_server))
unfolding next_free_port first_free is_busy occupied lookup binding_conflict server_bindings build
    span_bindings extra_bindings parse_binding_number atoi to_lower cut_at ◌+ℤ◌
claim_port-next_free_port_example =
    claim_port-next_free_port (pos 65535) one_server "x" "l" (omega arith)

candidate_bindings-Checked_example : Checked (candidate_bindings (pos 65535) [] (pos 2) [])
candidate_bindings-Checked_example = candidate_bindings-Checked (pos 65535) [] (pos 2) []
