-- ===== src/Ports/Ledger.antt =====
-- Leases on ports and the search for a free port: `claimPortBindings`, `releaseReservation` and
-- `NextFreePort` of internal/arcade/manager.go, each under the lock `m.mu`.
use teploy_arcade.Prelude.{
  ℕ, zero, suc, ◌+◌, ◌-◌, String, Bool, true, false, ◌||◌, Option, none, some, List, [], ◌∷◌, ◌++◌,
  map, if◌then◌else◌, ◌==◌, ◌>>=◌, Assoc, lookup, insert, remove, nat_key, string_key,
}
use teploy_arcade.Prelude.Int.{ℤ, pos, ltb_ℤ, pos_part, int_key}
use teploy_arcade.Text.{bytes_key}
use teploy_arcade.Ports.Geometry.{
  Binding, tcp, udp, Server, server_bindings, binding_conflict, Result, ok, err, candidate_bindings,
}

pub record PortLease : Type 0 where
  pub label : String
  pub ports : List ℤ

pub record Ledger : Type 0 where
  pub servers : Assoc String Server
  pub order : List String
  pub reserved : Assoc ℤ String
  pub leases : Assoc String PortLease

abbrev pub ports_of : List Binding → List ℤ
ports_of = map (λ b. b.port)

-- The name of the first server, in the panel's order, that publishes one of the bindings.
unfoldable pub conflicting_server : Assoc String Server → List Binding → List String → Option String
conflicting_server servers cand [] = none
conflicting_server servers cand (id ∷ order) =
    let rest = conflicting_server servers cand order in
    elim (lookup id servers) [
      | none ↦ rest
      | some s ↦ if binding_conflict (server_bindings s) cand then some s.name else rest
    ]

-- The lease that holds the first reserved port of the list.
unfoldable pub reserving_lease : Assoc ℤ String → List ℤ → Option String
reserving_lease reserved [] = none
reserving_lease reserved (p ∷ ps) =
    let rest = reserving_lease reserved ps in
    elim (lookup p reserved) [ none ↦ rest | some lease ↦ some lease ]

unfoldable pub reserve : String → List ℤ → Assoc ℤ String → Assoc ℤ String
reserve lease [] reserved = reserved
reserve lease (p ∷ ps) reserved = reserve lease ps (insert p lease reserved)

pub data Claim : Type 0 where
  granted : String → Claim
  held_by_server : String → Claim
  held_by_import : String → Claim
  no_entropy : Claim

abbrev pub grant : String → List Binding → String → Ledger → Ledger
grant label cand lease m = record m {
  reserved = reserve lease (ports_of cand) m.reserved;
  leases = insert lease (record { label = label; ports = ports_of cand }) m.leases;
}

-- The outer `none` is a panic: the label of a lease that is not in the table is read through a null
-- pointer. `entropy` is what `randomHex` returned.
unfoldable pub claim_port_bindings :
    List Binding → String → Option String → Ledger → Option (Claim × Ledger)
claim_port_bindings cand label none m = some (no_entropy, m)
claim_port_bindings cand label (some lease) m = elim (conflicting_server m.servers cand m.order) [
  | some name ↦ some (held_by_server name, m)
  | none ↦ elim (reserving_lease m.reserved (ports_of cand)) [
    | some holder ↦ lookup holder m.leases >>= λ l. some (held_by_import l.label, m)
    | none ↦ some (granted lease, grant label cand lease m)
  ]
]

-- A port is given up only if this lease holds it.
unfoldable pub release_one : String → ℤ → Assoc ℤ String → Assoc ℤ String
release_one lease p reserved = elim (lookup p reserved) [
  | none ↦ reserved
  | some holder ↦ if holder == lease then remove p reserved else reserved
]

unfoldable pub release_ports : String → List ℤ → Assoc ℤ String → Assoc ℤ String
release_ports lease [] reserved = reserved
release_ports lease (p ∷ ps) reserved = release_ports lease ps (release_one lease p reserved)

unfoldable pub release_reservation : String → Ledger → Ledger
release_reservation lease m = elim (lookup lease m.leases) [
  | none ↦ m
  | some l ↦ record m {
    reserved = release_ports lease l.ports m.reserved;
    leases = remove lease m.leases;
  }
]

unfoldable pub release_port : ℤ → Ledger → Ledger
release_port p m = elim (lookup p m.reserved) [
  | none ↦ m
  | some lease ↦ if lease == "" then m else release_reservation lease m
]

unfoldable pub claim_port : ℤ → String → Option String → Ledger → Option (Result (Claim × Ledger))
claim_port p label entropy m = elim (candidate_bindings p [] (pos 1) []) [
  | err e ↦ some (err e)
  | ok cand ↦ claim_port_bindings cand label entropy m >>= λ r. some (ok r)
]

-- Every binding of every registered server.
unfoldable pub occupied : Assoc String Server → List String → List Binding
occupied servers [] = []
occupied servers (id ∷ order) =
    let rest = occupied servers order in
    elim (lookup id servers) [ none ↦ rest | some s ↦ server_bindings s ++ rest ]

abbrev pub both_protos : ℤ → List Binding
both_protos p = record { port = p; proto = tcp } ∷ record { port = p; proto = udp } ∷ []

abbrev is_reserved : Option String → Bool
is_reserved none = false
is_reserved (some lease) = true

unfoldable pub is_busy : Ledger → ℕ → Bool
is_busy m p =
    binding_conflict (occupied m.servers m.order) (both_protos (pos p))
    || is_reserved (lookup (pos p) m.reserved)

-- The first port that is not busy of `n` ports from `p` on, or 0.
unfoldable pub first_free : (ℕ → Bool) → ℕ → ℕ → ℕ
first_free busy zero p = 0
first_free busy (suc n) p = let rest = first_free busy n (p + 1) in if busy p then rest else p

abbrev pub start_port : ℤ → ℕ
start_port hint = if hint == pos 0 then 25565 else if ltb_ℤ hint (pos 1) then 1 else pos_part hint

-- The source reads the servers and the reservations under two locks in turn; here they are one state.
unfoldable pub next_free_port : ℤ → Ledger → ℕ
next_free_port hint m = let p = start_port hint in first_free (is_busy m) (65536 - p) p
