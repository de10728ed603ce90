-- ===== src/Ports/Claims.antt =====
-- What a claim and a release do to the ledger.
use teploy_arcade.Prelude.{
  String, ◌≡◌, refl, ap, ◌∙◌, ◌⊎◌, inl, inr, true, false, none, some, List, [], ◌∷◌, arith,
  if◌then◌else◌, ◌==◌, Bool-cases, Option-cases, same_refl, same_cases, Returns, contains, Assoc,
  lookup, insert, lookup-insert, string_key,
}
use teploy_arcade.Prelude.Int.{int_key, ℤ, ℤ_beq_iff}
use teploy_arcade.Text.{bytes_key}
use teploy_arcade.Ports.Geometry.{Binding, Server, server_bindings, binding_conflict}
use teploy_arcade.Ports.Ledger.{
  PortLease, Ledger, ports_of, conflicting_server, reserving_lease, reserve, grant,
  claim_port_bindings, granted,
}

-- Every reserved port is one of the ports of a lease in the table.
pub record IsLedger (m : Ledger) : Type 0 where
  pub held :
      (p : ℤ) (lease : String)
      → lookup p m.reserved ≡ some lease
      → (l : PortLease) × (lookup lease m.leases ≡ some l) × (contains l.ports p ≡ true)

pub lookup-reserve :
    (lease : String) (ps : List ℤ) (reserved : Assoc ℤ String) (p : ℤ)
    → lookup p (reserve lease ps reserved)
      ≡ (if contains ps p then some lease else lookup p reserved)
unfolding reserve contains
lookup-reserve lease [] reserved p = refl
lookup-reserve lease (q ∷ ps) reserved p = ground (
  arith,
  lookup-reserve lease ps (insert q lease reserved) p,
  lookup-insert q p lease reserved,
  ℤ_beq_iff q p,
)

-- The first server in conflict, or that there is none.
no_conflict :
    (servers : Assoc String Server) (cand : List Binding) (order : List String) (id : String)
    (s : Server)
    → conflicting_server servers cand order ≡ none
    → contains order id ≡ true
    → lookup id servers ≡ some s
    → binding_conflict (server_bindings s) cand ≡ false
unfolding conflicting_server contains
no_conflict servers cand [] id s h m e = cc
no_conflict servers cand (j ∷ order) id s h m e =
    let rest = no_conflict servers cand order id s in
    elim (same_cases j id) [
      | inl same ↦ let e' : lookup j servers ≡ some s = rw same e in ground arith
      | inr other ↦ elim (Option-cases (lookup j servers)) [
        | inl missing ↦ ground (arith, no_conflict servers cand order id s)
        | inr (t, found) ↦ ground (arith, no_conflict servers cand order id s)
      ]
    ]

pub not_reserved :
    (reserved : Assoc ℤ String) (ps : List ℤ) (p : ℤ)
    → reserving_lease reserved ps ≡ none
    → contains ps p ≡ true
    → lookup p reserved ≡ none
unfolding reserving_lease contains
not_reserved reserved [] p h m = cc
not_reserved reserved (q ∷ ps) p h m = elim (Option-cases (lookup q reserved)) [
  | inl free ↦ ground (arith, ℤ_beq_iff q p, not_reserved reserved ps p)
  | inr (lease, taken) ↦ ground arith
]

-- A claim that is granted went past both tests, and the ledger is the one with the grant.
pub granted-inv :
    (cand : List Binding) (label lease l : String) (m m' : Ledger)
    → claim_port_bindings cand label (some lease) m ≡ some (granted l, m')
    → (conflicting_server m.servers cand m.order ≡ none)
      × (reserving_lease m.reserved (ports_of cand) ≡ none)
      × (l ≡ lease)
      × (m' ≡ grant label cand lease m)
unfolding claim_port_bindings
granted-inv cand label lease l m m' h = ground arith

grant-IsLedger :
    (cand : List Binding) (label lease : String) (m : Ledger)
    → lookup lease m.leases ≡ none
    → IsLedger m
    → IsLedger (grant label cand lease m)
grant-IsLedger cand label lease m fresh v = record {
  held = λ p k e. elim (Bool-cases (contains (ports_of cand) p)) [
    | inl mine ↦
        let e' : lease ≡ k = ground (arith, lookup-reserve lease (ports_of cand) m.reserved p) in
        (new, rw (lookup-insert lease k new m.leases, e', same_refl k), mine)
    | inr other ↦
        let e' : lookup p m.reserved ≡ some k =
          ground (arith, lookup-reserve lease (ports_of cand) m.reserved p) in
        let (l, found, holds) = v.held p k e' in (l, kept k l found, holds)
  ];
}
  where
    new : PortLease
    new = record { label = label; ports = ports_of cand }

    kept :
        (k : String) (l : PortLease)
        → lookup k m.leases ≡ some l
        → lookup k (insert lease new m.leases) ≡ some l
    kept k l found = elim (same_cases lease k) [
      | inl same ↦ cc (ap (λ j. lookup j m.leases) same)
      | inr other ↦ rw (lookup-insert lease k new m.leases, other) found
    ]

reserving-held :
    (reserved : Assoc ℤ String) (ps : List ℤ) (lease : String)
    → reserving_lease reserved ps ≡ some lease
    → (p : ℤ) × (lookup p reserved ≡ some lease)
unfolding reserving_lease
reserving-held reserved [] lease h = cc
reserving-held reserved (q ∷ ps) lease h = elim (Option-cases (lookup q reserved)) [
  | inl free ↦ reserving-held reserved ps lease (ground arith)
  | inr (k, taken) ↦ (q, ground arith)
]

-- In a ledger where every reserved port belongs to a lease in the table, a claim with a new lease ID
-- does not panic, on any of its branches, and leaves such a ledger.
pub claim-IsLedger :
    (cand : List Binding) (label lease : String) (m : Ledger)
    → IsLedger m
    → lookup lease m.leases ≡ none
    → Returns (λ r. IsLedger r.1) (claim_port_bindings cand label (some lease) m)
unfolding claim_port_bindings
claim-IsLedger cand label lease m v fresh =
    elim (Option-cases (conflicting_server m.servers cand m.order)) [
      | inr (name, e) ↦ rw (e, claim_port_bindings) v
      | inl e ↦ elim (Option-cases (reserving_lease m.reserved (ports_of cand))) [
        | inl f ↦ rw (e, claim_port_bindings) (rw f (grant-IsLedger cand label lease m fresh v))
        | inr (k, f) ↦
            let (p, taken) = reserving-held m.reserved (ports_of cand) k f in
            let (l, found, _) = v.held p k taken in rw (e, claim_port_bindings) (rw (f, found) v)
      ]
    ]

-- What a claim of `cand` that is granted has found in the ledger `m`, and what it has made of it.
pub record IsGranted (cand : List Binding) (label lease : String) (m m' : Ledger) : Type 0 where
  pub unpublished :
      (id : String) (s : Server)
      → contains m.order id ≡ true
      → lookup id m.servers ≡ some s
      → binding_conflict (server_bindings s) cand ≡ false
  pub unreserved : (p : ℤ) → (contains (ports_of cand) p ≡ false) ⊎ (lookup p m.reserved ≡ none)
  pub held :
      (p : ℤ)
      → lookup p m'.reserved
        ≡ (if contains (ports_of cand) p then some lease else lookup p m.reserved)
  pub leased :
      (k : String)
      → lookup k m'.leases ≡ (
          if lease == k
          then some (record { label = label; ports = ports_of cand })
          else lookup k m.leases)
  pub servers : m'.servers ≡ m.servers
  pub order : m'.order ≡ m.order

-- When a claim is granted, on a panel with servers or without, no registered server publishes any of
-- its bindings; each of its ports was reserved by nobody and is now held by the new lease; every
-- other port is held as before; the table of leases has the new one with its label and ports and is
-- otherwise the same; and the servers are the same.
pub claim-granted :
    (cand : List Binding) (label lease l : String) (m m' : Ledger)
    → claim_port_bindings cand label (some lease) m ≡ some (granted l, m')
    → (l ≡ lease) × IsGranted cand label lease m m'
claim-granted cand label lease l m m' h =
    let (no_server, no_lease, own, e) = granted-inv cand label lease l m m' h in
    (
      own,
      record {
        unpublished = λ id s. no_conflict m.servers cand m.order id s no_server;
        unreserved = λ p. was_free p no_lease;
        held = λ p.
            (ap (λ (n : Ledger). lookup p n.reserved) e
              ∙ lookup-reserve lease (ports_of cand) m.reserved p);
        leased = λ k. (ap (λ (n : Ledger). lookup k n.leases) e ∙ lookup-insert lease k _ m.leases);
        servers = ap (λ (n : Ledger). n.servers) e;
        order = ap (λ (n : Ledger). n.order) e;
      },
    )
  where
    was_free :
        (p : ℤ)
        → reserving_lease m.reserved (ports_of cand) ≡ none
        → (contains (ports_of cand) p ≡ false) ⊎ (lookup p m.reserved ≡ none)
    was_free p no_lease = elim (Bool-cases (contains (ports_of cand) p)) [
      | inl mine ↦ inr (not_reserved m.reserved (ports_of cand) p no_lease mine)
      | inr other ↦ inl other
    ]
