-- ===== src/Ports/Release.antt =====
-- What a release does to the ledger.
use teploy_arcade.Prelude.{
  some-inj, ◌∙◌, sym, remove, ap, String, true, false, Option, none, some, List, [], ◌∷◌, ◌≡◌, refl,
  inl, inr, arith, contains, Bool-cases, Option-cases, same_cases, if◌then◌else◌, ◌==◌, nat_key,
  string_key, same_refl, Assoc, lookup, insert, lookup-insert, lookup-remove,
}
use teploy_arcade.Prelude.Int.{ℤ, int_key}
use teploy_arcade.Ports.Geometry.{Binding}
use teploy_arcade.Ports.Ledger.{
  release_reservation, ports_of, granted, grant, claim_port_bindings, PortLease, Ledger,
  reserving_lease, reserve, release_one, release_ports,
}
use teploy_arcade.Ports.Claims.{IsLedger, lookup-reserve, not_reserved, granted-inv}

abbrev drop_if : String → Option String → Option String
drop_if lease none = none
drop_if lease (some holder) = if holder == lease then none else some holder

lookup-release_one :
    (lease : String) (q p : ℤ) (reserved : Assoc ℤ String)
    → lookup p (release_one lease q reserved)
      ≡ (if q == p then drop_if lease (lookup p reserved) else lookup p reserved)
lookup-release_one lease q p reserved = elim (same_cases q p) [
  | inl same ↦ rw (← same, same_refl q) (at_port (lookup q reserved) refl)
  | inr other ↦ rw other (elsewhere other (lookup q reserved) refl)
]
  where
    at_port :
        (o : Option String)
        → lookup q reserved ≡ o
        → lookup q (release_one lease q reserved) ≡ drop_if lease (lookup q reserved)
    at_port none e = unfold release_one in rw (e, release_one) e
    at_port (some holder) e = elim (Bool-cases (holder == lease)) [
      | inl own ↦
          unfold release_one in
          rw (e, release_one, own) (rw (lookup-remove q q reserved, same_refl q))
      | inr foreign ↦ unfold release_one in rw (e, release_one, foreign) e
    ]

    elsewhere :
        (q == p) ≡ false
        → (o : Option String) → lookup q reserved ≡ o
        → lookup p (release_one lease q reserved) ≡ lookup p reserved
    elsewhere other none e = unfold release_one in rw (e, release_one)
    elsewhere other (some holder) e = elim (Bool-cases (holder == lease)) [
      | inl own ↦
          unfold release_one in rw (e, release_one, own) (rw (lookup-remove q p reserved, other))
      | inr foreign ↦ unfold release_one in rw (e, release_one, foreign)
    ]

lookup-release_ports :
    (lease : String) (ps : List ℤ) (reserved : Assoc ℤ String) (p : ℤ)
    → lookup p (release_ports lease ps reserved)
      ≡ (if contains ps p then drop_if lease (lookup p reserved) else lookup p reserved)
unfolding release_ports contains
lookup-release_ports lease [] reserved p = refl
lookup-release_ports lease (q ∷ ps) reserved p = ground (
  arith,
  lookup-release_ports lease ps (release_one lease q reserved) p,
  lookup-release_one lease q p reserved,
)

release-grant :
    (cand : List Binding) (label lease : String) (m : Ledger)
    → release_reservation lease (grant label cand lease m) ≡ record m {
      reserved = release_ports lease (ports_of cand) (reserve lease (ports_of cand) m.reserved);
      leases =
          remove lease (insert lease (record { label = label; ports = ports_of cand }) m.leases);
    }
unfolding release_reservation
release-grant cand label lease m = rw (
  lookup-insert lease lease (record { label = label; ports = ports_of cand }) m.leases,
  same_refl lease,
  release_reservation,
)

-- A granted claim that is released leaves every port, and every lease, as they were before the claim.
pub release-claim :
    (cand : List Binding) (label lease l : String) (m m' : Ledger) (p : ℤ) (k : String)
    → IsLedger m
    → lookup lease m.leases ≡ none
    → claim_port_bindings cand label (some lease) m ≡ some (granted l, m')
    → (lookup p (release_reservation l m').reserved ≡ lookup p m.reserved)
      × (lookup k (release_reservation l m').leases ≡ lookup k m.leases)
release-claim cand label lease l m m' p k v fresh h =
    let (_, no_lease, own, e) = granted-inv cand label lease l m m' h in
    rw (own, e, release-grant cand label lease m) (ports_back no_lease, leases_back)
  where
    ps : List ℤ
    ps = ports_of cand

    ports_back :
        reserving_lease m.reserved ps ≡ none
        → lookup p (release_ports lease ps (reserve lease ps m.reserved)) ≡ lookup p m.reserved
    ports_back no_lease = elim (Bool-cases (contains ps p)) [
      | inl mine ↦
          rw
            (
              lookup-release_ports lease ps (reserve lease ps m.reserved) p,
              mine,
              lookup-reserve lease ps m.reserved p,
              mine,
              same_refl lease,
            )
            (sym (not_reserved m.reserved ps p no_lease mine))
      | inr other ↦ rw (
        lookup-release_ports lease ps (reserve lease ps m.reserved) p,
        other,
        lookup-reserve lease ps m.reserved p,
        other,
      )
    ]

    leases_back :
        lookup k (remove lease (insert lease (record { label = label; ports = ps }) m.leases))
        ≡ lookup k m.leases
    leases_back = elim (same_cases lease k) [
      | inl same ↦
          rw
            (
              ← same,
              lookup-remove lease lease
                  (insert lease (record { label = label; ports = ps }) m.leases),
              same_refl lease,
            )
            (sym fresh)
      | inr other ↦ rw (
        lookup-remove lease k (insert lease (record { label = label; ports = ps }) m.leases),
        other,
        lookup-insert lease k (record { label = label; ports = ps }) m.leases,
        other,
      )
    ]

-- What is still reserved after a release was reserved before it.
still :
    (lease : String) (ps : List ℤ) (reserved : Assoc ℤ String) (p : ℤ) (k : String)
    → lookup p (release_ports lease ps reserved) ≡ some k
    → lookup p reserved ≡ some k
still lease ps reserved p k h = ground (arith, lookup-release_ports lease ps reserved p)

gone :
    (lease : String) (ps : List ℤ) (reserved : Assoc ℤ String) (p : ℤ)
    → contains ps p ≡ true
    → lookup p reserved ≡ some lease
    → lookup p (release_ports lease ps reserved) ≡ none
gone lease ps reserved p mine held =
    rw (lookup-release_ports lease ps reserved p, mine, held, same_refl lease)

-- Releasing any lease, known or not, keeps every reserved port a port of a lease in the table.
pub release-IsLedger :
    (lease : String) (m : Ledger) → IsLedger m → IsLedger (release_reservation lease m)
unfolding release_reservation
release-IsLedger lease m v = elim (Option-cases (lookup lease m.leases)) [
  | inl unknown ↦ rw (unknown, release_reservation) v
  | inr (l, known) ↦ rw (known, release_reservation) (record { held = released l known })
]
  where
    released :
        (l : PortLease)
        → lookup lease m.leases ≡ some l
        → (p : ℤ) (k : String) → lookup p (release_ports lease l.ports m.reserved) ≡ some k
        → (j : PortLease) × (lookup k (remove lease m.leases) ≡ some j)
          × (contains j.ports p ≡ true)
    released l known p k e = elim (same_cases lease k) [
      | inl same ↦
          let mine : lookup p m.reserved ≡ some lease =
            still lease l.ports m.reserved p k e ∙ ap some (sym same) in
          let (j, found, holds) = v.held p lease mine in
          let in_l : contains l.ports p ≡ true =
            ap (λ (i : PortLease). contains i.ports p) (some-inj (sym known ∙ found)) ∙ holds in
          cc (gone lease l.ports m.reserved p in_l mine, e)
      | inr other ↦
          let (j, found, holds) = v.held p k (still lease l.ports m.reserved p k e) in
          (j, rw (lookup-remove lease k m.leases, other) found, holds)
    ]
