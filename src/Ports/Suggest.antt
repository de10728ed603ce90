-- ===== src/Ports/Suggest.antt =====
-- `NextFreePort`: the port that is suggested, and that it can be claimed.
use teploy_arcade.Prelude.{
  ℕ, zero, suc, ◌+◌, ◌-◌, ◌≤◌, ◌<◌, String, Bool, false, ◌||◌, none, some, List, [], ◌∷◌, ◌++◌, ◌≡◌,
  ◌≢◌, refl, sym, ap, ◌∙◌, inl, inr, arith, any-append, Bool-cases, Option-cases, nat_key,
  string_key, Assoc, lookup,
}
use teploy_arcade.Prelude.Int.{ℤ, pos, int_key}
use teploy_arcade.Ports.Geometry.{
  Binding, tcp, Server, server_bindings, binding_conflict, ok, candidate_bindings, candidate_span,
  candidate_extras,
}
use teploy_arcade.Ports.Ledger.{
  Ledger, conflicting_server, reserving_lease, granted, grant, claim_port_bindings, claim_port,
  occupied, both_protos, is_busy, first_free, start_port, next_free_port,
}

first_free_lem :
    (busy : ℕ → Bool) (n p q : ℕ)
    → p ≤ q
    → q < p + n
    → 0 < p
    → busy q ≡ false
    → (p ≤ first_free busy n p) × (first_free busy n p ≤ q) × (busy (first_free busy n p) ≡ false)
unfolding first_free
first_free_lem busy zero p q h k z b = absurd (omega arith)
first_free_lem busy (suc n) p q h k z b = elim (Bool-cases (busy p)) [
  | inr free ↦ rw free (omega arith, h, free)
  | inl taken ↦
      let differ : p ≢ q = λ e. cc (ap busy e) in
      let ih = first_free_lem busy n (p + 1) q (omega arith) (omega arith) (omega arith) b in
      rw taken (omega arith, ih.1, ih.2)
]

start_port_pos : (hint : ℤ) → 0 < start_port hint
start_port_pos hint = ground arith

-- If any port from the hint up to 65535 is free, the suggestion is a free port, not below the hint and
-- not above that one: the search neither gives up early nor skips a port.
pub next_free_port-least :
    (hint : ℤ) (m : Ledger) (q : ℕ)
    → start_port hint ≤ q
    → q ≤ 65535
    → is_busy m q ≡ false
    → (start_port hint ≤ next_free_port hint m)
      × (next_free_port hint m ≤ q)
      × (is_busy m (next_free_port hint m) ≡ false)
unfolding next_free_port
next_free_port-least hint m q h k b =
    first_free_lem (is_busy m) (65536 - start_port hint) (start_port hint) q h (omega arith)
      (start_port_pos hint) b

first_free_free :
    (busy : ℕ → Bool) (n p : ℕ)
    → first_free busy n p ≢ 0
    → (busy (first_free busy n p) ≡ false)
      × (p ≤ first_free busy n p)
      × (first_free busy n p < p + n)
unfolding first_free
first_free_free busy zero p h = absurd (h refl)
first_free_free busy (suc n) p h = elim (Bool-cases (busy p)) [
  | inr free ↦ rw free (free, omega arith, omega arith)
  | inl taken ↦
      let ih = first_free_free busy n (p + 1) (rw taken at h) in
      rw taken (ih.0, omega arith, omega arith)
]

abbrev pub on_tcp : ℕ → List Binding
on_tcp p = record { port = pos p; proto = tcp } ∷ []

only_tcp :
    (p : ℕ) (xs : List Binding)
    → binding_conflict xs (both_protos (pos p)) ≡ false
    → binding_conflict xs (on_tcp p) ≡ false
unfolding binding_conflict
only_tcp p [] h = refl
only_tcp p (x ∷ xs) h = ground (arith, only_tcp p xs)

conflict-append :
    (xs ys b : List Binding)
    → binding_conflict (xs ++ ys) b ≡ (binding_conflict xs b || binding_conflict ys b)
unfolding binding_conflict
conflict-append xs ys b = any-append _ xs ys

free_of_servers :
    (p : ℕ) (servers : Assoc String Server) (order : List String)
    → binding_conflict (occupied servers order) (both_protos (pos p)) ≡ false
    → conflicting_server servers (on_tcp p) order ≡ none
unfolding occupied conflicting_server
free_of_servers p servers [] h = refl
free_of_servers p servers (id ∷ order) h = elim (Option-cases (lookup id servers)) [
  | inl e ↦ rw (e, conflicting_server) (free_of_servers p servers order (rw (e, occupied) at h))
  | inr (s, e) ↦
      let split : (binding_conflict (server_bindings s) (both_protos (pos p))
            || binding_conflict (occupied servers order) (both_protos (pos p)))
          ≡ false =
        sym (conflict-append (server_bindings s) _ _) ∙ (rw (e, occupied) at h) in
      rw (e, conflicting_server)
        (rw (only_tcp p (server_bindings s) (ground arith))
          (free_of_servers p servers order (ground arith)))
]

tcp_candidate :
    (p : ℕ) → 0 < p → p ≤ 65535 → candidate_bindings (pos p) [] (pos 1) [] ≡ ok (on_tcp p)
unfolding candidate_bindings candidate_span candidate_extras
tcp_candidate p h k = ground arith

claim_free :
    (p : ℕ) (m : Ledger) (label lease : String)
    → 0 < p
    → p ≤ 65535
    → is_busy m p ≡ false
    → claim_port (pos p) label (some lease) m
      ≡ some (ok (granted lease, grant label (on_tcp p) lease m))
unfolding claim_port is_busy claim_port_bindings reserving_lease
claim_free p m label lease h k free =
    rw (tcp_candidate p h k, claim_port)
      (rw (free_of_servers p m.servers m.order (ground arith), claim_port_bindings)
        (elim (Option-cases (lookup (pos p) m.reserved)) [
          | inl e ↦ rw (e, reserving_lease)
          | inr (l, e) ↦ ground arith
        ]))

-- A suggested port (not 0) can be claimed: with fresh entropy, and no change in between, the claim is
-- granted.
pub claim_port-next_free_port :
    (hint : ℤ) (m : Ledger) (label lease : String)
    → next_free_port hint m ≢ 0
    → claim_port (pos (next_free_port hint m)) label (some lease) m
      ≡ some (ok (granted lease, grant label (on_tcp (next_free_port hint m)) lease m))
unfolding next_free_port
claim_port-next_free_port hint m label lease h =
    let p = start_port hint in
    let (free, low, high) = first_free_free (is_busy m) (65536 - p) p h in
    claim_free (next_free_port hint m) m label lease (omega (arith, start_port_pos hint))
      (omega arith) free
