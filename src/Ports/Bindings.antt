-- ===== src/Ports/Bindings.antt =====
-- What the expansion of a geometry promises.
use teploy_arcade.Prelude.{
  Bytes, ℕ, zero, suc, true, false, not, ◌&&◌, List, [], ◌∷◌, ◌++◌, ◌≡◌, refl, ◌↔◌, ◌⊎◌, inl, inr,
  arith, any, All, contains, Bool-cases, ◌==◌, Key, nat_key,
}
use mathlib.Core.List.{append_assoc}
use teploy_arcade.Prelude.Int.{ℤ, pos, ◌+ℤ◌, ◌≤ℤ◌, ltb_ℤ, ℤ_beq_iff, int_key}
use teploy_arcade.Text.{bytes_key, bytes_beq_iff}
use teploy_arcade.Ports.Geometry.{
  Binding, Server, parse_binding_number, protos_or_tcp, span_count, on_port, span_bindings,
  extra_bindings, build, server_bindings, same_binding, binding_conflict, PortError, Result, ok,
  err, prepend, candidate_extras, candidate_span, candidate_bindings, out_of_range,
}

pub same_binding_iff : (x y : Binding) → (same_binding x y ≡ true) ↔ (x ≡ y)
same_binding_iff x y = ground (arith, ℤ_beq_iff x.port y.port, bytes_beq_iff x.proto y.proto)

instance abbrev pub binding_key : Key Binding
binding_key = record { same = same_binding; same_iff = same_binding_iff }

Result-cases :
    (r : Result (List Binding))
    → ((c : List Binding) × (r ≡ ok c)) ⊎ ((e : PortError) × (r ≡ err e))
Result-cases (ok c) = inl (c, refl)
Result-cases (err e) = inr (e, refl)

-- The bindings of the extra ports are those that the server publishes.
extras-agree :
    (specs : List Bytes) (c : List Binding)
    → candidate_extras specs ≡ ok c
    → extra_bindings specs ≡ c
unfolding candidate_extras extra_bindings
extras-agree [] c h = ground arith
extras-agree (spec ∷ specs) c h = elim (Result-cases (candidate_extras specs)) [
  | inl (d, e) ↦ ground (arith, extras-agree specs d e)
  | inr (x, e) ↦ ground arith
]

span-agree :
    (n : ℕ) (p : ℤ) (protos specs : List Bytes) (c : List Binding)
    → candidate_span n p protos (candidate_extras specs) ≡ ok c
    → span_bindings n p protos ++ extra_bindings specs ≡ c
unfolding candidate_span span_bindings
span-agree zero p protos specs c h = extras-agree specs c h
span-agree (suc n) p protos specs c h =
    elim (Result-cases (candidate_span n (p +ℤ pos 1) protos (candidate_extras specs))) [
      | inl (d, e) ↦
          let ih = span-agree n (p +ℤ pos 1) protos specs d e in
          let split =
            append_assoc (on_port p protos) (span_bindings n (p +ℤ pos 1) protos)
              (extra_bindings specs) in
          ground (arith, ih, split)
      | inr (x, e) ↦ ground arith
    ]

-- A server that is registered at a candidate port with the template's protocols, span and extra ports,
-- and whose container is bound to no other port, publishes exactly the bindings that admission checked
-- (and what its runtime added).
pub server-candidate_bindings :
    (s : Server) (c : List Binding)
    → (ltb_ℤ (pos 0) s.bind_port && not (s.bind_port == s.port)) ≡ false
    → candidate_bindings s.port s.protocols s.port_span s.extra_ports ≡ ok c
    → server_bindings s ≡ c ++ s.dynamic
unfolding server_bindings build candidate_bindings
server-candidate_bindings s c bound h = rw bound (
    ground (
      arith,
      span-agree (span_count s.port_span) s.port (protos_or_tcp s.protocols) s.extra_ports c h,
    ))

abbrev pub InRange : Binding → Type 0
InRange b = (pos 1 ≤ℤ b.port) × (b.port ≤ℤ pos 65535)

InRange-append :
    (front back : List Binding) → All InRange front → All InRange back → All InRange (front ++ back)
InRange-append [] back _ later = later
InRange-append (b ∷ front) back now later = (now.0, InRange-append front back now.1 later)

on_port-InRange :
    (p : ℤ) (protos : List Bytes) → out_of_range p ≡ false → All InRange (on_port p protos)
on_port-InRange p [] h = tt
on_port-InRange p (pr ∷ protos) h = (ground arith, on_port-InRange p protos h)

-- What admission may hand on: an error, or bindings whose ports are all real ports.
abbrev pub Checked : Result (List Binding) → Type 0
Checked (ok c) = All InRange c
Checked (err e) = Unit

prepend-Checked :
    (bs : List Binding) (r : Result (List Binding))
    → All InRange bs
    → Checked r
    → Checked (prepend bs r)
prepend-Checked bs (ok c) h k = InRange-append bs c h k
prepend-Checked bs (err e) h k = tt

extras-Checked : (specs : List Bytes) → Checked (candidate_extras specs)
unfolding candidate_extras
extras-Checked [] = tt
extras-Checked (spec ∷ specs) = elim (Bool-cases (out_of_range (parse_binding_number spec).0)) [
  | inl out ↦ rw out tt
  | inr within ↦ rw within (
      prepend-Checked (on_port (parse_binding_number spec).0 ((parse_binding_number spec).1 ∷ []))
        (candidate_extras specs) (ground arith, tt) (extras-Checked specs))
]

span-Checked :
    (n : ℕ) (p : ℤ) (protos : List Bytes) (extras : Result (List Binding))
    → Checked extras
    → Checked (candidate_span n p protos extras)
unfolding candidate_span
span-Checked zero p protos extras h = h
span-Checked (suc n) p protos extras h = elim (Bool-cases (out_of_range p)) [
  | inl out ↦ rw out tt
  | inr within ↦ rw within (
      prepend-Checked (on_port p protos) _ (on_port-InRange p protos within)
        (span-Checked n (p +ℤ pos 1) protos extras h))
]

-- Whatever the geometry and the base port, admission gives an error or bindings whose ports all lie
-- from 1 to 65535.
pub candidate_bindings-Checked :
    (base : ℤ) (protos : List Bytes) (span : ℤ) (extras : List Bytes)
    → Checked (candidate_bindings base protos span extras)
unfolding candidate_bindings
candidate_bindings-Checked base protos span extras =
    span-Checked (span_count span) base (protos_or_tcp protos) (candidate_extras extras)
      (extras-Checked extras)

any_same : (x : Binding) (ys : List Binding) → any (same_binding x) ys ≡ true ↔ contains ys x ≡ true
unfolding any contains
any_same x [] = ground arith
any_same x (y ∷ ys) = ground (arith, any_same x ys, same_binding_iff x y, same_binding_iff y x)

conflict_of_shared :
    (a b : List Binding) (x : Binding)
    → contains a x ≡ true
    → contains b x ≡ true
    → binding_conflict a b ≡ true
unfolding binding_conflict contains
conflict_of_shared [] b x h k = cc
conflict_of_shared (y ∷ a) b x h k =
    ground (arith, same_binding_iff y x, any_same x b, conflict_of_shared a b x)

shared_of_conflict :
    (a b : List Binding)
    → binding_conflict a b ≡ true
    → (x : Binding) × (contains a x ≡ true) × (contains b x ≡ true)
unfolding binding_conflict contains
shared_of_conflict [] b h = cc
shared_of_conflict (y ∷ a) b h = elim (Bool-cases (any (same_binding y) b)) [
  | inl here ↦ (y, ground (arith, same_binding_iff y y), (any_same y b).0 here)
  | inr away ↦ let (x, p, q) = shared_of_conflict a b (ground arith) in (x, ground (arith, p), q)
]

-- Two lists of bindings are in conflict exactly when some binding, port and protocol, is in both.
pub binding_conflict_iff :
    (a b : List Binding)
    → (binding_conflict a b ≡ true)
      ↔ ((x : Binding) × (contains a x ≡ true) × (contains b x ≡ true))
binding_conflict_iff a b = (shared_of_conflict a b, λ s. conflict_of_shared a b s.0 s.1 s.2)
