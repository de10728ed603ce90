-- ===== src/Ports/Geometry.antt =====
-- Port bindings, and how a server's or a template's geometry expands to them: `parseBindingNumber`,
-- `serverBindingsLocked`, `bindingConflict` and `candidateBindings` of internal/arcade/manager.go.
use teploy_arcade.Prelude.{
  Bytes, ℕ, zero, suc, String, Bool, not, ◌&&◌, ◌||◌, List, [], ◌∷◌, ◌++◌, map, any, if◌then◌else◌,
  ◌==◌, nat_key, string_key,
}
use teploy_arcade.Prelude.Int.{ℤ, pos, ◌+ℤ◌, ltb_ℤ, pos_part, int_key}
use teploy_arcade.Text.{atoi, cut_at, to_lower, bytes_key}

pub record Binding : Type 0 where
  pub port : ℤ
  pub proto : Bytes

abbrev pub tcp : Bytes
tcp = 116 ∷ 99 ∷ 112 ∷ []

abbrev pub udp : Bytes
udp = 117 ∷ 100 ∷ 112 ∷ []

-- A port specification such as "19132/udp".
unfoldable pub parse_binding_number : Bytes → ℤ × Bytes
parse_binding_number spec =
    let (p, proto) = cut_at 47 spec in (atoi p, to_lower (if proto == [] then tcp else proto))

-- What the ledger reads of a server.
pub record Server : Type 0 where
  pub name : String
  pub port : ℤ
  pub bind_port : ℤ
  pub protocols : List Bytes
  pub port_span : ℤ
  pub extra_ports : List Bytes
  pub dynamic : List Binding

abbrev pub protos_or_tcp : List Bytes → List Bytes
protos_or_tcp [] = tcp ∷ []
protos_or_tcp (p ∷ ps) = p ∷ ps

-- The number of rounds of a loop over a span.
abbrev pub span_count : ℤ → ℕ
span_count span = if ltb_ℤ span (pos 1) then 1 else pos_part span

abbrev pub on_port : ℤ → List Bytes → List Binding
on_port p = map (λ pr. record { port = p; proto = pr })

unfoldable pub span_bindings : ℕ → ℤ → List Bytes → List Binding
span_bindings zero p protos = []
span_bindings (suc n) p protos =
    let rest = on_port p protos ++ span_bindings n (p +ℤ pos 1) protos in
    if ltb_ℤ (pos 65535) p then [] else rest

unfoldable pub extra_bindings : List Bytes → List Binding
extra_bindings [] = []
extra_bindings (spec ∷ specs) =
    let (n, pr) = parse_binding_number spec in
    let rest = extra_bindings specs in
    if ltb_ℤ (pos 0) n then record { port = n; proto = pr } ∷ rest else rest

-- The closure `build` of `serverBindingsLocked`.
unfoldable pub build : Server → ℤ → List Binding
build s base =
    span_bindings (span_count s.port_span) base (protos_or_tcp s.protocols)
    ++ extra_bindings s.extra_ports

unfoldable pub server_bindings : Server → List Binding
server_bindings s =
    (if ltb_ℤ (pos 0) s.bind_port && not (s.bind_port == s.port) then build s s.bind_port else [])
    ++ (build s s.port ++ s.dynamic)

abbrev pub same_binding : Binding → Binding → Bool
same_binding x y = x.port == y.port && x.proto == y.proto

unfoldable pub binding_conflict : List Binding → List Binding → Bool
unfolding any
binding_conflict a b = any (λ x. any (same_binding x) b) a

pub data PortError : Type 0 where
  span_out_of_range : ℤ → PortError
  extra_out_of_range : Bytes → PortError

pub data Result {ℓ} (A : Type ℓ) : Type ℓ where
  ok : A → Result A
  err : PortError → Result A

abbrev pub prepend : List Binding → Result (List Binding) → Result (List Binding)
prepend bs (ok rest) = ok (bs ++ rest)
prepend bs (err e) = err e

abbrev pub out_of_range : ℤ → Bool
out_of_range p = ltb_ℤ p (pos 1) || ltb_ℤ (pos 65535) p

unfoldable pub candidate_extras : List Bytes → Result (List Binding)
candidate_extras [] = ok []
candidate_extras (spec ∷ specs) =
    let (n, pr) = parse_binding_number spec in
    let rest = candidate_extras specs in
    if out_of_range n
    then err (extra_out_of_range spec)
    else prepend (record { port = n; proto = pr } ∷ []) rest

unfoldable pub candidate_span : ℕ → ℤ → List Bytes → Result (List Binding) → Result (List Binding)
candidate_span zero p protos extras = extras
candidate_span (suc n) p protos extras =
    let rest = candidate_span n (p +ℤ pos 1) protos extras in
    if out_of_range p then err (span_out_of_range p) else prepend (on_port p protos) rest

unfoldable pub candidate_bindings : ℤ → List Bytes → ℤ → List Bytes → Result (List Binding)
candidate_bindings base protos span extras =
    candidate_span (span_count span) base (protos_or_tcp protos) (candidate_extras extras)
