-- ===== src/Lifecycle/Launched.antt =====
-- The last step of a start, under the lock of the manager, in `claimStart` of
-- internal/arcade/manager.go.
use teploy_arcade.Prelude.{
  nat_key, ℕ, String, ◌≡◌, refl, sym, ◌∙◌, inl, inr, Bool, true, false, not, ◌&&◌, none, some, List,
  [], ◌∷◌, arith, ◌==◌, Bool-cases, Option-cases, same_refl, same_cases, some-inj, Assoc, lookup,
  insert, lookup-insert, string_key,
}
use teploy_arcade.Text.{bytes_key}
use teploy_arcade.Lifecycle.Quiet.{put_there}
use teploy_arcade.Lifecycle.Start.{is_live, live_conflict, bind_launch, launched, claim_launch}
use teploy_arcade.Lifecycle.State.{
  Managed, Panel, put, starting, superseded, claim_not_saved, port_in_use, done, refused,
}
use teploy_arcade.Ports.Geometry.{Binding, server_bindings, binding_conflict}

only_conflict : (b : Bool) → (b && true) ≡ false → b ≡ false
only_conflict true no_clash = no_clash
only_conflict false no_clash = refl

no_live_conflict :
    (id : String) (mine : List Binding) (servers : Assoc String Managed) (other : String)
    (t : Managed)
    → live_conflict id mine servers ≡ none
    → lookup other servers ≡ some t
    → (other == id) ≡ false
    → is_live t.status ≡ true
    → binding_conflict (server_bindings t.geometry) mine ≡ false
unfolding live_conflict lookup
no_live_conflict id mine [] other t free there apart live =
    absurd (let no : none ≡ some t = there in ground arith)
no_live_conflict id mine ((name, s) ∷ servers) other t free there apart live =
    elim (Bool-cases (
      not (name == id)
      && (binding_conflict (server_bindings s.geometry) mine && is_live s.status))) [
        | inl clash ↦
            absurd (let no : some s.geometry.name ≡ none = rw clash at free in ground arith)
        | inr no_clash ↦ elim (same_cases name other) [
          | inr elsewhere ↦
              no_live_conflict id mine servers other t (rw no_clash at free) (rw elsewhere at there)
                apart live
          | inl here ↦
              let same : s ≡ t = some-inj (rw (here, same_refl other) at there) in
              let clash : (not (other == id)
                    && (binding_conflict (server_bindings t.geometry) mine && is_live t.status))
                  ≡ false =
                sym (λ i.
                  not (here i == id)
                  && (binding_conflict (server_bindings (same i).geometry) mine
                      && is_live (same i).status))
                ∙ no_clash in
              only_conflict _ (rw (apart, live) at clash)
        ]
      ]

-- The record `t` of a server whose start is let through, from its record `s` before.
pub record IsStarting (now : ℕ) (dynamic : List Binding) (s t : Managed) : Type 0 where
  pub status : t.status ≡ starting
  pub wanted : t.desired ≡ some true
  pub since : t.started_at ≡ some now
  pub settled : t.pending_restart ≡ []
  pub bound : t.geometry.bind_port ≡ s.geometry.port
  pub routed : t.geometry.dynamic ≡ dynamic
  pub port : t.geometry.port ≡ s.geometry.port
  pub protocols : t.geometry.protocols ≡ s.geometry.protocols
  pub port_span : t.geometry.port_span ≡ s.geometry.port_span
  pub extra_ports : t.geometry.extra_ports ≡ s.geometry.extra_ports
  pub generation : t.generation ≡ s.generation

-- What a start that is let through has found of the others, and what it has done.
pub record IsLaunched (id : String) (expected now : ℕ) (dynamic : List Binding) (m n : Panel)
    (s : Managed) : Type 0 where
  pub current : (not (expected == 0) && not (s.generation == expected)) ≡ false
  pub after : Managed
  pub starts : lookup id n.servers ≡ some after
  pub begun : IsStarting now dynamic s after
  pub others :
      (other : String) → (other == id) ≡ false → lookup other n.servers ≡ lookup other m.servers
  pub free :
      (other : String) (t : Managed)
      → lookup other m.servers ≡ some t
      → (other == id) ≡ false
      → is_live t.status ≡ true
      → binding_conflict (server_bindings t.geometry) (server_bindings after.geometry) ≡ false
  pub written : n.disk ≡ n.servers

launched-IsStarting :
    (now : ℕ) (dynamic : List Binding) (s : Managed)
    → IsStarting now dynamic s (launched now (bind_launch dynamic s))
launched-IsStarting now dynamic s = record {
  status = refl;
  wanted = refl;
  since = refl;
  settled = refl;
  bound = refl;
  routed = refl;
  port = refl;
  protocols = refl;
  port_span = refl;
  extra_ports = refl;
  generation = refl;
}

elsewhere :
    (id other : String) (s t : Managed) (servers : Assoc String Managed)
    → (id == other) ≡ false
    → lookup other (insert id s (insert id t servers)) ≡ lookup other servers
elsewhere id other s t servers apart =
    (lookup-insert id other s (insert id t servers) ∙ rw apart refl)
    ∙ (lookup-insert id other t servers ∙ rw apart refl)

pub claim_launch-IsLaunched :
    (id : String) (expected : ℕ) (dynamic : List Binding) (now : ℕ) (saved : Bool) (s : Managed)
    (m : Panel)
    → (claim_launch id expected dynamic now saved s m).0 ≡ done tt
    → IsLaunched id expected now dynamic m (claim_launch id expected dynamic now saved s m).1 s
unfolding claim_launch
claim_launch-IsLaunched id expected dynamic now saved s m granted =
    let s1 = bind_launch dynamic s in
    let m1 = put id s1 m in
    elim (Option-cases (live_conflict id (server_bindings s1.geometry) m1.servers)) [
      | inr (name, conflict) ↦ absurd (
          let no : refused (port_in_use name) ≡ done tt = rw (conflict, claim_launch) at granted in
          ground arith)
      | inl free ↦ elim (Bool-cases (not (expected == 0) && not (s.generation == expected))) [
        | inl stale ↦ absurd (
            let no : refused superseded ≡ done tt = rw (free, claim_launch, stale) at granted in
            ground arith)
        | inr current ↦ elim (Bool-cases saved) [
          | inr lost ↦ absurd (
              let no : refused claim_not_saved ≡ done tt =
                rw (free, claim_launch, current, lost) at granted in
              ground arith)
          | inl written ↦
              rw (free, claim_launch, current, written)
                (record {
                  current = current;
                  after = launched now s1;
                  begun = launched-IsStarting now dynamic s;
                  others = λ other apart.
                      elsewhere id other (launched now s1) s1 m.servers (different id other apart);
                  free = λ other t there apart live.
                      no_live_conflict id (server_bindings s1.geometry) m1.servers other t free
                        (lookup-insert id other s1 m.servers ∙ rw (different id other apart) there)
                        apart live;
                  starts = put_there id (launched now s1) m1;
                  written = refl;
                })
        ]
      ]
    ]
  where
    different : (a b : String) → (b == a) ≡ false → (a == b) ≡ false
    different a b apart = elim (same_cases a b) [
      | inr other ↦ other
      | inl same ↦
          absurd
            (let no : true ≡ false = sym (same_refl a) ∙ rw (sym same) at apart in ground arith)
    ]
