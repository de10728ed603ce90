-- ===== src/Lifecycle/Claims.antt =====
-- When a start is let through, in `claimStart` of internal/arcade/manager.go.
use teploy_arcade.Prelude.{
  nat_key, ℕ, String, ◌≡◌, refl, sym, ap, ◌∙◌, inl, inr, Bool, true, false, not, ◌&&◌, none, some,
  List, arith, if◌then◌else◌, ◌==◌, Bool-cases, Option-cases, some-inj, lookup, string_key,
}
use teploy_arcade.Text.{bytes_key}
use teploy_arcade.Lifecycle.Intents.{registered_cases}
use teploy_arcade.Lifecycle.Start.{
  circuit_open, claim_launch, refusal_in, claim_start, start_commit,
}
use teploy_arcade.Lifecycle.State.{
  Status, Managed, Panel, is_down, require_registered, stopped, starting, running, stopping, failed,
  no_such_server, superseded, circuit_is_open, docker_unreachable, done, refused,
}
use teploy_arcade.Ports.Geometry.{Binding}
use teploy_arcade.Lifecycle.Launched.{IsLaunched, claim_launch-IsLaunched}

-- What it has found of the server itself.
pub record IsStartable (id : String) (now : ℕ) (m : Panel) (s : Managed) : Type 0 where
  pub there : lookup id m.servers ≡ some s
  pub down : is_down s.status ≡ true
  pub closed : circuit_open now s ≡ false

tried :
    (id : String) (expected : ℕ) (dynamic : List Binding) (now : ℕ) (saved : Bool) (s : Managed)
    (m : Panel)
    → lookup id m.servers ≡ some s
    → is_down s.status ≡ true
    → (let r = claim_launch id expected dynamic now saved s m in
        let r' = if circuit_open now s then (refused circuit_is_open, m) else r in
        r'.0 ≡ done tt → IsStartable id now m s × IsLaunched id expected now dynamic m r'.1 s)
tried id expected dynamic now saved s m there down granted =
    elim (Bool-cases (circuit_open now s)) [
      | inl broken ↦
          absurd (let no : refused circuit_is_open ≡ done tt = rw broken at granted in ground arith)
      | inr closed ↦ rw closed (
        record { there = there; down = down; closed = closed },
        claim_launch-IsLaunched id expected dynamic now saved s m (rw closed at granted),
      )
    ]

may_start-IsDown : (status : Status) → refusal_in status ≡ none → is_down status ≡ true
unfolding refusal_in
may_start-IsDown stopped may_start = refl
may_start-IsDown failed may_start = refl
may_start-IsDown running may_start = absurd (ground arith)
may_start-IsDown starting may_start = absurd (ground arith)
may_start-IsDown stopping may_start = absurd (ground arith)

claim_start-IsLaunched :
    (id : String) (expected : ℕ) (dynamic : List Binding) (now : ℕ) (saved : Bool) (m : Panel)
    → (claim_start id expected (some dynamic) now saved m).0 ≡ done tt
    → (s : Managed) × (IsStartable id now m s
        × IsLaunched id expected now dynamic m
            (claim_start id expected (some dynamic) now saved m).1
            s)
unfolding claim_start
claim_start-IsLaunched id expected dynamic now saved m granted =
    elim (Option-cases (lookup id m.servers)) [
      | inl away ↦ absurd (
          let no : refused no_such_server ≡ done tt = rw (away, claim_start) at granted in
          ground arith)
      | inr (s, there) ↦ elim (Option-cases (refusal_in s.status)) [
        | inr (why, no_start) ↦ absurd (
            let no : refused why ≡ done tt = rw (there, claim_start, no_start) at granted in
            ground arith)
        | inl may_start ↦ (
          s,
          rw (there, claim_start, may_start)
              (tried id expected dynamic now saved s m there (may_start-IsDown s.status may_start)
                (rw (there, claim_start, may_start) at granted)),
        )
      ]
    ]

-- A start is let through only for a registered server that needs no recovery, is down, failed too
-- seldom for the breaker, has the intent that the start was asked for under, and shares no port with
-- another server that is up. Its record is then starting since now, wanted up, under the same intent
-- and ports, bound to its own port, with the ports of the launch; the other servers are as they were, and
-- servers.json holds the records of the memory.
pub start_commit-granted :
    (reachable : Bool) (id : String) (expected : ℕ) (dynamic : List Binding) (now : ℕ)
    (saved : Bool) (m : Panel)
    → (start_commit reachable id expected (some dynamic) now saved m).0 ≡ done tt
    → (s : Managed) × ((require_registered id m ≡ done s)
        × (IsStartable id now m s
            × IsLaunched id expected now dynamic m
                (start_commit reachable id expected (some dynamic) now saved m).1
                s))
unfolding start_commit
start_commit-granted reachable id expected dynamic now saved m granted =
    elim (Bool-cases reachable) [
      | inr away ↦ elim (registered_cases id m) [
        | inl (why, no_server) ↦ absurd (
            let no : refused docker_unreachable ≡ done tt =
              rw (no_server, start_commit, away) at granted in
            ground arith)
        | inr (s, (there, found)) ↦ absurd (
            let no : refused docker_unreachable ≡ done tt =
              rw (found, start_commit, away) at granted in
            ground arith)
      ]
      | inl answered ↦ elim (registered_cases id m) [
        | inl (why, no_server) ↦ absurd (
            let no : refused why ≡ done tt = rw (no_server, start_commit, answered) at granted in
            ground arith)
        | inr (s, (there, found)) ↦
            elim (Bool-cases (not (expected == 0) && not (s.generation == expected))) [
              | inl stale ↦ absurd (
                  let no : refused superseded ≡ done tt =
                    rw (found, start_commit, answered, stale) at granted in
                  ground arith)
              | inr current ↦
                  let (t, (startable, launch)) =
                    claim_start-IsLaunched id expected dynamic now saved m
                      (rw (found, start_commit, answered, current) at granted) in
                  let same : t ≡ s = some-inj (sym startable.there ∙ there) in
                  (
                    t,
                    (
                      found ∙ ap done (sym same),
                      (startable, rw (found, start_commit, answered, current) launch),
                    ),
                  )
            ]
      ]
    ]
