-- ===== src/Lifecycle/Resume.antt =====
-- What a start of the panel brings up after a crash, in `Load` and `resume` of
-- internal/arcade/manager.go.
use teploy_arcade.Prelude.{
  String, ◌≡◌, refl, ap, ◌∙◌, inl, inr, Bool, not, ◌&&◌, Option, none, some, List, arith,
  Bool-cases, some-inj, Assoc, lookup, string_key,
}
use teploy_arcade.Text.{bytes_key}
use teploy_arcade.Lifecycle.State.{is_docker, Managed, Panel}
use teploy_arcade.Lifecycle.Quiet.{intent, IsPersisted}
use teploy_arcade.Lifecycle.Calls.{Call, run, is_failed, was_up, load_server, is_resumed, resumed}
use teploy_arcade.Lifecycle.Moves.{run-IsPersisted}

-- What resume does with a record of servers.json that has an intent.
resumed_record :
    (id : String) (disk : Assoc String Managed) (s : Managed) (want : Bool)
    → lookup id disk ≡ some s
    → s.desired ≡ some want
    → resumed id disk ≡ (want && is_docker s.runtime && not (is_failed s.status))
unfolding resumed was_up load_server is_resumed
resumed_record id disk s want there desired =
    rw (there, resumed, desired)
      (elim (Bool-cases want) [
        | inr unwanted ↦ rw unwanted refl
        | inl wanted ↦ rw wanted (elim (Bool-cases (is_failed s.status)) [
          | inl failed_run ↦ rw failed_run (ground arith)
          | inr other ↦ rw other (ground arith)
        ])
      ])

same_intent :
    (a : Option Managed) (s : Managed) (want : Bool)
    → intent a ≡ intent (some s)
    → s.desired ≡ some want
    → (d : Managed) × ((a ≡ some d) × (d.desired ≡ some want))
same_intent none s want same desired =
    absurd (let no : none ≡ some (s.desired, s.generation) = same in ground arith)
same_intent (some d) s want same desired = (d, (refl, ap (λ p. p.0) (some-inj same) ∙ desired))

-- Whatever happened since servers.json was last true, in any order and whichever saves failed, a crash
-- of the panel loses no intent: after it, a server is brought up if and only if it is to run in the
-- memory of the panel that crashed, and its record is that of a Docker server that did not fail.
pub resumed-run :
    (cs : List Call) (m : Panel) (id : String) (s : Managed) (want : Bool)
    → IsPersisted m
    → lookup id (run cs m).servers ≡ some s
    → s.desired ≡ some want
    → (d : Managed) × ((lookup id (run cs m).disk ≡ some d)
        × (resumed id (run cs m).disk ≡ (want && is_docker d.runtime && not (is_failed d.status))))
resumed-run cs m id s want persisted there desired =
    let kept : intent (lookup id (run cs m).disk) ≡ intent (some s) =
      run-IsPersisted cs m persisted id ∙ ap intent there in
    let (d, (on_disk, intended)) = same_intent (lookup id (run cs m).disk) s want kept desired in
    (d, (on_disk, resumed_record id (run cs m).disk d want on_disk intended))
