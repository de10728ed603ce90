-- ===== src/Restore/Outcome.antt =====
-- How a restore ends, in `RestoreBackup` of internal/arcade/backup.go.
use teploy_arcade.Prelude.{
  ℕ, suc, ◌+◌, String, ◌≡◌, refl, sym, ap, ◌∙◌, ◌⊎◌, inl, inr, true, false, none, List, [], ◌∷◌,
  ◌==◌, Bool-cases, Option-cases, same_refl, same_cases, All, contains, members-All, lookup,
  lookup-insert, keys, string_key,
}
use teploy_arcade.Text.{bytes_key}
use teploy_arcade.Restore.Disk.{
  Meta, Phase, Disk, Fate, evacuate, install, write_journal, each_name, evacuating, installing,
}
use teploy_arcade.Restore.Safe.{Away, IsSafe, IsOut, each_name-keeps, install-IsOut}
use teploy_arcade.Restore.Undo.{weaken}
use teploy_arcade.Restore.Rollback.{SameRest, Undoable, roll_back-IsRecoverable}
use teploy_arcade.Restore.Swap.{done_names, install_world}
use teploy_arcade.Restore.Ends.{
  Ends, after_rollback-Ends, the_journal, Noted, rest-Noted, evacuating-Recoverable,
  installing-Recoverable, finish_restore-Ends,
}
use teploy_arcade.Restore.Install.{installed}

module _ {C : Type 0} where
  pub evacuate_rest :
      (name : String) (d : Disk C)
      → SameRest d (evacuate name d) × ((evacuate name d).extracted ≡ d.extracted)
  unfolding evacuate
  evacuate_rest name d = elim (Option-cases (lookup name d.live)) [
    | inl away ↦ rw (away, evacuate) ((refl, refl, refl), refl)
    | inr (c, there) ↦ rw (there, evacuate) ((refl, refl, refl), refl)
  ]

  install_rest : (name : String) (d : Disk C) → SameRest d (install name d)
  unfolding install
  install_rest name d = elim (Option-cases (lookup name d.extracted)) [
    | inl away ↦ rw (away, install) (refl, refl, refl)
    | inr (c, there) ↦ rw (there, install) (refl, refl, refl)
  ]

  install-live_other :
      (name n : String) (d : Disk C)
      → (name == n) ≡ false
      → lookup n (install name d).live ≡ lookup n d.live
  unfolding install
  install-live_other name n d other = elim (Option-cases (lookup name d.extracted)) [
    | inl away ↦ rw (away, install) refl
    | inr (c, there) ↦ rw (there, install) (lookup-insert name n c d.live ∙ rw other refl)
  ]

  -- What stands in the directory was installed.
  only_done :
      (fate : Fate) (names : List String) (k : ℕ) (d : Disk C) (n : String)
      → lookup n d.live ≡ none
      → (contains (done_names fate names k) n ≡ true)
        ⊎ ((contains (done_names fate names k) n ≡ false)
            × (lookup n (each_name fate install names k d).2.live ≡ none))
  unfolding done_names each_name contains
  only_done fate [] k d n free = inr (refl, free)
  only_done fate (name ∷ names) k d n free = elim (Bool-cases (fate.goes k)) [
    | inr stops ↦ rw stops (inr (refl, free))
    | inl goes ↦
        rw (goes, contains)
          (elim (same_cases name n) [
            | inl same ↦ rw (same, same_refl n) (inl refl)
            | inr other ↦ rw other (
                only_done fate names (suc k) (install name d) n
                  (install-live_other name n d other ∙ free))
          ])
  ]

module _ {C : Type 0} (fate : Fate) (new_meta : Meta) (d : Disk C) where
  abbrev Out : Disk C → Type 0
  Out e = IsOut d.live (keys d.extracted) e × Noted new_meta d installing e

  install-Out :
      (names : List String) (k : ℕ) (e : Disk C)
      → All (λ name. contains (keys d.extracted) name ≡ true) names
      → Out e
      → Out (each_name fate install names k e).2
  install-Out names k e listed out =
      each_name-keeps Out (λ name. contains (keys d.extracted) name ≡ true) install
        (λ name x new (away, noted). (
          install-IsOut d.live (keys d.extracted) name x new away,
          rest-Noted new_meta d installing x (install name x) (install_rest name x) noted,
        ))
        fate names k e listed out

  undo_done :
      (names : List String) (k : ℕ) (e : Disk C)
      → ((n : String) → lookup n e.live ≡ none)
      → IsOut d.live (keys d.extracted) (each_name fate install names k e).2
      → Undoable d.live d.meta
          (the_journal new_meta d installing)
          (done_names fate names k)
          (each_name fate install names k e).2
  undo_done names k e free out n = elim (only_done fate names k e n (free n)) [
    | inl listed ↦ inl (listed, out n)
    | inr (unlisted, gone) ↦ inr (unlisted, inr ((out n).0, inl gone))
  ]

  pub undo_none :
      (phase : Phase) (e : Disk C)
      → IsSafe d.live [] e
      → Undoable d.live d.meta (the_journal new_meta d phase) [] e
  unfolding contains
  undo_none phase e safe n = inr (refl, safe n)

  -- The new world is moved in, once the old one is out.
  pub install_world-Ends :
      (k : ℕ) (e : Disk C)
      → (e.extracted ≡ d.extracted)
      → ((n : String) → Away d.live [] e n × (lookup n e.live ≡ none))
      → Noted new_meta d evacuating e
      → Ends new_meta d (install_world fate (the_journal new_meta d evacuating) new_meta k e)
  unfolding install_world
  install_world-Ends k e same out noted =
      let j = the_journal new_meta d installing in
      let logged = write_journal j e in
      let safe : IsSafe d.live [] e = (λ n. inr (out n).0) in
      let safe_logged =
        installing-Recoverable new_meta d logged (weaken d.live d.meta (keys d.extracted) e safe)
          refl noted.2 in
      let undo_logged = after_rollback-Ends new_meta d _ (
        roll_back-IsRecoverable d.live d.meta j fate [] (2 + k) logged ((λ n. refl), refl) noted.1
          safe_logged (undo_none installing e safe)) in
      elim (Bool-cases (fate.goes k)) [
        | inr fails ↦ rw fails (elim (Bool-cases (fate.lands k)) [
          | inl lands ↦ rw lands undo_logged
          | inr lost ↦ rw lost (
              after_rollback-Ends new_meta d _ (
                roll_back-IsRecoverable d.live d.meta j fate [] (2 + k) e ((λ n. refl), refl)
                  noted.1 (evacuating-Recoverable new_meta d e safe noted)
                  (undo_none installing e safe)))
        ])
        | inl first ↦ rw first (elim (Bool-cases (fate.goes (suc k))) [
          | inr fails ↦ rw fails undo_logged
          | inl second ↦ rw second (
              let names = keys e.extracted in
              let r = each_name fate install names (2 + k) logged in
              let (away, noted') =
                install-Out names (2 + k) logged
                  (members-All _ names
                    (λ name listed. sym (ap (λ x. contains (keys x) name) same) ∙ listed))
                  ((λ n. ((out n).0.0, inl (out n).1)), (refl, noted.1, noted.2)) in
              elim (Bool-cases r.0) [
                | inr stopped ↦ rw stopped (
                    after_rollback-Ends new_meta d _ (
                      roll_back-IsRecoverable d.live d.meta j fate (done_names fate names (2 + k))
                        r.1 r.2 ((λ n. refl), refl) noted'.1
                        (installing-Recoverable new_meta d r.2 (λ n. inr (away n)) noted'.0
                          noted'.2)
                        (undo_done names (2 + k) logged (λ n. (out n).1) away)))
                | inl went ↦ rw went (
                    finish_restore-Ends new_meta d fate r.1 r.2 away noted' (
                      installed d.extracted fate (2 + k) logged (λ n. ap (lookup n) same)
                        (λ n. (out n).1) went))
              ])
        ])
      ]
