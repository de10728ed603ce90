-- ===== src/Restore/Crash.antt =====
-- A restore in `RestoreBackup` of internal/arcade/backup.go, and the starts of the panel after it that
-- recover it, in internal/arcade/manager.go.
use teploy_arcade.Prelude.{
  suc, String, ◌≡◌, refl, ◌∙◌, inl, inr, not, [], if◌then◌else◌, Bool-cases, members-All, lookup,
  keys, string_key,
}
use teploy_arcade.Text.{bytes_key}
use teploy_arcade.Restore.Disk.{
  Meta, Journal, Disk, Fate, evacuate, write_journal, each_name, evacuating,
}
use teploy_arcade.Restore.Safe.{IsSafe, each_name-keeps, evacuate-IsSafe}
use teploy_arcade.Restore.World.{Recoverable}
use teploy_arcade.Restore.Over.{old_same, IsBack}
use teploy_arcade.Restore.Rollback.{roll_back-IsRecoverable}
use teploy_arcade.Restore.Outcome.{evacuate_rest, undo_none, install_world-Ends}
use teploy_arcade.Restore.Swap.{roll_back, after_rollback, install_world, swap, kept}
use teploy_arcade.Restore.Ends.{
  IsFresh, Ends, after_rollback-Ends, the_journal, Noted, rest-Noted, evacuating-Recoverable,
}
use teploy_arcade.Restore.Install.{evacuated}

module _ {C : Type 0} (fate : Fate) (new_meta : Meta) (d : Disk C) where
  fresh-IsSafe : IsFresh d → IsSafe d.live [] d
  unfolding lookup
  fresh-IsSafe fresh n = inl (fresh.empty n, refl)

  fresh-Recoverable : IsFresh d → Recoverable d.live d.meta d × IsBack d.live d.meta d
  fresh-Recoverable fresh = (
    record {
      safe = rw fresh.unlogged (fresh-IsSafe fresh);
      books = record {
        logged = rw fresh.unlogged tt;
        modelled = rw fresh.unlogged refl;
        unmarked = fresh.unmarked;
      };
    },
    record { world = λ n. refl; emptied = fresh.empty; old = old_same d.meta d.meta refl },
  )

  -- A first journal, of which nothing is read but the model.
  logged-Recoverable :
      (j : Journal)
      → (j.phase ≡ evacuating)
      → (j.old ≡ d.meta)
      → IsFresh d
      → Recoverable d.live d.meta (write_journal j d) × IsBack d.live d.meta (write_journal j d)
  logged-Recoverable j phase old fresh = (
    record {
      safe = rw phase (fresh-IsSafe fresh);
      books = record { logged = rw phase tt; modelled = old; unmarked = fresh.unmarked };
    },
    record { world = λ n. refl; emptied = fresh.empty; old = old_same d.meta d.meta refl },
  )

  abbrev Leaving : Disk C → Type 0
  Leaving e = IsSafe d.live [] e × Noted new_meta d evacuating e × (e.extracted ≡ d.extracted)

  evacuate-Leaving : (name : String) (e : Disk C) → Leaving e → Leaving (evacuate name e)
  evacuate-Leaving name e (safe, noted, same) =
      let (others, extracted) = evacuate_rest name e in
      (
        evacuate-IsSafe d.live name e safe,
        rest-Noted new_meta d evacuating e (evacuate name e) others noted,
        extracted ∙ same,
      )

  evacuation-Ends :
      IsFresh d
      → (let j = the_journal new_meta d evacuating in
          let (out, n, e) = each_name fate evacuate (keys d.live) 2 (write_journal j d) in
          Ends new_meta d (
            if not out
            then after_rollback (roll_back fate [] j n e)
            else if not (fate.goes n)
            then (kept, e)
            else install_world fate j new_meta (suc n) e))
  evacuation-Ends fresh =
      let j = the_journal new_meta d evacuating in
      let r = each_name fate evacuate (keys d.live) 2 (write_journal j d) in
      let (safe, noted, same) =
        each_name-keeps Leaving (λ name. Unit {0}) evacuate (λ name x u. evacuate-Leaving name x)
          fate (keys d.live) 2 (write_journal j d) (members-All _ _ (λ name listed. tt))
          (fresh-IsSafe fresh, (refl, refl, fresh.unmarked), refl) in
      let v = evacuating-Recoverable new_meta d r.2 safe noted in
      elim (Bool-cases r.0) [
        | inr stopped ↦ rw stopped (
            after_rollback-Ends new_meta d _ (
              roll_back-IsRecoverable d.live d.meta j fate [] r.1 r.2 ((λ n. refl), refl) noted.1 v
                (undo_none fate new_meta d evacuating r.2 safe)))
        | inl went ↦ rw went (elim (Bool-cases (fate.goes r.1)) [
          | inr fails ↦ rw fails (inl v)
          | inl synced ↦ rw synced (
              install_world-Ends fate new_meta d (suc r.1) r.2 same
                (evacuated d.live fate 2 (write_journal j d) (λ n. refl) safe went) noted)
        ])
      ]

  -- Whichever changes fail, and wherever the panel crashes, a restore that reports success has made
  -- the archive's entries the world; one that gave up has the old world in its place; and one that
  -- keeps its staging directory has left the old world recoverable, or has committed.
  pub swap-Ends : IsFresh d → Ends new_meta d (swap fate new_meta d)
  unfolding swap
  swap-Ends fresh = elim (Bool-cases (fate.goes 0)) [
    | inr fails ↦ rw fails (elim (Bool-cases (fate.lands 0)) [
      | inl lands ↦ rw lands (logged-Recoverable _ refl refl fresh)
      | inr lost ↦ rw lost (fresh-Recoverable fresh)
    ])
    | inl first ↦ rw first (elim (Bool-cases (fate.goes 1)) [
      | inr fails ↦ rw fails (elim (Bool-cases (fate.lands 1)) [
        | inl lands ↦ rw lands (logged-Recoverable _ refl refl fresh)
        | inr lost ↦ rw lost (logged-Recoverable _ refl refl fresh)
      ])
      | inl second ↦ rw second (evacuation-Ends fresh)
    ])
  ]
