-- ===== src/Restore/Ends.antt =====
-- `RestoreBackup` of internal/arcade/backup.go: what each ending of a restore leaves on the disk.
use teploy_arcade.Prelude.{
  string_key, ℕ, suc, ◌+◌, ◌≡◌, refl, ◌∙◌, ◌⊎◌, inl, inr, Bool, true, false, none, some, [],
  Bool-cases, keys,
}
use teploy_arcade.Restore.Disk.{
  Meta, Phase, Journal, Disk, Fate, set_meta, commit, evacuating, installing,
}
use teploy_arcade.Restore.Swap.{Ending, after_rollback, finish_restore, restored, discarded, kept}
use teploy_arcade.Restore.Safe.{IsSafe, IsOut}
use teploy_arcade.Restore.World.{SameWorld, Recoverable}
use teploy_arcade.Restore.Over.{IsBack}
use teploy_arcade.Restore.Rollback.{SameRest}

-- Nothing has moved.
pub record IsFresh {C : Type 0} (d : Disk C) : Type 0 where
  pub unlogged : d.journal ≡ none
  pub empty : SameWorld d.held []
  pub unmarked : d.committed ≡ false

-- A restore of `d` that adopts `new_meta`.
module _ {C : Type 0} (new_meta : Meta) (d : Disk C) where
  -- The archive's entries are the world, and the marker stands. Until it stood, the old world could
  -- be recovered.
  pub record IsCommitted (e : Disk C) : Type 0 where
    pub marked : e.committed ≡ true
    pub world : SameWorld e.live d.extracted
    pub adopted : e.meta ≡ new_meta
    pub before : Recoverable d.live d.meta (record e { committed = false })

  -- What an ending promises of the disk.
  abbrev pub Ends : Ending × Disk C → Type 0
  Ends (restored, e) = IsCommitted e
  Ends (discarded, e) = Recoverable d.live d.meta e × IsBack d.live d.meta e
  Ends (kept, e) = Recoverable d.live d.meta e ⊎ IsCommitted e

  pub after_rollback-Ends :
      (r : Bool × Disk C)
      → Recoverable d.live d.meta r.1 × (r.0 ≡ true → IsBack d.live d.meta r.1)
      → Ends (after_rollback r)
  after_rollback-Ends (true, e) (v, back) = (v, back refl)
  after_rollback-Ends (false, e) (v, back) = inl v

  abbrev pub the_journal : Phase → Journal
  the_journal phase = record {
    phase = phase;
    original = keys d.live;
    new = keys d.extracted;
    old = d.meta;
  }

  -- The books while the worlds move.
  abbrev pub Noted : Phase → Disk C → Type 0
  Noted phase e = (e.journal ≡ some (the_journal phase)) × (e.meta ≡ d.meta) × (e.committed ≡ false)

  pub rest-Noted : (phase : Phase) (e f : Disk C) → SameRest e f → Noted phase e → Noted phase f
  rest-Noted phase e f (journal, model, mark) (here, m, unmarked) =
      (journal ∙ here, model ∙ m, mark ∙ unmarked)

  pub evacuating-Recoverable :
      (e : Disk C) → IsSafe d.live [] e → Noted evacuating e → Recoverable d.live d.meta e
  evacuating-Recoverable e safe (here, m, unmarked) = record {
    safe = rw here safe;
    books = record { logged = rw here tt; modelled = rw here refl; unmarked = unmarked };
  }

  pub installing-Recoverable :
      (e : Disk C)
      → IsSafe d.live (keys d.extracted) e
      → (e.journal ≡ some (the_journal installing))
      → e.committed ≡ false
      → Recoverable d.live d.meta e
  installing-Recoverable e safe here unmarked = record {
    safe = rw here safe;
    books = record { logged = rw here (λ n. refl); modelled = rw here refl; unmarked = unmarked };
  }

  pub finish_restore-Ends :
      (fate : Fate) (k : ℕ) (e : Disk C)
      → IsOut d.live (keys d.extracted) e
      → Noted installing e
      → SameWorld e.live d.extracted
      → Ends (finish_restore fate new_meta k e)
  unfolding finish_restore
  finish_restore-Ends fate k e out (here, m, unmarked) world =
      let v = installing-Recoverable e (λ n. inr (out n)) here unmarked in
      let adopted = installing-Recoverable (set_meta new_meta e) (λ n. inr (out n)) here unmarked in
      let marked : IsCommitted (commit (set_meta new_meta e)) = record {
        marked = refl;
        world = world;
        adopted = refl;
        before =
            installing-Recoverable (record e { meta = new_meta; committed = false })
              (λ n. inr (out n)) here refl;
      } in
      elim (Bool-cases (fate.goes k)) [
        | inr fails ↦ rw fails (inl v)
        | inl first ↦ rw first (elim (Bool-cases (fate.goes (suc k))) [
          | inr fails ↦ rw fails (inl adopted)
          | inl second ↦ rw second (elim (Bool-cases (fate.goes (2 + k))) [
            | inl third ↦ rw third marked
            | inr fails ↦ rw fails (elim (Bool-cases (fate.lands (2 + k))) [
              | inl lands ↦ rw lands (inr marked)
              | inr lost ↦ rw lost (inl adopted)
            ])
          ])
        ])
      ]
