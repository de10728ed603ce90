-- ===== src/Restore/Recovery.antt =====
-- What a recovery does to an interrupted restore, in internal/arcade/manager.go, and any number of them.
use teploy_arcade.Prelude.{
  nat_key, ℕ, suc, String, ◌≡◌, refl, sym, ◌∙◌, subst, inl, inr, Bool, true, false, ◌&&◌, Option,
  none, some, List, [], ◌∷◌, arith, ◌==◌, Bool-cases, length, contains, Assoc, lookup, keys,
  keys_cases, string_key,
}
use teploy_arcade.Text.{bytes_key}
use teploy_arcade.Restore.Disk.{Meta, Journal, Disk, Fate, give_back, remove_live, each_name}
use teploy_arcade.Restore.Over.{
  OldModel, old_same, IsBack, undo_install-journal, all_in_place, returned, saved_model,
  recovered_meta-Modelled, settle-IsRecoverable,
}
use teploy_arcade.Restore.Recover.{recovered_meta, is_none, undo_install, settle, recover}
use teploy_arcade.Restore.Safe.{IsSafe}
use teploy_arcade.Restore.Undo.{allowed, Modelled}
use teploy_arcade.Restore.World.{Phase-cases, SameWorld, Books, Recoverable, undone}

module _ {C : Type 0} (orig : Assoc String C) (model : Meta) where
  saved-Books :
      (o : Option Journal) (fate : Fate) (d e : Disk C)
      → d.journal ≡ o
      → Books orig model d
      → Books orig model e
      → (e.journal ≡ (undo_install fate o d).2.journal)
      → OldModel model (recovered_meta o e.meta)
        × Modelled orig model e.journal (recovered_meta o e.meta)
  unfolding undo_install
  saved-Books none fate d e here before after same = (
    saved_model orig model none e.meta
        (subst (λ q. Modelled orig model q e.meta) (same ∙ here) after.modelled),
    recovered_meta-Modelled orig model none e after.modelled
        (λ j there. absurd (let no : none ≡ some j = there in ground arith)),
  )
  saved-Books (some j) fate d e here before after same = (
    saved_model orig model (some j) e.meta
        (subst (λ q. Modelled orig model q d.meta) here before.modelled),
    recovered_meta-Modelled orig model (some j) e after.modelled (λ k there.
        (let (j', kept) = undo_install-journal orig model fate j d here in (j', same ∙ kept))),
  )

  none_listed :
      (names : List String) (n : String) → (length names == 0) ≡ true → contains names n ≡ false
  unfolding contains
  none_listed [] n none_there = refl
  none_listed (name ∷ names) n none_there = absurd (ground arith)

  untouched :
      (o : Option Journal) (d : Disk C)
      → d.journal ≡ o
      → (is_none o && length (keys d.held) == 0) ≡ true
      → Recoverable orig model d
      → IsBack orig model d
  unfolding lookup
  untouched (some j) d here nothing v = absurd (let no : false ≡ true = nothing in ground arith)
  untouched none d here nothing v =
      let emptied : SameWorld d.held [] = (λ n. elim (keys_cases n d.held) [
        | inr (unlisted, away) ↦ away
        | inl (listed, found) ↦ absurd (
            let no : true ≡ false = sym listed ∙ none_listed (keys d.held) n nothing in
            ground arith)
      ]) in
      let same : d.meta ≡ model = subst (λ q. Modelled orig model q d.meta) here v.books.modelled in
      record {
        world =
            all_in_place orig model d (subst (λ q. IsSafe orig (allowed q) d) here v.safe) emptied;
        emptied = emptied;
        old = old_same model d.meta same;
      }

  -- A recovery keeps the world recoverable, whether Docker and the journal can be read or not and
  -- whichever of its changes fail. One that is over has put the world and the model back.
  pub recover-IsRecoverable :
      (ready : Bool) (fate : Fate) (d : Disk C)
      → Recoverable orig model d
      → Recoverable orig model (recover ready fate d).1
        × ((recover ready fate d).0 ≡ true → IsBack orig model (recover ready fate d).1)
  unfolding recover
  recover-IsRecoverable ready fate d v = elim (Bool-cases ready) [
    | inr waits ↦ rw waits (v, λ over. absurd (let no : false ≡ true = over in ground arith))
    | inl starts ↦
        simp (starts, v.books.unmarked)
          (elim (Bool-cases (undo_install fate d.journal d).0) [
            | inr stopped ↦ rw stopped (
              (undone orig model fate d.journal d refl v).0,
              λ over. absurd (let no : false ≡ true = over in ground arith),
            )
            | inl went ↦
                rw went (elim (Bool-cases (is_none d.journal && length (keys d.held) == 0)) [
                  | inl nothing ↦ rw nothing (v, λ over. untouched d.journal d refl nothing v)
                  | inr work ↦
                      let (safe, books, same, emptied) = returned orig model fate d v went in
                      let (saved, kept) = saved-Books d.journal fate d _ refl v.books books same in
                      rw work (
                        settle-IsRecoverable orig model fate _ _ d.journal _ (safe, books, emptied)
                          saved kept)
                ])
          ])
  ]

-- A recovery that nothing disturbs is over.
module _ {C : Type 0} (fate : Fate) (smooth : (n : ℕ) → fate.goes n ≡ true) where
  each_name_smooth :
      (change : String → Disk C → Disk C) (names : List String) (k : ℕ) (d : Disk C)
      → (each_name fate change names k d).0 ≡ true
  unfolding each_name
  each_name_smooth change [] k d = refl
  each_name_smooth change (name ∷ names) k d =
      rw (smooth k) (each_name_smooth change names (suc k) (change name d))

  undo_install_smooth : (o : Option Journal) (d : Disk C) → (undo_install fate o d).0 ≡ true
  unfolding undo_install
  undo_install_smooth none d = refl
  undo_install_smooth (some j) d = elim (Phase-cases j.phase) [
    | inl p ↦ rw p refl
    | inr (inl p) ↦ rw (p, smooth 0) (each_name_smooth remove_live _ 1 _)
    | inr (inr p) ↦ rw p (each_name_smooth remove_live _ 1 d)
  ]

  pub recover_smooth : (d : Disk C) → (recover true fate d).0 ≡ true
  unfolding recover settle
  recover_smooth d = elim (Bool-cases d.committed) [
    | inl marked ↦ simp (marked, smooth 0) refl
    | inr unmarked ↦
        simp
          (
            unmarked,
            undo_install_smooth d.journal d,
            each_name_smooth give_back (keys d.held),
            smooth,
          )
          (elim (Bool-cases (is_none d.journal && length (keys d.held) == 0)) [
            | inl nothing ↦ rw nothing refl
            | inr work ↦ rw work refl
          ])
  ]
