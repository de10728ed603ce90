-- ===== src/Restore/Boots.antt =====
-- The starts of the panel after a restore, however it ended: `recoverInterruptedRestores` of
-- internal/arcade/manager.go after `RestoreBackup` of internal/arcade/backup.go. Each removal of the
-- staging directory may stop anywhere.
use teploy_arcade.Prelude.{
  ℕ, ◌≡◌, ap, ◌∙◌, ◌⊎◌, inl, inr, Bool, true, false, ◌&&◌, List, [], ◌∷◌, ◌++◌, arith, Bool-cases,
  lookup, string_key,
}
use teploy_arcade.Text.{bytes_key}
use teploy_arcade.Restore.Disk.{Meta, Disk, Fate}
use teploy_arcade.Restore.World.{SameWorld, Recoverable}
use teploy_arcade.Restore.Over.{IsBack}
use teploy_arcade.Restore.Recover.{recover}
use teploy_arcade.Restore.Swap.{Ending, swap, restored, discarded, kept}
use teploy_arcade.Restore.Ends.{IsFresh, Ends}
use teploy_arcade.Restore.Recovery.{recover-IsRecoverable, recover_smooth}
use teploy_arcade.Restore.Crash.{swap-Ends}
use teploy_arcade.Restore.Removal.{
  Removal, remove_parts, after_removal, restore, Boot, boot, recover_boots, is_clear, marker_last,
  markers_last,
}
use teploy_arcade.Restore.Parts.{
  remove_parts-IsPart, remove_parts_clear, recover_clear, recover_committed,
}
use teploy_arcade.Restore.Remains.{Leaves, removed-OldState, boots_old}

module _ {C : Type 0} (new_meta : Meta) (d : Disk C) where
  -- The archive's entries are the world, with their properties.
  pub record IsNew (e : Disk C) : Type 0 where
    pub world : SameWorld e.live d.extracted
    pub adopted : e.meta ≡ new_meta

  -- The world after the restore and a recovery that is over.
  abbrev pub WorldAfter : Ending → Disk C → Type 0
  WorldAfter restored e = IsNew e
  WorldAfter discarded e = IsBack d.live d.meta e
  WorldAfter kept e = IsBack d.live d.meta e ⊎ IsNew e

  -- The new world stands, and a recovery leaves it alone.
  abbrev NewState : Disk C → Type 0
  NewState e = IsNew e × ((e.committed ≡ true) ⊎ (is_clear e ≡ true))

  left_alone : (ready : Bool) (fate : Fate) (e : Disk C) → NewState e → (recover ready fate e).1 ≡ e
  left_alone ready fate e (v, inl marked) = recover_committed ready fate e marked
  left_alone ready fate e (v, inr clear) = recover_clear ready fate e clear

  marked_or_clear :
      (e f : Disk C)
      → e.committed ≡ true
      → marker_last e f ≡ true
      → (f.committed ≡ true) ⊎ (is_clear f ≡ true)
  unfolding marker_last
  marked_or_clear e f marked ordered = elim (Bool-cases f.committed) [
    | inl stays ↦ inl stays
    | inr gone ↦ inr (rw (marked, gone) at ordered)
  ]

  removed-NewState :
      (parts : List (Removal C)) (e : Disk C)
      → NewState e
      → marker_last e (remove_parts parts e) ≡ true
      → NewState (remove_parts parts e)
  removed-NewState parts e (v, rest) ordered =
      let p = remove_parts-IsPart parts e in
      (
        record { world = λ n. (ap (lookup n) p.live ∙ v.world n); adopted = p.meta ∙ v.adopted },
        elim rest [
          | inl marked ↦ marked_or_clear e (remove_parts parts e) marked ordered
          | inr clear ↦ inr (remove_parts_clear parts e clear)
        ],
      )

  boot_new :
      (b : Boot C) (e : Disk C)
      → NewState e
      → marker_last e (boot b e).1 ≡ true
      → NewState (boot b e).1
  unfolding boot
  boot_new b e v ordered =
      let same = left_alone b.ready b.fate e v in
      elim (Bool-cases (recover b.ready b.fate e).0) [
        | inr fails ↦ rw (fails, same) v
        | inl over ↦ rw (over, same) (removed-NewState b.gone e v (rw (over, same) at ordered))
      ]

  both : (a b : Bool) → (a && b) ≡ true → (a ≡ true) × (b ≡ true)
  both a b h = ground arith

  boots-IsNew :
      (boots : List (Boot C)) (r : Bool × Disk C)
      → NewState r.1
      → markers_last boots r.1 ≡ true
      → IsNew (recover_boots boots r).1
  unfolding recover_boots markers_last
  boots-IsNew [] r v ordered = v.0
  boots-IsNew (b ∷ boots) r v ordered =
      let (first, rest) = both (marker_last r.1 (boot b r.1).1) _ ordered in
      boots-IsNew boots (boot b r.1) (boot_new b r.1 v first) rest

  never_over : {e : Disk C} → Recoverable d.live d.meta e → Leaves d.live d.meta (false, e)
  never_over v = (inl v, λ over. absurd (let no : false ≡ true = over in ground arith))

  boots-WorldAfter :
      (gone : List (Removal C)) (boots : List (Boot C)) (r : Ending × Disk C)
      → Ends new_meta d r
      → marker_last r.1 (after_removal gone r).1 ≡ true
      → markers_last boots (after_removal gone r).1 ≡ true
      → (recover_boots boots (false, (after_removal gone r).1)).0 ≡ true
      → WorldAfter
          (after_removal gone r).0
          (recover_boots boots (false, (after_removal gone r).1)).1
  unfolding after_removal
  boots-WorldAfter gone boots (restored, e) c first rest over =
      let v : NewState e = (record { world = c.world; adopted = c.adopted }, inl c.marked) in
      boots-IsNew boots (false, remove_parts gone e) (removed-NewState gone e v first) rest
  boots-WorldAfter gone boots (discarded, e) (v, back) first rest over =
      let (state, there) = removed-OldState d.live d.meta gone e v back in
      (boots_old d.live d.meta boots (false, remove_parts gone e) (state, λ _. there)).1 over
  boots-WorldAfter gone boots (kept, e) (inl v) first rest over =
      inl ((boots_old d.live d.meta boots (false, e) (never_over v)).1 over)
  boots-WorldAfter gone boots (kept, e) (inr c) first rest over =
      let v : NewState e = (record { world = c.world; adopted = c.adopted }, inl c.marked) in
      inr (boots-IsNew boots (false, e) v rest)

  -- A restore of a fresh disk crashes or fails anywhere, in the removal of its staging directory as well,
  -- and so do starts of the panel after it, each on what the one before left. If no removal that took
  -- the marker of a restore that is through has left the journal or a held entry behind, then at a start
  -- whose recovery is over the world is the old one or the archive's, whole, with its properties: the
  -- archive's after a restore that reported success, and the old one after one that gave up.
  pub recover_boots-swap :
      (fate : Fate) (gone : List (Removal C)) (boots : List (Boot C))
      → IsFresh d
      → marker_last (swap fate new_meta d).1 (restore fate new_meta gone d).1 ≡ true
      → markers_last boots (restore fate new_meta gone d).1 ≡ true
      → (recover_boots boots (false, (restore fate new_meta gone d).1)).0 ≡ true
      → WorldAfter
          (restore fate new_meta gone d).0
          (recover_boots boots (false, (restore fate new_meta gone d).1)).1
  unfolding restore
  recover_boots-swap fate gone boots fresh =
      boots-WorldAfter gone boots (swap fate new_meta d) (swap-Ends fate new_meta d fresh)

  unmarked-IsBack :
      (fate : Fate) (r : Ending × Disk C)
      → ((n : ℕ) → fate.goes n ≡ true)
      → Ends new_meta d r
      → r.0 ≡ restored
      → (let f = recover true fate (record r.1 { committed = false }) in
          (f.0 ≡ true) × IsBack d.live d.meta f.1)
  unmarked-IsBack fate (restored, e) smooth c done =
      let e' = record e { committed = false } in
      let over = recover_smooth fate smooth e' in
      (over, (recover-IsRecoverable d.live d.meta true fate e' c.before).1 over)
  unmarked-IsBack fate (discarded, e) smooth c done = absurd (ground arith)
  unmarked-IsBack fate (kept, e) smooth c done = absurd (ground arith)

  -- The removal of the staging directory after a restore that reported success is not atomic. If it took
  -- the marker first and the panel crashed, the next recovery, with no failure, is over and has put the
  -- old world back in the place of the restored one.
  pub recover-unmarked :
      (fate later : Fate)
      → IsFresh d
      → (swap fate new_meta d).0 ≡ restored
      → ((n : ℕ) → later.goes n ≡ true)
      → (let f = recover true later (record (swap fate new_meta d).1 { committed = false }) in
          (f.0 ≡ true) × IsBack d.live d.meta f.1)
  recover-unmarked fate later fresh done smooth =
      unmarked-IsBack later (swap fate new_meta d) smooth (swap-Ends fate new_meta d fresh) done

-- Starts that are disturbed, then one that is not.
module _ {C : Type 0} where
  -- However many starts of the panel failed or crashed before, a start at which no change fails ends
  -- the recovery, if Docker confirms at it that the container is stopped, and the server's directory, `old`
  -- and the journal can be read and pass the checks.
  pub recover_boots-ends :
      (boots : List (Boot C)) (last : Fate) (gone : List (Removal C)) (r : Bool × Disk C)
      → ((n : ℕ) → last.goes n ≡ true)
      → (recover_boots (boots ++ record { ready = true; fate = last; gone = gone } ∷ []) r).0 ≡ true
  unfolding recover_boots boot
  recover_boots-ends [] last gone r smooth = recover_smooth last smooth r.1
  recover_boots-ends (b ∷ boots) last gone r smooth =
      recover_boots-ends boots last gone (boot b r.1) smooth
